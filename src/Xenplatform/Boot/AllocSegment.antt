-- ===== src/Xenplatform/Boot/AllocSegment.antt =====
-- `alloc_segment` in a domain that is being built.
use krata.Prelude.{
  ℕ, zero, suc, ◌+◌, ◌≤◌, ◌<◌, ◌≡◌, ◌≢◌, ◌⊎◌, refl, sym, ap, subst, ◌∙◌, Bool, true, false, arith,
  ltb, if◌then◌else◌, inl, inr, Outcome, ok, err, panic, on_ok,
}
use krata.Xenplatform.Sys.{Error, HyperApi}
use krata.Xenplatform.Mem.{PhysicalPages}
use krata.Xenplatform.Boot.{
  DomainSegment, BootDomain, chk_alloc_pages, alloc_padding_pages, pages_of, alloc_segment,
  segment_at, with_pages, padded,
}
use krata.Xenplatform.Boot.Segments.{
  IsBooting, Taken, Took, none_left, taken, chk_alloc_pages-Taken, Progress, IsSegment,
  Progress-refl, Took-Progress, alloc_padding_pages_lem,
}

pub Progress-trans : (a b c : BootDomain) → Progress a b → Progress b c → Progress a c
Progress-trans a b c p q = record {
  booting = q.booting;
  pfn = omega arith;
  virt = omega arith;
  total = q.total ∙ p.total;
}

moved :
    (b d : BootDomain) (phys : PhysicalPages) {n : ℕ}
    → IsBooting b
    → b.pfn_alloc_end + n ≤ b.total_pages
    → Took n b d
    → Progress b (record d { phys = phys })
moved b d phys i fits t =
    Took-Progress _ b _ i fits
      (record { pfn = t.pfn; virt = t.virt; total = t.total; page = t.page })

module _ (H : HyperApi) where
  open H use {W}

  -- The end of an allocation of `size` bytes: a segment where the domain stood, or no segment.
  abbrev pub Made : ℕ → BootDomain → Outcome Error DomainSegment × (BootDomain × W) → Type 0
  Made size d s =
      Progress d s.1.0
      × ((g : DomainSegment)
          → s.0 ≡ ok g
          → IsSegment size d s.1.0 g × (g.vstart ≡ d.virt_alloc_end))

  segment_at-Made :
      (size : ℕ) (b d : BootDomain) (s : Outcome Error ℕ × (PhysicalPages × W))
      → IsBooting b
      → b.pfn_alloc_end + pages_of size ≤ b.total_pages
      → Took (pages_of size) b d
      → Made size b (segment_at H size b d s)
  segment_at-Made size b d (ok ptr, (phys, w)) i fits t = (
    moved b d phys i fits t,
    on_ok _ _ refl (
      record {
        from = omega arith;
        to = sym t.pfn;
        vstart = omega arith;
        vend = t.virt;
        last = refl;
        enough = unfold pages_of in omega arith;
        tight = unfold pages_of in omega arith;
      },
      refl,
    ),
  )
  segment_at-Made size b d (err e, (phys, w)) i fits t =
      (moved b d phys i fits t, λ g x. absurd (cc x))
  segment_at-Made size b d (panic, (phys, w)) i fits t =
      (moved b d phys i fits t, λ g x. absurd (cc x))

  with_pages-Made :
      (size : ℕ) (b : BootDomain) (w : W) (s : Outcome Error (Unit {0}) × BootDomain)
      → IsBooting b
      → Taken (pages_of size) b s
      → Made size b (with_pages H size b w s)
  with_pages-Made size b w s i (none_left n) = (Progress-refl b i, λ g x. absurd (cc x))
  with_pages-Made size b w s i (taken {d' = d'} fits t) = segment_at-Made size b d' _ i fits t

  later :
      (size start : ℕ) (d b : BootDomain) (s : Outcome Error DomainSegment × (BootDomain × W))
      → Progress d b
      → (0 < start → b.virt_alloc_end ≡ start)
      → Made size b s
      → Progress d s.1.0
        × ((g : DomainSegment)
            → s.0 ≡ ok g
            → IsSegment size d s.1.0 g × (0 < start → g.vstart ≡ start))
  later size start d b s p q (m, f) = (
    Progress-trans d b s.1.0 p m,
    λ g x. (
      record {
        from = from g x;
        to = (f g x).0.to;
        vstart = vstart g x;
        vend = (f g x).0.vend;
        last = (f g x).0.last;
        enough = (f g x).0.enough;
        tight = (f g x).0.tight;
      },
      λ h. (f g x).1 ∙ q h,
    ),
  )
    where
      from : (g : DomainSegment) → s.0 ≡ ok g → d.pfn_alloc_end ≤ g.pfn
      from g x = let k = (f g x).0 in omega arith

      vstart : (g : DomainSegment) → s.0 ≡ ok g → d.virt_alloc_end ≤ g.vstart
      vstart g x = let k = (f g x).0 in omega arith

  pub alloc_segment_lem :
      (start size : ℕ) (d : BootDomain) (w : W)
      → IsBooting d
      → let (r, (d', w')) = alloc_segment H start size (d, w) in
        Progress d d'
        × ((g : DomainSegment) → r ≡ ok g → IsSegment size d d' g × (0 < start → g.vstart ≡ start))
  unfolding alloc_segment
  alloc_segment_lem start size d w i = by_test _ refl
    where
      Goal : Outcome Error (Unit {0}) × BootDomain → Type 0
      Goal s =
          let (r, (d', w')) = padded H size w s in
          Progress d d'
          × ((g : DomainSegment)
              → r ≡ ok g
              → IsSegment size d d' g × (0 < start → g.vstart ≡ start))

      from_padding :
          (s : Outcome Error (Unit {0}) × BootDomain)
          → Progress d s.1
          → (s.0 ≡ ok tt → 0 < start → s.1.virt_alloc_end ≡ start)
          → Goal s
      from_padding (ok u, b) p q =
          later size start d b (with_pages H size b w (chk_alloc_pages (pages_of size) b)) p
            (q refl)
            (with_pages-Made size b w _ p.booting
              (chk_alloc_pages-Taken (pages_of size) b p.booting))
      from_padding (err e, b) p q = (p, λ g x. absurd (cc x))
      from_padding (panic, b) p q = (p, λ g x. absurd (cc x))

      after_padding :
          (k : ((alloc_padding_pages start d).0 ≡ ok tt
              × ((alloc_padding_pages start d).1.virt_alloc_end ≡ start))
            ⊎ (((alloc_padding_pages start d).0 ≢ ok tt) × ((alloc_padding_pages start d).1 ≡ d)))
          → (alloc_padding_pages start d).0 ≡ ok tt
          → 0 < start
          → (alloc_padding_pages start d).1.virt_alloc_end ≡ start
      after_padding (inl (a, b)) e h = b
      after_padding (inr (n, c)) e h = absurd (n e)

      by_test :
          (b : Bool)
          → ltb 0 start ≡ b
          → Goal (if ltb 0 start then alloc_padding_pages start d else (ok tt, d))
      by_test true e =
          let k = alloc_padding_pages_lem start d i in
          rw e (from_padding (alloc_padding_pages start d) k.0 (after_padding k.1))
      by_test false e =
          rw e (from_padding (ok tt, d) (Progress-refl d i) (λ x h. absurd (ground arith)))

  -- A segment that `alloc_segment` gives, in a domain that `IsBooting`, is of the frames and
  -- addresses up to where the domain then stands, with as many pages as `size` bytes need, and
  -- begins at `start` unless that is 0.
  pub alloc_segment-IsSegment :
      (start size : ℕ) (d d' : BootDomain) (w w' : W) (g : DomainSegment)
      → IsBooting d
      → alloc_segment H start size (d, w) ≡ (ok g, (d', w'))
      → IsSegment size d d' g × ((start ≡ 0) ⊎ (g.vstart ≡ start))
  alloc_segment-IsSegment start size d d' w w' g i e =
      let k = (alloc_segment_lem start size d w i).1 g (ap (λ t. t.0) e) in
      (subst (λ t. IsSegment size d t g) (ap (λ t. t.1.0) e) k.0, at_start start k.1)
    where
      at_start : (n : ℕ) → (0 < n → g.vstart ≡ n) → (n ≡ 0) ⊎ (g.vstart ≡ n)
      at_start zero h = inl refl
      at_start (suc n) h = inr (h (omega arith))
