-- ===== src/Xenplatform/Mem/Disjoint.antt =====
-- The mapped pages stay apart from one another under `pfn_to_ptr`, and addresses stay the same.
use krata.Prelude.{
  ℕ, zero, suc, ◌+◌, ◌*◌, ◌<◌, ◌≡◌, ◌≢◌, refl, sym, ap, subst, ◌∙◌, false, Option, none, some, List,
  [], ◌∷◌, ◌++◌, All, arith, ◌==◌, inl, inr, Outcome, ok, err, panic, Option-cases,
}
use krata.Xenplatform.Sys.{Error, HyperApi}
use krata.Xenplatform.Mem.{
  PhysicalPage, PhysicalPages, inside, find_page, entries, mapped, batched, pfn_alloc, pfn_to_ptr,
}
use krata.Xenplatform.Mem.Lookup.{
  IsMapped, Apart, Holds, Any, find_page_inside, find_page_skip, find_page-append, Visit-cases,
}

-- No two pages share a frame.
abbrev pub IsDisjoint : List PhysicalPage → Type 0
IsDisjoint [] = Unit {0}
IsDisjoint (p ∷ ps) = All (Apart p.pfn p.count) ps × IsDisjoint ps

All-snoc :
    (P : PhysicalPage → Type 0) (xs : List PhysicalPage) (y : PhysicalPage)
    → All P xs
    → P y
    → All P (xs ++ y ∷ [])
All-snoc P [] y h k = (k, tt)
All-snoc P (x ∷ xs) y h k = (h.0, All-snoc P xs y h.1 k)

IsDisjoint-snoc :
    (ps : List PhysicalPage) (q : PhysicalPage)
    → IsDisjoint ps
    → All (Apart q.pfn q.count) ps
    → IsDisjoint (ps ++ q ∷ [])
IsDisjoint-snoc [] q h k = (tt, tt)
IsDisjoint-snoc (p ∷ ps) q h (k, ks) = (All-snoc _ ps q h.0 (flip k), IsDisjoint-snoc ps q h.1 ks)
  where
    flip : Apart q.pfn q.count p → Apart p.pfn p.count q
    flip (inl e) = inr e
    flip (inr e) = inl e

module _ (H : HyperApi) where
  open H use {W, mmap, mmap_batch}

  -- How the mapping of frames ends: as before it, or with one page more and its address.
  pub data Mapping (pfn count : ℕ) (p : PhysicalPages)
      : Outcome Error ℕ × (PhysicalPages × W) → Type 0 where
    unchanged :
        {s : Outcome Error ℕ × (PhysicalPages × W)}
        → s.1.0 ≡ p
        → ((a : ℕ) → s.0 ≢ ok a)
        → Mapping pfn count p s
    added :
        {s : Outcome Error ℕ × (PhysicalPages × W)} (a : ℕ)
        → s.0 ≡ ok a
        → s.1.0 ≡ record p { pages = p.pages ++ record { pfn = pfn; ptr = a; count = count } ∷ [] }
        → Mapping pfn count p s

  mapped-Mapping :
      (pfn count addr : ℕ) (p : PhysicalPages) (s : Outcome Error ℕ × W)
      → Mapping pfn count p (mapped H pfn count addr p s)
  mapped-Mapping pfn count addr p (ok zero, w) = added addr refl refl
  mapped-Mapping pfn count addr p (ok (suc n), w) = unchanged refl (λ a e. cc e)
  mapped-Mapping pfn count addr p (err x, w) = unchanged refl (λ a e. cc e)
  mapped-Mapping pfn count addr p (panic, w) = unchanged refl (λ a e. cc e)

  batched-Mapping :
      (pfn count : ℕ) (mfns : List ℕ) (p : PhysicalPages) (s : Option ℕ × W)
      → Mapping pfn count p (batched H pfn count mfns p s)
  batched-Mapping pfn count mfns p (none, w) = unchanged refl (λ a e. cc e)
  batched-Mapping pfn count mfns p (some addr, w) = mapped-Mapping pfn count addr p _

  pfn_alloc-Mapping :
      (pfn count : ℕ) (p : PhysicalPages) (w : W)
      → Mapping pfn count p (pfn_alloc H pfn count (p, w))
  unfolding pfn_alloc
  pfn_alloc-Mapping pfn count p w = elim (Option-cases (entries p.p2m pfn count)) [
    | inl e ↦ rw (e, pfn_alloc) (unchanged refl (λ a h. cc h))
    | inr (mfns, e) ↦ rw (e, pfn_alloc) (batched-Mapping pfn count mfns p _)
  ]

  -- How `pfn_to_ptr` of at least one frame ends, at pages of 4096 bytes.
  pub data Lookup (pfn count : ℕ) (p : PhysicalPages) (w : W)
      : Outcome Error ℕ × (PhysicalPages × W) → Type 0 where
    held :
        {s : Outcome Error ℕ × (PhysicalPages × W)} (a : ℕ)
        → Any (Holds pfn count a) p.pages
        → find_page 12 pfn count p.pages ≡ inside a
        → s ≡ (ok a, (p, w))
        → Lookup pfn count p w s
    refused :
        {s : Outcome Error ℕ × (PhysicalPages × W)}
        → s.1.0 ≡ p
        → ((a : ℕ) → s.0 ≢ ok a)
        → Lookup pfn count p w s
    mapped_new :
        {s : Outcome Error ℕ × (PhysicalPages × W)} (a : ℕ)
        → All (Apart pfn count) p.pages
        → s.0 ≡ ok a
        → s.1.0 ≡ record p { pages = p.pages ++ record { pfn = pfn; ptr = a; count = count } ∷ [] }
        → Lookup pfn count p w s

  Mapping-Lookup :
      (pfn count : ℕ) (p : PhysicalPages) (w : W) (s : Outcome Error ℕ × (PhysicalPages × W))
      → All (Apart pfn count) p.pages
      → Mapping pfn count p s
      → Lookup pfn count p w s
  Mapping-Lookup pfn count p w s a (unchanged e n) = refused e n
  Mapping-Lookup pfn count p w s a (added x o e) = mapped_new x a o e

  pfn_to_ptr-Lookup :
      (pfn count : ℕ) (p : PhysicalPages) (w : W)
      → p.page_shift ≡ 12
      → All IsMapped p.pages
      → 0 < count
      → pfn + count < 18446744073709551616
      → Lookup pfn count p w (pfn_to_ptr H pfn count (p, w))
  unfolding pfn_to_ptr
  pfn_to_ptr-Lookup pfn count p w sh v pos h = elim (Visit-cases (find_page 12 pfn count p.pages)) [
    | inl e ↦
        rw (ap (λ k. find_page k pfn count p.pages) sh ∙ e, pfn_to_ptr, nonzero)
          (Mapping-Lookup pfn count p w _ (find_page_skip pfn count p.pages v pos h e)
            (pfn_alloc-Mapping pfn count p w))
    | inr (inl e) ↦
        rw (ap (λ k. find_page k pfn count p.pages) sh ∙ e, pfn_to_ptr) (refused refl (λ a x. cc x))
    | inr (inr (a, e)) ↦
        rw (ap (λ k. find_page k pfn count p.pages) sh ∙ e, pfn_to_ptr)
          (held a (find_page_inside pfn count a p.pages v h e) e refl)
  ]
    where
      nonzero : (count == 0) ≡ false
      nonzero = ground arith

  pfn_to_ptr_both :
      (pfn count : ℕ) (p : PhysicalPages) (w : W)
      → p.page_shift ≡ 12
      → All IsMapped p.pages
      → 0 < count
      → pfn + count < 18446744073709551616
      → IsDisjoint p.pages
      → let (r, (p', w')) = pfn_to_ptr H pfn count (p, w) in
        IsDisjoint p'.pages × ((a : ℕ) → r ≡ ok a → Any (Holds pfn count a) p'.pages)
  pfn_to_ptr_both pfn count p w sh v pos h d =
      disjoint _ (pfn_to_ptr-Lookup pfn count p w sh v pos h)
    where
      at_end :
          (a : ℕ) (ps : List PhysicalPage)
          → Any (Holds pfn count a) (ps ++ record { pfn = pfn; ptr = a; count = count } ∷ [])
      at_end a [] = inl (record {
        from = omega arith;
        first = omega arith;
        to = omega arith;
        address = omega arith;
      })
      at_end a (x ∷ ps) = inr (at_end a ps)

      disjoint :
          (s : Outcome Error ℕ × (PhysicalPages × W))
          → Lookup pfn count p w s
          → IsDisjoint s.1.0.pages × ((a : ℕ) → s.0 ≡ ok a → Any (Holds pfn count a) s.1.0.pages)
      disjoint s (held a inn f e) = rw e (
        d,
        λ b same. let eq : a ≡ b = cc same in subst (λ t. Any (Holds pfn count t) p.pages) eq inn,
      )
      disjoint s (refused e n) = rw e (d, λ b same. absurd (n b same))
      disjoint s (mapped_new a apart o e) =
          rw (e, o)
            (
              IsDisjoint-snoc p.pages _ d apart,
              λ b same.
                  let eq : a ≡ b = cc same in
                  subst
                    (λ t.
                      Any (Holds pfn count t)
                        (p.pages ++ record { pfn = pfn; ptr = a; count = count } ∷ []))
                    eq (at_end a p.pages),
            )

  -- The mapped pages stay apart from one another, however `pfn_to_ptr` ends, if at least one frame
  -- is asked for, pages are of 4096 bytes, and neither they nor the frames asked for leave u64.
  pub pfn_to_ptr-IsDisjoint :
      (pfn count : ℕ) (p : PhysicalPages) (w : W)
      → p.page_shift ≡ 12
      → All IsMapped p.pages
      → 0 < count
      → pfn + count < 18446744073709551616
      → IsDisjoint p.pages
      → IsDisjoint (pfn_to_ptr H pfn count (p, w)).1.0.pages
  pfn_to_ptr-IsDisjoint pfn count p w sh v pos h d = (pfn_to_ptr_both pfn count p w sh v pos h d).0

  -- The address that `pfn_to_ptr` gives is where the first frame lies in a mapped page that holds
  -- all the frames asked for, under the same conditions.
  pub pfn_to_ptr-Holds :
      (pfn count a : ℕ) (p p' : PhysicalPages) (w w' : W)
      → p.page_shift ≡ 12
      → All IsMapped p.pages
      → 0 < count
      → pfn + count < 18446744073709551616
      → IsDisjoint p.pages
      → pfn_to_ptr H pfn count (p, w) ≡ (ok a, (p', w'))
      → Any (Holds pfn count a) p'.pages
  pfn_to_ptr-Holds pfn count a p p' w w' sh v pos h d e =
      subst (λ t. Any (Holds pfn count a) t.pages) (ap (λ t. t.1.0) e)
        ((pfn_to_ptr_both pfn count p w sh v pos h d).1 a (ap (λ t. t.0) e))

  -- Asked for the same frames again, `pfn_to_ptr` gives the same address and changes nothing more,
  -- if at least one frame is asked for, pages are of 4096 bytes, and neither the frames nor the
  -- addresses leave u64.
  pub pfn_to_ptr_again :
      (pfn count a : ℕ) (p p' : PhysicalPages) (w w' : W)
      → p.page_shift ≡ 12
      → All IsMapped p.pages
      → 0 < count
      → pfn + count < 18446744073709551616
      → a + count * 4096 < 18446744073709551616
      → pfn_to_ptr H pfn count (p, w) ≡ (ok a, (p', w'))
      → pfn_to_ptr H pfn count (p', w') ≡ (ok a, (p', w'))
  pfn_to_ptr_again pfn count a p p' w w' sh v pos h fits e =
      again _ (pfn_to_ptr-Lookup pfn count p w sh v pos h) e
    where
      found :
          (q : PhysicalPages) (u : W)
          → find_page q.page_shift pfn count q.pages ≡ inside a
          → pfn_to_ptr H pfn count (q, u) ≡ (ok a, (q, u))
      found q u f = unfold pfn_to_ptr in rw (f, pfn_to_ptr) refl

      to_a : (r : Outcome Error ℕ) (b : ℕ) → r ≡ ok b → r ≡ ok a → b ≡ a
      to_a r b x y = cc

      holds :
          (q : PhysicalPages)
          → p' ≡ q
          → find_page q.page_shift pfn count q.pages ≡ inside a
          → find_page p'.page_shift pfn count p'.pages ≡ inside a
      holds q x f = subst (λ t. find_page t.page_shift pfn count t.pages ≡ inside a) (sym x) f

      again :
          (s : Outcome Error ℕ × (PhysicalPages × W))
          → Lookup pfn count p w s
          → s ≡ (ok a, (p', w'))
          → pfn_to_ptr H pfn count (p', w') ≡ (ok a, (p', w'))
      again s (held b inn f same) x =
          let t : (ok b, (p, w)) ≡ (ok a, (p', w')) = sym same ∙ x in
          found p' w' (
            holds p (sym (ap (λ k. k.1.0) t)) (
              ap (λ k. find_page k pfn count p.pages) sh
              ∙ f
              ∙ ap inside (to_a _ b refl (ap (λ k. k.0) t))))
      again s (refused same n) x = absurd (n a (ap (λ t. t.0) x))
      again s (mapped_new b apart o same) x =
          let ba : b ≡ a = to_a _ b o (ap (λ k. k.0) x) in
          found p' w' (
            holds
              (record p { pages = p.pages ++ record { pfn = pfn; ptr = b; count = count } ∷ [] })
              (sym (ap (λ k. k.1.0) x) ∙ same)
              (ap
                  (λ k.
                    find_page k pfn count
                      (p.pages ++ record { pfn = pfn; ptr = b; count = count } ∷ []))
                  sh
                ∙ find_page-append pfn count b p.pages v
                    (record { nonempty = pos; frames = h; space = rw ba fits }) apart
                ∙ ap inside ba))
