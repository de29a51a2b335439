-- ===== src/Xenplatform/X86pv/Platform/LaidOut.antt =====
-- A domain and its platform while the segments are allocated: those that have a place are apart, and one
-- that was just handed out is above them.
use krata.Prelude.{ℕ, ◌+◌, ◌≤◌, ◌<◌, ◌≡◌, refl, sym, subst, All, arith, Outcome, ok, err, panic}
use krata.Prelude.Triples.{Returns, Triple, by_run}
use krata.Xenplatform.Sys.{Error, HyperApi}
use krata.Xenplatform.Boot.{DomainSegment, BootDomain, alloc_page, alloc_segment}
use krata.Xenplatform.Boot.Segments.{IsBooting, Progress, IsPage, IsSegment, alloc_page_lem}
use krata.Xenplatform.Boot.AllocSegment.{alloc_segment_lem}
use krata.Xenplatform.X86pv.Platform.{with_platform, Built, in_domain, on_domain_only}
use krata.Xenplatform.X86pv.Platform.Apart.{segments, Below, AllApart, All-Below-up}
use krata.Xenplatform.X86pv.Platform.Beside.{alloc_segment_stays}

module _ (H : HyperApi) where
  -- The domain can be built on, and its platform's segments are apart, of frames that were handed out.
  pub record IsLaidOut (s : Built H) : Type 0 where
    pub booting : IsBooting s.0
    pub below : All (Below s.0.pfn_alloc_end) (segments s.1.0)
    pub apart : AllApart (segments s.1.0)

  -- A segment was handed out that has no place yet.
  pub record Pending (g : DomainSegment) (s : Built H) : Type 0 where
    pub booting : IsBooting s.0
    pub below : All (Below g.pfn) (segments s.1.0)
    pub apart : AllApart (segments s.1.0)
    pub last : g.pfn + g.pages ≤ s.0.pfn_alloc_end

  pub Pending-IsLaidOut : (g : DomainSegment) (s : Built H) → Pending g s → IsLaidOut s
  Pending-IsLaidOut g s k = record {
    booting = k.booting;
    below = All-Below-up g.pfn _ (segments s.1.0) (let l = k.last in omega arith) k.below;
    apart = k.apart;
  }

  pub Progress-IsLaidOut :
      (s : Built H) (d : BootDomain) → IsLaidOut s → Progress s.0 d → IsLaidOut (d, s.1)
  Progress-IsLaidOut s d k p = record {
    booting = p.booting;
    below = All-Below-up s.0.pfn_alloc_end _ (segments s.1.0) p.pfn k.below;
    apart = k.apart;
  }

  -- A new domain with the same pages and addresses.
  pub Same-IsLaidOut :
      (s : Built H) (d : BootDomain)
      → IsLaidOut s
      → d.page_size ≡ s.0.page_size
      → d.pfn_alloc_end ≡ s.0.pfn_alloc_end
      → d.virt_alloc_end ≡ s.0.virt_alloc_end
      → d.total_pages ≡ s.0.total_pages
      → IsLaidOut (d, s.1)
  Same-IsLaidOut s d k a b c e =
      let i = k.booting in
      Progress-IsLaidOut s d k (record {
        booting = record {
          page = cc;
          frames = omega arith;
          space = omega arith;
          aligned = omega arith;
          total = omega arith;
        };
        pfn = omega arith;
        virt = omega arith;
        total = e;
      })

  abbrev pub Kept : {A : Type 0} → A → Built H → Type 0
  Kept a s = IsLaidOut s

  module _ (s : Built H) (k : IsLaidOut s) where
    page_handed :
        (r : Outcome Error DomainSegment × BootDomain)
        → Progress s.0 r.1 × ((g : DomainSegment) → r.0 ≡ ok g → IsPage s.0 r.1 g)
        → Returns Pending (on_domain_only H s.1 r)
    page_handed (ok g, d') (p, f) =
        let q = f g refl in
        record {
          booting = p.booting;
          below =
              All-Below-up s.0.pfn_alloc_end g.pfn (segments s.1.0) (let l = q.pfn in omega arith)
                k.below;
          apart = k.apart;
          last = let a = q.after in let b = q.pages in omega arith;
        }
    page_handed (err e, d') q = tt
    page_handed (panic, d') q = tt

    segment_handed :
        (size : ℕ) (r : Outcome Error DomainSegment × Built H)
        → Progress s.0 r.1.0
          × ((g : DomainSegment) → r.0 ≡ ok g → IsSegment size s.0 r.1.0 g × (0 < 0 → g.vstart ≡ 0))
        → r.1.1.0 ≡ s.1.0
        → Returns Pending r
    segment_handed size (ok g, (d', (p', w'))) (a, f) e =
        let q = (f g refl).0 in
        record {
          booting = a.booting;
          below =
              subst (λ t. All (Below g.pfn) (segments t)) (sym e)
                (All-Below-up s.0.pfn_alloc_end g.pfn (segments s.1.0) q.from k.below);
          apart = subst (λ t. AllApart (segments t)) (sym e) k.apart;
          last = let l = q.to in omega arith;
        }
    segment_handed size (err x, t) q e = tt
    segment_handed size (panic, t) q e = tt

  pub alloc_page-Pending : Triple IsLaidOut (in_domain H alloc_page) Pending
  alloc_page-Pending = by_run (λ s k. page_handed s k _ (alloc_page_lem s.0 k.booting))

  pub alloc_segment-Pending :
      (size : ℕ) → Triple IsLaidOut (alloc_segment (with_platform H) 0 size) Pending
  alloc_segment-Pending size = by_run (λ s k.
      segment_handed s k size _ (alloc_segment_lem (with_platform H) 0 size s.0 s.1 k.booting)
        (alloc_segment_stays H size s.0 s.1.0 s.1.1))
