-- ===== src/Xenplatform/Boot/Sequence.antt =====
-- The allocations of a whole boot, one after another.
use krata.Prelude.{
  ℕ, ◌+◌, ◌*◌, ◌≤◌, ◌≡◌, refl, List, [], ◌∷◌, ◌++◌, All, All-map, arith, Outcome, ok, err, panic,
}
use krata.Xenplatform.Sys.{Error, HyperApi}
use krata.Xenplatform.Boot.{
  DomainSegment, BootDomain, alloc_padding_pages, alloc_page, alloc_segment,
}
use krata.Xenplatform.Boot.Segments.{
  IsBooting, Progress, IsSegment, IsPage, Progress-refl, alloc_padding_pages_lem, alloc_page_lem,
}
use krata.Xenplatform.Boot.AllocSegment.{Progress-trans, alloc_segment_lem}

-- A request to the allocator of a domain.
pub data Request : Type 0 where
  page : Request
  segment : (start size : ℕ) → Request
  padding : ℕ → Request

-- The segment that came of a call, if one did.
abbrev pub granted {ℓ} : {S : Type ℓ} → Outcome Error DomainSegment × S → List DomainSegment × S
granted (ok g, s) = (g ∷ [], s)
granted (err e, s) = ([], s)
granted (panic, s) = ([], s)

-- `g` lies before `h`, in frames and in addresses.
pub record Before (g h : DomainSegment) : Type 0 where
  pub frames : g.pfn + g.pages ≤ h.pfn
  pub addresses : g.vstart + g.pages * 4096 ≤ h.vstart

-- The segment lies between two states of the domain.
pub record Between (d d' : BootDomain) (g : DomainSegment) : Type 0 where
  pub from : d.pfn_alloc_end ≤ g.pfn
  pub to : g.pfn + g.pages ≤ d'.pfn_alloc_end
  pub vstart : d.virt_alloc_end ≤ g.vstart
  pub vend : g.vstart + g.pages * 4096 ≤ d'.virt_alloc_end

abbrev pub Ordered : List DomainSegment → Type 0
Ordered [] = Unit {0}
Ordered (g ∷ gs) = All (Before g) gs × Ordered gs

IsPage-Between : (d d' : BootDomain) (g : DomainSegment) → IsPage d d' g → Between d d' g
IsPage-Between d d' g k =
    let n = k.pages in
    record { from = omega arith; to = omega arith; vstart = omega arith; vend = omega arith }

IsSegment-Between :
    (size : ℕ) (d d' : BootDomain) (g : DomainSegment) → IsSegment size d d' g → Between d d' g
IsSegment-Between size d d' g k = record {
  from = k.from;
  to = omega arith;
  vstart = k.vstart;
  vend = omega arith;
}

module _ (H : HyperApi) where
  open H use {W}

  unfoldable pub serve : Request → BootDomain × W → List DomainSegment × (BootDomain × W)
  unfolding alloc_page alloc_segment alloc_padding_pages
  serve page (d, w) = let r = alloc_page d in granted (r.0, (r.1, w))
  serve (segment start size) s = granted (alloc_segment H start size s)
  serve (padding boundary) (d, w) = ([], ((alloc_padding_pages boundary d).1, w))

  -- Any requests in turn, and the segments that came of them.
  unfoldable pub serve_all : List Request → BootDomain × W → List DomainSegment × (BootDomain × W)
  unfolding serve
  serve_all [] s = ([], s)
  serve_all (r ∷ rs) s =
      let first = serve r s in let rest = serve_all rs first.1 in (first.0 ++ rest.0, rest.1)

  abbrev Served : BootDomain → List DomainSegment × (BootDomain × W) → Type 0
  Served d s = Progress d s.1.0 × (All (Between d s.1.0) s.0 × Ordered s.0)

  Served-granted :
      (d : BootDomain) (r : Outcome Error DomainSegment × (BootDomain × W))
      → Progress d r.1.0
      → ((g : DomainSegment) → r.0 ≡ ok g → Between d r.1.0 g)
      → Served d (granted r)
  Served-granted d (ok g, s) p h = (p, ((h g refl, tt), (tt, tt)))
  Served-granted d (err e, s) p h = (p, (tt, tt))
  Served-granted d (panic, s) p h = (p, (tt, tt))

  serve-Served : (r : Request) (d : BootDomain) (w : W) → IsBooting d → Served d (serve r (d, w))
  unfolding serve
  serve-Served page d w i =
      let k = alloc_page_lem d i in Served-granted d _ k.0 (λ g x. IsPage-Between d _ g (k.1 g x))
  serve-Served (segment start size) d w i =
      let k = alloc_segment_lem H start size d w i in
      Served-granted d _ k.0 (λ g x. IsSegment-Between size d _ g (k.1 g x).0)
  serve-Served (padding boundary) d w i = ((alloc_padding_pages_lem boundary d i).0, (tt, tt))

  All-after :
      (a b c : BootDomain) (gs hs : List DomainSegment)
      → All (Between a b) gs
      → Ordered gs
      → All (Between b c) hs
      → Ordered hs
      → Progress a b
      → Progress b c
      → All (Between a c) (gs ++ hs) × Ordered (gs ++ hs)
  All-after a b c [] hs x o y q k l = (
    All-map hs
        (λ g h. record { from = omega arith; to = h.to; vstart = omega arith; vend = h.vend }) y,
    q,
  )
  All-after a b c (g ∷ gs) hs (x, xs) (o, os) y q k l =
      let (rest, order) = All-after a b c gs hs xs os y q k l in
      (
        (record { from = x.from; to = omega arith; vstart = x.vstart; vend = omega arith }, rest),
        (
          All-both g gs hs o
              (All-map hs (λ h z. record { frames = omega arith; addresses = omega arith }) y),
          order,
        ),
      )
    where
      All-both :
          (g : DomainSegment) (gs hs : List DomainSegment)
          → All (Before g) gs
          → All (Before g) hs
          → All (Before g) (gs ++ hs)
      All-both g [] hs h k = k
      All-both g (x ∷ gs) hs h k = (h.0, All-both g gs hs h.1 k)

  -- However a domain that `IsBooting` (pages of 4096 bytes, addresses that do not leave u64) is
  -- asked for pages, segments and padding, and whichever requests fail, every segment lies before
  -- all later ones in frames and in addresses, and within what the domain has handed out, which is
  -- at most its total.
  pub serve_all-Ordered :
      (rs : List Request) (d : BootDomain) (w : W)
      → IsBooting d
      → let (gs, (d', w')) = serve_all rs (d, w) in
        Progress d d' × (All (Between d d') gs × Ordered gs)
  unfolding serve_all
  serve_all-Ordered [] d w i = (Progress-refl d i, (tt, tt))
  serve_all-Ordered (r ∷ rs) d w i =
      let (p, (x, o)) = serve-Served r d w i in
      let (q, (y, k)) = serve_all-Ordered rs (serve r (d, w)).1.0 (serve r (d, w)).1.1 p.booting in
      (Progress-trans d _ _ p q, All-after d (serve r (d, w)).1.0 _ _ _ x o y k p q)
