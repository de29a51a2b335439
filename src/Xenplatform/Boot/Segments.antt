-- ===== src/Xenplatform/Boot/Segments.antt =====
-- What `alloc_page`, `alloc_padding_pages` and `alloc_segment` hand out.
use krata.Prelude.{
  ℕ, ◌+◌, ◌-◌, ◌*◌, ◌/◌, ◌%◌, ◌^◌, ◌≤◌, ◌<◌, ◌≡◌, ◌≢◌, ◌⊎◌, refl, ap, ◌∙◌, Bool, true, false, ◌||◌,
  arith, ltb, ◌==◌, inl, inr, Outcome, ok, err, on_ok,
}
use krata.Xenplatform.Sys.{Error, add64, sub64, mul64}
use krata.Xenplatform.Boot.{
  DomainSegment, BootDomain, chk_alloc_pages, alloc_padding_pages, alloc_page, page_segment,
}

-- Frames are left or all handed out, pages are of 4096 bytes, and the addresses of the frames that are
-- left do not leave u64.
pub record IsBooting (d : BootDomain) : Type 0 where
  pub page : d.page_size ≡ 4096
  pub frames : d.pfn_alloc_end ≤ d.total_pages
  pub space : d.virt_alloc_end + (d.total_pages - d.pfn_alloc_end) * 4096 < 18446744073709551616
  pub aligned : d.virt_alloc_end % 4096 ≡ 0
  pub total : d.total_pages < 4503599627370496

-- `d'` is `d` with `pages` more frames handed out, if they were left.
pub record Took (pages : ℕ) (d d' : BootDomain) : Type 0 where
  pub pfn : d'.pfn_alloc_end ≡ d.pfn_alloc_end + pages
  pub virt : d'.virt_alloc_end ≡ d.virt_alloc_end + pages * 4096
  pub total : d'.total_pages ≡ d.total_pages
  pub page : d'.page_size ≡ d.page_size

pub data Taken (pages : ℕ) (d : BootDomain) : Outcome Error (Unit {0}) × BootDomain → Type 0 where
  none_left : {e : Error} → d.total_pages < d.pfn_alloc_end + pages → Taken pages d (err e, d)
  taken :
      {d' : BootDomain}
      → d.pfn_alloc_end + pages ≤ d.total_pages
      → Took pages d d'
      → Taken pages d (ok tt, d')

Took-IsBooting :
    (pages : ℕ) (d d' : BootDomain)
    → IsBooting d
    → d.pfn_alloc_end + pages ≤ d.total_pages
    → Took pages d d'
    → IsBooting d'
Took-IsBooting pages d d' i fits t = record {
  page = t.page ∙ i.page;
  frames = omega arith;
  space = omega arith;
  aligned = omega arith;
  total = omega arith;
}

-- `chk_alloc_pages` takes the frames exactly if so many are left, and otherwise changes nothing.
pub chk_alloc_pages-Taken :
    (pages : ℕ) (d : BootDomain) → IsBooting d → Taken pages d (chk_alloc_pages pages d)
unfolding chk_alloc_pages
chk_alloc_pages-Taken pages d i = by_test _ refl
  where
    product : pages * d.page_size ≡ pages * 4096
    product = ap (λ k. pages * k) i.page

    refused : Bool
    refused =
        ltb d.total_pages pages
        || (ltb d.total_pages d.pfn_alloc_end || ltb (d.total_pages - d.pfn_alloc_end) pages)

    virt :
        refused ≡ false
        → add64 d.virt_alloc_end (mul64 pages d.page_size) ≡ d.virt_alloc_end + pages * 4096
    virt e = ap (λ k. add64 d.virt_alloc_end (k % 2 ^ 64)) product ∙ ground arith

    by_test : (b : Bool) → refused ≡ b → Taken pages d (chk_alloc_pages pages d)
    by_test true e = rw (e, chk_alloc_pages) (none_left (ground arith))
    by_test false e =
        rw (e, chk_alloc_pages)
          (taken (ground arith)
            (record { pfn = ground arith; virt = virt e; total = refl; page = refl }))

-- The domain after an operation: nothing is handed out twice or taken back.
pub record Progress (d d' : BootDomain) : Type 0 where
  pub booting : IsBooting d'
  pub pfn : d.pfn_alloc_end ≤ d'.pfn_alloc_end
  pub virt : d.virt_alloc_end ≤ d'.virt_alloc_end
  pub total : d'.total_pages ≡ d.total_pages

-- The segment is the last of what was handed out, of as many pages as `size` bytes need.
pub record IsSegment (size : ℕ) (d d' : BootDomain) (g : DomainSegment) : Type 0 where
  pub from : d.pfn_alloc_end ≤ g.pfn
  pub to : g.pfn + g.pages ≡ d'.pfn_alloc_end
  pub vstart : d.virt_alloc_end ≤ g.vstart
  pub vend : g.vend ≡ g.vstart + g.pages * 4096
  pub last : g.vend ≡ d'.virt_alloc_end
  pub enough : size ≤ g.pages * 4096
  pub tight : g.pages * 4096 < size + 4096

pub Progress-refl : (d : BootDomain) → IsBooting d → Progress d d
Progress-refl d i = record { booting = i; pfn = omega arith; virt = omega arith; total = refl }

pub Took-Progress :
    (pages : ℕ) (d d' : BootDomain)
    → IsBooting d
    → d.pfn_alloc_end + pages ≤ d.total_pages
    → Took pages d d'
    → Progress d d'
Took-Progress pages d d' i fits t = record {
  booting = Took-IsBooting pages d d' i fits t;
  pfn = omega arith;
  virt = omega arith;
  total = t.total;
}

-- In a domain that `IsBooting`, `alloc_padding_pages` ends at the boundary, or fails and changes
-- nothing; it takes back no frame and no address.
pub alloc_padding_pages_lem :
    (boundary : ℕ) (d : BootDomain)
    → IsBooting d
    → let (r, d') = alloc_padding_pages boundary d in
      Progress d d' × ((r ≡ ok tt × (d'.virt_alloc_end ≡ boundary)) ⊎ ((r ≢ ok tt) × (d' ≡ d)))
unfolding alloc_padding_pages
alloc_padding_pages_lem boundary d i = by_tests _ _ refl refl
  where
    same : boundary % d.page_size ≡ boundary % 4096
    same = ap (λ k. boundary % k) i.page

    pages : (boundary - d.virt_alloc_end) / d.page_size ≡ (boundary - d.virt_alloc_end) / 4096
    pages = ap (λ k. (boundary - d.virt_alloc_end) / k) i.page

    Goal : Outcome Error (Unit {0}) × BootDomain → Type 0
    Goal s =
        Progress d s.1
        × ((s.0 ≡ ok tt × (s.1.virt_alloc_end ≡ boundary)) ⊎ ((s.0 ≢ ok tt) × (s.1 ≡ d)))

    took :
        (boundary % d.page_size == 0) ≡ true
        → ltb boundary d.virt_alloc_end ≡ false
        → (s : Outcome Error (Unit {0}) × BootDomain)
        → Taken ((boundary - d.virt_alloc_end) / d.page_size) d s
        → Goal s
    took e f s (none_left n) = (Progress-refl d i, inr (λ x. cc x, refl))
    took e f s (taken fits t) =
        (Took-Progress _ d _ i fits t, inl (refl, ground (arith, pages, same)))

    by_tests :
        (a b : Bool)
        → (boundary % d.page_size == 0) ≡ a
        → ltb boundary d.virt_alloc_end ≡ b
        → Goal (alloc_padding_pages boundary d)
    by_tests false b e f = rw (e, alloc_padding_pages) (Progress-refl d i, inr (λ x. cc x, refl))
    by_tests true true e f =
        rw (e, f, alloc_padding_pages) (Progress-refl d i, inr (λ x. cc x, refl))
    by_tests true false e f =
        rw (e, f, alloc_padding_pages) (took e f _ (chk_alloc_pages-Taken _ d i))

-- The segment is the one frame, and its page of addresses, that was handed out last.
pub record IsPage (d d' : BootDomain) (g : DomainSegment) : Type 0 where
  pub pages : g.pages ≡ 1
  pub pfn : g.pfn ≡ d.pfn_alloc_end
  pub after : d'.pfn_alloc_end ≡ g.pfn + 1
  pub vstart : g.vstart ≡ d.virt_alloc_end
  pub space : d'.virt_alloc_end ≡ g.vstart + 4096
  pub vend : g.vend + 1 ≡ d'.virt_alloc_end

-- `alloc_page` hands out one frame and its page of addresses.
pub alloc_page_lem :
    (d : BootDomain)
    → IsBooting d
    → let (r, d') = alloc_page d in Progress d d' × ((g : DomainSegment) → r ≡ ok g → IsPage d d' g)
unfolding alloc_page
alloc_page_lem d i = took _ (chk_alloc_pages-Taken 1 d i)
  where
    size : add64 d.virt_alloc_end d.page_size ≡ add64 d.virt_alloc_end 4096
    size = ap (λ k. add64 d.virt_alloc_end k) i.page

    took :
        (s : Outcome Error (Unit {0}) × BootDomain)
        → Taken 1 d s
        → let (r, d') = page_segment d s in
          Progress d d' × ((g : DomainSegment) → r ≡ ok g → IsPage d d' g)
    took s (none_left n) = (Progress-refl d i, λ g x. absurd (cc x))
    took s (taken {d' = d'} fits t) = (
      Took-Progress 1 d d' i fits t,
      on_ok _ _ refl (record {
        pages = refl;
        pfn = refl;
        after = t.pfn;
        vstart = refl;
        space = t.virt;
        vend = last;
      }),
    )
      where
        last : sub64 (add64 d.virt_alloc_end d.page_size) 1 + 1 ≡ d'.virt_alloc_end
        last = ap (λ k. sub64 k 1 + 1) size ∙ omega arith
