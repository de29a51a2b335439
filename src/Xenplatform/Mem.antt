-- ===== src/Xenplatform/Mem.antt =====
-- crates/xen/xenplatform/src/mem.rs: the pages of the guest that are mapped, by their frame numbers.
pub mod Lookup
pub mod Disjoint
use Prim.Native.String.{String}
use krata.Prelude.{
  ℕ, zero, suc, ◌+◌, ◌-◌, ◌*◌, ◌/◌, ◌%◌, ◌^◌, ◌≡◌, Bool, true, false, not, ◌&&◌, ◌||◌, Option, none,
  some, List, [], ◌∷◌, ◌++◌, length, get_elem?, ltb, leb, ◌==◌, if◌then◌else◌, Outcome, ok, err,
  panic,
}
use krata.Prelude.Effect.{Action, ◌>>=◌, ◌>>◌, pure, raise, crash}
use krata.Xenplatform.Sys.{Error, HyperApi, xen_page_shift, add64, sub64, mul64, shl64, shr64}

pub record PhysicalPage : Type 0 where
  pub pfn : ℕ
  pub ptr : ℕ
  pub count : ℕ

pub record PhysicalPages : Type 0 where
  pub page_shift : ℕ
  pub domid : ℕ
  pub p2m : List ℕ
  pub pages : List PhysicalPage

unfoldable pub new : ℕ → ℕ → PhysicalPages
new domid page_shift = record { page_shift = page_shift; domid = domid; p2m = []; pages = [] }

unfoldable pub load_p2m : PhysicalPages → List ℕ → PhysicalPages
load_p2m p p2m = record p { p2m = p2m }

unfoldable pub p2m_size : PhysicalPages → ℕ
p2m_size p = length p.p2m % 2 ^ 64

-- What the loop of `pfn_to_ptr` does at one page.
pub data Visit : Type 0 where
  skip out_of_range : Visit
  inside : ℕ → Visit

unfoldable pub visit : ℕ → ℕ → ℕ → PhysicalPage → Visit
visit shift pfn count page =
    if leb (add64 page.pfn page.count) pfn
    then skip
    else if ltb 0 count
    then (if leb (add64 pfn count) page.pfn
        then skip
        else if ltb pfn page.pfn || ltb (add64 page.pfn page.count) (add64 pfn count)
        then out_of_range
        else inside (add64 page.ptr (shl64 (sub64 pfn page.pfn) shift)))
    else if ltb pfn page.pfn
    then skip
    else inside (add64 page.ptr (shl64 (sub64 pfn page.pfn) shift))

-- The first page that is not passed over.
unfoldable pub find_page : ℕ → ℕ → ℕ → List PhysicalPage → Visit
find_page shift pfn count [] = skip
find_page shift pfn count (page ∷ pages) =
    let rest = find_page shift pfn count pages in
    elim (visit shift pfn count page) [
      | skip ↦ rest
      | out_of_range ↦ out_of_range
      | inside ptr ↦ inside ptr
    ]

-- The machine frames of `count` pages from `pfn`; `none` is the panic of an index out of range.
unfoldable pub frames_from : List ℕ → ℕ → ℕ → Option (List ℕ)
frames_from p2m pfn zero = some []
frames_from p2m pfn (suc n) =
    let rest = frames_from p2m (pfn + 1) n in
    elim (get_elem? p2m pfn) [
      | none ↦ none
      | some mfn ↦ elim rest [ none ↦ none | some mfns ↦ some (mfn ∷ mfns) ]
    ]

unfoldable pub count_from : ℕ → ℕ → List ℕ
count_from pfn zero = []
count_from pfn (suc n) = pfn % 2 ^ 64 ∷ count_from (pfn + 1) n

unfoldable pub entries : List ℕ → ℕ → ℕ → Option (List ℕ)
unfolding frames_from count_from
entries [] pfn count = some (count_from pfn count)
entries (mfn ∷ p2m) pfn count = frames_from (mfn ∷ p2m) pfn count

unfoldable pub remove_at : List PhysicalPage → ℕ → List PhysicalPage
remove_at [] i = []
remove_at (p ∷ ps) zero = ps
remove_at (p ∷ ps) (suc i) = p ∷ remove_at ps i

unfoldable pub find_pfn : List PhysicalPage → ℕ → ℕ → Option (ℕ × PhysicalPage)
find_pfn [] pfn i = none
find_pfn (p ∷ ps) pfn i = if p.pfn == pfn then some (i, p) else find_pfn ps pfn (suc i)

module _ (H : HyperApi) where
  open H use {W, mmap, mmap_batch, munmap, fill_zero}

  abbrev pub Memory : Type 0
  Memory = PhysicalPages × W

  -- The mapping of frames, shared by `pfn_alloc` and `map_foreign_pages`; `num_per_entry` is 1.
  abbrev pub mapped : ℕ → ℕ → ℕ → PhysicalPages → Outcome Error ℕ × W → Outcome Error ℕ × Memory
  mapped pfn count addr p (ok zero, w) = (
    ok addr,
    (record p { pages = p.pages ++ record { pfn = pfn; ptr = addr; count = count } ∷ [] }, w),
  )
  mapped pfn count addr p (ok (suc result), w) = (err Error.mmap_failed, (p, w))
  mapped pfn count addr p (err e, w) = (err e, (p, w))
  mapped pfn count addr p (panic, w) = (panic, (p, w))

  abbrev pub batched : ℕ → ℕ → List ℕ → PhysicalPages → Option ℕ × W → Outcome Error ℕ × Memory
  batched pfn count mfns p (none, w) = (err Error.mmap_failed, (p, w))
  batched pfn count mfns p (some addr, w) =
      mapped pfn count addr p (mmap_batch p.domid count addr mfns w)

  unfoldable pub map_frames : ℕ → ℕ → List ℕ → Action Memory Error ℕ
  map_frames pfn count mfns (p, w) = batched pfn count mfns p (mmap (shl64 count xen_page_shift) w)

  unfoldable pub pfn_alloc : ℕ → ℕ → Action Memory Error ℕ
  unfolding entries map_frames
  pfn_alloc pfn count (p, w) = elim (entries p.p2m pfn count) [
    | none ↦ (panic, (p, w))
    | some mfns ↦ map_frames pfn count mfns (p, w)
  ]

  unfoldable pub pfn_to_ptr : ℕ → ℕ → Action Memory Error ℕ
  unfolding find_page pfn_alloc
  pfn_to_ptr pfn count (p, w) = elim (find_page p.page_shift pfn count p.pages) [
    | inside ptr ↦ (ok ptr, (p, w))
    | out_of_range ↦ (err (Error.memory_setup_failed "pfn is out of range"), (p, w))
    | skip ↦
        if count == 0
        then (err (Error.memory_setup_failed "page count is zero"), (p, w))
        else pfn_alloc pfn count (p, w)
  ]

  unfoldable pub map_foreign_pages : ℕ → ℕ → Action Memory Error ℕ
  unfolding map_frames count_from
  map_foreign_pages mfn size s =
      map_frames mfn (shr64 size xen_page_shift) (count_from mfn (shr64 size xen_page_shift)) s

  abbrev pub zero_fill : ℕ → ℕ → Outcome Error ℕ × Memory → Outcome Error (Unit {0}) × Memory
  zero_fill count shift (ok ptr, (p, w)) = (ok tt, (p, fill_zero ptr (mul64 count (2 ^ shift)) w))
  zero_fill count shift (err e, s) = (err e, s)
  zero_fill count shift (panic, s) = (panic, s)

  unfoldable pub clear_pages : ℕ → ℕ → Action Memory Error (Unit {0})
  unfolding pfn_to_ptr
  clear_pages pfn count (p, w) = zero_fill count p.page_shift (pfn_to_ptr pfn count (p, w))

  -- The pages in turn; the first failure ends the loop.
  abbrev pub unmapped_one : Outcome Error (Unit {0}) × W → ℕ × W → Outcome Error (Unit {0}) × W
  unmapped_one rest (zero, w) = rest
  unmapped_one rest (suc e, w) = (err (Error.unmap_failed (suc e)), w)

  unfoldable pub unmap_each : ℕ → List PhysicalPage → Action W Error (Unit {0})
  unmap_each shift [] w = (ok tt, w)
  unmap_each shift (page ∷ pages) w =
      let result = munmap page.ptr (shl64 page.count shift) w in
      let rest = unmap_each shift pages result.1 in unmapped_one rest result

  abbrev pub cleared :
      PhysicalPages → Outcome Error (Unit {0}) × W → Outcome Error (Unit {0}) × Memory
  cleared p (ok u, w) = (ok tt, (record p { pages = [] }, w))
  cleared p (err e, w) = (err e, (p, w))
  cleared p (panic, w) = (panic, (p, w))

  unfoldable pub unmap_all : Action Memory Error (Unit {0})
  unfolding unmap_each
  unmap_all (p, w) = cleared p (unmap_each p.page_shift p.pages w)

  abbrev pub unmapped_at : PhysicalPages → ℕ → ℕ × W → Outcome Error (Unit {0}) × Memory
  unmapped_at p i (zero, w) = (ok tt, (record p { pages = remove_at p.pages i }, w))
  unmapped_at p i (suc e, w) = (err (Error.unmap_failed (suc e)), (p, w))

  unfoldable pub unmap : ℕ → Action Memory Error (Unit {0})
  unfolding find_pfn remove_at
  unmap pfn (p, w) = elim (find_pfn p.pages pfn 0) [
    | none ↦ (err (Error.memory_setup_failed "cannot unmap missing page"), (p, w))
    | some (i, page) ↦ unmapped_at p i (munmap page.ptr (shl64 page.count p.page_shift) w)
  ]
