-- ===== src/Xenplatform/X86pv/Memory.antt =====
-- crates/xen/xenplatform/src/x86pv.rs: `initialize_memory`, which asks the hypervisor for the guest's frames,
-- first in pages of 2 MB and then in pages of 4 KB, and records them. The list `p2m` has the machine frame
-- of each of the guest's.
pub mod Begun
pub mod Handed
pub mod Complete
use krata.Prelude.{
  ℕ, zero, suc, ◌+◌, ◌-◌, ◌*◌, ◌/◌, ◌%◌, ◌^◌, Bool, true, false, Option, none, some, List, [], ◌∷◌,
  ◌++◌, length, get_elem?, take, drop, replicate, ltb, leb, ◌==◌, if◌then◌else◌, Outcome, ok, err,
  panic,
}
use krata.Prelude.Effect.{Action}
use krata.Xenplatform.Sys.{Error, add64, sub64, shl64, shr64}

abbrev pub superpage_batch_size : ℕ
superpage_batch_size = 512

abbrev pub superpage_2mb_shift : ℕ
superpage_2mb_shift = 9

abbrev pub superpage_2mb_nr_pfns : ℕ
superpage_2mb_nr_pfns = 512

-- The most pages of 4 KB that one call asks for.
abbrev pub max_allocsz : ℕ
max_allocsz = 1048576

abbrev pub min : ℕ → ℕ → ℕ
min a b = if leb a b then a else b

-- `n` frames from `mfn` on.
unfoldable pub frames_of : ℕ → ℕ → List ℕ
frames_of zero mfn = []
frames_of (suc n) mfn = mfn % 2 ^ 64 ∷ frames_of n (mfn + 1)

-- The frames of the superpages in turn.
unfoldable pub super_frames : List ℕ → List ℕ
unfolding frames_of
super_frames [] = []
super_frames (mfn ∷ extents) = frames_of superpage_2mb_nr_pfns mfn ++ super_frames extents

-- The elements from an index on are overwritten; `none` is the panic past the end.
unfoldable pub overwrite : List ℕ → ℕ → List ℕ → Option (List ℕ)
overwrite p2m i frames =
    if leb (i + length frames) (length p2m)
    then some (take i p2m ++ (frames ++ drop (i + length frames) p2m))
    else none

-- The starts of `n` superpages from `pfn` on.
unfoldable pub super_starts : ℕ → ℕ → List ℕ → Option (List ℕ)
super_starts zero pfn p2m = some []
super_starts (suc n) pfn p2m =
    let rest = super_starts n (pfn + superpage_2mb_nr_pfns) p2m in
    elim (get_elem? p2m pfn) [
      | none ↦ none
      | some start ↦ elim rest [ none ↦ none | some starts ↦ some (start ∷ starts) ]
    ]

module _ {W : Type 0}
    (populate_physmap : (domid count order flags : ℕ) → List ℕ → Action W Error (List ℕ))
    (domid : ℕ) where
  -- The recorded frames, and the index of the first that is not populated yet.
  abbrev pub Filled : Type 0
  Filled = List ℕ × ℕ

  abbrev pub recorded : ℕ → List ℕ → Option (List ℕ) → W → Outcome Error Filled × W
  recorded pfn extents none w = (panic, w)
  recorded pfn extents (some p2m) w = (ok (p2m, pfn + length (super_frames extents)), w)

  abbrev pub populated : List ℕ → ℕ → Outcome Error (List ℕ) × W → Outcome Error Filled × W
  populated p2m pfn (ok extents, w) =
      recorded pfn extents (overwrite p2m pfn (super_frames extents)) w
  populated p2m pfn (err e, w) = (err e, w)
  populated p2m pfn (panic, w) = (panic, w)

  -- One batch of `count` superpages.
  abbrev pub super_batch : ℕ → List ℕ → ℕ → Option (List ℕ) → W → Outcome Error Filled × W
  super_batch count p2m pfn none w = (panic, w)
  super_batch count p2m pfn (some starts) w =
      populated p2m pfn (populate_physmap domid count superpage_2mb_shift 0 starts w)

  abbrev pub continue_with :
      (Filled → Action W Error Filled) → Outcome Error Filled × W → Outcome Error Filled × W
  continue_with f (ok s, w) = f s w
  continue_with f (err e, w) = (err e, w)
  continue_with f (panic, w) = (panic, w)

  -- The loop over the batches. A round takes a superpage at least, so their number is fuel enough.
  unfoldable pub populate_super : ℕ → ℕ → Filled → Action W Error Filled
  unfolding super_starts super_frames overwrite
  populate_super zero super_pages s w = (ok s, w)
  populate_super (suc fuel) super_pages (p2m, pfn) w =
      let count = min super_pages superpage_batch_size in
      let rest = populate_super fuel (super_pages - count) in
      elim (super_pages == 0) [
        | true ↦ (ok (p2m, pfn), w)
        | false ↦ continue_with rest (super_batch count p2m pfn (super_starts count pfn p2m) w)
      ]

  abbrev pub small_recorded : Option (List ℕ) → ℕ → W → Outcome Error Filled × W
  small_recorded none j w = (panic, w)
  small_recorded (some p2m) j w = (ok (p2m, j), w)

  abbrev pub small_populated :
      ℕ → List ℕ → ℕ → Outcome Error (List ℕ) × W → Outcome Error Filled × W
  small_populated allocsz p2m j (ok result, w) =
      if length result == allocsz
      then small_recorded (overwrite p2m j result) (j + allocsz) w
      else (err (Error.populate_physmap_failed allocsz (length result) allocsz), w)
  small_populated allocsz p2m j (err e, w) = (err e, w)
  small_populated allocsz p2m j (panic, w) = (panic, w)

  -- The loop over the pages that are left; a slice of the list that ends within it.
  unfoldable pub populate_small : ℕ → ℕ → Filled → Action W Error Filled
  unfolding overwrite
  populate_small zero pages s w = (ok s, w)
  populate_small (suc fuel) pages (p2m, j) w =
      let allocsz = min max_allocsz (pages - j) in
      let rest = populate_small fuel pages in
      elim (leb pages j) [
        | true ↦ (ok (p2m, j), w)
        | false ↦ continue_with rest (
            small_populated allocsz p2m j
              (populate_physmap domid allocsz 0 0 (take allocsz (drop j p2m)) w))
      ]

  abbrev pub only_p2m : Outcome Error Filled × W → Outcome Error (List ℕ) × W
  only_p2m (ok (p2m, j), w) = (ok p2m, w)
  only_p2m (err e, w) = (err e, w)
  only_p2m (panic, w) = (panic, w)

  -- The guest's single range of memory begins at 0, where its frames are their own placeholders.
  unfoldable pub fill_p2m : ℕ → Action W Error (List ℕ)
  unfolding populate_super populate_small frames_of
  fill_p2m total_pages w =
      let pages = shr64 (shl64 total_pages 12) 12 in
      if pages == total_pages
      then only_p2m (
          continue_with (populate_small pages pages) (
            populate_super (pages / 2 ^ superpage_2mb_shift) (pages / 2 ^ superpage_2mb_shift)
              (frames_of pages 0, 0) w))
      else (err (Error.memory_setup_failed "total pages mismatch"), w)
