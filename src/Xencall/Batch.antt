-- ===== src/Xencall/Batch.antt =====
-- crates/xen/xencall/src/lib.rs: `mmap_batch`, which maps a domain's frames and tries those that are paged out again.
pub mod Retry
use krata.Prelude.{
  ℕ, zero, suc, ◌+◌, ◌*◌, ◌%◌, ◌^◌, Bool, true, false, Option, none, some, List, [], ◌∷◌, ◌++◌,
  length, get_elem?, take, drop, ltb, ◌==◌, if◌then◌else◌, Outcome, ok, err, panic,
}
use krata.Xencall.{Error, Kernel, enoent, ℤ, is_enoent}

-- Where the inner loop breaks, with the number of frames of the batch; `none` when the fuel does not suffice. The
-- index is a usize, which wraps around in a release build.
pub data RunEnd : Type 0 where
  stops : (i num : ℕ) → RunEnd
  crashes : RunEnd

unfoldable pub run_end : ℕ → ℕ → List ℤ → ℕ → ℕ → Option RunEnd
unfolding is_enoent
run_end zero num errors i batch_num = none
run_end (suc fuel) num errors i batch_num =
    let next = (i + 1) % 2 ^ 64 in
    let on = run_end fuel num errors next batch_num in
    let more = run_end fuel num errors next ((batch_num + 1) % 2 ^ 32) in
    elim (ltb next num) [
      | false ↦ on
      | true ↦ elim (get_elem? errors next) [
        | none ↦ some crashes
        | some e ↦ elim (is_enoent e) [ true ↦ more | false ↦ some (stops next batch_num) ]
      ]
    ]

-- The errors that the kernel leaves for the frames of a batch that begins at `i`.
abbrev pub overwritten : ℕ → List ℤ → List ℤ → List ℤ
overwritten i new errors = take i errors ++ (new ++ drop (i + length new) errors)

module _ (K : Kernel) where
  open K use {W, mmapbatch}

  -- How the call ends; `none` when the fuel does not suffice.
  abbrev pub Ended : Type 0
  Ended = Option (Outcome Error ℕ × W)

  -- Behind the second call, for a batch that ended at `i`: the test of `i`, and then the count that was returned.
  abbrev pub counted : ℕ → (List ℤ → W → Ended) → Outcome ℕ ℕ → List ℤ → W → Ended
  counted paged again (ok zero) errors w = some (ok paged, w)
  counted paged again (ok (suc n)) errors w = again errors w
  counted paged again (err e) errors w = some (err (Error.kernel e), w)
  counted paged again panic errors w = some (panic, w)

  abbrev pub unless_broken : Bool → ℕ → (List ℤ → W → Ended) → Outcome ℕ ℕ → List ℤ → W → Ended
  unless_broken true paged again r errors w = some (ok paged, w)
  unless_broken false paged again r errors w = counted paged again r errors w

  abbrev pub retried : Bool → ℕ → (List ℤ → W → Ended) → Outcome ℕ ℕ → List ℤ → W → Ended
  retried within paged again (ok n) errors w = unless_broken within paged again (ok n) errors w
  retried within paged again (err e) errors w =
      if e == enoent
      then unless_broken within paged again (err e) errors w
      else some (err (Error.mmap_batch_failed e), w)
  retried within paged again panic errors w = some (panic, w)

  -- The call for `n` frames from the `i`th on.
  abbrev pub batch_at : (domid addr : ℕ) → List ℕ → (i n : ℕ) → W → Outcome ℕ ℕ × (List ℤ × W)
  batch_at domid addr mfns i n w =
      mmapbatch n (domid % 2 ^ 16) ((addr + i * 4096) % 2 ^ 64) (drop i mfns) w

  -- The loop over the frames, at the frame `i`: an index past the end panics before it could wrap.
  unfoldable pub retry : ℕ → (num domid addr : ℕ) → List ℕ → ℕ → ℕ → List ℤ → W → Ended
  unfolding run_end is_enoent
  retry zero num domid addr mfns i paged errors w = none
  retry (suc fuel) num domid addr mfns i paged errors w =
      let next = retry fuel num domid addr mfns (i + 1) paged errors w in
      let run = run_end fuel num errors i 1 in
      let again : ℕ → List ℤ → W → Ended = λ j. retry fuel num domid addr mfns j (paged + 1) in
      elim (get_elem? errors i) [
        | none ↦ some (panic, w)
        | some e ↦ elim (is_enoent e) [
          | false ↦ next
          | true ↦ elim run [
            | none ↦ none
            | some crashes ↦ some (panic, w)
            | some (stops j n) ↦
                let (r, (new, w')) = batch_at domid addr mfns i n w in
                retried (ltb j num) (paged + 1) (again j) r (overwritten i new errors) w'
          ]
        ]
      ]

  abbrev pub first_call : ℕ → (num domid addr : ℕ) → List ℕ → Outcome ℕ ℕ × (List ℤ × W) → Ended
  first_call fuel num domid addr mfns (ok n, (errors, w)) = some (ok n, w)
  first_call fuel num domid addr mfns (err e, (errors, w)) = elim (e == enoent) [
    | false ↦ some (err (Error.mmap_batch_failed e), w)
    | true ↦ retry fuel num domid addr mfns 0 0 errors w
  ]
  first_call fuel num domid addr mfns (panic, (errors, w)) = some (panic, w)

  unfoldable pub mmap_batch : ℕ → (domid num addr : ℕ) → List ℕ → W → Ended
  unfolding retry
  mmap_batch fuel domid num addr mfns w =
      first_call fuel num domid addr mfns (mmapbatch (num % 2 ^ 32) (domid % 2 ^ 16) addr mfns w)
