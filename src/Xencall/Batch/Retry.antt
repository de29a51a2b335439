-- ===== src/Xencall/Batch/Retry.antt =====
-- What `mmap_batch` makes of the values that the kernel leaves for the frames.
use krata.Prelude.{
  ℕ, zero, suc, ◌+◌, ◌%◌, ◌<◌, ◌≡◌, refl, ap, ◌∙◌, false, none, some, List, [], ◌∷◌, All, length,
  get_elem?, arith, err, panic,
}
use krata.Xencall.{Kernel, enoent, ℤ, pos, negsuc, is_enoent}
use krata.Xencall.Batch.{retry, first_call, mmap_batch}

-- The value is 0 or below.
abbrev pub IsErrno : ℤ → Type 0
IsErrno (pos n) = n ≡ 0
IsErrno (negsuc n) = Unit {0}

not_enoent : (e : ℤ) → IsErrno e → is_enoent e ≡ false
unfolding is_enoent
not_enoent (pos n) h = ground arith
not_enoent (negsuc n) h = refl

-- The value of a frame, or that there is no such frame.
frame_at :
    (errors : List ℤ) (i : ℕ)
    → All IsErrno errors
    → i < length errors
    → (e : ℤ) × (get_elem? errors i ≡ some e) × (is_enoent e ≡ false)
frame_at [] i a h = absurd (omega arith)
frame_at (e ∷ errors) zero a h = (e, refl, not_enoent e a.0)
frame_at (e ∷ errors) (suc i) a h = frame_at errors i a.1 (omega arith)

no_frame : (errors : List ℤ) → get_elem? errors (length errors) ≡ none
no_frame [] = refl
no_frame (e ∷ errors) = no_frame errors

module _ (K : Kernel) (num domid addr : ℕ) (mfns : List ℕ) (errors : List ℤ) where
  open K use {W}

  -- The loop passes over the frames that are left, and over the end.
  retry_crashes :
      (fuel d i paged : ℕ) (w : W)
      → All IsErrno errors
      → i + d ≡ length errors
      → d < fuel
      → retry K fuel num domid addr mfns i paged errors w ≡ some (panic, w)
  unfolding retry
  retry_crashes zero d i paged w a e h = absurd (omega arith)
  retry_crashes (suc fuel) zero i paged w a e h =
      let at_end : i ≡ length errors = omega arith in rw (at_end, no_frame errors, retry) refl
  retry_crashes (suc fuel) (suc d) i paged w a e h =
      let (x, f, g) = frame_at errors i a (omega arith) in
      rw (f, g, retry) (retry_crashes fuel d (i + 1) paged w a (omega arith) (omega arith))

  -- When the first call fails with ENOENT, and the kernel leaves for each frame 0 or an error as a
  -- negative number, as it does for -ENOENT, mmap_batch does not map a frame again: it passes over all
  -- of them and panics behind the last, given more fuel than there are frames.
  pub mmap_batch_negative :
      (fuel : ℕ) (w w1 : W)
      → K.mmapbatch (num % 4294967296) (domid % 65536) addr mfns w ≡ (err enoent, (errors, w1))
      → All IsErrno errors
      → length errors < fuel
      → mmap_batch K fuel domid num addr mfns w ≡ some (panic, w1)
  unfolding mmap_batch
  mmap_batch_negative fuel w w1 e a h =
      ap (first_call K fuel num domid addr mfns) e
      ∙ retry_crashes fuel (length errors) 0 0 w1 a (omega arith) h
