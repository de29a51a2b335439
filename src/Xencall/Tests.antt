-- ===== src/Xencall/Tests.antt =====
-- The theorems of the xencall crate at a kernel that finds a frame paged out.
use krata.Prelude.{
  ℕ, zero, suc, ◌≡◌, refl, Bool, true, false, some, List, [], ◌∷◌, arith, leb, Outcome, ok, err,
  panic,
}
use krata.Xencall.{Kernel, enoent, ℤ, pos, negsuc}
use krata.Xencall.Versions.{accepted, detect, Detected, detect-Detected}
use krata.Xencall.Batch.{mmap_batch}
use krata.Xencall.Batch.Retry.{mmap_batch_negative}

-- The state is the number of calls that were made.
abbrev answer : List ℤ → ℕ → Outcome ℕ ℕ × (List ℤ × ℕ)
answer errors zero = (err enoent, (errors, 1))
answer errors (suc n) = (ok 0, ([], suc (suc n)))

abbrev kernel_of : List ℤ → Kernel
kernel_of errors = record {
  W = ℕ;
  domctl = λ request w. (err 22, w);
  sysctl = λ request w. (ok 0, w);
  mmapbatch = λ num domid addr mfns w. answer errors w;
}

-- Frame 1 is paged out.
abbrev second_paged : List ℤ
second_paged = pos 0 ∷ negsuc 1 ∷ pos 0 ∷ []

mmap_batch_negative_example :
    mmap_batch (kernel_of second_paged) 4 1 3 1048576 (70 ∷ 71 ∷ 72 ∷ []) 0 ≡ some (panic, 1)
mmap_batch_negative_example =
    mmap_batch_negative (kernel_of second_paged) 3 1 1048576 (70 ∷ 71 ∷ 72 ∷ []) second_paged 4 0 1
      refl (refl, (tt, (refl, tt))) (omega arith)

-- A hypervisor that takes the versions from 22 on.
abbrev if_taken : Bool → Outcome ℕ ℕ
if_taken true = ok 0
if_taken false = err 38

abbrev from_22 : ℕ → ℕ → Outcome ℕ ℕ × ℕ
from_22 version w = (if_taken (leb 22 version), w)

detect-Detected_example : Detected from_22 (leb 22) 21 3 (detect from_22 3 21 0).0
detect-Detected_example = detect-Detected from_22 (leb 22) 3 21 0 steady
  where
    steady : (version w : ℕ) → accepted (from_22 version w).0 ≡ leb 22 version
    steady version w = by_answer (leb 22 version)
      where
        by_answer : (b : Bool) → accepted (if_taken b) ≡ b
        by_answer true = unfold accepted in refl
        by_answer false = unfold accepted in refl
