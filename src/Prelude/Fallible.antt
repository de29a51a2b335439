-- ===== src/Prelude/Fallible.antt =====
-- How a Rust call ends: with a value, with the `Err` of its `Result`, or with a panic.
use mathlib.Core.Path.{◌≡◌, subst}
use mathlib.Core.Path.{◌≡◌, subst}
use mathlib.Core.Option.{Option, none, some}

pub data Outcome {ℓ} (E : Type 0) (A : Type ℓ) : Type ℓ where
  ok : A → Outcome E A
  err : E → Outcome E A
  panic : Outcome E A

-- `Option::ok_or`.
abbrev pub ok_or {ℓ} : {E : Type 0} {A : Type ℓ} → Option A → E → Outcome E A
ok_or none e = err e
ok_or (some a) e = ok a

-- `v[i]`, `BitVec::set` and their like: a missing element is a panic.
abbrev pub or_panic {ℓ} : {E : Type 0} {A : Type ℓ} → Option A → Outcome E A
or_panic none = panic
or_panic (some a) = ok a

-- The error of a loop that is modelled with fuel; each such loop has a theorem that it is not met.
pub data OutOfFuel : Type 0 where
  out_of_fuel : OutOfFuel

-- What holds of the value that a call gives holds of every value that it is equal to.
pub on_ok :
    {E A : Type 0} (Q : A → Type 0) (r : Outcome E A) {a : A}
    → r ≡ ok a
    → Q a
    → (b : A) → r ≡ ok b
    → Q b
on_ok Q r {a} h q b e = let eq : a ≡ b = cc in subst Q eq q
