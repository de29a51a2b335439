-- ===== src/Prelude/Effect.antt =====
-- Calls that change a state: state passing, where a failure keeps what was done before it, as `?`
-- does in Rust.
use mathlib.Core.Bool.{Bool, true, false}
use krata.Prelude.Fallible.{Outcome, ok, err, panic}

abbrev pub Action : Type 0 → Type 0 → Type 0 → Type 0
Action S E A = S → Outcome E A × S

-- What comes after a call that ended so.
abbrev pub continue : {S E A B : Type 0} → Outcome E A × S → (A → Action S E B) → Outcome E B × S
continue (ok a, s) f = f a s
continue (err e, s) f = (err e, s)
continue (panic, s) f = (panic, s)

infixl 5 ◌>>=◌ ◌>>◌
abbrev pub ◌>>=◌ : {S E A B : Type 0} → Action S E A → (A → Action S E B) → Action S E B
◌>>=◌ m f s = continue (m s) f

abbrev pub ◌>>◌ : {S E A B : Type 0} → Action S E A → Action S E B → Action S E B
◌>>◌ m k s = continue (m s) (λ _. k)

module _ {S E A : Type 0} where
  abbrev pub pure : A → Action S E A
  pure a s = (ok a, s)

  abbrev pub raise : E → Action S E A
  raise e s = (err e, s)

  abbrev pub crash : Action S E A
  crash s = (panic, s)

  abbrev pub gets : (S → A) → Action S E A
  gets f s = (ok (f s), s)

  abbrev pub lift : Outcome E A → Action S E A
  lift r s = (r, s)

abbrev pub modify : {S E : Type 0} → (S → S) → Action S E (Unit {0})
modify f s = (ok tt, f s)

-- `if test { return Err(e); }`
abbrev pub raise_if : {S E : Type 0} → Bool → E → Action S E (Unit {0})
raise_if true e s = (err e, s)
raise_if false e s = (ok tt, s)

-- A call on a part of the state, by the way it is read and put back.
abbrev pub put_back : {S T E A : Type 0} → (T → S) → Outcome E A × T → Outcome E A × S
put_back f (r, t) = (r, f t)
