-- ===== src/Prelude/Keeps.antt =====
-- What a call keeps of its state, however it ends.
use krata.Prelude.Effect.{Action, continue, ◌>>=◌, pure}
use krata.Prelude.Fallible.{Outcome, ok, err, panic}

module _ {S E : Type 0} (I : S → Type 0) where
  abbrev pub Keeps : {A : Type 0} → Action S E A → Type 0
  Keeps m = (s : S) → I s → I (m s).1

  -- After a call that ended so.
  pub continue-Keeps :
      {A B : Type 0} (f : A → Action S E B) (r : Outcome E A × S)
      → ((a : A) → Keeps (f a))
      → I r.1
      → I (continue r f).1
  continue-Keeps f (ok a, s) h i = h a s i
  continue-Keeps f (err e, s) h i = i
  continue-Keeps f (panic, s) h i = i

  -- One call after another.
  pub both :
      {A B : Type 0} (m : Action S E A) (f : A → Action S E B)
      → Keeps m
      → ((a : A) → Keeps (f a))
      → Keeps (m >>= f)
  both m f g h s i = continue-Keeps f (m s) h (g s i)

  -- After a call that ended so, its result is passed on in another form.
  pub continue_pure :
      {A B : Type 0} (f : A → B) (r : Outcome E A × S) → I r.1 → I (continue r (λ a. pure (f a))).1
  continue_pure f (ok a, s) i = i
  continue_pure f (err e, s) i = i
  continue_pure f (panic, s) i = i

  -- A call whose result is passed on in another form.
  pub then_pure :
      {A B : Type 0} (m : Action S E A) (f : A → B) → Keeps m → Keeps (m >>= (λ a. pure (f a)))
  then_pure m f g = both m (λ a. pure (f a)) g (λ a s i. i)
