-- ===== src/Prelude/Triples.antt =====
-- What holds after a call that changes a state, if it returns, by what held before.
use krata.Prelude.Effect.{Action, continue, ◌>>=◌}
use krata.Prelude.Fallible.{Outcome, ok, err, panic}

-- What a call left if it returned.
abbrev pub Returns : {S E A : Type 0} → (A → S → Type 0) → Outcome E A × S → Type 0
Returns Q (ok a, s) = Q a s
Returns Q (err e, s) = Unit
Returns Q (panic, s) = Unit

module _ {S E : Type 0} where
  pub record Triple {A : Type 0} (P : S → Type 0) (m : Action S E A) (Q : A → S → Type 0)
      : Type 0 where
    pub run : (s : S) → P s → Returns Q (m s)

  pub by_run :
      {A : Type 0} {P : S → Type 0} {m : Action S E A} {Q : A → S → Type 0}
      → ((s : S) → P s → Returns Q (m s))
      → Triple P m Q
  by_run h = record { run = h }

  continue-Returns :
      {A B : Type 0} (Q : A → S → Type 0) (R : B → S → Type 0) (f : A → Action S E B)
      (r : Outcome E A × S)
      → ((a : A) → Triple (Q a) (f a) R)
      → Returns Q r
      → Returns R (continue r f)
  continue-Returns Q R f (ok a, s) h q = (h a).run s q
  continue-Returns Q R f (err e, s) h q = tt
  continue-Returns Q R f (panic, s) h q = tt

  pub weaker :
      {A : Type 0} {P T : S → Type 0} {m : Action S E A} {Q : A → S → Type 0}
      → Triple P m Q
      → ((a : A) (s : S) → Q a s → T s)
      → Triple P m (λ a s. T s)
  weaker {A} {P} {T} {m} {Q} g h = record { run = λ s p. at_end (m s) (g.run s p) }
    where
      at_end : (r : Outcome E A × S) → Returns Q r → Returns (λ a s. T s) r
      at_end (ok a, s) q = h a s q
      at_end (err e, s) q = tt
      at_end (panic, s) q = tt

  -- One call after another.
  pub next :
      {A B : Type 0} {P : S → Type 0} (Q : A → S → Type 0) {R : B → S → Type 0} {m : Action S E A}
      {f : A → Action S E B}
      → Triple P m Q
      → ((a : A) → Triple (Q a) (f a) R)
      → Triple P (m >>= f) R
  next Q {R} {m} {f} g h = record { run = λ s p. continue-Returns Q R f (m s) h (g.run s p) }
