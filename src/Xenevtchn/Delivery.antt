-- ===== src/Xenevtchn/Delivery.antt =====
-- A port that was woken before anyone has subscribed to it: the wake-up is kept.
use krata.Prelude.{
  ℕ, zero, suc, ◌<◌, ◌≡◌, ◌≢◌, refl, sym, subst, ◌∙◌, Bool, true, false, Option, none, some, List,
  [], ◌∷◌, ◌++◌, length, get_elem?, set, All, arith, ◌==◌, length-append, get_elem?-set_self,
  get_elem?-set_ne, Outcome, ok, err, panic,
}
use krata.Xenevtchn.{
  Device, Wakes, find_wake, remove_wake, wake_entry, notify_one, process_port, subscribe, unbind,
  removed, answered, Step, step, run,
}

-- Each entry is of a `Notify` that was made.
abbrev pub IsMade : ℕ → List (ℕ × ℕ) → Type 0
IsMade n entries = All (λ (e : ℕ × ℕ). e.1 < n) entries

-- The port has an entry, and its `Notify` has a permit.
pub record Woken (port receiver : ℕ) (s : Wakes) : Type 0 where
  pub entry : find_wake port s.wakes ≡ some receiver
  pub permit : get_elem? s.permits receiver ≡ some true

get_elem?-append_left :
    (xs ys : List Bool) (i : ℕ) (b : Bool)
    → get_elem? xs i ≡ some b
    → get_elem? (xs ++ ys) i ≡ some b
get_elem?-append_left [] ys i b e = absurd (cc e)
get_elem?-append_left (x ∷ xs) ys zero b e = e
get_elem?-append_left (x ∷ xs) ys (suc i) b e = get_elem?-append_left xs ys i b e

get_elem?-set_true :
    (xs : List Bool) (i j : ℕ)
    → get_elem? xs j ≡ some true
    → get_elem? (set xs i true) j ≡ some true
get_elem?-set_true [] i j e = e
get_elem?-set_true (x ∷ xs) zero zero e = refl
get_elem?-set_true (x ∷ xs) zero (suc j) e = e
get_elem?-set_true (x ∷ xs) (suc i) zero e = e
get_elem?-set_true (x ∷ xs) (suc i) (suc j) e = get_elem?-set_true xs i j e

find_wake-remove_wake :
    (port other : ℕ) (entries : List (ℕ × ℕ))
    → port ≢ other
    → find_wake port (remove_wake other entries) ≡ find_wake port entries
unfolding find_wake remove_wake
find_wake-remove_wake port other [] n = refl
find_wake-remove_wake port other ((p, r) ∷ entries) n =
    by_tests _ _ refl refl (find_wake-remove_wake port other entries n)
  where
    by_tests :
        (a b : Bool)
        → (p == other) ≡ a
        → (p == port) ≡ b
        → find_wake port (remove_wake other entries) ≡ find_wake port entries
        → find_wake port (remove_wake other ((p, r) ∷ entries)) ≡ find_wake port ((p, r) ∷ entries)
    by_tests true true e f k = absurd (n (ground arith))
    by_tests true false e f k = rw (e, f, remove_wake, find_wake) k
    by_tests false true e f k = rw (e, f, remove_wake, find_wake) refl
    by_tests false false e f k = rw (e, f, remove_wake, find_wake) k

-- `entry` of a port leaves a woken port as it is.
wake_entry-Woken :
    (port other receiver : ℕ) (s : Wakes)
    → Woken port receiver s
    → Woken port receiver (wake_entry other s).1
unfolding wake_entry find_wake
wake_entry-Woken port other receiver s k = by_entry _ refl
  where
    by_port :
        (b : Bool)
        → (other == port) ≡ b
        → find_wake other s.wakes ≡ none
        → Woken port receiver (wake_entry other s).1
    by_port true e f =
        let same : other ≡ port = ground arith in
        let g : find_wake port s.wakes ≡ none = subst (λ p. find_wake p s.wakes ≡ none) same f in
        absurd (let q : some receiver ≡ none = sym k.entry ∙ g in cc q)
    by_port false e f =
        rw (f, wake_entry)
          (record {
            entry = rw (e, find_wake) k.entry;
            permit = get_elem?-append_left s.permits (false ∷ []) receiver true k.permit;
          })

    by_entry :
        (o : Option ℕ) → find_wake other s.wakes ≡ o → Woken port receiver (wake_entry other s).1
    by_entry (some r) f = rw (f, wake_entry) k
    by_entry none f = by_port _ refl f

process_port-Woken :
    (port other receiver : ℕ) (s : Wakes)
    → Woken port receiver s
    → Woken port receiver (process_port other s)
unfolding process_port notify_one
process_port-Woken port other receiver s k =
    let e = wake_entry-Woken port other receiver s k in
    record {
      entry = e.entry;
      permit =
          get_elem?-set_true (wake_entry other s).1.permits (wake_entry other s).0 receiver
            e.permit;
    }

find_wake-made :
    (port receiver n : ℕ) (entries : List (ℕ × ℕ))
    → find_wake port entries ≡ some receiver
    → IsMade n entries
    → receiver < n
unfolding find_wake
find_wake-made port receiver n [] e m = absurd (cc e)
find_wake-made port receiver n ((p, r) ∷ entries) e m =
    by_test _ refl (λ f. find_wake-made port receiver n entries f m.1)
  where
    by_test :
        (b : Bool)
        → (p == port) ≡ b
        → (find_wake port entries ≡ some receiver → receiver < n)
        → receiver < n
    by_test true f k =
        let g : some r ≡ some receiver = sym (rw (f, find_wake) refl) ∙ e in
        let q : r ≡ receiver = cc g in subst (λ t. t < n) q m.0
    by_test false f k = k (sym (rw (f, find_wake) refl) ∙ e)

-- The entry of a port is that of a `Notify` that was made.
wake_entry_lem :
    (port : ℕ) (s : Wakes)
    → IsMade (length s.permits) s.wakes
    → let (receiver, s') = wake_entry port s in
      (find_wake port s'.wakes ≡ some receiver) × (receiver < length s'.permits)
unfolding wake_entry find_wake
wake_entry_lem port s m = by_entry _ refl
  where
    itself : (port == port) ≡ true
    itself = ground arith

    by_entry :
        (o : Option ℕ)
        → find_wake port s.wakes ≡ o
        → let (receiver, s') = wake_entry port s in
          (find_wake port s'.wakes ≡ some receiver) × (receiver < length s'.permits)
    by_entry (some r) e = rw (e, wake_entry) (e, find_wake-made port r _ s.wakes e m)
    by_entry none e =
        rw (e, wake_entry)
          (rw (itself, find_wake) refl, omega (arith, length-append s.permits (false ∷ [])))

-- The port that is read is woken.
process_port-wakes :
    (port : ℕ) (s : Wakes)
    → IsMade (length s.permits) s.wakes
    → Woken port (wake_entry port s).0 (process_port port s)
unfolding process_port notify_one
process_port-wakes port s m =
    let (e, h) = wake_entry_lem port s m in
    record {
      entry = e;
      permit = get_elem?-set_self (wake_entry port s).1.permits (wake_entry port s).0 true h;
    }

module _ (D : Device) where
  open D use {W}

  -- The step does not unbind the port and takes no permit of the `Notify`.
  abbrev pub Spares : ℕ → ℕ → Step D → Type 0
  Spares port receiver (Step.subscribes other) = Unit
  Spares port receiver (Step.unbinds other) = port ≢ other
  Spares port receiver (Step.wakes other) = Unit
  Spares port receiver (Step.waits other) = other ≢ receiver

  removed-Woken :
      (port other receiver : ℕ) (s : Wakes) (r : Outcome ℕ ℕ × W)
      → port ≢ other
      → Woken port receiver s
      → Woken port receiver (removed D other (answered D s r)).1.0
  removed-Woken port other receiver s (ok n, w) h k = record {
    entry = find_wake-remove_wake port other s.wakes h ∙ k.entry;
    permit = k.permit;
  }
  removed-Woken port other receiver s (err e, w) h k = k
  removed-Woken port other receiver s (panic, w) h k = k

  step-Woken :
      (port receiver : ℕ) (a : Step D) (s : Wakes × W)
      → Spares port receiver a
      → Woken port receiver s.0
      → Woken port receiver (step D a s).0
  unfolding step subscribe unbind
  step-Woken port receiver (Step.subscribes other) s h k =
      wake_entry-Woken port other receiver s.0 k
  step-Woken port receiver (Step.unbinds other) s h k = removed-Woken port other receiver s.0 _ h k
  step-Woken port receiver (Step.wakes other) s h k = process_port-Woken port other receiver s.0 k
  step-Woken port receiver (Step.waits other) s h k = record {
    entry = k.entry;
    permit = get_elem?-set_ne s.0.permits other receiver false h ∙ k.permit;
  }

  run-Woken :
      (port receiver : ℕ) (ks : List (Step D)) (s : Wakes × W)
      → All (Spares port receiver) ks
      → Woken port receiver s.0
      → Woken port receiver (run D ks s).0
  unfolding run
  run-Woken port receiver [] s h k = k
  run-Woken port receiver (a ∷ ks) s h k =
      run-Woken port receiver ks (step D a s) h.1 (step-Woken port receiver a s h.0 k)

  -- After the processor has read a port, over entries of Notifys that were made, whatever happens
  -- but that the port is unbound or a wait takes the permit of its Notify, a subscription to the
  -- port gives that Notify, and its permit is there: the wake-up is not lost.
  pub wake_kept :
      (port : ℕ) (ks : List (Step D)) (s : Wakes) (w : W)
      → IsMade (length s.permits) s.wakes
      → All (Spares port (wake_entry port s).0) ks
      → let (r, (s', w')) = subscribe D port (run D ks (process_port port s, w)) in
        (r ≡ ok (wake_entry port s).0) × (get_elem? s'.permits (wake_entry port s).0 ≡ some true)
  unfolding subscribe wake_entry
  wake_kept port ks s w m h =
      let k =
        run-Woken port (wake_entry port s).0 ks (process_port port s, w) h
          (process_port-wakes port s m) in
      rw (k.entry, wake_entry) (refl, k.permit)
