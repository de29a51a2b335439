-- ===== src/Xenevtchn/Invariant.antt =====
-- The map of the ports refers to `Notify`s that were made, in every history.
use krata.Prelude.{
  ℕ, suc, ◌≡◌, refl, sym, subst, Bool, true, false, Option, none, some, List, [], ◌∷◌, ◌++◌, length,
  set, All-map, arith, ◌==◌, length-append, length-set, Outcome, ok, err, panic,
}
use krata.Xenevtchn.{
  Device, Wakes, no_wakes, find_wake, remove_wake, wake_entry, notify_one, process_port, subscribe,
  unbind, removed, answered, Step, step, run,
}
use krata.Xenevtchn.Delivery.{IsMade}

-- Every entry of the state's map is of a `Notify` that was made.
abbrev pub IsValid : Wakes → Type 0
IsValid s = IsMade (length s.permits) s.wakes

remove_wake-IsMade :
    (port n : ℕ) (entries : List (ℕ × ℕ)) → IsMade n entries → IsMade n (remove_wake port entries)
unfolding remove_wake
remove_wake-IsMade port n [] m = tt
remove_wake-IsMade port n ((p, r) ∷ entries) m =
    by_test _ refl (remove_wake-IsMade port n entries m.1)
  where
    by_test :
        (b : Bool)
        → (p == port) ≡ b
        → IsMade n (remove_wake port entries)
        → IsMade n (remove_wake port ((p, r) ∷ entries))
    by_test true e k = rw (e, remove_wake) k
    by_test false e k = rw (e, remove_wake) (m.0, k)

wake_entry-IsValid : (port : ℕ) (s : Wakes) → IsValid s → IsValid (wake_entry port s).1
unfolding wake_entry
wake_entry-IsValid port s m = by_entry _ refl
  where
    longer : length (s.permits ++ false ∷ []) ≡ suc (length s.permits)
    longer = omega (arith, length-append s.permits (false ∷ []))

    by_entry : (o : Option ℕ) → find_wake port s.wakes ≡ o → IsValid (wake_entry port s).1
    by_entry (some r) e = rw (e, wake_entry) m
    by_entry none e =
        rw (e, wake_entry) (omega (arith, longer), All-map s.wakes (λ x h. omega (arith, longer)) m)

set-IsValid :
    (s : Wakes) (i : ℕ) (b : Bool) → IsValid s → IsValid (record s { permits = set s.permits i b })
set-IsValid s i b m = subst (λ n. IsMade n s.wakes) (sym (length-set s.permits i b)) m

module _ (D : Device) where
  open D use {W}

  removed-IsValid :
      (port : ℕ) (s : Wakes) (r : Outcome ℕ ℕ × W)
      → IsValid s
      → IsValid (removed D port (answered D s r)).1.0
  removed-IsValid port s (ok n, w) m = remove_wake-IsMade port (length s.permits) s.wakes m
  removed-IsValid port s (err e, w) m = m
  removed-IsValid port s (panic, w) m = m

  step-IsValid : (a : Step D) (s : Wakes × W) → IsValid s.0 → IsValid (step D a s).0
  unfolding step subscribe unbind process_port notify_one
  step-IsValid (Step.subscribes port) s m = wake_entry-IsValid port s.0 m
  step-IsValid (Step.unbinds port) s m = removed-IsValid port s.0 _ m
  step-IsValid (Step.wakes port) s m =
      set-IsValid (wake_entry port s.0).1 (wake_entry port s.0).0 true
        (wake_entry-IsValid port s.0 m)
  step-IsValid (Step.waits receiver) s m = set-IsValid s.0 receiver false m

  run-IsValid_from : (ks : List (Step D)) (s : Wakes × W) → IsValid s.0 → IsValid (run D ks s).0
  unfolding run
  run-IsValid_from [] s m = m
  run-IsValid_from (a ∷ ks) s m = run-IsValid_from ks (step D a s) (step-IsValid a s m)

  -- After any history of a new service, each entry of the map of ports is of a Notify that was
  -- made.
  pub run-IsValid : (ks : List (Step D)) (w : W) → IsValid (run D ks (no_wakes, w)).0
  run-IsValid ks w = run-IsValid_from ks (no_wakes, w) tt
