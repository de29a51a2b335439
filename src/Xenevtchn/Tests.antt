-- ===== src/Xenevtchn/Tests.antt =====
-- The theorems on event channels at a device that answers every request.
use krata.Prelude.{ℕ, ◌≡◌, ◌≢◌, true, false, some, [], ◌∷◌, get_elem?, arith, ok}
use krata.Xenevtchn.{
  Device, Wakes, find_wake, wake_entry, process_port, subscribe, unbinds, wakes, waits, run,
}
use krata.Xenevtchn.Delivery.{wake_kept}

abbrev device : Device
device = record { W = Unit {0}; ioctl = λ request w. (ok 5, w); write = λ port w. (some 4, w) }

-- Port 4 has a `Notify` already; port 3 is woken first.
abbrev one_port : Wakes
one_port = record { wakes = (4, 0) ∷ []; permits = false ∷ [] }

wake_kept_example :
    let (r, (s', w')) =
      subscribe device 3
        (run device (waits 0 ∷ unbinds 4 ∷ wakes 4 ∷ []) (process_port 3 one_port, tt)) in
    (r ≡ ok (wake_entry 3 one_port).0)
    × (get_elem? s'.permits (wake_entry 3 one_port).0 ≡ some true)
wake_kept_example =
    wake_kept device 3 (waits 0 ∷ unbinds 4 ∷ wakes 4 ∷ []) one_port tt (omega arith, tt)
      (not_receiver, (not_port, (tt, tt)))
  where
    not_port : ◌≢◌ {A = ℕ} 3 4
    not_port e = absurd (omega arith)

    not_receiver : ◌≢◌ {A = ℕ} 0 (wake_entry 3 one_port).0
    not_receiver = unfold wake_entry find_wake in λ e. absurd (omega arith)
