-- ===== src/Xenevtchn.antt =====
-- crates/xen/xenevtchn/src/lib.rs and error.rs: `EventChannelService`, which hands out a `Notify` for each port, and
-- `EventChannelProcessor`, which wakes them. The `Notify`s that were made are a list, so that a shared one is
-- its index; what each keeps is its permit, which `notify_one` stores and a wait takes. The device is a parameter.
pub mod Delivery
pub mod Invariant
mod Tests
use krata.Prelude.{
  ℕ, zero, suc, ◌+◌, ◌-◌, ◌%◌, ◌^◌, Bool, true, false, Option, none, some, List, [], ◌∷◌, ◌++◌,
  length, get_elem?, set, ◌==◌, if◌then◌else◌, Outcome, ok, err, panic,
}
use krata.Prelude.Effect.{Action, ◌>>=◌, pure}

pub data Error : Type 0 where
  kernel io : ℕ → Error
  wake_send lock_acquire_failed port_in_use blocking_task_join : Error

-- The requests of the device.
pub data Request : Type 0 where
  bind_virq_request unbind_port_request notify_request bind_unbound_port_request : ℕ → Request
  bind_interdomain_request : (remote_domain remote_port : ℕ) → Request
  reset_request : Request

-- The device ends a request with an error number or a value. A write of a port gives the bytes written, or -1.
pub record Device : Type 1 where
  pub W : Type 0
  pub ioctl : Request → W → Outcome ℕ ℕ × W
  pub write : ℕ → W → Option ℕ × W

-- The map of the ports, and the permits of all `Notify`s.
pub record Wakes : Type 0 where
  pub wakes : List (ℕ × ℕ)
  pub permits : List Bool

abbrev pub no_wakes : Wakes
no_wakes = record { wakes = []; permits = [] }

unfoldable pub find_wake : ℕ → List (ℕ × ℕ) → Option ℕ
find_wake port [] = none
find_wake port ((p, receiver) ∷ wakes) = if p == port then some receiver else find_wake port wakes

unfoldable pub remove_wake : ℕ → List (ℕ × ℕ) → List (ℕ × ℕ)
remove_wake port [] = []
remove_wake port ((p, receiver) ∷ wakes) =
    let rest = remove_wake port wakes in if p == port then rest else (p, receiver) ∷ rest

-- `entry`: the port's `Notify`, which is made if there is none.
unfoldable pub wake_entry : ℕ → Wakes → ℕ × Wakes
unfolding find_wake
wake_entry port s = elim (find_wake port s.wakes) [
  | some receiver ↦ (receiver, s)
  | none ↦ (
    length s.permits,
    record { wakes = (port, length s.permits) ∷ s.wakes; permits = s.permits ++ false ∷ [] },
  )
]

-- `notify_one`: at most one permit is kept.
unfoldable pub notify_one : ℕ → Wakes → Wakes
notify_one receiver s = record s { permits = set s.permits receiver true }

-- One round of `process`.
unfoldable pub process_port : ℕ → Wakes → Wakes
unfolding wake_entry notify_one
process_port port s = let (receiver, s') = wake_entry port s in notify_one receiver s'

-- `process`, until the device cannot be read.
unfoldable pub process : List ℕ → Wakes → Wakes
unfolding process_port
process [] s = s
process (port ∷ ports) s = process ports (process_port port s)

pub record BoundEventChannel : Type 0 where
  pub local_port : ℕ
  pub receiver : ℕ

module _ (D : Device) where
  open D use {W, ioctl, write}

  abbrev pub Service : Type 0 → Type 0
  Service A = Action (Wakes × W) Error A

  abbrev pub answered : Wakes → Outcome ℕ ℕ × W → Outcome Error ℕ × (Wakes × W)
  answered s (ok r, w) = (ok (r % 2 ^ 32), (s, w))
  answered s (err e, w) = (err (Error.kernel e), (s, w))
  answered s (panic, w) = (panic, (s, w))

  abbrev pub request : Request → Service ℕ
  request r (s, w) = answered s (ioctl r w)

  unfoldable pub bind_virq : ℕ → Service ℕ
  bind_virq virq = request (bind_virq_request virq)

  unfoldable pub bind_interdomain : (domid port : ℕ) → Service ℕ
  bind_interdomain domid port = request (bind_interdomain_request domid port)

  unfoldable pub bind_unbound_port : ℕ → Service ℕ
  bind_unbound_port domid = request (bind_unbound_port_request domid)

  unfoldable pub notify : ℕ → Service ℕ
  notify port = request (notify_request port)

  unfoldable pub reset : Service ℕ
  reset = request reset_request

  -- The count that was written, or -1, is taken for an error number; -1 as a u32 here.
  abbrev pub unmasked : Wakes → Option ℕ × W → Outcome Error (Unit {0}) × (Wakes × W)
  unmasked s (none, w) = (err (Error.io (2 ^ 32 - 1)), (s, w))
  unmasked s (some n, w) = if n == 4 then (ok tt, (s, w)) else (err (Error.io n), (s, w))

  unfoldable pub unmask : ℕ → Service (Unit {0})
  unmask port (s, w) = unmasked s (write port w)

  abbrev pub removed : ℕ → Outcome Error ℕ × (Wakes × W) → Outcome Error ℕ × (Wakes × W)
  removed port (ok r, (s, w)) = (ok r, (record s { wakes = remove_wake port s.wakes }, w))
  removed port (err e, s) = (err e, s)
  removed port (panic, s) = (panic, s)

  -- The port's entry goes when the device has unbound it.
  unfoldable pub unbind : ℕ → Service ℕ
  unfolding remove_wake
  unbind port s = removed port (request (unbind_port_request port) s)

  unfoldable pub subscribe : ℕ → Service ℕ
  unfolding wake_entry
  subscribe port (s, w) = let (receiver, s') = wake_entry port s in (ok receiver, (s', w))

  unfoldable pub bind : (domid port : ℕ) → Service BoundEventChannel
  unfolding bind_interdomain subscribe
  bind domid port = do
    local_port ← bind_interdomain domid port
    receiver ← subscribe local_port
    pure (record { local_port = local_port; receiver = receiver })

  -- What happens to a service: a port is subscribed to or unbound, the processor reads a port, or a wait takes the
  -- permit of a `Notify`.
  pub data Step : Type 0 where
    subscribes unbinds wakes waits : ℕ → Step

  unfoldable pub step : Step → Wakes × W → Wakes × W
  unfolding subscribe unbind process_port
  step (Step.subscribes port) s = (subscribe port s).1
  step (Step.unbinds port) s = (unbind port s).1
  step (Step.wakes port) (s, w) = (process_port port s, w)
  step (Step.waits receiver) (s, w) = (record s { permits = set s.permits receiver false }, w)

  unfoldable pub run : List Step → Wakes × W → Wakes × W
  unfolding step
  run [] s = s
  run (k ∷ ks) s = run ks (step k s)
