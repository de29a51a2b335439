-- ===== src/Xenplatform/FromXencall.antt =====
-- crates/xen/xenplatform/src/error.rs: the errors of xencall as errors of this crate.
use krata.Prelude.{List, ℕ, Outcome, ok, err, panic}
use krata.Prelude.Effect.{Action}
use krata.Xenplatform.Sys.{Error}
use krata.Xencall
use krata.Xencall.Hypercall.{Hypervisor}
use krata.Xencall.MemoryOp

-- `?` on a result of xencall.
abbrev pub from_xencall : {A W : Type 0} → Outcome Xencall.Error A × W → Outcome Error A × W
from_xencall (ok a, w) = (ok a, w)
from_xencall (err e, w) = (err (Error.xen_call e), w)
from_xencall (panic, w) = (panic, w)

-- `XenCall::populate_physmap`, as this crate calls it.
abbrev pub xencall_populate :
    (H : Hypervisor) → (domid count order flags : ℕ) → List ℕ → Action H.W Error (List ℕ)
xencall_populate H domid count order flags starts w =
    from_xencall (MemoryOp.populate_physmap H domid count order flags starts w)
