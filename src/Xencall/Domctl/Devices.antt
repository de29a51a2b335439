-- ===== src/Xencall/Domctl/Devices.antt =====
-- crates/xen/xencall/src/lib.rs: the requests of the domain control interface on devices, on the context of a fully
-- virtualised domain and on its memory pool.
use krata.Prelude.{
  ℕ, ◌%◌, ◌^◌, Bool, Option, none, some, List, [], length, replicate, if◌then◌else◌,
}
use krata.Prelude.Effect.{Action, ◌>>=◌, ◌>>◌, pure}
use krata.Xencall.{Error}
use krata.Xencall.Versions.{XenCall}
use krata.Xencall.Hypercall.{Hypervisor, DomCtlValue}
use krata.Xencall.Hypercall.Structures.{HvmContext}
use krata.Xencall.Domctl.{request}

abbrev pub xen_domctl_irq_permission : ℕ
xen_domctl_irq_permission = 19

abbrev pub xen_domctl_iomem_permission : ℕ
xen_domctl_iomem_permission = 20

abbrev pub xen_domctl_ioport_permission : ℕ
xen_domctl_ioport_permission = 21

abbrev pub xen_domctl_gethvmcontext : ℕ
xen_domctl_gethvmcontext = 33

abbrev pub xen_domctl_sethvmcontext : ℕ
xen_domctl_sethvmcontext = 34

abbrev pub xen_domctl_assign_device : ℕ
xen_domctl_assign_device = 37

abbrev pub xen_domctl_set_paging_mempool_size : ℕ
xen_domctl_set_paging_mempool_size = 86

abbrev pub domctl_dev_pci : ℕ
domctl_dev_pci = 0

abbrev pub context_of : Option (List ℕ) → HvmContext
context_of none = record { size = 0; buffer = [] }
context_of (some buffer) = record { size = length buffer % 2 ^ 32; buffer = buffer }

module _ (H : Hypervisor) (x : XenCall) where
  open H use {W}

  unfoldable pub iomem_permission : (domid first_mfn nr_mfns : ℕ) → Bool → Action W Error (Unit {0})
  unfolding request
  iomem_permission domid first_mfn nr_mfns allow = do
    request H x domid DomCtlValue.iomem_permission xen_domctl_iomem_permission
        (record { first_mfn = first_mfn; nr_mfns = nr_mfns; allow = if allow then 1 else 0 })
    pure tt

  unfoldable pub ioport_permission :
      (domid first_port nr_ports : ℕ) → Bool → Action W Error (Unit {0})
  unfolding request
  ioport_permission domid first_port nr_ports allow = do
    request H x domid DomCtlValue.ioport_permission xen_domctl_ioport_permission
        (record { first_port = first_port; nr_ports = nr_ports; allow = if allow then 1 else 0 })
    pure tt

  unfoldable pub irq_permission : (domid irq : ℕ) → Bool → Action W Error (Unit {0})
  unfolding request
  irq_permission domid irq allow = do
    request H x domid DomCtlValue.irq_permission xen_domctl_irq_permission
        (record { pirq = irq; allow = if allow then 1 else 0; pad = replicate 3 0 })
    pure tt

  unfoldable pub assign_device : (domid sbdf flags : ℕ) → Action W Error (Unit {0})
  unfolding request
  assign_device domid sbdf flags = do
    request H x domid DomCtlValue.assign_device xen_domctl_assign_device (record {
      device = domctl_dev_pci;
      flags = flags;
      pci_assign_device = record { sbdf = sbdf; padding = 0 };
    })
    pure tt

  unfoldable pub get_hvm_context : ℕ → Option (List ℕ) → Action W Error ℕ
  unfolding request
  get_hvm_context domid buffer = do
    domctl' ← request H x domid DomCtlValue.hvm_context xen_domctl_gethvmcontext (context_of buffer)
    pure domctl'.value.size

  unfoldable pub set_hvm_context : ℕ → List ℕ → Action W Error ℕ
  unfolding request
  set_hvm_context domid buffer = do
    domctl' ←
        request H x domid DomCtlValue.hvm_context xen_domctl_sethvmcontext
          (record { size = length buffer % 2 ^ 32; buffer = buffer })
    pure domctl'.value.size

  unfoldable pub set_paging_mempool_size : (domid size : ℕ) → Action W Error (Unit {0})
  unfolding request
  set_paging_mempool_size domid size = do
    request H x domid DomCtlValue.paging_mempool xen_domctl_set_paging_mempool_size
        (record { size = size })
    pure tt
