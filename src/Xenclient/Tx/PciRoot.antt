-- ===== src/Xenclient/Tx/PciRoot.antt =====
-- crates/xen/xenclient/src/tx/pci.rs: the PCI devices that a domain gets. `prepare` gives the domain their ports, frames
-- and interrupts; the description of the devices is written with the transaction. The file system and the hypervisor
-- are parameters, on one state.
pub mod Granted
use krata.Prelude.{
  ℕ, zero, suc, ◌+◌, ◌-◌, ◌%◌, ◌/◌, ◌^◌, Bool, true, false, Option, none, some, List, [], ◌∷◌, ◌++◌,
  length, if◌then◌else◌, Outcome, ok, err, panic,
}
use krata.Prelude.Effect.{Action, ◌>>=◌, ◌>>◌, pure, raise}
use krata.Prelude.Text.{bytes}
use krata.Prelude.Text.Decimal
use krata.Prelude.Text.Hex.{format_hex}
use krata.Xencall
use krata.Xencall.Hypercall.{Hypervisor, Structure, Contents, Arg}
use krata.Xencall.Versions.{XenCall}
use krata.Xencall.Domctl.Devices.{
  iomem_permission, ioport_permission, irq_permission, assign_device,
}
use krata.Xencall.MemoryOp.{map_pirq}
use krata.Xenclient.Tx.{
  TxError, xen_call, pci_device_not_assignable, DeviceDescription, new_device, add_backend_item,
  add_backend_bool, add_frontend_item,
}
use krata.Xenclient.Pci.{PciBdf, encode}
use krata.Xenclient.Pci.Text.{to_string}
use krata.Xenclient.Pci.Backend.{
  Files, PciMemoryResource, is_bar_io, size, is_assigned, read_irq, read_resources, reset,
  enable_permissive,
}

pub data PciRdmReservePolicy : Type 0 where
  invalid strict relaxed : PciRdmReservePolicy

unfoldable pub to_option_str : PciRdmReservePolicy → List ℕ
to_option_str invalid = bytes "-1"
to_option_str strict = bytes "0"
to_option_str relaxed = bytes "1"

-- `DOMCTL_DEV_RDM_RELAXED` or no flag.
abbrev pub rdm_flags : PciRdmReservePolicy → ℕ
rdm_flags invalid = 0
rdm_flags strict = 0
rdm_flags relaxed = 1

pub record PciDeviceConfig : Type 0 where
  pub bdf : PciBdf
  pub rdm_reserve_policy : PciRdmReservePolicy
  pub permissive : Bool
  pub msi_translate : Bool
  pub power_management : Bool

pub record PciRootDeviceConfig : Type 0 where
  pub backend_type : List ℕ
  pub devices : List PciDeviceConfig

-- The number of frames that a memory resource of so many bytes is granted; `XEN_PAGE_SHIFT` is 12.
unfoldable pub frames_of_size : ℕ → ℕ
frames_of_size bytes_of = (bytes_of + (12 - 1)) % 2 ^ 64 / 2 ^ 12

module _ (F : Files)
    (hypercall : (s : Structure)
      → ℕ
      → List Arg
      → Contents s
      → F.W
      → Outcome ℕ ℕ × (Contents s × F.W))
    (mmap_resource : (dom typ id idx num addr : ℕ) → F.W → Outcome ℕ ℕ × F.W) (x : XenCall) where
  open F use {W}

  abbrev pub hypervisor : Hypervisor
  hypervisor = record { W = W; hypercall = hypercall; mmap_resource = mmap_resource }

  -- `?` on a result of xencall.
  abbrev pub from_xencall : {A : Type 0} → Outcome Xencall.Error A × W → Outcome TxError A × W
  from_xencall (ok a, w) = (ok a, w)
  from_xencall (err e, w) = (err (xen_call e), w)
  from_xencall (panic, w) = (panic, w)

  unfoldable pub grant_resource : ℕ → PciMemoryResource → Action W TxError (Unit {0})
  unfolding is_bar_io size frames_of_size
  grant_resource domid resource w = from_xencall (
      (if is_bar_io resource
          then ioport_permission hypervisor x domid (resource.start % 2 ^ 32)
              (size resource % 2 ^ 32) true
          else iomem_permission hypervisor x domid (resource.start / 2 ^ 12)
              (frames_of_size (size resource)) true)
        w)

  unfoldable pub grant_resources : ℕ → List PciMemoryResource → Action W TxError (Unit {0})
  unfolding grant_resource
  grant_resources domid [] = pure tt
  grant_resources domid (resource ∷ resources) = do
    grant_resource domid resource
    grant_resources domid resources

  abbrev pub grant_irq : ℕ → Option ℕ → Action W TxError (Unit {0})
  grant_irq domid none w = (ok tt, w)
  grant_irq domid (some irq) w = from_xencall (
      (do pirq ← map_pirq hypervisor domid irq none; irq_permission hypervisor x domid pirq true) w)

  unfoldable pub prepare_device : ℕ → PciDeviceConfig → Action W TxError (Unit {0})
  unfolding is_assigned read_resources read_irq reset enable_permissive grant_resources encode
  prepare_device domid device = do
    assigned ← is_assigned F device.bdf
    if assigned then pure tt else raise pci_device_not_assignable
    resources ← read_resources F device.bdf
    grant_resources domid resources
    irq ← read_irq F device.bdf
    grant_irq domid irq
    reset F device.bdf
    λ w. from_xencall (
        assign_device hypervisor x domid (encode device.bdf) (rdm_flags device.rdm_reserve_policy)
          w)
    if device.permissive then enable_permissive F device.bdf else pure tt

  unfoldable pub prepare : ℕ → List PciDeviceConfig → Action W TxError (Unit {0})
  unfolding prepare_device
  prepare domid [] = pure tt
  prepare domid (device ∷ devices) = do prepare_device domid device; prepare domid devices

abbrev pub flag : Bool → List ℕ
flag true = bytes "1"
flag false = bytes "0"

-- The options in the order in which they are inserted.
unfoldable pub options : PciDeviceConfig → List ℕ
unfolding to_option_str
options pci =
    bytes "permissive="
    ++ (flag pci.permissive
        ++ (bytes ",rdm_policy="
            ++ (to_option_str pci.rdm_reserve_policy
                ++ (bytes ",msitranslate=" ++ flag pci.msi_translate))))

abbrev pub with_index : List ℕ → ℕ → List ℕ
with_index key index = key ++ krata.Prelude.Text.Decimal.to_string index

abbrev pub add_vdefn : ℕ → Option ℕ → DeviceDescription → DeviceDescription
add_vdefn index none d = d
add_vdefn index (some vdefn) d =
    add_backend_item (with_index (bytes "vdefn-") index) (bytes "0x" ++ format_hex 1 vdefn) d

-- The devices from an index on.
unfoldable pub add_devices : ℕ → List PciDeviceConfig → DeviceDescription → DeviceDescription
unfolding options add_backend_item to_string
add_devices index [] d = d
add_devices index (pci ∷ devices) d = add_devices (suc index) devices (
    add_vdefn index pci.bdf.vdefn (
      add_backend_item (with_index (bytes "opts-") index) (options pci) (
        add_backend_item (with_index (bytes "dev-") index) (to_string pci.bdf)
          (add_backend_item (with_index (bytes "key-") index) (to_string pci.bdf) d))))

-- The description that `add_to_transaction` writes for the root device.
unfoldable pub root_device : PciRootDeviceConfig → DeviceDescription
unfolding add_devices new_device add_backend_item add_backend_bool add_frontend_item
root_device config = add_frontend_item (bytes "state") (bytes "1") (
    add_devices 0 config.devices (
      add_backend_item (bytes "num_devs")
        (krata.Prelude.Text.Decimal.to_string (length config.devices))
        (add_backend_item (bytes "state") (bytes "1")
          (add_backend_bool (bytes "online") true (new_device (bytes "pci") config.backend_type)))))
