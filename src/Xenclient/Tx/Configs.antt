-- ===== src/Xenclient/Tx/Configs.antt =====
-- crates/xen/xenclient/src/tx/vbd.rs, vif.rs, channel.rs, fs9p.rs and pci.rs: the devices that a transaction adds, each
-- from its configuration. The functions that set one field of a configuration are its record updates.
pub mod Numbers
use krata.Prelude.{
  ℕ, ◌+◌, ◌*◌, ◌%◌, ◌^◌, bit_or, Bool, true, false, Option, none, some, List, [], ◌∷◌, ◌++◌, leb,
  if◌then◌else◌, Outcome, ok, err, panic, ok_or, or_panic,
}
use krata.Prelude.Effect.{Action, ◌>>=◌, ◌>>◌, pure, lift}
use krata.Prelude.Text.{bytes}
use krata.Prelude.Text.Decimal.{to_string}
use krata.Prelude.Text.Hex.{format_hex}
use krata.Xenstore.Message.{XsdMessage}
use krata.Xenstore.Sys
use krata.Xenclient.DevAlloc.BitVec.{BitVecApi}
use krata.Xenclient.DiskName.{vbd_blkidx_to_disk_name}
use krata.Xenclient.Tx.{
  TxError, parameter_missing, DeviceDescription, new_device, set_special_frontend_path,
  add_backend_item, add_backend_bool, add_frontend_item, add_frontend_bool, Tx, assign_next_devid,
  assign_next_blkidx,
}
use krata.Xenclient.Tx.Devices.{add_device}
use krata.Xenclient.Tx.PciRoot.{PciRootDeviceConfig, root_device}

pub record BlockDeviceRef : Type 0 where
  pub path : List ℕ
  pub major : ℕ
  pub minor : ℕ

pub record VbdDeviceConfig : Type 0 where
  pub backend_type : List ℕ
  pub removable : Bool
  pub bootable : Bool
  pub writable : Bool
  pub discard : Bool
  pub trusted : Bool
  pub block_device : Option BlockDeviceRef

pub record VifDeviceConfig : Type 0 where
  pub backend_type : List ℕ
  pub mac : Option (List ℕ)
  pub mtu : Option ℕ
  pub script : Option (List ℕ)
  pub bridge : Option (List ℕ)
  pub trusted : Bool

pub record ChannelDeviceConfig : Type 0 where
  pub backend_type : List ℕ
  pub default_console : Bool
  pub default_console_options : Option (ℕ × ℕ)
  pub backend_initialized : Bool

pub record Fs9pDeviceConfig : Type 0 where
  pub backend_type : List ℕ
  pub security_model : List ℕ
  pub path : Option (List ℕ)
  pub tag : Option (List ℕ)

-- `format!("{}", b)` of a Boolean.
abbrev pub bool_string : Bool → List ℕ
bool_string true = bytes "true"
bool_string false = bytes "false"

-- The number of a virtual disk and the key that it is written under.
unfoldable pub vdev_of : ℕ → ℕ × List ℕ
vdev_of idx =
    if leb idx 5
    then (bit_or (202 * 2 ^ 8) (idx * 16), bytes "virtual-device")
    else (2 ^ 28 + idx * 256, bytes "virtual-device-ext")

unfoldable pub vbd_device :
    VbdDeviceConfig → BlockDeviceRef → (idx : ℕ) → (vdev : List ℕ) → DeviceDescription
unfolding vdev_of add_backend_item add_backend_bool add_frontend_item add_frontend_bool new_device
vbd_device config block_device idx vdev =
    let (number, vd_key) = vdev_of idx in
    add_frontend_item (bytes "x-index") (to_string idx) (
      add_frontend_item (bytes "protocol") (bytes "x86_64-abi") (
        add_frontend_bool (bytes "trusted") config.trusted (
          add_frontend_item (bytes "device-type") (bytes "disk") (
            add_frontend_item (bytes "state") (bytes "1") (
              add_frontend_item vd_key (to_string number) (
                add_backend_item (bytes "state") (bytes "1") (
                  add_backend_item (bytes "dev") vdev (
                    add_backend_item (bytes "physical-device")
                      (format_hex 2 block_device.major ++ (58 ∷ format_hex 2 block_device.minor))
                      (add_backend_item (bytes "mode")
                        (if config.writable then bytes "w" else bytes "r")
                        (add_backend_item (bytes "physical-device-path") block_device.path (
                          add_backend_item (bytes "specification") (bytes "xen") (
                            add_backend_item (bytes "discard-enable") (bool_string config.discard) (
                              add_backend_item (bytes "device-type") (bytes "disk") (
                                add_backend_item (bytes "type") (bytes "phy") (
                                  add_backend_bool (bytes "bootable") config.bootable (
                                    add_backend_bool (bytes "removable") config.removable (
                                      add_backend_item (bytes "online") (bytes "1") (
                                        new_device (bytes "vbd")
                                          config.backend_type))))))))))))))))))

abbrev pub add_bridge : Option (List ℕ) → DeviceDescription → DeviceDescription
add_bridge none d = d
add_bridge (some bridge) d = add_backend_item (bytes "bridge") bridge d

abbrev pub add_script : Option (List ℕ) → DeviceDescription → DeviceDescription
add_script (some script) d =
    add_backend_item (bytes "hotplug-status") [] (add_backend_item (bytes "script") script d)
add_script none d =
    add_backend_item (bytes "hotplug-status") (bytes "connected")
      (add_backend_item (bytes "script") [] d)

unfoldable pub vif_device : VifDeviceConfig → (mac mtu : List ℕ) → (id : ℕ) → DeviceDescription
unfolding add_backend_item add_frontend_item add_frontend_bool new_device
vif_device config mac mtu id = add_frontend_bool (bytes "trusted") config.trusted (
    add_frontend_item (bytes "mtu") mtu (
      add_frontend_item (bytes "mac") mac (
        add_frontend_item (bytes "state") (bytes "1") (
          add_script config.script (
            add_bridge config.bridge (
              add_backend_item (bytes "handle") (to_string id) (
                add_backend_item (bytes "type") (bytes "vif") (
                  add_backend_item (bytes "mtu") mtu (
                    add_backend_item (bytes "mac") mac (
                      add_backend_item (bytes "state") (bytes "1") (
                        add_backend_item (bytes "online") (bytes "1")
                          (new_device (bytes "vif") config.backend_type))))))))))))

abbrev pub console_frontend :
    Bool → Option (ℕ × ℕ) → DeviceDescription → Outcome TxError DeviceDescription
console_frontend false options d = ok d
console_frontend true none d = err (parameter_missing "default_console_options")
console_frontend true (some (port, ring_ref)) d = ok (
    add_frontend_item (bytes "ring-ref") (to_string ring_ref) (
      add_frontend_item (bytes "port") (to_string port)
        (set_special_frontend_path (bytes "console") d)))

unfoldable pub channel_backend : ChannelDeviceConfig → DeviceDescription
unfolding add_backend_item add_backend_bool new_device
channel_backend config =
    add_backend_item (bytes "state") (if config.backend_initialized then bytes "4" else bytes "1") (
      add_backend_item (bytes "type") config.backend_type (
        add_backend_item (bytes "protocol") (bytes "vt100") (
          add_backend_bool (bytes "online") true
            (new_device (bytes "console") config.backend_type))))

unfoldable pub channel_frontend : ChannelDeviceConfig → DeviceDescription → DeviceDescription
unfolding add_frontend_item
channel_frontend config d = add_frontend_item (bytes "state") (bytes "1") (
    add_frontend_item (bytes "type") config.backend_type (
      add_frontend_item (bytes "tty") [] (
        add_frontend_item (bytes "output") (bytes "pty")
          (add_frontend_item (bytes "limit") (to_string 1048576) d))))

unfoldable pub fs9p_device : Fs9pDeviceConfig → (path tag : List ℕ) → DeviceDescription
unfolding add_backend_item add_backend_bool add_frontend_item new_device
fs9p_device config path tag = add_frontend_item (bytes "tag") tag (
    add_frontend_item (bytes "state") (bytes "1") (
      add_backend_item (bytes "security_model") config.security_model (
        add_backend_item (bytes "path") path (
          add_backend_item (bytes "state") (bytes "1") (
            add_backend_bool (bytes "online") true
              (new_device (bytes "9pfs") config.backend_type))))))

module _ (B : BitVecApi) (W : Type 0)
    (send_buf : ℕ → ℕ → List ℕ → Action W krata.Xenstore.Sys.Error XsdMessage) where
  -- The id and the index of the device.
  unfoldable pub add_vbd : VbdDeviceConfig → Tx B W send_buf (ℕ × ℕ)
  unfolding assign_next_devid assign_next_blkidx vbd_device
  add_vbd config = do
    id ← assign_next_devid B W send_buf
    idx ← assign_next_blkidx B W send_buf
    vdev ← lift (or_panic (vbd_blkidx_to_disk_name idx))
    block_device ← lift (ok_or config.block_device (parameter_missing "block device"))
    add_device B W send_buf id (vbd_device config block_device idx vdev)
    pure (id, idx)

  -- What is left of `add_to_transaction` when the id is assigned.
  unfoldable pub vif_with : VifDeviceConfig → ℕ → Tx B W send_buf ℕ
  unfolding vif_device
  vif_with config id = do
    mac ← lift (ok_or config.mac (parameter_missing "mac address"))
    mtu ← lift (ok_or config.mtu (parameter_missing "mtu"))
    add_device B W send_buf id (vif_device config mac (to_string mtu) id)
    pure id

  unfoldable pub add_vif : VifDeviceConfig → Tx B W send_buf ℕ
  unfolding assign_next_devid vif_with
  add_vif config = do id ← assign_next_devid B W send_buf; vif_with config id

  unfoldable pub add_channel : ChannelDeviceConfig → Tx B W send_buf ℕ
  unfolding assign_next_devid channel_backend channel_frontend
  add_channel config = do
    id ← assign_next_devid B W send_buf
    device ← lift (
        console_frontend config.default_console config.default_console_options
          (channel_backend config))
    add_device B W send_buf id (channel_frontend config device)
    pure id

  unfoldable pub add_fs9p : Fs9pDeviceConfig → Tx B W send_buf ℕ
  unfolding assign_next_devid fs9p_device
  add_fs9p config = do
    id ← assign_next_devid B W send_buf
    path ← lift (ok_or config.path (parameter_missing "path"))
    tag ← lift (ok_or config.tag (parameter_missing "tag"))
    add_device B W send_buf id (fs9p_device config path tag)
    pure id

  unfoldable pub add_pci_root : PciRootDeviceConfig → Tx B W send_buf ℕ
  unfolding assign_next_devid root_device
  add_pci_root config = do
    id ← assign_next_devid B W send_buf
    add_device B W send_buf id (root_device config)
    pure id
