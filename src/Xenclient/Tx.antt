-- ===== src/Xenclient/Tx.antt =====
-- crates/xen/xenclient/src/tx/mod.rs: a transaction of the store that describes a domain and its devices,
-- with the two id allocators that it loads and stores. The locks around the allocators are held for
-- one call each. A `HashMap` of items is a list in the order in which it is gone through.
pub mod Devices
pub mod PciRoot
pub mod Configs
pub mod Ids
mod Tests
use Prim.Native.String.{String}
use krata.Prelude.{
  ℕ, zero, suc, ◌+◌, ◌*◌, ◌%◌, ◌^◌, Bool, true, false, Option, none, some, List, [], ◌∷◌, ◌++◌, ltb,
  if◌then◌else◌, Outcome, ok, err, panic, OutOfFuel, out_of_fuel,
}
use krata.Prelude.Effect.{Action, ◌>>=◌, ◌>>◌, pure, gets, modify}
use krata.Prelude.Text.{bytes, bytes_eq}
use krata.Prelude.Text.Decimal.{to_string}
use krata.Xenstore.Message.{XsdMessage}
use krata.Xenstore.Client.{XsPermission, xs_perm_none, xs_perm_read, xs_perm_read_write}
use krata.Xenclient.DevAlloc.BitVec.{BitVecApi}
use krata.Xenclient.DevAlloc.{DeviceIdAllocator, deserialize, serialize, allocate, release}
use krata.Xenstore.Client
use krata.Xencall
use krata.Xenstore.Sys
use krata.Xenclient.DevAlloc

-- crates/xen/xenclient/src/error.rs; what an error of another library carries is left out.
pub data TxError : Type 0 where
  io : TxError
  xen_store : krata.Xenstore.Sys.Error → TxError
  xen_call : Xencall.Error → TxError
  tty_not_found introduce_domain_failed path_string_conversion path_parent_not_found : TxError
  domain_non_existent : TxError
  memory_setup_failed : String → TxError
  populate_physmap_failed : (wanted received extents : ℕ) → TxError
  elf_compression_unknown elf_invalid_image elf_xen_support_missing regex_error : TxError
  generic_error parameter_missing : String → TxError
  parse_int_error invalid_pci_bdf_string pci_device_not_assignable xen_platform invalid_block_idx :
      TxError
  dev_state_wait_error : String → TxError
  dev_id_exhausted : TxError

-- `format!("{}/{}", a, b)`.
abbrev pub slash : List ℕ → List ℕ → List ℕ
slash a b = a ++ 47 ∷ b

pub record DeviceDescription : Type 0 where
  pub frontend_type : List ℕ
  pub backend_type : List ℕ
  pub special_frontend_path : Option (List ℕ)
  pub frontend_items : List (List ℕ × List ℕ)
  pub backend_items : List (List ℕ × List ℕ)

pub new_device : List ℕ → List ℕ → DeviceDescription
new_device frontend_type backend_type = record {
  frontend_type = frontend_type;
  backend_type = backend_type;
  special_frontend_path = none;
  frontend_items = [];
  backend_items = [];
}

-- `HashMap::insert`.
unfoldable pub insert_item : List ℕ → List ℕ → List (List ℕ × List ℕ) → List (List ℕ × List ℕ)
insert_item key value [] = (key, value) ∷ []
insert_item key value (item ∷ items) =
    let rest = insert_item key value items in
    if bytes_eq item.0 key then (key, value) ∷ items else item ∷ rest

pub set_special_frontend_path : List ℕ → DeviceDescription → DeviceDescription
set_special_frontend_path path d = record d { special_frontend_path = some path }

pub add_frontend_item : List ℕ → List ℕ → DeviceDescription → DeviceDescription
unfolding insert_item
add_frontend_item key value d = record d { frontend_items = insert_item key value d.frontend_items }

pub add_backend_item : List ℕ → List ℕ → DeviceDescription → DeviceDescription
unfolding insert_item
add_backend_item key value d = record d { backend_items = insert_item key value d.backend_items }

pub add_frontend_bool : List ℕ → Bool → DeviceDescription → DeviceDescription
unfolding add_frontend_item
add_frontend_bool key value d = add_frontend_item key (if value then bytes "1" else bytes "0") d

pub add_backend_bool : List ℕ → Bool → DeviceDescription → DeviceDescription
unfolding add_backend_item
add_backend_bool key value d = add_backend_item key (if value then bytes "1" else bytes "0") d

-- What `add_domain_declaration` reads of the configuration of a domain.
pub record DomainDeclaration : Type 0 where
  pub name : Option (List ℕ)
  pub uuid : List ℕ
  pub max_memory_mb : ℕ
  pub assigned_memory_mb : ℕ
  pub max_vcpus : ℕ
  pub assigned_vcpus : ℕ
  pub store_evtchn : ℕ
  pub store_mfn : ℕ

module _ (B : BitVecApi) where
  pub record XenTransaction : Type 0 where
    pub frontend_domid : ℕ
    pub frontend_dom_path : List ℕ
    pub backend_domid : ℕ
    pub backend_dom_path : List ℕ
    pub blkalloc : DeviceIdAllocator B
    pub devalloc : DeviceIdAllocator B
    pub tx : ℕ
    pub abort : Bool

  -- The answer of an allocator, with its next state. Its search does not run out of fuel.
  abbrev pub assigned :
      {S : Type 0}
      → (DeviceIdAllocator B → S)
      → S
      → Outcome OutOfFuel (Option ℕ × DeviceIdAllocator B)
      → Outcome TxError ℕ × S
  assigned f s (ok (some id, a)) = (ok id, f a)
  assigned f s (ok (none, a)) = (err dev_id_exhausted, f a)
  assigned f s (err out_of_fuel) = (panic, s)
  assigned f s panic = (panic, s)

  abbrev pub released :
      {S : Type 0}
      → (DeviceIdAllocator B → S)
      → S
      → Outcome OutOfFuel (DeviceIdAllocator B)
      → Outcome TxError (Unit {0}) × S
  released f s (ok a) = (ok tt, f a)
  released f s (err out_of_fuel) = (panic, s)
  released f s panic = (panic, s)

  abbrev pub or_new : Option (DeviceIdAllocator B) → DeviceIdAllocator B
  or_new none = krata.Xenclient.DevAlloc.new B
  or_new (some a) = a

  abbrev pub loaded : Option (List ℕ) → DeviceIdAllocator B
  loaded none = krata.Xenclient.DevAlloc.new B
  loaded (some state) = or_new (deserialize B state)

  module _ (W : Type 0)
      (send_buf : ℕ → ℕ → List ℕ → Action W krata.Xenstore.Sys.Error XsdMessage) where
    abbrev pub Tx : Type 0 → Type 0
    Tx A = Action (XenTransaction × W) TxError A

    abbrev pub beside :
        {S A : Type 0} → S → Outcome krata.Xenstore.Sys.Error A × W → Outcome TxError A × (S × W)
    beside t (ok a, w) = (ok a, (t, w))
    beside t (err e, w) = (err (xen_store e), (t, w))
    beside t (panic, w) = (panic, (t, w))

    -- A call of the transaction's store, by its id.
    abbrev pub on_tx : {A : Type 0} → (ℕ → Action W krata.Xenstore.Sys.Error A) → Tx A
    on_tx f (t, w) = beside t (f t.tx w)

    abbrev pub mknod : List ℕ → List XsPermission → Tx Bool
    mknod path perms = on_tx (λ tx. krata.Xenstore.Client.mknod W send_buf tx path perms)

    abbrev pub write_string : List ℕ → List ℕ → Tx Bool
    write_string path value =
        on_tx (λ tx. krata.Xenstore.Client.write_string W send_buf tx path value)

    abbrev pub write_bytes : List ℕ → List ℕ → Tx Bool
    write_bytes path value = on_tx (λ tx. krata.Xenstore.Client.write W send_buf tx path value)

    abbrev pub rm : List ℕ → Tx Bool
    rm path = on_tx (λ tx. krata.Xenstore.Client.rm W send_buf tx path)

    abbrev pub mkdir : List ℕ → Tx Bool
    mkdir path = on_tx (λ tx. krata.Xenstore.Client.mkdir W send_buf tx path)

    abbrev pub set_perms : List ℕ → List XsPermission → Tx Bool
    set_perms path perms = on_tx (λ tx. krata.Xenstore.Client.set_perms W send_buf tx path perms)

    abbrev pub alloc_path : List ℕ → List ℕ → List ℕ
    alloc_path dom_path allocator_type = slash dom_path (allocator_type ++ bytes "-alloc-state")

    abbrev pub load_result :
        Outcome krata.Xenstore.Sys.Error (Option (List ℕ)) × W
        → Outcome krata.Xenstore.Sys.Error (DeviceIdAllocator B) × W
    load_result (ok state, w) = (ok (loaded state), w)
    load_result (err e, w) = (err e, w)
    load_result (panic, w) = (panic, w)

    pub load_id_allocator :
        ℕ → List ℕ → List ℕ → Action W krata.Xenstore.Sys.Error (DeviceIdAllocator B)
    load_id_allocator tx allocator_type dom_path w =
        load_result
          (krata.Xenstore.Client.read W send_buf tx (alloc_path dom_path allocator_type) w)

    pub assign_next_devid : Tx ℕ
    assign_next_devid (t, w) =
        assigned (λ a. (record t { devalloc = a }, w)) (t, w) (allocate B t.devalloc)

    pub assign_next_blkidx : Tx ℕ
    assign_next_blkidx (t, w) =
        assigned (λ a. (record t { blkalloc = a }, w)) (t, w) (allocate B t.blkalloc)

    -- `devid as u32`.
    pub release_devid : ℕ → Tx (Unit {0})
    release_devid devid (t, w) =
        released (λ a. (record t { devalloc = a }, w)) (t, w)
          (release B t.devalloc (devid % 2 ^ 32))

    pub release_blkid : ℕ → Tx (Unit {0})
    release_blkid blkid (t, w) =
        released (λ a. (record t { blkalloc = a }, w)) (t, w) (release B t.blkalloc blkid)

    pub before_commit : Tx (Unit {0})
    before_commit = do
      t ← gets (λ s. s.0)
      write_bytes (slash t.frontend_dom_path (bytes "devid-alloc-state")) (serialize B t.devalloc)
      write_bytes (slash t.frontend_dom_path (bytes "blkid-alloc-state")) (serialize B t.blkalloc)
      pure tt

    abbrev pub keep : Tx (Unit {0})
    keep = modify (λ s. (record s.0 { abort = false }, s.1))

    pub maybe_commit : Tx Bool
    unfolding before_commit
    maybe_commit = do
      keep
      before_commit
      on_tx (λ tx. krata.Xenstore.Client.maybe_commit W send_buf tx)

    pub commit : Tx (Unit {0})
    unfolding before_commit
    commit = do
      keep
      before_commit
      on_tx (λ tx. krata.Xenstore.Client.commit W send_buf tx)
      pure tt
