-- ===== src/Xenclient/Tx/Devices.antt =====
-- crates/xen/xenclient/src/tx/mod.rs: how a transaction begins, and what it writes for a domain and for
-- a device.
use krata.Prelude.{
  ℕ, zero, suc, ◌*◌, ◌%◌, ◌^◌, true, Option, none, some, List, [], ◌∷◌, ◌++◌, ltb, if◌then◌else◌,
  Outcome, ok, err, panic,
}
use krata.Prelude.Effect.{Action, ◌>>=◌, ◌>>◌, pure, gets}
use krata.Prelude.Text.{bytes}
use krata.Prelude.Text.Decimal.{to_string}
use krata.Xenstore.Message.{XsdMessage}
use krata.Xenstore.Client.{XsPermission, xs_perm_none, xs_perm_read, xs_perm_read_write}
use krata.Xenstore.Client
use krata.Xenstore.Sys
use krata.Xenclient.DevAlloc.BitVec.{BitVecApi}
use krata.Xenclient.Tx.{
  TxError, xen_store, slash, DeviceDescription, DomainDeclaration, XenTransaction, Tx, mknod,
  write_string, rm, mkdir, set_perms, load_id_allocator,
}

module _ (B : BitVecApi) (W : Type 0)
    (send_buf : ℕ → ℕ → List ℕ → Action W krata.Xenstore.Sys.Error XsdMessage) where
  abbrev pub from_store :
      {A : Type 0} → Outcome krata.Xenstore.Sys.Error A × W → Outcome TxError A × W
  from_store (ok a, w) = (ok a, w)
  from_store (err e, w) = (err (xen_store e), w)
  from_store (panic, w) = (panic, w)

  abbrev pub on_store : {A : Type 0} → Action W krata.Xenstore.Sys.Error A → Action W TxError A
  on_store f w = from_store (f w)

  -- `XenTransaction::new`.
  pub begin : ℕ → ℕ → Action W TxError (XenTransaction B)
  begin frontend_domid backend_domid = do
    frontend_dom_path ← on_store (krata.Xenstore.Client.get_domain_path W send_buf frontend_domid)
    backend_dom_path ← on_store (krata.Xenstore.Client.get_domain_path W send_buf backend_domid)
    tx ← on_store (krata.Xenstore.Client.transaction W send_buf)
    devalloc ← on_store (load_id_allocator B W send_buf tx (bytes "devid") frontend_dom_path)
    blkalloc ← on_store (load_id_allocator B W send_buf tx (bytes "blkid") frontend_dom_path)
    pure (record {
      frontend_domid = frontend_domid;
      frontend_dom_path = frontend_dom_path;
      backend_domid = backend_domid;
      backend_dom_path = backend_dom_path;
      blkalloc = blkalloc;
      devalloc = devalloc;
      tx = tx;
      abort = true;
    })

  abbrev pub Write : Type 0 → Type 0
  Write A = Tx B W send_buf A

  abbrev pub write_path : List ℕ → Option (List XsPermission) → List ℕ → Write (Unit {0})
  write_path path none value = do write_string B W send_buf path value; pure tt
  write_path path (some perms) [] = do mknod B W send_buf path perms; pure tt
  write_path path (some perms) (c ∷ value) = do
    mknod B W send_buf path perms
    write_string B W send_buf path (c ∷ value)
    pure tt

  -- An item of the frontend: with permissions, an empty value is what `mknod` has written.
  pub write : List ℕ → List ℕ → Option (List XsPermission) → Write (Unit {0})
  write key value perms (t, w) = write_path (slash t.frontend_dom_path key) perms value (t, w)

  abbrev pub perm : ℕ → ℕ → XsPermission
  perm id perms = record { id = id; perms = perms }

  -- The processors from `i` on, `n` of them.
  pub add_cpus : ℕ → ℕ → ℕ → List ℕ → List XsPermission → Write (Unit {0})
  add_cpus zero i assigned_vcpus dom_path ro_perm = pure tt
  add_cpus (suc n) i assigned_vcpus dom_path ro_perm = do
    mkdir B W send_buf (slash (slash dom_path (bytes "cpu")) (to_string i))
    set_perms B W send_buf (slash (slash dom_path (bytes "cpu")) (to_string i)) ro_perm
    write_string B W send_buf
        (slash (slash (slash dom_path (bytes "cpu")) (to_string i)) (bytes "availability"))
        (if ltb i assigned_vcpus then bytes "online" else bytes "offline")
    set_perms B W send_buf
        (slash (slash (slash dom_path (bytes "cpu")) (to_string i)) (bytes "availability")) ro_perm
    add_cpus n (suc i) assigned_vcpus dom_path ro_perm

  abbrev pub write_name : Option (List ℕ) → List XsPermission → Write (Unit {0})
  write_name none perms = pure tt
  write_name (some name) perms = write (bytes "name") name (some perms)

  -- The empty nodes with these permissions.
  pub write_nodes : List (List ℕ) → List XsPermission → Write (Unit {0})
  unfolding write
  write_nodes [] perms = pure tt
  write_nodes (key ∷ keys) perms = do write key [] (some perms); write_nodes keys perms

  abbrev pub rw_nodes : List (List ℕ)
  rw_nodes =
      bytes "control/shutdown"
      ∷ bytes "control/feature-poweroff"
      ∷ bytes "control/feature-reboot"
      ∷ bytes "control/feature-suspend"
      ∷ bytes "control/sysrq"
      ∷ bytes "data"
      ∷ bytes "drivers"
      ∷ bytes "feature"
      ∷ bytes "attr"
      ∷ bytes "error"
      ∷ []

  pub add_domain_declaration : DomainDeclaration → Write (Unit {0})
  unfolding write write_nodes add_cpus
  add_domain_declaration d = do
    t ← gets (λ s. s.0)
    let vm_path = bytes "/vm/" ++ d.uuid
    let ro_perm = perm 0 xs_perm_none ∷ perm t.frontend_domid xs_perm_read ∷ []
    let no_perm = perm 0 xs_perm_none ∷ []
    let rw_perm = perm t.frontend_domid xs_perm_read_write ∷ []
    rm B W send_buf t.frontend_dom_path
    mknod B W send_buf t.frontend_dom_path ro_perm
    rm B W send_buf vm_path
    mknod B W send_buf vm_path no_perm
    write_string B W send_buf (slash vm_path (bytes "uuid")) d.uuid
    write (bytes "vm") vm_path none
    write_nodes (bytes "cpu" ∷ bytes "memory" ∷ bytes "control" ∷ []) ro_perm
    write_nodes rw_nodes rw_perm
    write (bytes "uuid") d.uuid (some ro_perm)
    write_name d.name ro_perm
    write (bytes "memory/static-max") (to_string (d.max_memory_mb * 1024 % 2 ^ 64)) none
    write (bytes "memory/target") (to_string (d.assigned_memory_mb * 1024 % 2 ^ 64)) none
    write (bytes "memory/videoram") (bytes "0") none
    write (bytes "domid") (to_string t.frontend_domid) none
    write (bytes "type") (bytes "PV") none
    write (bytes "store/port") (to_string d.store_evtchn) none
    write (bytes "store/ring-ref") (to_string d.store_mfn) none
    add_cpus d.max_vcpus 0 d.assigned_vcpus t.frontend_dom_path ro_perm

  abbrev pub frontend_path : XenTransaction B → ℕ → DeviceDescription → List ℕ
  frontend_path t id device = elim device.special_frontend_path [
    | none ↦
        slash (slash (slash t.frontend_dom_path (bytes "device")) device.frontend_type)
          (to_string id)
    | some path ↦ slash t.frontend_dom_path path
  ]

  abbrev pub backend_path : XenTransaction B → ℕ → DeviceDescription → List ℕ
  backend_path t id device =
      slash
        (slash (slash (slash t.backend_dom_path (bytes "backend")) device.backend_type)
          (to_string t.frontend_domid))
        (to_string id)

  pub add_backend_items : List ℕ → List (List ℕ × List ℕ) → Write (Unit {0})
  add_backend_items path [] = pure tt
  add_backend_items path (item ∷ items) = do
    write_string B W send_buf (slash path item.0) item.1
    add_backend_items path items

  -- Items get the permissions of their device, unless its frontend path is a special one.
  pub add_frontend_items :
      Option (List ℕ) → List ℕ → List XsPermission → List (List ℕ × List ℕ) → Write (Unit {0})
  add_frontend_items special path perms [] = pure tt
  add_frontend_items none path perms (item ∷ items) = do
    write_string B W send_buf (slash path item.0) item.1
    set_perms B W send_buf (slash path item.0) perms
    add_frontend_items none path perms items
  add_frontend_items (some p) path perms (item ∷ items) = do
    write_string B W send_buf (slash path item.0) item.1
    add_frontend_items (some p) path perms items

  pub add_device : ℕ → DeviceDescription → Write (Unit {0})
  unfolding add_backend_items add_frontend_items
  add_device id device = do
    t ← gets (λ s. s.0)
    let front = frontend_path t id device
    let back = backend_path t id device
    let frontend_perms =
        perm t.frontend_domid xs_perm_read_write ∷ perm t.backend_domid xs_perm_read ∷ []
    let backend_perms =
        perm t.backend_domid xs_perm_read_write ∷ perm t.frontend_domid xs_perm_read ∷ []
    mknod B W send_buf front frontend_perms
    mknod B W send_buf back backend_perms
    add_backend_items back device.backend_items
    write_string B W send_buf (slash back (bytes "frontend")) front
    write_string B W send_buf (slash back (bytes "frontend-id")) (to_string t.frontend_domid)
    add_frontend_items device.special_frontend_path front frontend_perms device.frontend_items
    write_string B W send_buf (slash front (bytes "backend")) back
    write_string B W send_buf (slash front (bytes "backend-id")) (to_string t.backend_domid)
    pure tt

  pub add_rw_path : List ℕ → Write (Unit {0})
  add_rw_path key = do
    t ← gets (λ s. s.0)
    mknod B W send_buf (slash t.frontend_dom_path key)
        (perm t.frontend_domid xs_perm_read_write ∷ [])
    pure tt
