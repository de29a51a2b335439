-- ===== src/Xencall/MemoryOp.antt =====
-- crates/xen/xencall/src/lib.rs: the requests that are not of the control interfaces: on the memory of a domain and its
-- page tables, on event channels, on interrupts of devices and on parameters, and the capabilities of the hypervisor.
pub mod Extents
use krata.Prelude.{
  ℕ, ◌+◌, ◌%◌, ◌^◌, Bool, Option, none, some, List, [], ◌∷◌, length, take, replicate, ◌==◌,
  if◌then◌else◌, Outcome, ok, err,
}
use krata.Prelude.Effect.{Action, ◌>>=◌, ◌>>◌, pure, raise}
use krata.Xencall.{Error}
use krata.Xencall.Hypercall.{Hypervisor, Arg, Structure, Contents, hypercall2, hypercall4, written}
use krata.Xencall.Hypercall.Structures.{E820Entry}

abbrev pub hypervisor_memory_op : ℕ
hypervisor_memory_op = 12

abbrev pub hypervisor_xen_version : ℕ
hypervisor_xen_version = 17

abbrev pub hypervisor_mmuext_op : ℕ
hypervisor_mmuext_op = 26

abbrev pub hypervisor_event_channel_op : ℕ
hypervisor_event_channel_op = 32

abbrev pub hypervisor_physdev_op : ℕ
hypervisor_physdev_op = 33

abbrev pub hypervisor_hvm_op : ℕ
hypervisor_hvm_op = 34

abbrev pub xenver_capabilities : ℕ
xenver_capabilities = 3

abbrev pub xen_mem_populate_physmap : ℕ
xen_mem_populate_physmap = 6

abbrev pub xen_mem_add_to_physmap : ℕ
xen_mem_add_to_physmap = 7

abbrev pub xen_mem_memory_map : ℕ
xen_mem_memory_map = 10

abbrev pub xen_mem_set_memory_map : ℕ
xen_mem_set_memory_map = 13

abbrev pub xen_mem_claim_pages : ℕ
xen_mem_claim_pages = 24

abbrev pub physdevop_map_pirq : ℕ
physdevop_map_pirq = 13

-- `E820Entry::default()`.
abbrev pub no_entry : E820Entry
no_entry = record { addr = 0; size = 0; typ = 0 }

-- `pirq.map(|x| x as c_int).unwrap_or(index as c_int)`, for the index as a word of 64 bits.
abbrev pub pirq_or : Option ℕ → ℕ → ℕ
pirq_or none index = index % 2 ^ 32
pirq_or (some pirq) index = pirq

module _ (H : Hypervisor) where
  open H use {W}

  unfoldable pub get_version_capabilities : Action W Error (List ℕ)
  unfolding hypercall2
  get_version_capabilities = do
    (code, info) ←
        hypercall2 H Structure.capabilities hypervisor_xen_version (Arg.word xenver_capabilities)
          Arg.address (replicate 1024 0)
    pure info

  -- With the structure that the address points to, as the hypervisor leaves it.
  unfoldable pub evtchn_op : (s : Structure) → ℕ → Contents s → Action W Error (Contents s)
  unfolding hypercall2
  evtchn_op s cmd arg = do
    (code, arg') ← hypercall2 H s hypervisor_event_channel_op (Arg.word cmd) Arg.address arg
    pure arg'

  unfoldable pub evtchn_alloc_unbound : (domid remote_domid : ℕ) → Action W Error ℕ
  unfolding evtchn_op
  evtchn_alloc_unbound domid remote_domid = do
    alloc_unbound ←
        evtchn_op Structure.evtchn_alloc_unbound 6
          (record { dom = domid % 2 ^ 16; remote_dom = remote_domid % 2 ^ 16; port = 0 })
    pure alloc_unbound.port

  -- `entries.truncate(memory_map.count)`.
  unfoldable pub get_memory_map : ℕ → Action W Error (List E820Entry)
  unfolding hypercall2
  get_memory_map max_entries = do
    (code, memory_map) ←
        hypercall2 H Structure.memory_map hypervisor_memory_op (Arg.word xen_mem_memory_map)
          Arg.address (record { count = max_entries; buffer = replicate max_entries no_entry })
    pure (take memory_map.count (written memory_map.buffer (replicate max_entries no_entry)))

  unfoldable pub set_memory_map : ℕ → List E820Entry → Action W Error (List E820Entry)
  unfolding hypercall2
  set_memory_map domid entries = do
    hypercall2 H Structure.foreign_memory_map hypervisor_memory_op (Arg.word xen_mem_set_memory_map)
        Arg.address
        (record {
          domid = domid % 2 ^ 16;
          map = record { count = length entries % 2 ^ 32; buffer = entries };
        })
    pure entries

  -- What is left when the hypervisor has answered: the number of its extents must be the number that was asked for.
  unfoldable pub extents_of : List ℕ → ℕ → List ℕ → Action W Error (List ℕ)
  extents_of extent_starts code new =
      if code == length extent_starts
      then pure (take code (written new extent_starts))
      else raise Error.populate_physmap_failed

  unfoldable pub populate_physmap :
      (domid nr_extents extent_order mem_flags : ℕ) → List ℕ → Action W Error (List ℕ)
  unfolding hypercall2 extents_of
  populate_physmap domid nr_extents extent_order mem_flags extent_starts = do
    (code, reservation) ←
        hypercall2 H Structure.memory_reservation hypervisor_memory_op
          (Arg.word xen_mem_populate_physmap) Arg.address
          (record {
            extent_start = extent_starts;
            nr_extents = nr_extents;
            extent_order = extent_order;
            mem_flags = mem_flags;
            domid = domid % 2 ^ 16;
          })
    extents_of extent_starts code reservation.extent_start

  unfoldable pub claim_pages : (domid pages : ℕ) → Action W Error (Unit {0})
  unfolding hypercall2
  claim_pages domid pages = do
    hypercall2 H Structure.memory_reservation hypervisor_memory_op (Arg.word xen_mem_claim_pages)
        Arg.address
        (record {
          extent_start = [];
          nr_extents = pages;
          extent_order = 0;
          mem_flags = 0;
          domid = domid % 2 ^ 16;
        })
    pure tt

  unfoldable pub add_to_physmap : (domid space idx pfn : ℕ) → Action W Error (Unit {0})
  unfolding hypercall2
  add_to_physmap domid space idx pfn = do
    hypercall2 H Structure.add_to_physmap hypervisor_memory_op (Arg.word xen_mem_add_to_physmap)
        Arg.address
        (record { domid = domid % 2 ^ 16; size = 0; space = space; idx = idx; gpfn = pfn })
    pure tt

  unfoldable pub mmuext : (domid cmd arg1 arg2 : ℕ) → Action W Error (Unit {0})
  unfolding hypercall4
  mmuext domid cmd arg1 arg2 = do
    hypercall4 H Structure.mmu_ext_op hypervisor_mmuext_op Arg.address (Arg.word 1) (Arg.word 0)
        (Arg.word domid) (record { cmd = cmd; arg1 = arg1; arg2 = arg2 })
    pure tt

  unfoldable pub map_pirq : (domid index : ℕ) → Option ℕ → Action W Error ℕ
  unfolding hypercall2
  map_pirq domid index pirq = do
    (code, physdev) ←
        hypercall2 H Structure.map_pirq hypervisor_physdev_op (Arg.word physdevop_map_pirq)
          Arg.address
          (record {
            domid = domid % 2 ^ 16;
            typ = 1;
            index = index % 2 ^ 32;
            pirq = pirq_or pirq index;
            bus = 0;
            devfn = 0;
            entry_nr = 0;
            table_base = 0;
          })
    pure physdev.pirq

  unfoldable pub set_hvm_param : (domid index value : ℕ) → Action W Error (Unit {0})
  unfolding hypercall2
  set_hvm_param domid index value = do
    hypercall2 H Structure.hvm_param hypervisor_hvm_op (Arg.word 0) Arg.address
        (record { domid = domid % 2 ^ 16; pad = 0; index = index; value = value })
    pure tt
