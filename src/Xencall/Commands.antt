-- ===== src/Xencall/Commands.antt =====
-- The requests that an operation on a domain may send, whatever the hypervisor answers.
mod Tests
use krata.Prelude.{
  ℕ, ◌%◌, ◌^◌, ◌≡◌, refl, Bool, Bool-cases, Option, List, [], ◌∷◌, length, ◌==◌, Outcome, ok, err,
  panic, inl, inr,
}
use krata.Prelude.Effect.{Action, ◌>>=◌, ◌>>◌, pure}
use krata.Prelude.Keeps.{Keeps, continue-Keeps, continue_pure, both}
use krata.Xencall.{Error}
use krata.Xencall.Versions.{XenCall}
use krata.Xencall.Hypercall.{
  Hypervisor, DomCtlValue, DomCtlMember, Arg, Structure, Contents, returned, hypercall, hypercall1,
  hypercall2, hypercall4,
}
use krata.Xencall.Hypercall.Context.{X8664VcpuGuestContext}
use krata.Xencall.Hypercall.Structures.{E820Entry}
use krata.Xencall.Domctl
use krata.Xencall.Domctl.{hypervisor_domctl}
use krata.Xencall.Domctl.Devices
use krata.Xencall.MemoryOp

-- The operations of `XenCall` on one domain, with their other arguments.
pub data Command : Type 0 where
  set_domain_handle set_hvm_context get_page_frame_info : List ℕ → Command
  get_domain_info pause_domain unpause_domain destroy_domain : Command
  set_max_mem set_max_vcpus set_address_size hypercall_init set_paging_mempool_size claim_pages
        evtchn_alloc_unbound :
      ℕ → Command
  set_vcpu_context : ℕ → X8664VcpuGuestContext → Command
  iomem_permission ioport_permission : ℕ → ℕ → Bool → Command
  irq_permission : ℕ → Bool → Command
  assign_device set_hvm_param : ℕ → ℕ → Command
  get_hvm_context : Option (List ℕ) → Command
  set_memory_map : List E820Entry → Command
  populate_physmap : ℕ → ℕ → ℕ → List ℕ → Command
  add_to_physmap mmuext : ℕ → ℕ → ℕ → Command
  map_pirq : ℕ → Option ℕ → Command

-- The call of a command, whose result is dropped.
abbrev dropped : {W A : Type 0} → Action W Error A → Action W Error (Unit {0})
dropped m = m >>= (λ a. pure tt)

unfoldable pub run : (H : Hypervisor) → XenCall → ℕ → Command → Action H.W Error (Unit {0})
run H x domid (set_domain_handle handle) = Domctl.set_domain_handle H x domid handle
run H x domid (set_hvm_context buffer) = dropped (Devices.set_hvm_context H x domid buffer)
run H x domid (get_page_frame_info frames) = dropped (Domctl.get_page_frame_info H x domid frames)
run H x domid get_domain_info = dropped (Domctl.get_domain_info H x domid)
run H x domid pause_domain = Domctl.pause_domain H x domid
run H x domid unpause_domain = Domctl.unpause_domain H x domid
run H x domid destroy_domain = Domctl.destroy_domain H x domid
run H x domid (set_max_mem memkb) = Domctl.set_max_mem H x domid memkb
run H x domid (set_max_vcpus max_vcpus) = Domctl.set_max_vcpus H x domid max_vcpus
run H x domid (set_address_size size) = Domctl.set_address_size H x domid size
run H x domid (hypercall_init gmfn) = Domctl.hypercall_init H x domid gmfn
run H x domid (set_paging_mempool_size size) = Devices.set_paging_mempool_size H x domid size
run H x domid (claim_pages pages) = MemoryOp.claim_pages H domid pages
run H x domid (evtchn_alloc_unbound remote) = dropped (MemoryOp.evtchn_alloc_unbound H domid remote)
run H x domid (set_vcpu_context vcpu context) = Domctl.set_vcpu_context H x domid vcpu context
run H x domid (iomem_permission first nr allow) = Devices.iomem_permission H x domid first nr allow
run H x domid (ioport_permission first nr allow) =
    Devices.ioport_permission H x domid first nr allow
run H x domid (irq_permission irq allow) = Devices.irq_permission H x domid irq allow
run H x domid (assign_device sbdf flags) = Devices.assign_device H x domid sbdf flags
run H x domid (set_hvm_param index value) = MemoryOp.set_hvm_param H domid index value
run H x domid (get_hvm_context buffer) = dropped (Devices.get_hvm_context H x domid buffer)
run H x domid (set_memory_map entries) = dropped (MemoryOp.set_memory_map H domid entries)
run H x domid (populate_physmap nr order flags starts) =
    dropped (MemoryOp.populate_physmap H domid nr order flags starts)
run H x domid (add_to_physmap space idx pfn) = MemoryOp.add_to_physmap H domid space idx pfn
run H x domid (mmuext cmd arg1 arg2) = MemoryOp.mmuext H domid cmd arg1 arg2
run H x domid (map_pirq index pirq) = dropped (MemoryOp.map_pirq H domid index pirq)

-- One command after another, until one fails.
abbrev pub run_all : (H : Hypervisor) → XenCall → ℕ → List Command → Action H.W Error (Unit {0})
run_all H x domid [] = pure tt
run_all H x domid (command ∷ commands) = run H x domid command >> run_all H x domid commands

-- A request that names the domain, in the version of the interface that was found. The structures that are not of the
-- domain control interface have the low 16 bits of the number.
abbrev pub Addressed : XenCall → ℕ → (s : Structure) → ℕ → List Arg → Contents s → Type 0
Addressed x domid (Structure.domctl f) op args c =
    (op ≡ hypervisor_domctl)
    × (c.interface_version ≡ x.domctl_interface_version)
    × (c.domid ≡ domid)
Addressed x domid Structure.memory_reservation op args c = c.domid ≡ domid % 2 ^ 16
Addressed x domid Structure.add_to_physmap op args c = c.domid ≡ domid % 2 ^ 16
Addressed x domid Structure.foreign_memory_map op args c = c.domid ≡ domid % 2 ^ 16
Addressed x domid Structure.map_pirq op args c = c.domid ≡ domid % 2 ^ 16
Addressed x domid Structure.hvm_param op args c = c.domid ≡ domid % 2 ^ 16
Addressed x domid Structure.evtchn_alloc_unbound op args c = c.dom ≡ domid % 2 ^ 16
Addressed x domid Structure.mmu_ext_op op args c =
    args ≡ Arg.address ∷ Arg.word 1 ∷ Arg.word 0 ∷ Arg.word domid ∷ Arg.word 0 ∷ []
Addressed x domid s op args c = ⊥

module _ (H : Hypervisor) (x : XenCall) (domid : ℕ) (I : H.W → Type 0)
    (kept : (s : Structure) (op : ℕ) (args : List Arg) (c : Contents s) (w : H.W)
      → Addressed x domid s op args c
      → I w
      → I (H.hypercall s op args c w).1.1) where
  returned-Keeps :
      (s : Structure) (r : Outcome ℕ ℕ × (Contents s × H.W)) → I r.1.1 → I (returned H s r).1
  returned-Keeps s (ok code, (c, w)) i = i
  returned-Keeps s (err e, (c, w)) i = i
  returned-Keeps s (panic, (c, w)) i = i

  hypercall-Keeps :
      (s : Structure) (op : ℕ) (args : List Arg) (c : Contents s)
      → Addressed x domid s op args c
      → Keeps I (hypercall H s op args c)
  unfolding hypercall
  hypercall-Keeps s op args c a w i =
      returned-Keeps s (H.hypercall s op args c w) (kept s op args c w a i)

  request-Keeps :
      (f : DomCtlValue) (cmd : ℕ) (value : DomCtlMember f)
      → Keeps I (Domctl.request H x domid f cmd value)
  unfolding Domctl.request hypercall1
  request-Keeps f cmd value w i =
      continue_pure I _ _ (hypercall-Keeps (Structure.domctl f) _ _ _ (refl, refl, refl) w i)

  get_domain_info-Keeps : Keeps I (Domctl.get_domain_info H x domid)
  unfolding Domctl.get_domain_info
  get_domain_info-Keeps w i = continue_pure I _ _ (request-Keeps _ _ _ w i)

  get_page_frame_info-Keeps :
      (frames : List ℕ) → Keeps I (Domctl.get_page_frame_info H x domid frames)
  unfolding Domctl.get_page_frame_info
  get_page_frame_info-Keeps frames w i = continue_pure I _ _ (request-Keeps _ _ _ w i)

  get_hvm_context-Keeps :
      (buffer : Option (List ℕ)) → Keeps I (Devices.get_hvm_context H x domid buffer)
  unfolding Devices.get_hvm_context
  get_hvm_context-Keeps buffer w i = continue_pure I _ _ (request-Keeps _ _ _ w i)

  set_hvm_context-Keeps : (buffer : List ℕ) → Keeps I (Devices.set_hvm_context H x domid buffer)
  unfolding Devices.set_hvm_context
  set_hvm_context-Keeps buffer w i = continue_pure I _ _ (request-Keeps _ _ _ w i)

  map_pirq-Keeps : (index : ℕ) (pirq : Option ℕ) → Keeps I (MemoryOp.map_pirq H domid index pirq)
  unfolding MemoryOp.map_pirq hypercall2
  map_pirq-Keeps index pirq w i = continue_pure I _ _ (hypercall-Keeps _ _ _ _ refl w i)

  set_memory_map-Keeps :
      (entries : List E820Entry) → Keeps I (MemoryOp.set_memory_map H domid entries)
  unfolding MemoryOp.set_memory_map hypercall2
  set_memory_map-Keeps entries w i = continue_pure I _ _ (hypercall-Keeps _ _ _ _ refl w i)

  evtchn_op-Keeps :
      (cmd remote : ℕ)
      → Keeps I (
          MemoryOp.evtchn_op H Structure.evtchn_alloc_unbound cmd
            (record { dom = domid % 2 ^ 16; remote_dom = remote % 2 ^ 16; port = 0 }))
  unfolding MemoryOp.evtchn_op hypercall2
  evtchn_op-Keeps cmd remote w i = continue_pure I _ _ (hypercall-Keeps _ _ _ _ refl w i)

  evtchn_alloc_unbound-Keeps : (remote : ℕ) → Keeps I (MemoryOp.evtchn_alloc_unbound H domid remote)
  unfolding MemoryOp.evtchn_alloc_unbound
  evtchn_alloc_unbound-Keeps remote w i = continue_pure I _ _ (evtchn_op-Keeps 6 remote w i)

  extents_of-Keeps :
      (starts : List ℕ) (code : ℕ) (new : List ℕ) → Keeps I (MemoryOp.extents_of H starts code new)
  unfolding MemoryOp.extents_of
  extents_of-Keeps starts code new w i = elim (Bool-cases (code == length starts)) [
    | inl e ↦ rw e i
    | inr e ↦ rw e i
  ]

  populate_physmap-Keeps :
      (nr order flags : ℕ) (starts : List ℕ)
      → Keeps I (MemoryOp.populate_physmap H domid nr order flags starts)
  unfolding MemoryOp.populate_physmap hypercall2
  populate_physmap-Keeps nr order flags starts w i =
      continue-Keeps I (λ r. MemoryOp.extents_of H starts r.0 r.1.extent_start) _
        (λ r. extents_of-Keeps starts r.0 r.1.extent_start)
        (hypercall-Keeps Structure.memory_reservation _ _ _ refl w i)

  run-Keeps : (command : Command) → Keeps I (run H x domid command)
  unfolding run hypercall2 hypercall4 Domctl.set_domain_handle Domctl.pause_domain
      Domctl.unpause_domain Domctl.destroy_domain Domctl.set_max_mem Domctl.set_max_vcpus
      Domctl.set_address_size Domctl.hypercall_init Devices.set_paging_mempool_size
      Domctl.set_vcpu_context Devices.iomem_permission Devices.ioport_permission
      Devices.irq_permission Devices.assign_device MemoryOp.claim_pages MemoryOp.set_hvm_param
      MemoryOp.add_to_physmap MemoryOp.mmuext
  run-Keeps (set_domain_handle handle) w i = continue_pure I _ _ (request-Keeps _ _ _ w i)
  run-Keeps pause_domain w i = continue_pure I _ _ (request-Keeps _ _ _ w i)
  run-Keeps unpause_domain w i = continue_pure I _ _ (request-Keeps _ _ _ w i)
  run-Keeps destroy_domain w i = continue_pure I _ _ (request-Keeps _ _ _ w i)
  run-Keeps (set_max_mem memkb) w i = continue_pure I _ _ (request-Keeps _ _ _ w i)
  run-Keeps (set_max_vcpus max_vcpus) w i = continue_pure I _ _ (request-Keeps _ _ _ w i)
  run-Keeps (set_address_size size) w i = continue_pure I _ _ (request-Keeps _ _ _ w i)
  run-Keeps (hypercall_init gmfn) w i = continue_pure I _ _ (request-Keeps _ _ _ w i)
  run-Keeps (set_paging_mempool_size size) w i = continue_pure I _ _ (request-Keeps _ _ _ w i)
  run-Keeps (set_vcpu_context vcpu context) w i = continue_pure I _ _ (request-Keeps _ _ _ w i)
  run-Keeps (iomem_permission first nr allow) w i = continue_pure I _ _ (request-Keeps _ _ _ w i)
  run-Keeps (ioport_permission first nr allow) w i = continue_pure I _ _ (request-Keeps _ _ _ w i)
  run-Keeps (irq_permission irq allow) w i = continue_pure I _ _ (request-Keeps _ _ _ w i)
  run-Keeps (assign_device sbdf flags) w i = continue_pure I _ _ (request-Keeps _ _ _ w i)
  run-Keeps (set_hvm_context buffer) w i = continue_pure I _ _ (set_hvm_context-Keeps buffer w i)
  run-Keeps (get_page_frame_info frames) w i =
      continue_pure I _ _ (get_page_frame_info-Keeps frames w i)
  run-Keeps get_domain_info w i = continue_pure I _ _ (get_domain_info-Keeps w i)
  run-Keeps (get_hvm_context buffer) w i = continue_pure I _ _ (get_hvm_context-Keeps buffer w i)
  run-Keeps (claim_pages pages) w i = continue_pure I _ _ (hypercall-Keeps _ _ _ _ refl w i)
  run-Keeps (set_hvm_param index value) w i = continue_pure I _ _ (hypercall-Keeps _ _ _ _ refl w i)
  run-Keeps (add_to_physmap space idx pfn) w i =
      continue_pure I _ _ (hypercall-Keeps _ _ _ _ refl w i)
  run-Keeps (mmuext cmd arg1 arg2) w i = continue_pure I _ _ (hypercall-Keeps _ _ _ _ refl w i)
  run-Keeps (map_pirq index pirq) w i = continue_pure I _ _ (map_pirq-Keeps index pirq w i)
  run-Keeps (set_memory_map entries) w i = continue_pure I _ _ (set_memory_map-Keeps entries w i)
  run-Keeps (evtchn_alloc_unbound remote) w i =
      continue_pure I _ _ (evtchn_alloc_unbound-Keeps remote w i)
  run-Keeps (populate_physmap nr order flags starts) w i =
      continue_pure I _ _ (populate_physmap-Keeps nr order flags starts w i)

  -- Whatever of the state of the hypervisor is kept by every request that names the domain, in the version of the
  -- interface that was found, any sequence of operations of `XenCall` on the domain keeps, however the hypervisor answers
  -- and wherever the sequence fails.
  pub run_all-Keeps : (commands : List Command) → Keeps I (run_all H x domid commands)
  run_all-Keeps [] w i = i
  run_all-Keeps (command ∷ commands) w i =
      both I (run H x domid command) (λ u. run_all H x domid commands) (run-Keeps command)
        (λ u. run_all-Keeps commands) w i
