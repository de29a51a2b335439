-- ===== src/Xencall/Hypercall.antt =====
-- crates/xen/xencall/src/lib.rs and sys.rs: how a hypercall is made. The kernel gets five words, one of which may be the
-- address of a structure that the hypervisor reads and changes.
pub mod Context
pub mod Structures
pub mod Log
use krata.Prelude.{ℕ, ◌%◌, ◌^◌, List, [], ◌∷◌, ◌++◌, length, take, drop, Outcome, ok, err, panic}
use krata.Prelude.Effect.{Action, ◌>>=◌, pure}
use krata.Xencall.{Error}
use krata.Xencall.Hypercall.Structures.{
  DomCtl, CreateDomain, CreateDomain2, GetDomainInfo, SetDomainHandle, MaxMem, MaxVcpus,
  AddressSize, HypercallInit, DomCtlVcpuContext, GetPageFrameInfo3, IoPortPermission,
  IoMemPermission, IrqPermission, AssignDevice, HvmContext, PagingMempool, MemoryReservation,
  AddToPhysmap, MemoryMap, ForeignMemoryMap, MmuExtOp, EvtChnAllocUnbound, PhysdevMapPirq, HvmParam,
  MultiCallEntry, Sysctl, SysctlCputopoinfo, SysctlSetCpuFreqGov, SysctlPmOp, SysctlPhysinfo,
  SysctlReadconsole,
}

-- The members of `DomCtlValue`.
pub data DomCtlValue : Type 0 where
  create_domain create_domain2 get_domain_info max_mem max_cpus hypercall_init vcpu_context
        address_size get_page_frame_info ioport_permission iomem_permission irq_permission
        assign_device hvm_context paging_mempool set_domain_handle pad :
      DomCtlValue

abbrev pub DomCtlMember : DomCtlValue → Type 0
DomCtlMember create_domain = CreateDomain
DomCtlMember create_domain2 = CreateDomain2
DomCtlMember get_domain_info = GetDomainInfo
DomCtlMember max_mem = MaxMem
DomCtlMember max_cpus = MaxVcpus
DomCtlMember hypercall_init = HypercallInit
DomCtlMember vcpu_context = DomCtlVcpuContext
DomCtlMember address_size = AddressSize
DomCtlMember get_page_frame_info = GetPageFrameInfo3
DomCtlMember ioport_permission = IoPortPermission
DomCtlMember iomem_permission = IoMemPermission
DomCtlMember irq_permission = IrqPermission
DomCtlMember assign_device = AssignDevice
DomCtlMember hvm_context = HvmContext
DomCtlMember paging_mempool = PagingMempool
DomCtlMember set_domain_handle = SetDomainHandle
DomCtlMember pad = List ℕ

-- The members of `SysctlValue` that are used, with those of `SysctlPmOpValue` for `pm_op`.
pub data SysctlValue : Type 0 where
  console cputopoinfo pm_op_set_gov pm_op_pad phys_info : SysctlValue

abbrev pub SysctlMember : SysctlValue → Type 0
SysctlMember console = SysctlReadconsole
SysctlMember cputopoinfo = SysctlCputopoinfo
SysctlMember pm_op_set_gov = SysctlPmOp SysctlSetCpuFreqGov
SysctlMember pm_op_pad = SysctlPmOp (List ℕ)
SysctlMember phys_info = SysctlPhysinfo

-- What the address of a hypercall may point to.
pub data Structure : Type 0 where
  nothing : Structure
  domctl : DomCtlValue → Structure
  sysctl : SysctlValue → Structure
  memory_reservation add_to_physmap memory_map foreign_memory_map mmu_ext_op evtchn_alloc_unbound
        map_pirq hvm_param capabilities multicall_entries :
      Structure

abbrev pub Contents : Structure → Type 0
Contents nothing = Unit {0}
Contents (domctl value) = DomCtl (DomCtlMember value)
Contents (sysctl value) = Sysctl (SysctlMember value)
Contents memory_reservation = MemoryReservation
Contents add_to_physmap = AddToPhysmap
Contents memory_map = MemoryMap
Contents foreign_memory_map = ForeignMemoryMap
Contents mmu_ext_op = MmuExtOp
Contents evtchn_alloc_unbound = EvtChnAllocUnbound
Contents map_pirq = PhysdevMapPirq
Contents hvm_param = HvmParam
Contents capabilities = List ℕ
Contents multicall_entries = List MultiCallEntry

-- A word of a hypercall, or the address of its structure.
pub data Arg : Type 0 where
  word : ℕ → Arg
  address : Arg

-- `sys::hypercall`: it ends with an error number or with the value that the kernel returns, and leaves the structure
-- as the hypervisor changed it. `panic` is a blocking task that could not be joined. `mmap_resource` is the other call
-- of the device.
pub record Hypervisor : Type 1 where
  pub W : Type 0
  pub hypercall : (s : Structure) → ℕ → List Arg → Contents s → W → Outcome ℕ ℕ × (Contents s × W)
  pub mmap_resource : (dom typ id idx num addr : ℕ) → W → Outcome ℕ ℕ × W

-- A `Vec` whose buffer the hypervisor has written to: it keeps its length.
abbrev pub written {ℓ} : {A : Type ℓ} → List A → List A → List A
written new old = take (length old) new ++ drop (length new) old

abbrev pub hypervisor_multicall : ℕ
hypervisor_multicall = 13

module _ (H : Hypervisor) where
  open H use {W}

  module _ (s : Structure) where
    -- What the caller has when the call returns, and its structure with it.
    abbrev pub returned : Outcome ℕ ℕ × (Contents s × W) → Outcome Error (ℕ × Contents s) × W
    returned (ok code, (c, w)) = (ok (code, c), w)
    returned (err e, (c, w)) = (err (Error.kernel e), w)
    returned (panic, (c, w)) = (err Error.join_error, w)

    unfoldable pub hypercall : ℕ → List Arg → Contents s → Action W Error (ℕ × Contents s)
    hypercall op args c w = returned (H.hypercall s op args c w)

    unfoldable pub hypercall0 : ℕ → Contents s → Action W Error (ℕ × Contents s)
    unfolding hypercall
    hypercall0 op = hypercall op (word 0 ∷ word 0 ∷ word 0 ∷ word 0 ∷ word 0 ∷ [])

    unfoldable pub hypercall1 : ℕ → Arg → Contents s → Action W Error (ℕ × Contents s)
    unfolding hypercall
    hypercall1 op arg1 = hypercall op (arg1 ∷ word 0 ∷ word 0 ∷ word 0 ∷ word 0 ∷ [])

    unfoldable pub hypercall2 : ℕ → (arg1 arg2 : Arg) → Contents s → Action W Error (ℕ × Contents s)
    unfolding hypercall
    hypercall2 op arg1 arg2 = hypercall op (arg1 ∷ arg2 ∷ word 0 ∷ word 0 ∷ word 0 ∷ [])

    unfoldable pub hypercall3 :
        ℕ → (arg1 arg2 arg3 : Arg) → Contents s → Action W Error (ℕ × Contents s)
    unfolding hypercall
    hypercall3 op arg1 arg2 arg3 = hypercall op (arg1 ∷ arg2 ∷ arg3 ∷ word 0 ∷ word 0 ∷ [])

    unfoldable pub hypercall4 :
        ℕ → (arg1 arg2 arg3 arg4 : Arg) → Contents s → Action W Error (ℕ × Contents s)
    unfolding hypercall
    hypercall4 op arg1 arg2 arg3 arg4 = hypercall op (arg1 ∷ arg2 ∷ arg3 ∷ arg4 ∷ word 0 ∷ [])

    unfoldable pub hypercall5 :
        ℕ → (arg1 arg2 arg3 arg4 arg5 : Arg) → Contents s → Action W Error (ℕ × Contents s)
    unfolding hypercall
    hypercall5 op arg1 arg2 arg3 arg4 arg5 = hypercall op (arg1 ∷ arg2 ∷ arg3 ∷ arg4 ∷ arg5 ∷ [])

  -- The entries as the hypervisor leaves them, since the caller lends them.
  unfoldable pub multicall : List MultiCallEntry → Action W Error (List MultiCallEntry)
  unfolding hypercall2
  multicall calls = do
    (code, calls') ←
        hypercall2 multicall_entries hypervisor_multicall address (word (length calls)) calls
    pure (written calls' calls)

  abbrev pub resource_mapped : Outcome ℕ ℕ × W → Outcome Error (Unit {0}) × W
  resource_mapped (ok code, w) = (ok tt, w)
  resource_mapped (err e, w) = (err (Error.kernel e), w)
  resource_mapped (panic, w) = (err Error.join_error, w)

  unfoldable pub map_resource : (domid typ id idx num addr : ℕ) → Action W Error (Unit {0})
  map_resource domid typ id idx num addr w =
      resource_mapped (H.mmap_resource (domid % 2 ^ 16) typ id idx num addr w)
