-- ===== src/Xencall/Hypercall/Structures.antt =====
-- crates/xen/xencall/src/sys.rs: the structures that the hypercalls pass. A union is a parameter of the structure that
-- holds it, since the caller reads the member that it wrote. A pointer to a buffer is the list of what the buffer
-- holds, [] for a null pointer; a signed number is its word in two's complement.
use krata.Prelude.{ℕ, List}
use krata.Xencall.Hypercall.Context.{X8664VcpuGuestContext}

pub record DomCtl (A : Type 0) : Type 0 where
  pub cmd : ℕ
  pub interface_version : ℕ
  pub domid : ℕ
  pub value : A

-- Of the architecture x86_64.
pub record ArchDomainConfig : Type 0 where
  pub emulation_flags : ℕ
  pub misc_flags : ℕ

pub record CreateDomain : Type 0 where
  pub ssidref : ℕ
  pub handle : List ℕ
  pub flags : ℕ
  pub iommu_opts : ℕ
  pub max_vcpus : ℕ
  pub max_evtchn_port : ℕ
  pub max_grant_frames : ℕ
  pub max_maptrack_frames : ℕ
  pub grant_opts : ℕ
  pub vmtrace_size : ℕ
  pub cpupool_id : ℕ
  pub arch_domain_config : ArchDomainConfig

pub record CreateDomain2 : Type 0 where
  pub ssidref : ℕ
  pub handle : List ℕ
  pub flags : ℕ
  pub iommu_opts : ℕ
  pub max_vcpus : ℕ
  pub max_evtchn_port : ℕ
  pub max_grant_frames : ℕ
  pub max_maptrack_frames : ℕ
  pub grant_opts : ℕ
  pub altp2m_opts : ℕ
  pub vmtrace_size : ℕ
  pub cpupool_id : ℕ
  pub arch_domain_config : ArchDomainConfig

pub record GetDomainInfo : Type 0 where
  pub domid : ℕ
  pub pad1 : ℕ
  pub flags : ℕ
  pub total_pages : ℕ
  pub max_pages : ℕ
  pub outstanding_pages : ℕ
  pub shr_pages : ℕ
  pub paged_pages : ℕ
  pub shared_info_frame : ℕ
  pub cpu_time : ℕ
  pub number_online_vcpus : ℕ
  pub max_vcpu_id : ℕ
  pub ssidref : ℕ
  pub handle : List ℕ
  pub cpupool : ℕ
  pub gpaddr_bits : ℕ
  pub pad2 : List ℕ
  pub arch : ArchDomainConfig

pub record SetDomainHandle : Type 0 where
  pub handle : List ℕ

pub record MaxMem : Type 0 where
  pub max_memkb : ℕ

pub record MaxVcpus : Type 0 where
  pub max_vcpus : ℕ

pub record AddressSize : Type 0 where
  pub size : ℕ

pub record HypercallInit : Type 0 where
  pub gmfn : ℕ

pub record GetPageFrameInfo3 : Type 0 where
  pub num : ℕ
  pub array : List ℕ

pub record IoPortPermission : Type 0 where
  pub first_port : ℕ
  pub nr_ports : ℕ
  pub allow : ℕ

pub record IoMemPermission : Type 0 where
  pub first_mfn : ℕ
  pub nr_mfns : ℕ
  pub allow : ℕ

pub record IrqPermission : Type 0 where
  pub pirq : ℕ
  pub allow : ℕ
  pub pad : List ℕ

pub record PciAssignDevice : Type 0 where
  pub sbdf : ℕ
  pub padding : ℕ

pub record AssignDevice : Type 0 where
  pub device : ℕ
  pub flags : ℕ
  pub pci_assign_device : PciAssignDevice

pub record HvmContext : Type 0 where
  pub size : ℕ
  pub buffer : List ℕ

pub record PagingMempool : Type 0 where
  pub size : ℕ

pub record DomCtlVcpuContext : Type 0 where
  pub vcpu : ℕ
  pub ctx : X8664VcpuGuestContext

pub record MemoryReservation : Type 0 where
  pub extent_start : List ℕ
  pub nr_extents : ℕ
  pub extent_order : ℕ
  pub mem_flags : ℕ
  pub domid : ℕ

pub record AddToPhysmap : Type 0 where
  pub domid : ℕ
  pub size : ℕ
  pub space : ℕ
  pub idx : ℕ
  pub gpfn : ℕ

pub record E820Entry : Type 0 where
  pub addr : ℕ
  pub size : ℕ
  pub typ : ℕ

pub record MemoryMap : Type 0 where
  pub count : ℕ
  pub buffer : List E820Entry

pub record ForeignMemoryMap : Type 0 where
  pub domid : ℕ
  pub map : MemoryMap

pub record MmuExtOp : Type 0 where
  pub cmd : ℕ
  pub arg1 : ℕ
  pub arg2 : ℕ

pub record EvtChnAllocUnbound : Type 0 where
  pub dom : ℕ
  pub remote_dom : ℕ
  pub port : ℕ

pub record PhysdevMapPirq : Type 0 where
  pub domid : ℕ
  pub typ : ℕ
  pub index : ℕ
  pub pirq : ℕ
  pub bus : ℕ
  pub devfn : ℕ
  pub entry_nr : ℕ
  pub table_base : ℕ

pub record HvmParam : Type 0 where
  pub domid : ℕ
  pub pad : ℕ
  pub index : ℕ
  pub value : ℕ

pub record MultiCallEntry : Type 0 where
  pub op : ℕ
  pub result : ℕ
  pub args : List ℕ

pub record Sysctl (A : Type 0) : Type 0 where
  pub cmd : ℕ
  pub interface_version : ℕ
  pub value : A

pub record SysctlCputopo : Type 0 where
  pub core : ℕ
  pub socket : ℕ
  pub node : ℕ

pub record SysctlCputopoinfo : Type 0 where
  pub num_cpus : ℕ
  pub handle : List SysctlCputopo

pub record SysctlSetCpuFreqGov : Type 0 where
  pub scaling_governor : List ℕ

pub record SysctlPmOp (A : Type 0) : Type 0 where
  pub cmd : ℕ
  pub cpuid : ℕ
  pub value : A

pub record SysctlPhysinfo : Type 0 where
  pub threads_per_core : ℕ
  pub cores_per_socket : ℕ
  pub nr_cpus : ℕ
  pub max_cpu_id : ℕ
  pub nr_nodes : ℕ
  pub max_node_id : ℕ
  pub cpu_khz : ℕ
  pub capabilities : ℕ
  pub arch_capabilities : ℕ
  pub pad : ℕ
  pub total_pages : ℕ
  pub free_pages : ℕ
  pub scrub_pages : ℕ
  pub outstanding_pages : ℕ
  pub max_mfn : ℕ
  pub hw_cap : List ℕ

pub record SysctlReadconsole : Type 0 where
  pub clear : ℕ
  pub incremental : ℕ
  pub pad : ℕ
  pub index : ℕ
  pub buffer : List ℕ
  pub count : ℕ

pub data CpuId : Type 0 where
  all : CpuId
  single : ℕ → CpuId
