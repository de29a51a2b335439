-- ===== src/Xencall/Domctl.antt =====
-- crates/xen/xencall/src/lib.rs: the operations on a domain that are requests of the domain control interface.
pub mod Devices
use krata.Prelude.{
  ℕ, ◌%◌, ◌^◌, Bool, Option, none, some, List, [], ◌∷◌, length, take, replicate, leb, if◌then◌else◌,
  Outcome,
}
use krata.Prelude.Effect.{Action, ◌>>=◌, ◌>>◌, pure}
use krata.Xencall.{Error}
use krata.Xencall.Versions.{XenCall, xen_domctl_getdomaininfo}
use krata.Xencall.Hypercall.{
  Hypervisor, DomCtlValue, DomCtlMember, Arg, Structure, hypercall1, written,
}
use krata.Xencall.Hypercall.Context.{X8664VcpuGuestContext}
use krata.Xencall.Hypercall.Structures.{
  DomCtl, CreateDomain, CreateDomain2, GetDomainInfo, HvmContext,
}

abbrev pub hypervisor_domctl : ℕ
hypervisor_domctl = 36

abbrev pub xen_domctl_createdomain : ℕ
xen_domctl_createdomain = 1

abbrev pub xen_domctl_destroydomain : ℕ
xen_domctl_destroydomain = 2

abbrev pub xen_domctl_pausedomain : ℕ
xen_domctl_pausedomain = 3

abbrev pub xen_domctl_unpausedomain : ℕ
xen_domctl_unpausedomain = 4

abbrev pub xen_domctl_max_mem : ℕ
xen_domctl_max_mem = 11

abbrev pub xen_domctl_setvcpucontext : ℕ
xen_domctl_setvcpucontext = 12

abbrev pub xen_domctl_max_vcpus : ℕ
xen_domctl_max_vcpus = 15

abbrev pub xen_domctl_setdomainhandle : ℕ
xen_domctl_setdomainhandle = 17

abbrev pub xen_domctl_hypercall_init : ℕ
xen_domctl_hypercall_init = 22

abbrev pub xen_domctl_set_address_size : ℕ
xen_domctl_set_address_size = 35

abbrev pub xen_domctl_getpageframeinfo3 : ℕ
xen_domctl_getpageframeinfo3 = 61

abbrev pub xen_domctl_create_domain2_interface_threshold : ℕ
xen_domctl_create_domain2_interface_threshold = 0x17

-- `GetDomainInfo::default()`.
abbrev pub no_domain_info : GetDomainInfo
no_domain_info = record {
  domid = 0;
  pad1 = 0;
  flags = 0;
  total_pages = 0;
  max_pages = 0;
  outstanding_pages = 0;
  shr_pages = 0;
  paged_pages = 0;
  shared_info_frame = 0;
  cpu_time = 0;
  number_online_vcpus = 0;
  max_vcpu_id = 0;
  ssidref = 0;
  handle = replicate 16 0;
  cpupool = 0;
  gpaddr_bits = 0;
  pad2 = replicate 7 0;
  arch = record { emulation_flags = 0; misc_flags = 0 };
}

unfoldable pub to_cd_2 : CreateDomain → CreateDomain2
to_cd_2 config = record {
  ssidref = config.ssidref;
  handle = config.handle;
  flags = config.flags;
  iommu_opts = config.iommu_opts;
  max_vcpus = config.max_vcpus;
  max_evtchn_port = config.max_evtchn_port;
  max_grant_frames = config.max_grant_frames;
  max_maptrack_frames = config.max_maptrack_frames;
  grant_opts = config.grant_opts;
  altp2m_opts = 0;
  vmtrace_size = config.vmtrace_size;
  cpupool_id = config.cpupool_id;
  arch_domain_config = config.arch_domain_config;
}

module _ (H : Hypervisor) (x : XenCall) where
  open H use {W}

  -- A request of the domain control interface, and what the hypervisor leaves in it.
  unfoldable pub request :
      ℕ → (f : DomCtlValue) → ℕ → DomCtlMember f → Action W Error (DomCtl (DomCtlMember f))
  unfolding hypercall1
  request domid f cmd value = do
    (code, domctl') ← hypercall1 H (Structure.domctl f) hypervisor_domctl Arg.address (record {
      cmd = cmd;
      interface_version = x.domctl_interface_version;
      domid = domid;
      value = value;
    })
    pure domctl'

  unfoldable pub set_domain_handle : ℕ → List ℕ → Action W Error (Unit {0})
  unfolding request
  set_domain_handle domid domain_handle = do
    request domid DomCtlValue.set_domain_handle xen_domctl_setdomainhandle
        (record { handle = domain_handle })
    pure tt

  unfoldable pub get_domain_info : ℕ → Action W Error GetDomainInfo
  unfolding request
  get_domain_info domid = do
    domctl' ← request domid DomCtlValue.get_domain_info xen_domctl_getdomaininfo no_domain_info
    pure domctl'.value

  create_with : (f : DomCtlValue) → DomCtlMember f → Action W Error ℕ
  unfolding request
  create_with f value = do domctl' ← request 0 f xen_domctl_createdomain value; pure domctl'.domid

  unfoldable pub create_domain : CreateDomain → Action W Error ℕ
  unfolding create_with to_cd_2
  create_domain config =
      if leb xen_domctl_create_domain2_interface_threshold x.domctl_interface_version
      then create_with DomCtlValue.create_domain2 (to_cd_2 config)
      else create_with DomCtlValue.create_domain config

  unfoldable pub pause_domain : ℕ → Action W Error (Unit {0})
  unfolding request
  pause_domain domid = do
    request domid DomCtlValue.pad xen_domctl_pausedomain (replicate 128 0)
    pure tt

  unfoldable pub unpause_domain : ℕ → Action W Error (Unit {0})
  unfolding request
  unpause_domain domid = do
    request domid DomCtlValue.pad xen_domctl_unpausedomain (replicate 128 0)
    pure tt

  unfoldable pub set_max_mem : (domid memkb : ℕ) → Action W Error (Unit {0})
  unfolding request
  set_max_mem domid memkb = do
    request domid DomCtlValue.max_mem xen_domctl_max_mem (record { max_memkb = memkb })
    pure tt

  unfoldable pub set_max_vcpus : (domid max_vcpus : ℕ) → Action W Error (Unit {0})
  unfolding request
  set_max_vcpus domid max_vcpus = do
    request domid DomCtlValue.max_cpus xen_domctl_max_vcpus (record { max_vcpus = max_vcpus })
    pure tt

  unfoldable pub set_address_size : (domid size : ℕ) → Action W Error (Unit {0})
  unfolding request
  set_address_size domid size = do
    request domid DomCtlValue.address_size xen_domctl_set_address_size (record { size = size })
    pure tt

  unfoldable pub set_vcpu_context :
      (domid vcpu : ℕ) → X8664VcpuGuestContext → Action W Error (Unit {0})
  unfolding request
  set_vcpu_context domid vcpu context = do
    request domid DomCtlValue.vcpu_context xen_domctl_setvcpucontext
        (record { vcpu = vcpu; ctx = context })
    pure tt

  -- The hypervisor writes to the buffer, and the caller reads as many words of it as the hypervisor says.
  unfoldable pub get_page_frame_info : ℕ → List ℕ → Action W Error (List ℕ)
  unfolding request
  get_page_frame_info domid frames = do
    domctl' ←
        request domid DomCtlValue.get_page_frame_info xen_domctl_getpageframeinfo3
          (record { num = length frames; array = frames })
    pure (take domctl'.value.num (written domctl'.value.array frames))

  unfoldable pub hypercall_init : (domid gmfn : ℕ) → Action W Error (Unit {0})
  unfolding request
  hypercall_init domid gmfn = do
    request domid DomCtlValue.hypercall_init xen_domctl_hypercall_init (record { gmfn = gmfn })
    pure tt

  unfoldable pub destroy_domain : ℕ → Action W Error (Unit {0})
  unfolding request
  destroy_domain domid = do
    request domid DomCtlValue.pad xen_domctl_destroydomain (replicate 128 0)
    pure tt
