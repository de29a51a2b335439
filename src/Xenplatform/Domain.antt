-- ===== src/Xenplatform/Domain.antt =====
-- crates/xen/xenplatform/src/domain.rs: `PlatformDomainManager`, which creates a domain, configures it, builds and boots
-- its guest, and destroys it when one of these fails. The hypervisor, the address space, the writes through pointers, the
-- parser of ELF files and the decompressors are parameters; the calls of xencall and the steps of the x86 platform are
-- those that the other modules model.
pub mod Created
mod Tests
use krata.Prelude.{
  ℕ, ◌+◌, ◌%◌, ◌^◌, Bool, Option, none, some, List, set, replicate, if◌then◌else◌, Outcome, ok, err,
  panic,
}
use krata.Prelude.Effect.{Action, ◌>>=◌, ◌>>◌, pure, lift, continue}
use krata.Xencall.Hypercall.{Hypervisor, Structure, Contents, Arg}
use krata.Xencall.Hypercall
use krata.Xencall.Hypercall.Context.{X8664VcpuGuestContext, no_context, no_regs}
use krata.Xencall.Hypercall.Structures.{CreateDomain}
use krata.Xencall.Versions.{XenCall}
use krata.Xencall.Domctl
use krata.Xencall.MemoryOp
use krata.Xenplatform.Sys.{Error, HyperApi, add64, mul64}
use krata.Xenplatform.FromXencall.{from_xencall, xencall_populate}
use krata.Xenplatform.Boot.{BootDomain}
use krata.Xenplatform.Boot.Setup.{
  BootCalls, BootImageLoader, PlatformKernelConfig, PlatformResourcesConfig, initialize, boot,
}
use krata.Xenplatform.Elf.{ElfBytes}
use krata.Xenplatform.Elf.Image
use krata.Xenplatform.Elf.Load.{elf_image_loader}
use krata.Xenplatform.X86pv.Platform.{
  X86PvPlatform, X86Calls, VcpuGuestContext, StartInfo, GrantEntry, with_platform, new,
}
use krata.Xenplatform.X86pv.Platform.Build.{x86_platform}

abbrev pub xen_extra_memory_kb : ℕ
xen_extra_memory_kb = 2048

abbrev pub xen_domctl_cdf_iommu : ℕ
xen_domctl_cdf_iommu = 32

pub data RuntimePlatformType : Type 0 where
  unsupported pv : RuntimePlatformType

pub data KernelFormat : Type 0 where
  elf_uncompressed elf_compressed : KernelFormat

-- The data of the kernel and its format stand beside the rest of its configuration.
pub record PlatformDomainConfig : Type 0 where
  pub uuid : List ℕ
  pub platform : RuntimePlatformType
  pub resources : PlatformResourcesConfig
  pub kernel : PlatformKernelConfig
  pub kernel_data : List ℕ
  pub kernel_format : KernelFormat
  pub iommu : Bool

pub record PlatformDomainInfo : Type 0 where
  pub domid : ℕ
  pub store_evtchn : ℕ
  pub store_mfn : ℕ
  pub console_evtchn : ℕ
  pub console_mfn : ℕ

-- `CreateDomain::default()`; -1 as a word of 32 bits.
abbrev pub default_domain : CreateDomain
default_domain = record {
  ssidref = 12;
  handle = replicate 16 0;
  flags = 0;
  iommu_opts = 0;
  max_vcpus = 1;
  max_evtchn_port = 1023;
  max_grant_frames = 0xffffffff;
  max_maptrack_frames = 0xffffffff;
  grant_opts = 2;
  vmtrace_size = 0;
  cpupool_id = 0;
  arch_domain_config = record { emulation_flags = 0; misc_flags = 0 };
}

-- `RuntimePlatform::create_domain`.
unfoldable pub platform_domain : {E : Type 0} → RuntimePlatformType → Bool → Outcome E CreateDomain
platform_domain unsupported iommu = panic
platform_domain pv iommu =
    ok (record default_domain { flags = if iommu then xen_domctl_cdf_iommu else 0 })

unfoldable pub max_memory_kb : PlatformResourcesConfig → ℕ
max_memory_kb resources = add64 (mul64 resources.max_memory_mb 1024) xen_extra_memory_kb

-- The registers that are set, and zero in the others.
abbrev pub whole_context : VcpuGuestContext → X8664VcpuGuestContext
whole_context c = record no_context {
  flags = c.flags;
  user_regs = record no_regs {
    rip = c.rip;
    rsp = c.rsp;
    rsi = c.rsi;
    rflags = c.rflags;
    cs = c.cs;
    ss = c.ss;
  };
  kernel_ss = c.kernel_ss;
  kernel_sp = c.kernel_sp;
  ctrlreg = set (replicate 8 0) 3 c.cr3;
  debugreg = set (set (replicate 8 0) 6 c.debug6) 7 c.debug7;
}

-- A blocking task whose panic is an error of the join.
abbrev pub joined : {A : Type 0} → Outcome Error A → Outcome Error A
joined (ok a) = ok a
joined (err e) = err e
joined panic = err Error.async_join_error

-- The writes through pointers that the x86 platform makes.
pub record Writes (W : Type 0) : Type 0 where
  pub write_words : ℕ → List ℕ → W → W
  pub write_start_info : ℕ → StartInfo → W → W
  pub mask_upcalls : (addr count : ℕ) → W → W
  pub write_grant_entry : (addr index : ℕ) → GrantEntry → W → W

-- The crates that read the data of a kernel.
pub record Readers : Type 0 where
  pub minimal_parse : List ℕ → Outcome Error ElfBytes
  pub find_iter : List ℕ → List ℕ → List ℕ
  pub gz_decoder : List ℕ → List (Outcome Error (List ℕ))
  pub xz_decoder : List ℕ → List (Outcome Error (List ℕ))

module _ (H : HyperApi)
    (hypercall : (s : Structure)
      → ℕ
      → List Arg
      → Contents s
      → H.W
      → Outcome ℕ ℕ × (Contents s × H.W))
    (mmap_resource : (dom typ id idx num addr : ℕ) → H.W → Outcome ℕ ℕ × H.W) (writes : Writes H.W)
    (readers : Readers) (x : XenCall) where
  open H use {W}

  abbrev pub hypervisor : Hypervisor
  hypervisor = record { W = W; hypercall = hypercall; mmap_resource = mmap_resource }

  -- What the x86 platform calls, made of the calls of xencall.
  abbrev pub x86_calls : X86Calls W
  x86_calls = record {
    set_address_size =
        λ domid size w. from_xencall (Domctl.set_address_size hypervisor x domid size w);
    claim_pages = λ domid pages w. from_xencall (MemoryOp.claim_pages hypervisor domid pages w);
    populate_physmap = xencall_populate hypervisor;
    evtchn_alloc_unbound =
        λ domid remote w. from_xencall (MemoryOp.evtchn_alloc_unbound hypervisor domid remote w);
    mmuext =
        λ domid cmd arg1 arg2 w. from_xencall (MemoryOp.mmuext hypervisor domid cmd arg1 arg2 w);
    map_resource = λ domid typ id idx num addr w.
        from_xencall (Hypercall.map_resource hypervisor domid typ id idx num addr w);
    set_vcpu_context = λ domid vcpu context w.
        from_xencall (Domctl.set_vcpu_context hypervisor x domid vcpu (whole_context context) w);
    hypercall_init = λ domid gmfn w. from_xencall (Domctl.hypercall_init hypervisor x domid gmfn w);
    write_words = writes.write_words;
    write_start_info = writes.write_start_info;
    mask_upcalls = writes.mask_upcalls;
    write_grant_entry = writes.write_grant_entry;
  }

  -- A call beside the state of the platform.
  abbrev pub beside_platform : {A : Type 0} → Action W Error A → Action (X86PvPlatform × W) Error A
  beside_platform f (p, w) = let (r, w') = f w in (r, (p, w'))

  abbrev pub boot_calls : BootCalls (with_platform H)
  boot_calls = record {
    evtchn_alloc_unbound =
        λ domid remote. beside_platform (x86_calls.evtchn_alloc_unbound domid remote);
    get_domain_info = λ domid. beside_platform (λ w.
        from_xencall
          ((do info ← Domctl.get_domain_info hypervisor x domid; pure info.shared_info_frame) w));
  }

  -- The loader of a kernel: `ElfImageLoader::new`, or `ElfImageLoader::load`, which unpacks it.
  unfoldable pub kernel_loader :
      KernelFormat → List ℕ → Outcome Error (BootImageLoader (with_platform H))
  unfolding elf_image_loader Image.load
  kernel_loader elf_uncompressed kernel =
      ok (elf_image_loader (with_platform H) (readers.minimal_parse kernel))
  kernel_loader elf_compressed kernel =
      elim (joined (Image.load readers.find_iter readers.gz_decoder readers.xz_decoder kernel)) [
        | ok data_of ↦ ok (elf_image_loader (with_platform H) (readers.minimal_parse data_of))
        | err e ↦ err e
        | panic ↦ panic
      ]

  unfoldable pub create_base_domain : PlatformDomainConfig → Action W Error ℕ
  unfolding platform_domain
  create_base_domain config = do
    domain ← lift (platform_domain config.platform config.iommu)
    λ w. from_xencall (
        Domctl.create_domain hypervisor x
          (record domain { handle = config.uuid; max_vcpus = config.resources.max_vcpus }) w)

  unfoldable pub configure_domain_resources : ℕ → PlatformDomainConfig → Action W Error (Unit {0})
  unfolding max_memory_kb
  configure_domain_resources domid config w = from_xencall (
      (do
        Domctl.set_max_vcpus hypervisor x domid config.resources.max_vcpus
        Domctl.set_max_mem hypervisor x domid (max_memory_kb config.resources))
        w)

  -- An `initialize` that succeeds has made the domain, which is then booted.
  abbrev pub booted :
      ℕ
      → Outcome Error (Unit {0}) × (Option BootDomain × (X86PvPlatform × W))
      → Outcome Error BootDomain × W
  booted domid (ok u, (some d, s)) =
      let (r, (d', (p, w))) =
        boot (with_platform H) (x86_platform H x86_calls) boot_calls domid (d, s) in
      continue (r, w) (λ u. pure d')
  booted domid (ok u, (none, (p, w))) = (panic, w)
  booted domid (err e, (d, (p, w))) = (err e, w)
  booted domid (panic, (d, (p, w))) = (panic, w)

  unfoldable pub create_internal : ℕ → PlatformDomainConfig → Action W Error BootDomain
  unfolding configure_domain_resources kernel_loader initialize boot x86_platform
  create_internal domid config = do
    configure_domain_resources domid config
    loader ← lift (kernel_loader config.kernel_format config.kernel_data)
    λ w. booted domid (
        initialize (with_platform H) (x86_platform H x86_calls) boot_calls domid loader
          config.kernel config.resources (new, w))

  -- What `create` gives for the domain, or the error that was there, after the request to destroy the domain, whose own
  -- error is only logged.
  abbrev pub or_destroy : ℕ → Outcome Error BootDomain × W → Outcome Error PlatformDomainInfo × W
  or_destroy domid (ok domain, w) = (
    ok (record {
      domid = domid;
      store_evtchn = domain.store_evtchn;
      store_mfn = domain.store_mfn;
      console_evtchn = domain.console_evtchn;
      console_mfn = domain.console_mfn;
    }),
    w,
  )
  or_destroy domid (err e, w) = (err e, (Domctl.destroy_domain hypervisor x domid w).1)
  or_destroy domid (panic, w) = (panic, w)

  unfoldable pub create : PlatformDomainConfig → Action W Error PlatformDomainInfo
  unfolding create_base_domain create_internal
  create config = do
    domid ← create_base_domain config
    λ w. or_destroy domid (create_internal domid config w)

  unfoldable pub destroy : ℕ → Action W Error (Unit {0})
  destroy domid w = from_xencall (Domctl.destroy_domain hypervisor x domid w)
