-- ===== src/Xenplatform/Boot/Setup.antt =====
-- crates/xen/xenplatform/src/boot.rs: the steps of `initialize` and `boot`. The platform, the image
-- loader and the calls of the hypervisor that they make are parameters, each an action on the
-- domain that is built and on what lies behind it.
pub mod Cleanup
use Prim.Native.String.{String}
use krata.Prelude.{
  ℕ, ◌+◌, ◌-◌, ◌*◌, ◌^◌, Bool, true, false, not, ◌&&◌, Option, none, some, List, [], if◌then◌else◌,
  Outcome, ok, err, panic,
}
use krata.Prelude.Effect.{Action, ◌>>=◌, ◌>>◌, pure, raise, modify}
use krata.Xenplatform.Sys.{Error, HyperApi, sub64, shl64}
use krata.Xenplatform.Mem.{PhysicalPages, new, unmap_all}
use krata.Xenplatform.Boot.{DomainSegment, BootImageInfo, BootDomain, alloc_segment, alloc_module}

pub record PlatformKernelConfig : Type 0 where
  pub initrd : Option (List ℕ)
  pub cmdline : String

pub record PlatformResourcesConfig : Type 0 where
  pub max_vcpus : ℕ
  pub assigned_memory_mb : ℕ
  pub max_memory_mb : ℕ

module _ (H : HyperApi) where
  open H use {W}

  abbrev pub Step : Type 0 → Type 0
  Step A = Action (BootDomain × W) Error A

  -- The trait; its parts that create a domain are not used here.
  pub record BootSetupPlatform : Type 0 where
    pub page_size : ℕ
    pub page_shift : ℕ
    pub needs_early_kernel : Bool
    pub hvm : Bool
    pub initialize_early : Step (Unit {0})
    pub initialize_memory : Step (Unit {0})
    pub alloc_magic_pages : Step (Unit {0})
    pub setup_page_tables : Step (Unit {0})
    pub setup_shared_info : ℕ → Step (Unit {0})
    pub setup_start_info : ℕ → Step (Unit {0})
    pub bootlate : Step (Unit {0})
    pub gnttab_seed : Step (Unit {0})
    pub vcpu : Step (Unit {0})
    pub setup_hypercall_page : Step (Unit {0})

  -- The trait `BootImageLoader`: `load` gets the image's description and where to write, as an address and a length.
  pub record BootImageLoader : Type 0 where
    pub parse : Bool → Action W Error BootImageInfo
    pub load : BootImageInfo → ℕ → ℕ → Action W Error (Unit {0})

  -- The calls of the hypervisor; `get_domain_info` gives the frame of the shared info.
  pub record BootCalls : Type 0 where
    pub evtchn_alloc_unbound : ℕ → ℕ → Action W Error ℕ
    pub get_domain_info : ℕ → Action W Error ℕ

  -- A call that leaves the domain alone.
  abbrev pub beside :
      {A : Type 0} → BootDomain → Outcome Error A × W → Outcome Error A × (BootDomain × W)
  beside d (r, w) = (r, (d, w))

  abbrev pub call_out : {A : Type 0} → Action W Error A → Step A
  call_out f (d, w) = beside d (f w)

  abbrev pub domain : {A : Type 0} → (BootDomain → A) → Step A
  domain f (d, w) = (ok (f d), (d, w))

  abbrev pub change : (BootDomain → BootDomain) → Step (Unit {0})
  change f (d, w) = (ok tt, (f d, w))

  abbrev pub on_phys :
      {A : Type 0}
      → BootDomain
      → Outcome Error A × (PhysicalPages × W)
      → Outcome Error A × (BootDomain × W)
  on_phys d (r, (p, w)) = (r, (record d { phys = p }, w))

  -- `domain.phys.unmap_all()`.
  unfoldable pub unmap_phys : Step (Unit {0})
  unfolding unmap_all
  unmap_phys (d, w) = on_phys d (unmap_all H (d.phys, w))

  unfoldable pub load_kernel_segment : BootImageLoader → Step DomainSegment
  unfolding alloc_segment
  load_kernel_segment loader = do
    info ← domain (λ d. d.image_info)
    segment ← alloc_segment H info.virt_kstart (sub64 info.virt_kend info.virt_kstart)
    call_out (loader.load info segment.addr segment.size)
    pure segment

  -- The initrd, if this is the time to load it and there is one.
  unfoldable pub load_initrd : Bool → Option (List ℕ) → Step (Option DomainSegment)
  unfolding alloc_module
  load_initrd due none = pure none
  load_initrd false (some initrd) = pure none
  load_initrd true (some initrd) = do segment ← alloc_module H initrd; pure (some segment)

  unfoldable pub load_kernel_if : Bool → BootImageLoader → Step (Option DomainSegment)
  unfolding load_kernel_segment
  load_kernel_if false loader = pure none
  load_kernel_if true loader = do segment ← load_kernel_segment loader; pure (some segment)

  abbrev pub is_none : Option DomainSegment → Bool
  is_none none = true
  is_none (some segment) = false

  -- The segment that was loaded late, or else the one that was loaded early.
  abbrev pub or_else : Option DomainSegment → Option DomainSegment → Option DomainSegment
  or_else none early = early
  or_else (some segment) early = some segment

  abbrev pub kernel_missing : Option DomainSegment → Step (Unit {0})
  kernel_missing none = raise (Error.memory_setup_failed "kernel_segment missing")
  kernel_missing (some segment) = pure tt

  unfoldable pub initialize_internal :
      BootSetupPlatform → BootCalls → ℕ → BootImageLoader → PlatformKernelConfig → Step (Unit {0})
  unfolding load_initrd load_kernel_if
  initialize_internal platform calls domid loader kernel = do
    platform.initialize_early
    unmapped ← domain (λ d. d.image_info.unmapped_initrd)
    initrd_early ← load_initrd (not unmapped) kernel.initrd
    kernel_early ← load_kernel_if platform.needs_early_kernel loader
    platform.initialize_memory
    change (λ d. record d { virt_alloc_end = d.image_info.virt_base })
    kernel_late ← load_kernel_if (is_none kernel_early) loader
    unmapped_now ← domain (λ d. d.image_info.unmapped_initrd)
    initrd_late ← load_initrd unmapped_now kernel.initrd
    change (λ d. record d { initrd_segment = or_else initrd_late initrd_early })
    platform.alloc_magic_pages
    port ← call_out (calls.evtchn_alloc_unbound domid 0)
    change (λ d. record d { store_evtchn = port })
    kernel_missing (or_else kernel_late kernel_early)

  unfoldable pub new_domain :
      BootSetupPlatform
      → ℕ
      → PlatformKernelConfig
      → PlatformResourcesConfig
      → BootImageInfo
      → BootDomain
  unfolding new
  new_domain platform domid kernel resources info = record {
    domid = domid;
    page_size = platform.page_size;
    virt_alloc_end = 0;
    pfn_alloc_end = 0;
    virt_pgtab_end = 0;
    total_pages = shl64 resources.max_memory_mb (20 - platform.page_shift);
    target_pages = shl64 resources.assigned_memory_mb (20 - platform.page_shift);
    max_vcpus = resources.max_vcpus;
    image_info = info;
    phys = new domid platform.page_shift;
    store_evtchn = 0;
    store_mfn = 0;
    initrd_segment = none;
    console_evtchn = 0;
    console_mfn = 0;
    cmdline = kernel.cmdline;
  }

  -- `cleanup` with `?`, and then the error that was there.
  abbrev pub failed_with :
      {A : Type 0}
      → Error
      → Outcome Error (Unit {0}) × (BootDomain × W)
      → Outcome Error A × (BootDomain × W)
  failed_with e (ok u, s) = (err e, s)
  failed_with e (err e', s) = (err e', s)
  failed_with e (panic, s) = (panic, s)

  abbrev pub or_clean_up :
      Outcome Error (Unit {0}) × (BootDomain × W) → Outcome Error (Unit {0}) × (BootDomain × W)
  or_clean_up (ok u, s) = (ok tt, s)
  or_clean_up (err e, s) = failed_with e (unmap_phys s)
  or_clean_up (panic, s) = (panic, s)

  -- `initialize` from the parsed image on: the domain that it gives is that of the state.
  unfoldable pub initialize_parsed :
      BootSetupPlatform → BootCalls → ℕ → BootImageLoader → PlatformKernelConfig → Step (Unit {0})
  unfolding initialize_internal unmap_phys
  initialize_parsed platform calls domid loader kernel s =
      or_clean_up (initialize_internal platform calls domid loader kernel s)

  abbrev pub parsed :
      BootSetupPlatform
      → BootCalls
      → ℕ
      → BootImageLoader
      → PlatformKernelConfig
      → PlatformResourcesConfig
      → Outcome Error BootImageInfo × W
      → Outcome Error (Unit {0}) × (Option BootDomain × W)
  parsed platform calls domid loader kernel resources (ok info, w) =
      let (r, (d, w')) =
        initialize_parsed platform calls domid loader kernel
          (new_domain platform domid kernel resources info, w) in
      (r, (some d, w'))
  parsed platform calls domid loader kernel resources (err e, w) = (err e, (none, w))
  parsed platform calls domid loader kernel resources (panic, w) = (panic, (none, w))

  unfoldable pub initialize :
      BootSetupPlatform
      → BootCalls
      → ℕ
      → BootImageLoader
      → PlatformKernelConfig
      → PlatformResourcesConfig
      → W
      → Outcome Error (Unit {0}) × (Option BootDomain × W)
  unfolding initialize_parsed new_domain
  initialize platform calls domid loader kernel resources w =
      parsed platform calls domid loader kernel resources (loader.parse platform.hvm w)

  unfoldable pub boot_internal : BootSetupPlatform → BootCalls → ℕ → Step (Unit {0})
  unfolding unmap_phys
  boot_internal platform calls domid = do
    shared_info_frame ← call_out (calls.get_domain_info domid)
    platform.setup_page_tables
    platform.setup_start_info shared_info_frame
    platform.setup_hypercall_page
    platform.bootlate
    platform.setup_shared_info shared_info_frame
    platform.vcpu
    platform.gnttab_seed
    unmap_phys

  -- The second `unmap_all`, whose error goes before that of the boot.
  abbrev pub after_boot :
      Outcome Error (Unit {0}) × (BootDomain × W) → Outcome Error (Unit {0}) × (BootDomain × W)
  after_boot (ok u, s) = unmap_phys s
  after_boot (err e, s) = failed_with e (unmap_phys s)
  after_boot (panic, s) = (panic, s)

  unfoldable pub boot : BootSetupPlatform → BootCalls → ℕ → Step (Unit {0})
  unfolding boot_internal unmap_phys
  boot platform calls domid s = after_boot (boot_internal platform calls domid s)
