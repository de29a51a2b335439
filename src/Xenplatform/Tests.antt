-- ===== src/Xenplatform/Tests.antt =====
-- The theorems of the xenplatform crate at an address space that maps everything at one address.
use krata.Prelude.{◌≡◌, ◌≢◌, refl, true, false, none, some, [], ◌∷◌, All, arith, err, ok, panic}
use krata.Xenplatform.Sys.{Error, HyperApi}
use krata.Xenplatform.Mem.{
  PhysicalPages, visit, find_page, entries, frames_from, count_from, map_frames, pfn_alloc,
  pfn_to_ptr, unmap_all, unmap_each,
}
use krata.Xenplatform.Mem.Lookup.{IsMapped, Any, Holds}
use krata.Xenplatform.Mem.Disjoint.{
  IsDisjoint, pfn_to_ptr-IsDisjoint, pfn_to_ptr-Holds, pfn_to_ptr_again,
}
use krata.Xenplatform.Boot.{BootDomain, BootImageInfo}
use krata.Xenplatform.Boot.Setup.{
  Step, BootSetupPlatform, BootCalls, boot, boot_internal, unmap_phys, BootImageLoader,
  PlatformKernelConfig, initialize_internal, initialize_parsed,
}
use krata.Xenplatform.Boot.Setup.Cleanup.{IsUnmapped, boot_unmaps, initialize_unmaps}
use krata.Xenplatform.Boot.Segments.{IsBooting, Progress}
use krata.Xenplatform.Boot.Sequence.{
  page, segment, padding, serve_all, Between, Ordered, serve_all-Ordered,
}

abbrev one_address : HyperApi
one_address = record {
  W = Unit {0};
  mmap = λ len w. (some 1048576, w);
  mmap_batch = λ domid num addr mfns w. (ok 0, w);
  munmap = λ addr len w. (0, w);
  fill_zero = λ addr len w. w;
  copy = λ addr bytes w. w;
}

-- Frames 16 to 19 are mapped.
abbrev four_frames : PhysicalPages
four_frames = record {
  page_shift = 12;
  domid = 1;
  p2m = [];
  pages = record { pfn = 16; ptr = 4194304; count = 4 } ∷ [];
}

four_frames-IsMapped : All IsMapped four_frames.pages
four_frames-IsMapped =
    (record { nonempty = omega arith; frames = omega arith; space = omega arith }, tt)

pfn_to_ptr-IsDisjoint_example : IsDisjoint (pfn_to_ptr one_address 30 2 (four_frames, tt)).1.0.pages
pfn_to_ptr-IsDisjoint_example =
    pfn_to_ptr-IsDisjoint one_address 30 2 four_frames tt refl four_frames-IsMapped (omega arith)
      (omega arith) (tt, tt)

abbrev six_frames : PhysicalPages
six_frames = record four_frames {
  pages =
      record { pfn = 16; ptr = 4194304; count = 4 }
      ∷ record { pfn = 30; ptr = 1048576; count = 2 }
      ∷ [];
}

maps_new : pfn_to_ptr one_address 30 2 (four_frames, tt) ≡ (ok 1048576, (six_frames, tt))
unfolding pfn_to_ptr find_page visit pfn_alloc entries count_from frames_from map_frames
maps_new = refl

pfn_to_ptr-Holds_example : Any (Holds 30 2 1048576) six_frames.pages
pfn_to_ptr-Holds_example =
    pfn_to_ptr-Holds one_address 30 2 1048576 four_frames six_frames tt tt refl four_frames-IsMapped
      (omega arith) (omega arith) (tt, tt) maps_new

pfn_to_ptr_again_example :
    pfn_to_ptr one_address 30 2 (six_frames, tt) ≡ (ok 1048576, (six_frames, tt))
pfn_to_ptr_again_example =
    pfn_to_ptr_again one_address 30 2 1048576 four_frames six_frames tt tt refl four_frames-IsMapped
      (omega arith) (omega arith) (omega arith) maps_new

abbrev image : BootImageInfo
image = record {
  start = 0;
  virt_base = 0;
  virt_kstart = 16777216;
  virt_kend = 16797696;
  virt_hypercall = 0;
  virt_entry = 0;
  virt_p2m_base = 0;
  unmapped_initrd = false;
}

-- A domain of 16384 pages, nothing of which has been handed out.
abbrev booting : BootDomain
booting = record {
  domid = 1;
  page_size = 4096;
  virt_alloc_end = 0;
  pfn_alloc_end = 0;
  virt_pgtab_end = 0;
  total_pages = 16384;
  target_pages = 16384;
  max_vcpus = 1;
  image_info = image;
  phys = record { page_shift = 12; domid = 1; p2m = []; pages = [] };
  store_evtchn = 0;
  store_mfn = 0;
  initrd_segment = none;
  console_evtchn = 0;
  console_mfn = 0;
  cmdline = "";
}

booting-IsBooting : IsBooting booting
booting-IsBooting = record {
  page = refl;
  frames = omega arith;
  space = omega arith;
  aligned = refl;
  total = omega arith;
}

serve_all-Ordered_example :
    let (gs, (d', w')) =
      serve_all one_address
        (segment 16777216 20480 ∷ page ∷ padding 5 ∷ segment 0 100 ∷ [])
        (booting, tt) in
    Progress booting d' × (All (Between booting d') gs × Ordered gs)
serve_all-Ordered_example =
    serve_all-Ordered one_address (segment 16777216 20480 ∷ page ∷ padding 5 ∷ segment 0 100 ∷ [])
      booting tt booting-IsBooting

abbrev mapped_domain : BootDomain
mapped_domain = record booting { phys = four_frames }

abbrev done : {A : Type 0} → A → Step one_address A
done a s = (ok a, s)

-- A platform whose steps succeed but for the first, which is `early`.
abbrev platform_with : Step one_address (Unit {0}) → BootSetupPlatform one_address
platform_with early = record {
  page_size = 4096;
  page_shift = 12;
  needs_early_kernel = true;
  hvm = false;
  initialize_early = early;
  initialize_memory = done tt;
  alloc_magic_pages = done tt;
  setup_page_tables = done tt;
  setup_shared_info = λ frame. done tt;
  setup_start_info = λ frame. done tt;
  bootlate = done tt;
  gnttab_seed = done tt;
  vcpu = done tt;
  setup_hypercall_page = done tt;
}

abbrev calls : BootCalls one_address
calls = record {
  evtchn_alloc_unbound = λ domid remote w. (ok 3, w);
  get_domain_info = λ domid w. (ok 77, w);
}

boot_unmaps_example :
    let s = boot_internal one_address (platform_with (done tt)) calls 1 (mapped_domain, tt) in
    let s' = boot one_address (platform_with (done tt)) calls 1 (mapped_domain, tt) in
    (s'.0 ≡ s.0) × IsUnmapped one_address s.1 s'.1
boot_unmaps_example =
    boot_unmaps one_address (λ addr len w. refl) (platform_with (done tt)) calls 1 mapped_domain tt
      completes
  where
    completes :
        (boot_internal one_address (platform_with (done tt)) calls 1 (mapped_domain, tt)).0 ≢ panic
    completes = unfold boot_internal unmap_phys unmap_all unmap_each in λ e. cc e

abbrev fails : Step one_address (Unit {0})
fails s = (err Error.elf_not_linux, s)

abbrev loader : BootImageLoader one_address
loader = record { parse = λ hvm w. (ok image, w); load = λ info addr len w. (ok tt, w) }

abbrev no_kernel : PlatformKernelConfig
no_kernel = record { cmdline = ""; initrd = none }

initialize_unmaps_example :
    let s =
      initialize_internal one_address
        (platform_with fails)
        calls
        1
        loader
        no_kernel
        (mapped_domain, tt) in
    let s' =
      initialize_parsed one_address
        (platform_with fails)
        calls
        1
        loader
        no_kernel
        (mapped_domain, tt) in
    (s'.0 ≡ err Error.elf_not_linux) × IsUnmapped one_address s.1 s'.1
initialize_unmaps_example =
    initialize_unmaps one_address (λ addr len w. refl) (platform_with fails) calls 1 loader
      no_kernel mapped_domain tt Error.elf_not_linux failed
  where
    failed :
        (initialize_internal one_address
          (platform_with fails)
          calls
          1
          loader
          no_kernel
          (mapped_domain, tt)).0
        ≡ err Error.elf_not_linux
    failed = unfold initialize_internal in refl
