-- ===== src/Xenplatform/X86pv/Platform/Build.antt =====
-- crates/xen/xenplatform/src/x86pv.rs as the platform of boot.rs: the trait `BootSetupPlatform` of
-- `X86PvPlatform`, with what `boot` and `initialize` then promise.
use krata.Prelude.{ℕ, ◌≡◌, ◌≢◌, false, ok, panic}
use krata.Xenplatform.Sys.{HyperApi}
use krata.Xenplatform.Boot.{BootDomain}
use krata.Xenplatform.Boot.Setup.{BootSetupPlatform, BootCalls, boot_internal, boot}
use krata.Xenplatform.Boot.Setup.Cleanup.{Unmaps, IsUnmapped, boot_unmaps}
use krata.Xenplatform.X86pv.Tables.{x86_page_shift, x86_page_size}
use krata.Xenplatform.X86pv.Platform.{X86PvPlatform, X86Calls, with_platform}
use krata.Xenplatform.X86pv.Platform.Alloc.{initialize_memory, alloc_magic_pages}
use krata.Xenplatform.X86pv.Platform.Setup.{
  setup_page_tables, setup_shared_info, setup_start_info, bootlate, gnttab_seed, vcpu,
  setup_hypercall_page,
}

module _ (H : HyperApi) (calls : X86Calls H.W) where
  unfoldable pub x86_platform : BootSetupPlatform (with_platform H)
  unfolding initialize_memory alloc_magic_pages setup_page_tables setup_shared_info setup_start_info
      bootlate gnttab_seed vcpu setup_hypercall_page
  x86_platform = record {
    page_size = x86_page_size;
    page_shift = x86_page_shift;
    needs_early_kernel = false;
    hvm = false;
    initialize_early = λ s. (ok tt, s);
    initialize_memory = initialize_memory H calls;
    alloc_magic_pages = alloc_magic_pages H calls;
    setup_page_tables = setup_page_tables H calls;
    setup_shared_info = setup_shared_info H calls;
    setup_start_info = setup_start_info H calls;
    bootlate = bootlate H calls;
    gnttab_seed = gnttab_seed H calls;
    vcpu = vcpu H calls;
    setup_hypercall_page = setup_hypercall_page H calls;
  }

  -- If munmap answers 0, then however the steps of `boot` end on this platform, short of a panic, every
  -- page that they leave mapped is given back to munmap, none stays in the list, and the result is theirs.
  pub x86_boot_unmaps :
      Unmaps H
      → (boot_calls : BootCalls (with_platform H)) (domid : ℕ) (d : BootDomain)
        (s : X86PvPlatform × H.W)
      → (boot_internal (with_platform H) x86_platform boot_calls domid (d, s)).0 ≢ panic
      → let b = boot_internal (with_platform H) x86_platform boot_calls domid (d, s) in
        ((boot (with_platform H) x86_platform boot_calls domid (d, s)).0 ≡ b.0)
        × IsUnmapped
            (with_platform H)
            b.1
            (boot (with_platform H) x86_platform boot_calls domid (d, s)).1
  x86_boot_unmaps u boot_calls domid d s n =
      boot_unmaps (with_platform H) (λ addr len t. u addr len t.1) x86_platform boot_calls domid d s
        n
