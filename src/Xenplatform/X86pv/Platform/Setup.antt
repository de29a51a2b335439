-- ===== src/Xenplatform/X86pv/Platform/Setup.antt =====
-- crates/xen/xenplatform/src/x86pv.rs: the steps of `boot` that fill in the page tables, the pages of
-- information and the context of the first vcpu.
use krata.Prelude.{
  ℕ, zero, suc, ◌+◌, ◌-◌, ◌%◌, ◌^◌, Option, none, some, List, [], ◌∷◌, ◌++◌, length, get_elem?,
  take, replicate, map, bit_or, ltb, ◌==◌, if◌then◌else◌, Outcome, ok, err, panic,
}
use Prim.Native.String.{String}
use krata.Prelude.Effect.{◌>>=◌, ◌>>◌, pure, crash}
use krata.Prelude.Text.{bytes}
use krata.Xenplatform.Sys.{Error, HyperApi, add64, sub64, mul64, shr64, shl64}
use krata.Xenplatform.Mem.{pfn_to_ptr, map_foreign_pages, unmap}
use krata.Xenplatform.Boot.{DomainSegment, BootDomain}
use krata.Xenplatform.X86pv.Tables.{
  PageTable, PageTableMapping, Span, span, level_at, target, used, get_pg_prot, mapping_at,
  x86_page_size, x86_page_shift,
}
use krata.Xenplatform.X86pv.Platform.{
  VcpuGuestContext, X86Calls, with_platform, Step, of_domain, of_platform, write_out, call_out,
  in_phys, p2m_at, segment_or,
}

-- The entries that map the frames from `pfn` on; `none` is the panic of a frame past the list.
unfoldable pub page_entries : PageTable → ℕ → List ℕ → ℕ → ℕ → Option (List ℕ)
unfolding get_pg_prot
page_entries t l p2m pfn zero = some []
page_entries t l p2m pfn (suc n) =
    let rest = page_entries t l p2m (pfn + 1) n in
    elim (get_elem? p2m pfn) [
      | none ↦ none
      | some mfn ↦ elim rest [
        | none ↦ none
        | some entries ↦ some (bit_or (shl64 mfn x86_page_shift) (get_pg_prot t l pfn) ∷ entries)
      ]
    ]

abbrev pub x86_guest_magic : String
x86_guest_magic = "xen-3.0-x86_64"

abbrev pub max_guest_cmdline : ℕ
max_guest_cmdline = 1024

abbrev pub vstart_of : Option DomainSegment → ℕ
vstart_of none = 0
vstart_of (some g) = g.vstart

abbrev pub size_of : Option DomainSegment → ℕ
size_of none = 0
size_of (some g) = g.size

-- The array of characters; the last is the end of the text.
abbrev pub cmdline_array : List ℕ → List ℕ
cmdline_array text =
    take (max_guest_cmdline - 1) (map (λ c. c % 2 ^ 8) text ++ replicate max_guest_cmdline 0)
    ++ 0 ∷ []

-- The values of the registers, from the frame of the tables, the stack and the page of information.
abbrev pub context : BootDomain → ℕ → (boot_stack start_info : DomainSegment) → VcpuGuestContext
context d pg_mfn boot_stack start_info =
    let rsp = add64 d.image_info.virt_base (mul64 (add64 boot_stack.pfn 1) x86_page_size) in
    record {
      flags = 0x24;
      rip = d.image_info.virt_entry;
      rsp = rsp;
      rsi = add64 d.image_info.virt_base (mul64 start_info.pfn x86_page_size);
      rflags = 512;
      cs = 0xe033;
      ss = 0xe02b;
      kernel_ss = 0xe02b;
      kernel_sp = rsp;
      cr3 = shl64 pg_mfn 12;
      debug6 = 0xffff0ff0;
      debug7 = 0x400;
    }

module _ (H : HyperApi) (calls : X86Calls H.W) where
  abbrev pub written : ℕ → ℕ → Option (List ℕ) → Step H (Unit {0})
  written pg first none s = (panic, s)
  written pg first (some entries) (d, (p, w)) =
      (ok tt, (d, (p, calls.write_words (add64 pg (mul64 first 8)) entries w)))

  -- One pair of mappings, at the page of `map1`'s table. A panic among the entries writes none here.
  unfoldable pub write_span : ℕ → ℕ → Option Span → Step H (Unit {0})
  unfolding page_entries
  write_span l pg none s = (ok tt, s)
  write_span l pg (some k) (d, (p, w)) =
      written pg k.first (page_entries p.table l d.phys.p2m k.pfn k.count) (d, (p, w))

  unfoldable pub write_targets :
      ℕ → ℕ → PageTableMapping → List PageTableMapping → Step H (Unit {0})
  unfolding write_span span
  write_targets l pg map1 [] = pure tt
  write_targets l pg map1 (map2 ∷ maps) = do
    write_span l pg (span l (level_at map1 l) (target l map2))
    write_targets l pg map1 maps

  unfoldable pub write_mappings :
      ℕ → List PageTableMapping → List PageTableMapping → Step H (Unit {0})
  unfolding write_targets pfn_to_ptr
  write_mappings l all [] = pure tt
  write_mappings l all (map1 ∷ maps) = do
    pg ← in_phys H (pfn_to_ptr (with_platform H) (level_at map1 l).pfn 0)
    write_targets l pg map1 all
    write_mappings l all maps

  -- The levels from the top down.
  unfoldable pub write_levels : ℕ → Step H (Unit {0})
  unfolding write_mappings
  write_levels zero = pure tt
  write_levels (suc l) = do
    maps ← of_platform H (λ p. used p.table)
    write_mappings l maps maps
    write_levels l

  unfoldable pub setup_page_tables : Step H (Unit {0})
  unfolding write_levels
  setup_page_tables = do
    p2m_segment ← segment_or H (λ p. p.p2m_segment) "p2m_segment missing"
    p2m ← of_domain H (λ d. d.phys.p2m)
    write_out H (calls.write_words p2m_segment.addr p2m)
    write_levels 4

  unfoldable pub setup_shared_info : ℕ → Step H (Unit {0})
  unfolding map_foreign_pages
  setup_shared_info shared_info_frame = do
    info ← in_phys H (map_foreign_pages (with_platform H) shared_info_frame x86_page_size)
    write_out H (λ w. calls.mask_upcalls info 32 (H.fill_zero info 3136 w))

  -- A command line that is too long is a panic, when the page has been cleared.
  abbrev pub short_enough : List ℕ → Step H (Unit {0})
  short_enough text = if ltb max_guest_cmdline (length text) then crash else pure tt

  unfoldable pub setup_start_info : ℕ → Step H (Unit {0})
  unfolding pfn_to_ptr
  setup_start_info shared_info_frame = do
    start_info_segment ← segment_or H (λ p. p.start_info_segment) "start_info_segment missing"
    ptr ← in_phys H (pfn_to_ptr (with_platform H) start_info_segment.pfn 1)
    write_out H (H.fill_zero ptr x86_page_size)
    page_table_segment ← segment_or H (λ p. p.page_table_segment) "page_table_segment missing"
    p2m_segment ← segment_or H (λ p. p.p2m_segment) "p2m_segment missing"
    xenstore_segment ← segment_or H (λ p. p.xenstore_segment) "xenstore_segment missing"
    store_mfn ← p2m_at H xenstore_segment.pfn
    tables ← of_platform H (λ p. (mapping_at p.table 0).area.pgtables)
    d ← of_domain H (λ d. d)
    short_enough (bytes d.cmdline)
    write_out H (
        calls.write_start_info ptr (record {
          magic = bytes x86_guest_magic;
          nr_pages = d.total_pages;
          shared_info = shl64 shared_info_frame x86_page_shift;
          flags = 0;
          store_mfn = store_mfn;
          store_evtchn = d.store_evtchn;
          console = record { mfn = d.console_mfn; evtchn = d.console_evtchn };
          pt_base = page_table_segment.vstart;
          nr_pt_frames = tables;
          mfn_list = p2m_segment.vstart;
          mod_start = vstart_of d.initrd_segment;
          mod_len = size_of d.initrd_segment;
          cmdline = cmdline_array (bytes d.cmdline);
          first_p2m_pfn = p2m_segment.pfn;
          nr_p2m_frames = p2m_segment.pages;
        }))

  -- MMUEXT_PIN_L4_TABLE is 3.
  unfoldable pub bootlate : Step H (Unit {0})
  unfolding unmap
  bootlate = do
    p2m_segment ← segment_or H (λ p. p.p2m_segment) "p2m_segment missing"
    page_table_segment ← segment_or H (λ p. p.page_table_segment) "page_table_segment missing"
    pg_mfn ← p2m_at H page_table_segment.pfn
    in_phys H (unmap (with_platform H) page_table_segment.pfn)
    in_phys H (unmap (with_platform H) p2m_segment.pfn)
    domid ← of_domain H (λ d. d.domid)
    call_out H (calls.mmuext domid 3 pg_mfn 0)

  abbrev pub mapped_at : Option ℕ → Outcome Error ℕ
  mapped_at none = err Error.mmap_failed
  mapped_at (some addr) = ok addr

  abbrev pub no_longer_mapped : ℕ → Outcome Error (Unit {0})
  no_longer_mapped zero = ok tt
  no_longer_mapped (suc e) = err (Error.unmap_failed (suc e))

  abbrev pub first_of : {A B : Type 0} → (A → Outcome Error B) → A × H.W → Outcome Error B × H.W
  first_of f (a, w) = (f a, w)

  unfoldable pub gnttab_seed : Step H (Unit {0})
  gnttab_seed = do
    xenstore_segment ← segment_or H (λ p. p.xenstore_segment) "xenstore_segment missing"
    d ← of_domain H (λ d. d)
    xenstore_gfn ← p2m_at H xenstore_segment.pfn
    addr ← call_out H (λ w. first_of mapped_at (H.mmap 4096 w))
    call_out H (calls.map_resource d.domid 1 0 0 1 addr)
    write_out H (
        calls.write_grant_entry addr 0
          (record { flags = 1; domid = 0; frame = d.console_mfn % 2 ^ 32 }))
    write_out H (
        calls.write_grant_entry addr 1
          (record { flags = 1; domid = 0; frame = xenstore_gfn % 2 ^ 32 }))
    call_out H (λ w. first_of no_longer_mapped (H.munmap addr 4096 w))

  unfoldable pub vcpu : Step H (Unit {0})
  vcpu = do
    page_table_segment ← segment_or H (λ p. p.page_table_segment) "page_table_segment missing"
    boot_stack_segment ← segment_or H (λ p. p.boot_stack_segment) "boot_stack_segment missing"
    start_info_segment ← segment_or H (λ p. p.start_info_segment) "start_info_segment missing"
    pg_mfn ← p2m_at H page_table_segment.pfn
    d ← of_domain H (λ d. d)
    call_out H
        (calls.set_vcpu_context d.domid 0 (context d pg_mfn boot_stack_segment start_info_segment))

  abbrev pub no_hypercall_page : ℕ
  no_hypercall_page = 2 ^ 64 - 1

  unfoldable pub setup_hypercall_page : Step H (Unit {0})
  setup_hypercall_page (d, s) =
      if d.image_info.virt_hypercall == no_hypercall_page
      then (ok tt, (d, s))
      else (do
        mfn ←
            p2m_at H
              (shr64 (sub64 d.image_info.virt_hypercall d.image_info.virt_base) x86_page_shift)
        call_out H (calls.hypercall_init d.domid mfn))
          (d, s)
