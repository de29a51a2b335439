-- ===== src/Xenplatform/X86pv/Platform/Alloc.antt =====
-- crates/xen/xenplatform/src/x86pv.rs: `initialize_memory`, and the segments that `alloc_magic_pages`
-- takes: the list of frames, the page tables and the single pages.
use krata.Prelude.{
  ℕ, zero, suc, ◌+◌, ◌-◌, ◌%◌, ◌^◌, Bool, true, false, not, ◌||◌, Option, none, some, map, set, ltb,
  leb, ◌==◌, if◌then◌else◌, Outcome, ok, err, panic,
}
use krata.Prelude.Effect.{Action, ◌>>=◌, ◌>>◌, pure}
use krata.Xenplatform.Sys.{Error, HyperApi, add64, sub64, mul64, shr64, shl64}
use krata.Xenplatform.Mem.{load_p2m, p2m_size}
use krata.Xenplatform.Boot.{
  DomainSegment, BootImageInfo, BootDomain, round_up, bits_to_mask, alloc_page, alloc_padding_pages,
  alloc_segment,
}
use krata.Xenplatform.X86pv.Tables.{
  PageTableMappingLevel, PageTable, mapping_at, x86_page_size, x86_page_shift, count_page_tables,
}
use krata.Xenplatform.X86pv.Memory.{fill_p2m}
use krata.Xenplatform.X86pv.Platform.{
  X86Calls, with_platform, Step, of_domain, of_platform, change_domain, change_platform, call_out,
  in_domain, in_table, p2m_at,
}

-- A page, and 512 KB of pages.
abbrev pub extra_pages : ℕ
extra_pages = 129

-- The end of the tables' addresses and the index of their mapping.
pub record Found : Type 0 where
  pub try_virt_end : ℕ
  pub mapping : ℕ

-- The loop's test: this was the last round, or there is another.
abbrev pub found_or : Bool → Found → Action PageTable Error Found → Action PageTable Error Found
found_or true found again t = (ok found, t)
found_or false found again t = again t

module _ (pfn_alloc_end p2m_size virt_base virt_alloc_end : ℕ) where
  abbrev pub end_of : ℕ → ℕ
  end_of pages = round_up (add64 virt_alloc_end (mul64 pages x86_page_size)) (bits_to_mask 22)

  -- The pages for the tables that were counted.
  abbrev pub pages_with : ℕ → PageTable → ℕ
  pages_with m t = add64 (mapping_at t m).area.pgtables extra_pages

  abbrev pub fits : ℕ → ℕ → Bool
  fits pages end = leb (add64 virt_alloc_end (mul64 pages x86_page_size)) (add64 end 1)

  abbrev pub counted :
      ℕ
      → (ℕ → Action PageTable Error Found)
      → Outcome Error ℕ × PageTable
      → Outcome Error Found × PageTable
  counted end again (ok m, t) =
      found_or (fits (pages_with m t) end) (record { try_virt_end = end; mapping = m })
        (again (pages_with m t)) t
  counted end again (err e, t) = (err e, t)
  counted end again (panic, t) = (panic, t)

  -- The loop of `alloc_page_tables`. No fuel is a panic; no other panic arises.
  unfoldable pub find_tables : ℕ → ℕ → Action PageTable Error Found
  unfolding count_page_tables round_up bits_to_mask
  find_tables zero pages t = (panic, t)
  find_tables (suc fuel) pages t =
      let again = find_tables fuel in
      counted (end_of pages) again
        (count_page_tables pfn_alloc_end p2m_size virt_base (end_of pages) 0 t)

-- Each round but the last raises the end by 4 MB at least.
abbrev pub tables_fuel : ℕ
tables_fuel = 4398046511105

abbrev pub raised : ℕ → PageTableMappingLevel → PageTableMappingLevel
raised pages level = record level { pfn = add64 level.pfn pages }

-- The tables of the mapping's levels lie so many pages further on.
abbrev pub after_pages : ℕ → ℕ → PageTable → PageTable
after_pages m pages t =
    let map_m = mapping_at t m in
    record t {
      mappings = set t.mappings m (record map_m { levels = map (raised pages) map_m.levels });
    }

-- The mapping is in use, and its area begins at a frame.
abbrev pub in_use_at : ℕ → ℕ → PageTable → PageTable
in_use_at m pfn t =
    let map_m = mapping_at t m in
    record t {
      mappings_count = t.mappings_count + 1;
      mappings = set t.mappings m (record map_m { area = record map_m.area { pfn = pfn } });
    }

-- Memory for the list of frames, of 8 bytes each, in whole pages.
unfoldable pub p2m_bytes : BootDomain → ℕ
unfolding p2m_size
p2m_bytes d =
    let size = sub64 (add64 (mul64 (p2m_size d.phys) 8) x86_page_size) 1 in
    size - size % x86_page_size

unfoldable pub counted_tables : BootDomain → Action PageTable Error Found
unfolding find_tables p2m_size
counted_tables d =
    find_tables d.pfn_alloc_end (p2m_size d.phys) d.image_info.virt_base d.virt_alloc_end
      tables_fuel extra_pages

unfoldable pub counted_p2m : BootDomain → Action PageTable Error ℕ
unfolding count_page_tables p2m_bytes p2m_size
counted_p2m d =
    let from = d.image_info.virt_p2m_base in
    count_page_tables d.pfn_alloc_end (p2m_size d.phys) from (sub64 (add64 from (p2m_bytes d)) 1)
      d.pfn_alloc_end

unfoldable pub p2m_placed : BootDomain → ℕ → PageTable → PageTable
unfolding p2m_bytes
p2m_placed d m t =
    in_use_at m d.pfn_alloc_end (after_pages m (shr64 (p2m_bytes d) x86_page_shift) t)

-- The test by which the list of frames is allocated before all else.
abbrev pub apart_from_kernel : BootImageInfo → Bool
apart_from_kernel info =
    leb info.virt_base info.virt_p2m_base || not (info.virt_p2m_base % 2 ^ x86_page_shift == 0)

abbrev pub p2m_missing : Option DomainSegment → Bool
p2m_missing none = true
p2m_missing (some g) = false

module _ (H : HyperApi) (calls : X86Calls H.W) where
  unfoldable pub initialize_memory : Step H (Unit {0})
  unfolding fill_p2m load_p2m
  initialize_memory = do
    d ← of_domain H (λ d. d)
    call_out H (calls.set_address_size d.domid 64)
    call_out H (calls.claim_pages d.domid d.total_pages)
    p2m ← call_out H (fill_p2m calls.populate_physmap d.domid d.total_pages)
    change_domain H (λ b. record b { phys = load_p2m b.phys p2m })
    call_out H (calls.claim_pages d.domid 0)

  unfoldable pub alloc_page_tables : Step H (Option DomainSegment)
  unfolding counted_tables alloc_segment
  alloc_page_tables = do
    found ← in_table H counted_tables
    change_platform H (λ p. record p { table = in_use_at found.mapping 0 p.table })
    change_domain H (λ d. record d { virt_pgtab_end = add64 found.try_virt_end 1 })
    tables ← of_platform H (λ p. (mapping_at p.table found.mapping).area.pgtables)
    segment ← alloc_segment (with_platform H) 0 (mul64 tables x86_page_size)
    pure (some segment)

  unfoldable pub alloc_p2m_segment : Step H (Option DomainSegment)
  unfolding counted_p2m p2m_placed p2m_bytes alloc_segment
  alloc_p2m_segment = do
    d ← of_domain H (λ d. d)
    m ← in_table H counted_p2m
    change_platform H (λ p. record p { table = p2m_placed d m p.table })
    tables ← of_platform H (λ p. (mapping_at p.table m).area.pgtables)
    segment ← alloc_segment (with_platform H) 0 (add64 (p2m_bytes d) (shl64 tables x86_page_shift))
    pure (some segment)

  -- The list of frames before all else, if it is not to lie below the kernel.
  unfoldable pub p2m_first : Bool → Step H (Unit {0})
  unfolding alloc_p2m_segment
  p2m_first true = do
    segment ← alloc_p2m_segment
    change_platform H (λ p. record p { p2m_segment = segment })
  p2m_first false = pure tt

  abbrev pub with_vstart : ℕ → DomainSegment → DomainSegment
  with_vstart vstart g = record g { vstart = vstart }

  abbrev pub keep_p2m : Option DomainSegment → Step H (Unit {0})
  keep_p2m none = pure tt
  keep_p2m (some g) = do
    vstart ← of_domain H (λ d. d.image_info.virt_p2m_base)
    change_platform H (λ p. record p { p2m_segment = some (with_vstart vstart g) })

  -- The list of frames at last, if it was not allocated before.
  unfoldable pub p2m_last : Bool → Step H (Unit {0})
  unfolding alloc_p2m_segment
  p2m_last true = do segment ← alloc_p2m_segment; keep_p2m segment
  p2m_last false = pure tt

  unfoldable pub pad_to : ℕ → Step H (Unit {0})
  unfolding alloc_padding_pages
  pad_to end = if ltb 0 end then in_domain H (alloc_padding_pages end) else pure tt

  abbrev pub start_info_first : Step H (Unit {0})
  start_info_first = do
    start_info ← in_domain H alloc_page
    change_platform H (λ p. record p { start_info_segment = some start_info })

  abbrev pub xenstore_page : Step H (Unit {0})
  xenstore_page = do
    xenstore ← in_domain H alloc_page
    change_platform H (λ p. record p { xenstore_segment = some xenstore })
    store_mfn ← p2m_at H xenstore.pfn
    change_domain H (λ d. record d { store_mfn = store_mfn })

  abbrev pub console_page : Step H (Unit {0})
  console_page = do
    domid ← of_domain H (λ d. d.domid)
    evtchn ← call_out H (calls.evtchn_alloc_unbound domid 0)
    page ← in_domain H alloc_page
    change_domain H (λ d. record d { console_evtchn = evtchn })
    console_mfn ← p2m_at H page.pfn
    change_domain H (λ d. record d { console_mfn = console_mfn })

  abbrev pub tables_and_stack : Step H (Unit {0})
  tables_and_stack = do
    tables ← alloc_page_tables
    change_platform H (λ p. record p { page_table_segment = tables })
    boot_stack ← in_domain H alloc_page
    change_platform H (λ p. record p { boot_stack_segment = some boot_stack })

  unfoldable pub alloc_magic_pages : Step H (Unit {0})
  unfolding p2m_first p2m_last pad_to alloc_page_tables alloc_page
  alloc_magic_pages = do
    info ← of_domain H (λ d. d.image_info)
    p2m_first (apart_from_kernel info)
    start_info_first
    xenstore_page
    console_page
    tables_and_stack
    end ← of_domain H (λ d. d.virt_pgtab_end)
    pad_to end
    missing ← of_platform H (λ p. p2m_missing p.p2m_segment)
    p2m_last missing
