-- ===== src/Xenplatform/X86pv/Tests.antt =====
-- The theorems on the x86 platform at small guests.
use krata.Prelude.{
  ℕ, zero, suc, ◌≡◌, refl, ap, false, none, some, List, [], ◌∷◌, ◌++◌, length, replicate, All,
  arith, Outcome, ok, panic, on_ok,
}
use krata.Xenplatform.Sys.{Error, HyperApi}
use krata.Xenplatform.Mem.{
  p2m_size, pfn_to_ptr, find_page, visit, pfn_alloc, entries, frames_from, count_from, map_frames,
}
use krata.Xenplatform.Boot.{
  BootDomain, BootImageInfo, round_up, bits_to_mask, alloc_page, chk_alloc_pages,
  alloc_padding_pages, alloc_segment, pages_of,
}
use krata.Xenplatform.Boot.Segments.{IsBooting}
use krata.Xenplatform.Boot.Setup.{BootCalls}
use krata.Xenplatform.X86pv.Tables.{
  PageTable, level_at, target, mapping_at, no_tables, no_mapping, Span, span, count_page_tables,
  overlaps, count_levels, count_level, clip, clip_one, tables_in,
}
use krata.Xenplatform.X86pv.Walk.{Walks}
use krata.Xenplatform.X86pv.Count.{IsRange, count_page_tables-Walks}
use krata.Xenplatform.X86pv.Memory.{
  fill_p2m, frames_of, populate_super, populate_small, super_starts, super_frames, overwrite,
}
use krata.Xenplatform.X86pv.Memory.Handed.{Handed, fill_p2m-Handed}
use krata.Xenplatform.X86pv.Platform.{X86PvPlatform, new, X86Calls, with_platform}
use krata.Xenplatform.X86pv.Platform.Alloc.{
  alloc_magic_pages, find_tables, p2m_first, p2m_last, pad_to, alloc_page_tables, alloc_p2m_segment,
  counted_tables, counted_p2m, p2m_placed, p2m_bytes,
}
use krata.Xenplatform.X86pv.Platform.Apart.{AllApart, Below, segments}
use krata.Xenplatform.X86pv.Platform.Ends.{Ends, find_tables-Ends}
use krata.Xenplatform.X86pv.Platform.Disjoint.{alloc_magic_pages-AllApart}

abbrev one_frame : ℕ
one_frame = 5000

-- A hypervisor that answers every request for frames with the same one.
abbrev populate :
    (domid count order flags : ℕ) → List ℕ → Unit {0} → Outcome Error (List ℕ) × Unit {0}
populate domid count order flags starts w = (ok (replicate count one_frame), w)

abbrev Good : ℕ → ℕ → Type 0
Good order mfn = mfn ≡ one_frame

same_frames : (n : ℕ) → All (λ mfn. mfn ≡ one_frame) (replicate n one_frame)
same_frames zero = tt
same_frames (suc n) = (refl, same_frames n)

populates :
    (count order : ℕ) (starts extents : List ℕ) (w w' : Unit {0})
    → populate 1 count order 0 starts w ≡ (ok extents, w')
    → All (Good order) extents
populates count order starts extents w w' e =
    on_ok (All (λ mfn. mfn ≡ one_frame)) (ok (replicate count one_frame)) refl (same_frames count)
      extents (ap (λ k. k.0) e)

abbrev recorded_514 : List ℕ
recorded_514 = frames_of 512 one_frame ++ one_frame ∷ one_frame ∷ []

filled : fill_p2m populate 1 514 tt ≡ (ok recorded_514, tt)
unfolding fill_p2m populate_super populate_small super_starts super_frames overwrite frames_of
filled = refl

fill_p2m-Handed_example : (length recorded_514 ≡ 514) × All (Handed populate 1 Good) recorded_514
fill_p2m-Handed_example = fill_p2m-Handed populate 1 Good 514 recorded_514 tt tt populates filled

-- The first 4 MB but one page, whose tables begin at frame 100.
abbrev area_end : ℕ
area_end = 4190207

area : IsRange 0 area_end 100 no_mapping (no_mapping ∷ [])
area = record { order = omega arith; below = omega arith; whole = refl }

abbrev area_tables : PageTable
area_tables = (count_page_tables 100 2000 0 area_end 0 no_tables).1

counts : count_page_tables 100 2000 0 area_end 0 no_tables ≡ (ok 0, area_tables)
unfolding count_page_tables overlaps
counts = refl

count_page_tables-Walks_example :
    (s : Span) × (span 0
        (level_at (mapping_at area_tables 0) 0)
        (target 0 (mapping_at area_tables 0))
      ≡ some s)
    × Walks 0 8192 (level_at (mapping_at area_tables 0) 0) (target 0 (mapping_at area_tables 0)) s
count_page_tables-Walks_example =
    count_page_tables-Walks 0 area_end 100 no_mapping (no_mapping ∷ []) 2000 0 0 8192 area_tables 0
      area (omega arith) counts (omega arith) (omega arith) (omega arith)

find_tables-Ends_example :
    Ends 100 2000 0 409600 (find_tables 100 2000 0 409600 4398046511105 129 no_tables)
find_tables-Ends_example = find_tables-Ends 100 2000 0 409600 (omega arith) 129 no_tables

-- With its last megabyte handed out, the loop has not ended after five rounds.
abbrev last_bytes : ℕ
last_bytes = 18446744073708503040

no_end : (find_tables 100 600000 18446744071562067968 last_bytes 5 129 no_tables).0 ≡ panic
unfolding find_tables count_page_tables overlaps count_levels
no_end = refl

abbrev memory : HyperApi
memory = record {
  W = Unit {0};
  mmap = λ len w. (some 1048576, w);
  mmap_batch = λ domid num addr mfns w. (ok 0, w);
  munmap = λ addr len w. (0, w);
  fill_zero = λ addr len w. w;
  copy = λ addr bytes w. w;
}

abbrev calls : X86Calls (Unit {0})
calls = record {
  set_address_size = λ domid size w. (ok tt, w);
  claim_pages = λ domid pages w. (ok tt, w);
  populate_physmap = populate;
  evtchn_alloc_unbound = λ domid remote w. (ok 4, w);
  mmuext = λ domid cmd arg1 arg2 w. (ok tt, w);
  map_resource = λ domid typ id idx num addr w. (ok tt, w);
  set_vcpu_context = λ domid vcpu context w. (ok tt, w);
  hypercall_init = λ domid gmfn w. (ok tt, w);
  write_words = λ addr words w. w;
  write_start_info = λ addr info w. w;
  mask_upcalls = λ addr count w. w;
  write_grant_entry = λ addr index entry w. w;
}

abbrev boot_calls : BootCalls (with_platform memory)
boot_calls = record {
  evtchn_alloc_unbound = λ domid remote w. (ok 3, w);
  get_domain_info = λ domid w. (ok 77, w);
}

abbrev image : BootImageInfo
image = record {
  start = 0;
  virt_base = 0;
  virt_kstart = 0;
  virt_kend = 20480;
  virt_hypercall = 0;
  virt_entry = 0;
  virt_p2m_base = 1099511627776;
  unmapped_initrd = false;
}

-- A guest of 8 MB, of which the kernel has 5 pages.
abbrev guest : BootDomain
guest = record {
  domid = 1;
  page_size = 4096;
  virt_alloc_end = 20480;
  pfn_alloc_end = 5;
  virt_pgtab_end = 0;
  total_pages = 2048;
  target_pages = 2048;
  max_vcpus = 1;
  image_info = image;
  phys = record { page_shift = 12; domid = 1; p2m = frames_of 2048 one_frame; pages = [] };
  store_evtchn = 0;
  store_mfn = 0;
  initrd_segment = none;
  console_evtchn = 0;
  console_mfn = 0;
  cmdline = "";
}

guest-IsBooting : IsBooting guest
guest-IsBooting = record {
  page = refl;
  frames = omega arith;
  space = omega arith;
  aligned = refl;
  total = omega arith;
}

allocated : (alloc_magic_pages memory calls (guest, (new, tt))).0 ≡ ok tt
allocated =
    unfold alloc_magic_pages p2m_first p2m_last pad_to alloc_page_tables alloc_p2m_segment
      counted_tables counted_p2m p2m_placed p2m_bytes find_tables count_page_tables count_levels
      count_level clip clip_one tables_in overlaps round_up bits_to_mask alloc_page chk_alloc_pages
      alloc_padding_pages alloc_segment pages_of p2m_size pfn_to_ptr find_page visit pfn_alloc
      entries frames_from count_from map_frames frames_of in
    refl

-- The guest and the platform after that.
abbrev laid_out : BootDomain × (X86PvPlatform × Unit {0})
laid_out = (alloc_magic_pages memory calls (guest, (new, tt))).1

alloc_magic_pages-AllApart_example :
    AllApart (segments laid_out.1.0) × All (Below laid_out.0.pfn_alloc_end) (segments laid_out.1.0)
alloc_magic_pages-AllApart_example =
    alloc_magic_pages-AllApart memory calls guest laid_out.0 laid_out.1.0 tt tt guest-IsBooting
      (ap (λ r. (r, laid_out)) allocated)
