-- ===== src/Xenplatform/Elf/Load.antt =====
-- crates/xen/xenplatform/src/elfloader.rs: `parse_sync` and `load` of `ElfImageLoader`, as the image loader of boot.rs.
use krata.Prelude.{
  ℕ, ◌+◌, ◌-◌, Bool, true, false, not, ◌&&◌, Option, none, some, List, [], ◌∷◌, length, take, ltb,
  leb, ◌==◌, Outcome, ok, err, panic, ok_or,
}
use krata.Prelude.Effect.{Action, ◌>>=◌, ◌>>◌, pure, raise_if, lift}
use krata.Xenplatform.Sys.{Error, HyperApi, add64, sub64}
use krata.Xenplatform.Boot.{BootImageInfo}
use krata.Xenplatform.Boot.Setup.{BootImageLoader}
use krata.Xenplatform.Elf.{ElfBytes, ProgramHeader, Notes, xen_notes, get_note, note_or, extent}

abbrev pub u64_max : ℕ
u64_max = 18446744073709551615

abbrev pub is_empty : Notes → Bool
is_empty [] = true
is_empty (n ∷ notes) = false

-- The entry of a guest that has its own hardware.
abbrev pub entry_of : Bool → Option ℕ → ElfBytes → ℕ → ℕ
entry_of true (some entry) elf virt_entry = entry
entry_of true none elf virt_entry = elf.e_entry
entry_of false phys32_entry elf virt_entry = virt_entry

unfoldable pub image_info :
    ElfBytes
    → Bool
    → List ProgramHeader
    → (paddr_offset virt_base entry virt_hypercall init_p2m mod_start_pfn : ℕ) → Option ℕ
    → BootImageInfo
unfolding extent
image_info elf hvm segments paddr_offset virt_base entry virt_hypercall init_p2m mod_start_pfn
      phys32_entry =
    let (start, end) = extent segments u64_max 0 in
    let virt_offset = sub64 virt_base paddr_offset in
    record {
      start = start;
      virt_base = virt_base;
      virt_kstart = add64 start virt_offset;
      virt_kend = add64 end virt_offset;
      virt_hypercall = virt_hypercall;
      virt_entry = entry_of hvm phys32_entry elf entry;
      virt_p2m_base = init_p2m;
      unmapped_initrd = not (mod_start_pfn == 0);
    }

unfoldable pub parse_sync :
    {W : Type 0} → Outcome Error ElfBytes → Bool → Action W Error BootImageInfo
unfolding image_info xen_notes get_note
parse_sync parsed hvm = do
  elf ← lift parsed
  headers ← lift (ok_or elf.section_headers (Error.elf_invalid_image "section headers missing"))
  notes ← lift (xen_notes elf.little_endian headers [])
  raise_if (is_empty notes) Error.elf_xen_support_missing
  paddr_offset ← lift (note_or (get_note 4 notes) "PADDR_OFFSET")
  virt_base ← lift (note_or (get_note 3 notes) "VIRT_BASE")
  entry ← lift (note_or (get_note 1 notes) "ENTRY")
  virt_hypercall ← lift (note_or (get_note 2 notes) "HYPERCALL_PAGE")
  init_p2m ← lift (note_or (get_note 15 notes) "INIT_P2M")
  mod_start_pfn ← lift (note_or (get_note 16 notes) "MOD_START_PFN")
  segments ← lift (ok_or elf.segments (Error.elf_invalid_image "segments missing"))
  raise_if (not (paddr_offset == u64_max) && (virt_base == u64_max))
      (Error.elf_invalid_image "paddr_offset specified, but virt_base is not specified")
  pure (
      image_info elf hvm segments paddr_offset virt_base entry virt_hypercall init_p2m mod_start_pfn
        (get_note 18 notes))

module _ (H : HyperApi) where
  open H use {W, copy, fill_zero}

  -- The part of a segment that is not in the file is cleared; a slice that ends outside is a panic.
  abbrev pub cleared : Bool → Bool → (addr offset : ℕ) → ProgramHeader → Action W Error (Unit {0})
  cleared false fits addr offset header w = (ok tt, w)
  cleared true false addr offset header w = (panic, w)
  cleared true true addr offset header w =
      (ok tt, fill_zero (addr + offset + header.p_filesz) (header.p_memsz - header.p_filesz) w)

  -- `dst[base_offset..]` and `data[0..filesz]`, and the copy of what fits.
  abbrev pub copied :
      Bool → (addr len offset : ℕ) → ProgramHeader → List ℕ → Action W Error (Unit {0})
  copied false addr len offset header contents w = (panic, w)
  copied true addr len offset header contents w =
      cleared (ltb 0 (sub64 header.p_memsz header.p_filesz))
        (leb header.p_filesz header.p_memsz && leb header.p_memsz (len - offset)) addr offset header
        (copy (addr + offset) (take (len - offset) (take header.p_filesz contents)) w)

  abbrev pub load_segment :
      (start addr len : ℕ) → ProgramHeader → Outcome Error (List ℕ) → Action W Error (Unit {0})
  load_segment start addr len header (ok contents) w =
      let offset = sub64 header.p_paddr start in
      copied (leb offset len && leb header.p_filesz (length contents)) addr len offset header
        contents w
  load_segment start addr len header (err e) w = (err e, w)
  load_segment start addr len header panic w = (panic, w)

  -- All segments, whether they are to be loaded or not.
  unfoldable pub load_segments :
      (start addr len : ℕ) → List ProgramHeader → Action W Error (Unit {0})
  load_segments start addr len [] = pure tt
  load_segments start addr len (header ∷ headers) = do
    load_segment start addr len header header.segment_data
    load_segments start addr len headers

  unfoldable pub load :
      Outcome Error ElfBytes → BootImageInfo → (addr len : ℕ) → Action W Error (Unit {0})
  unfolding load_segments
  load parsed info addr len = do
    elf ← lift parsed
    segments ← lift (ok_or elf.segments (Error.elf_invalid_image "segments missing"))
    load_segments info.start addr len segments

  unfoldable pub elf_image_loader : Outcome Error ElfBytes → BootImageLoader H
  unfolding parse_sync load
  elf_image_loader parsed = record { parse = parse_sync parsed; load = load parsed }
