-- ===== src/Xenplatform/Elf/Tests.antt =====
-- The theorems on ELF images at a small one.
use krata.Prelude.{ℕ, ◌≡◌, refl, true, false, none, some, [], ◌∷◌, arith, ok, err}
use krata.Prelude.Text.{bytes}
use krata.Xenplatform.Sys.{Error, HyperApi, sub64}
use krata.Xenplatform.Boot.{BootImageInfo}
use krata.Xenplatform.Elf.{
  ElfBytes, Note, ProgramHeader, is_loaded, extent, xen_notes, section_notes, insert_note, get_note,
  xen_note_value_as_u64, from_le_bytes,
}
use krata.Xenplatform.Elf.Load.{parse_sync, image_info, load}
use krata.Xenplatform.Elf.Parse.{IsSound, parse_sync-load}
use krata.Xenplatform.Elf.Image.{read_one_stream}

abbrev memory : HyperApi
memory = record {
  W = ℕ;
  mmap = λ len w. (none, w);
  mmap_batch = λ domid num addr mfns w. (ok 0, w);
  munmap = λ addr len w. (0, w);
  fill_zero = λ addr len w. w;
  copy = λ addr contents w. w;
}

abbrev xen_note : ℕ → ℕ → Note
xen_note n_type value = record {
  name = bytes "Xen";
  n_type = n_type;
  desc = value ∷ 0 ∷ 0 ∷ 1 ∷ [];
}

abbrev kernel_segment : ProgramHeader
kernel_segment = record {
  p_type = 1;
  p_flags = 5;
  p_paddr = 16777216;
  p_filesz = 3;
  p_memsz = 4096;
  segment_data = ok (1 ∷ 2 ∷ 3 ∷ []);
}

abbrev image : ElfBytes
image = record {
  little_endian = true;
  e_entry = 0;
  section_headers = some (
      record {
        sh_type = 7;
        notes = ok (
            some (xen_note 1 0)
            ∷ some (xen_note 2 0)
            ∷ some (xen_note 3 0)
            ∷ none
            ∷ some (xen_note 4 0)
            ∷ some (xen_note 15 0)
            ∷ some (xen_note 16 1)
            ∷ []);
      }
      ∷ []);
  segments = some (kernel_segment ∷ []);
}

abbrev info : BootImageInfo
info = record {
  start = 16777216;
  virt_base = 16777216;
  virt_kstart = 16777216;
  virt_kend = 16781312;
  virt_hypercall = 16777216;
  virt_entry = 16777216;
  virt_p2m_base = 16777216;
  unmapped_initrd = true;
}

described : parse_sync {W = ℕ} (ok image) false 0 ≡ (ok info, 0)
unfolding parse_sync image_info extent is_loaded xen_notes section_notes insert_note get_note
    xen_note_value_as_u64 from_le_bytes
described = refl

kernel_segment-IsSound : IsSound kernel_segment
kernel_segment-IsSound = record {
  loaded = unfold is_loaded in refl;
  segment = omega arith;
  in_file = omega arith;
  contents = (1 ∷ 2 ∷ 3 ∷ [], refl, omega arith);
}

parse_sync-load_example : (load memory (ok image) info 0 (sub64 16781312 16777216) 0).0 ≡ ok tt
parse_sync-load_example =
    parse_sync-load memory image false (kernel_segment ∷ []) info 0 0 0 0 refl
      (kernel_segment-IsSound, tt) described

-- A header of the stack's permissions, at address 0.
abbrev stack_header : ProgramHeader
stack_header = record {
  p_type = 1685382481;
  p_flags = 6;
  p_paddr = 0;
  p_filesz = 0;
  p_memsz = 0;
  segment_data = ok [];
}

abbrev with_stack : ElfBytes
with_stack = record image { segments = some (kernel_segment ∷ stack_header ∷ []) }

-- What came before an error is the image; an error at once is an error.
cut_short :
    read_one_stream (ok (1 ∷ 2 ∷ []) ∷ ok (3 ∷ []) ∷ err Error.io ∷ []) [] ≡ ok (1 ∷ 2 ∷ 3 ∷ [])
unfolding read_one_stream
cut_short = refl

refused : read_one_stream (err Error.io ∷ []) [] ≡ err Error.io
unfolding read_one_stream
refused = refl
