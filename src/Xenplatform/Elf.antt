-- ===== src/Xenplatform/Elf.antt =====
-- crates/xen/xenplatform/src/elfloader.rs: what an ELF image says of itself, and its copy into a guest's memory. The
-- elf crate, which takes the image apart, is a parameter; so are the decompressors and the search for a magic number.
pub mod Load
pub mod Extent
pub mod Parse
pub mod Image
mod Tests
use Prim.Native.String.{String}
use krata.Prelude.{
  ℕ, zero, suc, ◌+◌, ◌-◌, ◌*◌, ◌/◌, ◌%◌, ◌^◌, Bool, true, false, not, ◌&&◌, ◌||◌, Option, none,
  some, List, [], ◌∷◌, ◌++◌, length, bit_and, ltb, leb, ◌==◌, if◌then◌else◌, Outcome, ok, err,
  panic,
}
use krata.Prelude.Text.{bytes, bytes_eq}
use krata.Xenplatform.Sys.{Error, add64, sub64}
use krata.Xenplatform.Boot.{BootImageInfo}

-- A note that the elf crate has no own form for; `none` is any other.
pub record Note : Type 0 where
  pub name : List ℕ
  pub n_type : ℕ
  pub desc : List ℕ

pub record SectionHeader : Type 0 where
  pub sh_type : ℕ
  pub notes : Outcome Error (List (Option Note))

pub record ProgramHeader : Type 0 where
  pub p_type : ℕ
  pub p_flags : ℕ
  pub p_paddr : ℕ
  pub p_filesz : ℕ
  pub p_memsz : ℕ
  pub segment_data : Outcome Error (List ℕ)

-- What the elf crate finds in an image.
pub record ElfBytes : Type 0 where
  pub little_endian : Bool
  pub e_entry : ℕ
  pub section_headers : Option (List SectionHeader)
  pub segments : Option (List ProgramHeader)

abbrev pub sht_note : ℕ
sht_note = 7

abbrev pub pt_load : ℕ
pt_load = 1

-- PF_R | PF_W | PF_X.
abbrev pub pf_any : ℕ
pf_any = 7

unfoldable pub from_le_bytes : List ℕ → ℕ
from_le_bytes [] = 0
from_le_bytes (b ∷ bs) = b + 256 * from_le_bytes bs

unfoldable pub from_be_bytes : ℕ → List ℕ → ℕ
from_be_bytes n [] = n
from_be_bytes n (b ∷ bs) = from_be_bytes (256 * n + b) bs

unfoldable pub xen_note_value_as_u64 : Bool → List ℕ → Option ℕ
unfolding from_le_bytes from_be_bytes
xen_note_value_as_u64 little value =
    let n = length value in
    if n == 1 || (n == 2 || (n == 4 || n == 8))
    then some (if little then from_le_bytes value else from_be_bytes 0 value)
    else none

-- The types of notes that are known, and whether they are text.
abbrev pub xen_elfnote_types : List (ℕ × Bool)
xen_elfnote_types =
    (1, false)
    ∷ (2, false)
    ∷ (3, false)
    ∷ (15, false)
    ∷ (4, false)
    ∷ (12, false)
    ∷ (5, true)
    ∷ (6, true)
    ∷ (7, true)
    ∷ (8, true)
    ∷ (9, true)
    ∷ (10, true)
    ∷ (17, false)
    ∷ (11, true)
    ∷ (14, false)
    ∷ (16, false)
    ∷ (18, false)
    ∷ []

abbrev pub or_zero : Option ℕ → ℕ
or_zero none = 0
or_zero (some n) = n

abbrev pub note_value : Bool → Bool → List ℕ → ℕ
note_value little is_string desc =
    if is_string then 0 else or_zero (xen_note_value_as_u64 little desc)

-- The map of the notes; the last of a type is the first of the list.
abbrev pub Notes : Type 0
Notes = List (ℕ × ℕ)

unfoldable pub insert_note : Bool → List (ℕ × Bool) → ℕ → List ℕ → Notes → Notes
unfolding xen_note_value_as_u64
insert_note little [] n_type desc notes = notes
insert_note little ((id, is_string) ∷ types) n_type desc notes =
    insert_note little types n_type desc
      (if id == n_type then (id, note_value little is_string desc) ∷ notes else notes)

unfoldable pub section_notes : Bool → List (Option Note) → Notes → Notes
unfolding insert_note
section_notes little [] notes = notes
section_notes little (none ∷ rest) notes = section_notes little rest notes
section_notes little (some note ∷ rest) notes = section_notes little rest (
    if bytes_eq note.name (bytes "Xen")
    then insert_note little xen_elfnote_types note.n_type note.desc notes
    else notes)

-- The loop over the sections; the first whose notes cannot be read ends it.
unfoldable pub xen_notes : Bool → List SectionHeader → Notes → Outcome Error Notes
unfolding section_notes
xen_notes little [] notes = ok notes
xen_notes little (header ∷ headers) notes =
    if header.sh_type == sht_note
    then elim header.notes [
      | ok found ↦ xen_notes little headers (section_notes little found notes)
      | err e ↦ err e
      | panic ↦ panic
    ]
    else xen_notes little headers notes

unfoldable pub get_note : ℕ → Notes → Option ℕ
get_note id [] = none
get_note id ((n, value) ∷ notes) = if n == id then some value else get_note id notes

abbrev pub note_or : Option ℕ → String → Outcome Error ℕ
note_or none name = err (Error.elf_xen_note_missing name)
note_or (some value) name = ok value

unfoldable pub is_loaded : ProgramHeader → Bool
is_loaded header = (header.p_type == pt_load) && not (bit_and header.p_flags pf_any == 0)

-- The least and the last address of the segments that are loaded.
unfoldable pub extent : List ProgramHeader → ℕ → ℕ → ℕ × ℕ
unfolding is_loaded
extent [] start end = (start, end)
extent (header ∷ headers) start end =
    if is_loaded header
    then extent headers (if ltb header.p_paddr start then header.p_paddr else start) (
        if ltb end (add64 header.p_paddr header.p_memsz)
        then add64 header.p_paddr header.p_memsz
        else end)
    else extent headers start end
