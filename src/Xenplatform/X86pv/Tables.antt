-- ===== src/Xenplatform/X86pv/Tables.antt =====
-- crates/xen/xenplatform/src/x86pv.rs: the counting of page tables. A level `l` maps `2 ^ (21 + 9 l)`
-- bytes by each of its tables; the levels of a mapping are a list of four.

use krata.Prelude.{
  ℕ, zero, suc, ◌+◌, ◌-◌, ◌*◌, ◌%◌, ◌^◌, Bool, false, ◌&&◌, ◌||◌, Option, none, some, List, [], ◌∷◌,
  get_elem?, set, take, replicate, ltb, leb, ◌==◌, if◌then◌else◌, Outcome, ok, err,
}
use krata.Xenplatform.Sys.{Error, add64, sub64, shr64}

abbrev pub x86_page_shift : ℕ
x86_page_shift = 12

abbrev pub x86_page_size : ℕ
x86_page_size = 4096

abbrev pub x86_virt_mask : ℕ
x86_virt_mask = 281474976710655

abbrev pub x86_pgtable_levels : ℕ
x86_pgtable_levels = 4

abbrev pub x86_pgtable_level_shift : ℕ
x86_pgtable_level_shift = 9

abbrev pub x86_page_table_max_mappings : ℕ
x86_page_table_max_mappings = 2

pub record PageTableMappingLevel : Type 0 where
  pub from : ℕ
  pub to : ℕ
  pub pfn : ℕ
  pub pgtables : ℕ

pub record PageTableMapping : Type 0 where
  pub area : PageTableMappingLevel
  pub levels : List PageTableMappingLevel

pub record PageTable : Type 0 where
  pub mappings_count : ℕ
  pub mappings : List PageTableMapping

abbrev pub no_level : PageTableMappingLevel
no_level = record { from = 0; to = 0; pfn = 0; pgtables = 0 }

abbrev pub no_mapping : PageTableMapping
no_mapping = record { area = no_level; levels = replicate 4 no_level }

-- `PageTable::default()`.
abbrev pub no_tables : PageTable
no_tables = record { mappings_count = 0; mappings = replicate 2 no_mapping }

-- Arrays of four levels and two mappings, read where the code's indices are in range.
abbrev pub or_no_level : Option PageTableMappingLevel → PageTableMappingLevel
or_no_level none = no_level
or_no_level (some l) = l

abbrev pub level_at : PageTableMapping → ℕ → PageTableMappingLevel
level_at map l = or_no_level (get_elem? map.levels l)

abbrev pub set_level : PageTableMapping → ℕ → PageTableMappingLevel → PageTableMapping
set_level map l v = record map { levels = set map.levels l v }

abbrev pub or_no_mapping : Option PageTableMapping → PageTableMapping
or_no_mapping none = no_mapping
or_no_mapping (some m) = m

abbrev pub mapping_at : PageTable → ℕ → PageTableMapping
mapping_at t m = or_no_mapping (get_elem? t.mappings m)

-- The mappings that are in use.
abbrev pub used : PageTable → List PageTableMapping
used t = take t.mappings_count t.mappings

-- PRESENT | RW | ACCESSED, and for the upper levels DIRTY | USER too.
abbrev pub leaf_prot : ℕ
leaf_prot = 0x023

abbrev pub table_prot : ℕ
table_prot = 0x067

abbrev pub page_rw : ℕ
page_rw = 0x002

-- The tables of some mapping hold the frame; `pfn_s` is where its top level begins.
unfoldable pub in_tables : ℕ → List PageTableMapping → Bool
in_tables pfn [] = false
in_tables pfn (map ∷ maps) =
    let pfn_s = (level_at map 3).pfn in
    (leb pfn_s pfn && ltb pfn (add64 map.area.pgtables pfn_s)) || in_tables pfn maps

-- A table's own frames are mapped without RW; `prot & !PAGE_RW` of the leaf's protection is 0x021.
unfoldable pub get_pg_prot : PageTable → ℕ → ℕ → ℕ
unfolding in_tables
get_pg_prot t zero pfn = if in_tables pfn (used t) then leaf_prot - page_rw else leaf_prot
get_pg_prot t (suc l) pfn = table_prot

-- `x & !mask` and `x | mask` of the low bits of a mask.
abbrev pub round_down : ℕ → ℕ → ℕ
round_down x bits = x - x % 2 ^ bits

abbrev pub fill_up : ℕ → ℕ → ℕ
fill_up x bits = x - x % 2 ^ bits + (2 ^ bits - 1)

-- The range of a new level against that of a mapping in use.
pub data Clip : Type 0 where
  covered : Clip
  clipped : (from to : ℕ) → Clip

unfoldable pub clip_one : PageTableMappingLevel → ℕ → ℕ → Clip
clip_one c from to =
    if c.from == c.to
    then clipped from to
    else if leb c.from from && leb to c.to
    then covered
    else clipped (if leb c.from from && leb from c.to then add64 c.to 1 else from)
        (if leb c.from to && leb to c.to then sub64 c.from 1 else to)

-- The loop over the mappings in use; one that covers the level ends it, with an empty range.
unfoldable pub clip : ℕ → List PageTableMapping → ℕ → ℕ → ℕ × ℕ
clip l [] from to = (from, to)
clip l (cmp ∷ cmps) from to = elim (clip_one (level_at cmp l) from to) [
  | covered ↦ (0, 0)
  | clipped from' to' ↦ clip l cmps from' to'
]

abbrev pub bits_of : ℕ → ℕ
bits_of l = 12 + (l + 1) * 9

unfoldable pub tables_in : ℕ → ℕ → ℕ → ℕ
tables_in bits from to = if ltb from to then add64 (shr64 (sub64 to from) bits) 1 else 0

-- One round of the loop over the levels, from the top.
abbrev pub lower_level : ℕ → ℕ → PageTableMapping → ℕ × ℕ → PageTableMapping
lower_level l pfn map (from, to) =
    let n = tables_in (bits_of l) from to in
    record (set_level map l
      (record { from = from; to = to; pfn = add64 pfn map.area.pgtables; pgtables = n })) {
        area = record map.area { pgtables = add64 map.area.pgtables n };
      }

unfoldable pub count_level : PageTable → ℕ → ℕ → PageTableMapping → PageTableMapping
unfolding clip tables_in
count_level t pfn l map =
    if l == x86_pgtable_levels - 1
    then (if t.mappings_count == 0
        then record (set_level map l (record {
          from = 0;
          to = x86_virt_mask;
          pfn = add64 pfn map.area.pgtables;
          pgtables = 1;
        })) { area = record map.area { pgtables = add64 map.area.pgtables 1 } }
        else set_level map l (record (level_at map l) { pfn = add64 pfn map.area.pgtables }))
    else lower_level l pfn map
        (clip l (used t) (round_down map.area.from (bits_of l)) (fill_up map.area.to (bits_of l)))

abbrev pub fresh_mapping : ℕ → ℕ → PageTableMapping
fresh_mapping from to = record no_mapping {
  area = record { from = from % 2 ^ 48; to = to % 2 ^ 48; pfn = 0; pgtables = 0 };
}

unfoldable pub overlaps : ℕ → ℕ → List PageTableMapping → Bool
overlaps from to [] = false
overlaps from to (map ∷ maps) =
    (ltb from map.area.to && ltb map.area.from to) || overlaps from to maps

unfoldable pub count_levels : PageTable → ℕ → PageTableMapping → PageTableMapping
unfolding count_level
count_levels t pfn map =
    count_level t pfn 0 (count_level t pfn 1 (count_level t pfn 2 (count_level t pfn 3 map)))

-- `pfn_alloc_end` and `p2m_size` are the domain's.
unfoldable pub count_page_tables :
    (pfn_alloc_end p2m_size from to pfn : ℕ) → PageTable → Outcome Error ℕ × PageTable
unfolding count_levels overlaps
count_page_tables pfn_alloc_end p2m_size from to pfn t =
    if t.mappings_count == x86_page_table_max_mappings
    then (err (Error.memory_setup_failed "max page table count reached"), t)
    else if leb p2m_size (add64 pfn (shr64 (sub64 to from) x86_page_shift))
    then (err (Error.memory_setup_failed "pfn_end greater than p2m size"), t)
    else if overlaps from to (used t)
    then (err (Error.memory_setup_failed "page table calculation failed"), t)
    else (
      ok t.mappings_count,
      record t {
        mappings =
            set t.mappings t.mappings_count (count_levels t pfn_alloc_end (fresh_mapping from to));
      },
    )

-- The entries that one round of `setup_page_tables` writes: `count` of them from the index `first` on,
-- which map the frames from `pfn` on.
pub record Span : Type 0 where
  pub first : ℕ
  pub count : ℕ
  pub pfn : ℕ

abbrev pub max : ℕ → ℕ → ℕ
max a b = if leb a b then b else a

abbrev pub min : ℕ → ℕ → ℕ
min a b = if leb a b then a else b

-- What the tables of level `l` point to in a mapping: the tables below, or the mapped area.
abbrev pub target : ℕ → PageTableMapping → PageTableMappingLevel
target zero map = map.area
target (suc l) map = level_at map l

-- An address selects an entry of level `l` by the bits from `12 + 9 l` on.
abbrev pub shift_of : ℕ → ℕ
shift_of l = 12 + l * 9

abbrev pub has_no_tables : ℕ → PageTableMappingLevel → Bool
has_no_tables zero lvl = false
has_no_tables (suc l) lvl = lvl.pgtables == 0

-- `level` is the level of the tables, `lvl` the target.
unfoldable pub span : ℕ → PageTableMappingLevel → PageTableMappingLevel → Option Span
span l level lvl =
    if has_no_tables l lvl
    then none
    else if leb level.to lvl.from || leb lvl.to level.from
    then none
    else (let first = shr64 (sub64 (max level.from lvl.from) level.from) (shift_of l) in
        let last = shr64 (sub64 (min level.to lvl.to) level.from) (shift_of l) in
        some (record {
          first = first;
          count = last + 1 - first;
          pfn = add64 (shr64 (sub64 (max level.from lvl.from) lvl.from) (shift_of l)) lvl.pfn;
        }))
