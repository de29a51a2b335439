-- ===== src/Xenplatform/X86pv/Count.antt =====
-- `count_page_tables`: the tables that a first mapping needs, and its refusals.
use krata.Prelude.{
  ℕ, zero, suc, ◌+◌, ◌*◌, ◌%◌, ◌≤◌, ◌<◌, ◌≡◌, ◌≢◌, ◌⊎◌, refl, sym, ap, subst, Bool, true, false,
  some, List, ◌∷◌, arith, leb, ◌==◌, Outcome, ok, err, inl, inr, set,
}
use krata.Xenplatform.Sys.{Error, add64, sub64, shr64}
use krata.Xenplatform.X86pv.Tables.{
  PageTableMapping, PageTable, level_at, target, mapping_at, Span, span, clip, tables_in,
  count_level, count_levels, fresh_mapping, count_page_tables, used, overlaps,
}
use krata.Xenplatform.X86pv.Walk.{IsAligned, Walks, Meets, InBoth, span-Walks}

-- How `count_page_tables` ends: refused, for one of its three reasons, with the table as it was; or with a
-- new mapping behind those in use.
pub data Counted (base p2m_size from to pfn : ℕ) (t : PageTable)
    : Outcome Error ℕ × PageTable → Type 0 where
  refused :
      {e : Error}
      → (t.mappings_count ≡ 2)
        ⊎ ((p2m_size ≤ add64 pfn (shr64 (sub64 to from) 12)) ⊎ (overlaps from to (used t) ≡ true))
      → Counted base p2m_size from to pfn t (err e, t)
  counted :
      t.mappings_count ≢ 2
      → add64 pfn (shr64 (sub64 to from) 12) < p2m_size
      → overlaps from to (used t) ≡ false
      → Counted base p2m_size from to pfn t (
        ok t.mappings_count,
        record t {
          mappings = set t.mappings t.mappings_count (count_levels t base (fresh_mapping from to));
        },
      )

-- count_page_tables adds a mapping exactly if there is room for one, its frames are below the size
-- of the p2m list, and its test finds no overlap with one in use; otherwise it fails and leaves the table alone.
pub count_page_tables-Counted :
    (base p2m_size from to pfn : ℕ) (t : PageTable)
    → Counted base p2m_size from to pfn t (count_page_tables base p2m_size from to pfn t)
unfolding count_page_tables
count_page_tables-Counted base p2m_size from to pfn t = by_tests _ _ _ refl refl refl
  where
    by_tests :
        (a b c : Bool)
        → (t.mappings_count == 2) ≡ a
        → leb p2m_size (add64 pfn (shr64 (sub64 to from) 12)) ≡ b
        → overlaps from to (used t) ≡ c
        → Counted base p2m_size from to pfn t (count_page_tables base p2m_size from to pfn t)
    by_tests true b c x y z = rw (x, count_page_tables) (refused (inl (ground arith)))
    by_tests false true c x y z = rw (x, y, count_page_tables) (refused (inr (inl (ground arith))))
    by_tests false false true x y z = rw (x, y, z, count_page_tables) (refused (inr (inr z)))
    by_tests false false false x y z =
        rw (x, y, z, count_page_tables) (counted (ground arith) (ground arith) z)

-- The ranges of the mappings are of 48-bit addresses, as `count_page_tables` records them.
abbrev pub IsMasked : PageTableMapping → Type 0
IsMasked map = map.area.to < 281474976710656

module _ (from to base : ℕ) (m0 : PageTableMapping) (ms : List PageTableMapping) where
  abbrev empty_table : PageTable
  empty_table = record { mappings_count = 0; mappings = m0 ∷ ms }

  abbrev first_mapping : PageTableMapping
  first_mapping = count_levels empty_table base (fresh_mapping from to)

  -- The range is not empty, of whole pages, and of 48-bit addresses.
  pub record IsRange : Type 0 where
    pub order : from < to
    pub below : to < 281474976710656
    pub whole : from % 4096 ≡ 0

  aligned :
      (l : ℕ)
      → l < 4
      → IsRange
      → base < 1099511627776
      → IsAligned l (level_at first_mapping l) (target l first_mapping)
  unfolding count_levels count_level clip tables_in
  aligned zero h r b = record {
    level_from = omega arith;
    lvl_from = omega arith;
    level_to = omega arith;
    lvl_to = omega arith;
    frames = ground arith;
    tables = refl;
  }
  aligned (suc zero) h r b = record {
    level_from = omega arith;
    lvl_from = omega arith;
    level_to = omega arith;
    lvl_to = omega arith;
    frames = ground arith;
    tables = ground arith;
  }
  aligned (suc (suc zero)) h r b = record {
    level_from = omega arith;
    lvl_from = omega arith;
    level_to = omega arith;
    lvl_to = omega arith;
    frames = ground arith;
    tables = ground arith;
  }
  aligned (suc (suc (suc zero))) h r b = record {
    level_from = omega arith;
    lvl_from = omega arith;
    level_to = omega arith;
    lvl_to = omega arith;
    frames = ground arith;
    tables = ground arith;
  }
  aligned (suc (suc (suc (suc l)))) h r b = absurd (omega arith)

  meets : (l : ℕ) → l < 4 → IsRange → Meets (level_at first_mapping l) (target l first_mapping)
  unfolding count_levels count_level clip
  meets zero h r = (omega arith, omega arith)
  meets (suc zero) h r = (omega arith, omega arith)
  meets (suc (suc zero)) h r = (omega arith, omega arith)
  meets (suc (suc (suc zero))) h r = (omega arith, omega arith)
  meets (suc (suc (suc (suc l)))) h r = absurd (omega arith)

  in_both :
      (l v : ℕ)
      → l < 4
      → IsRange
      → from ≤ v
      → v ≤ to
      → InBoth v (level_at first_mapping l) (target l first_mapping)
  unfolding count_levels count_level clip
  in_both zero v h r a b = (omega arith, omega arith, omega arith, omega arith)
  in_both (suc zero) v h r a b = (omega arith, omega arith, omega arith, omega arith)
  in_both (suc (suc zero)) v h r a b = (omega arith, omega arith, omega arith, omega arith)
  in_both (suc (suc (suc zero))) v h r a b = (omega arith, omega arith, omega arith, omega arith)
  in_both (suc (suc (suc (suc l)))) v h r a b = absurd (omega arith)

  new_mapping :
      (p2m_size pfn m : ℕ) (t' : PageTable) (s : Outcome Error ℕ × PageTable)
      → Counted base p2m_size from to pfn empty_table s
      → s ≡ (ok m, t')
      → mapping_at t' m ≡ first_mapping
  new_mapping p2m_size pfn m t' s (refused r) e = let h = ap (λ k. k.0) e in absurd (cc h)
  new_mapping p2m_size pfn m t' s (counted a b c) e =
      same (ok 0) refl (ap (λ k. k.0) e) (ap (λ k. k.1) e)
    where
      same :
          (r : Outcome Error ℕ)
          → r ≡ ok 0
          → r ≡ ok m
          → record { mappings_count = 0; mappings = first_mapping ∷ ms } ≡ t'
          → mapping_at t' m ≡ first_mapping
      same r x y z =
          let q : 0 ≡ m = cc in
          subst (λ k. mapping_at t' k ≡ first_mapping) q
            (subst (λ k. mapping_at k 0 ≡ first_mapping) z refl)

  -- A mapping that count_page_tables makes in an empty table, for a range of whole pages below 2 ^
  -- 48 and tables below frame 2 ^ 40, has on each of the four levels and for every address of its
  -- range an entry among those that setup_page_tables writes, and the entry leads to the frame of
  -- the next level's table for the address, or of the mapped area at the last.
  pub count_page_tables-Walks :
      (p2m_size pfn l v : ℕ) (t' : PageTable) (m : ℕ)
      → IsRange
      → base < 1099511627776
      → count_page_tables base p2m_size from to pfn empty_table ≡ (ok m, t')
      → l < 4
      → from ≤ v
      → v ≤ to
      → (s : Span) × (span l (level_at (mapping_at t' m) l) (target l (mapping_at t' m)) ≡ some s)
        × Walks l v (level_at (mapping_at t' m) l) (target l (mapping_at t' m)) s
  count_page_tables-Walks p2m_size pfn l v t' m r b e h a z =
      subst
        (λ k.
          (s : Span) × (span l (level_at k l) (target l k) ≡ some s)
          × Walks l v (level_at k l) (target l k) s)
        (sym (
          new_mapping p2m_size pfn m t' _
            (count_page_tables-Counted base p2m_size from to pfn empty_table) e))
        (span-Walks l v (level_at first_mapping l) (target l first_mapping) h (aligned l h r b)
          (meets l h r) (in_both l v h r a z))

  -- The tables of a first mapping lie one behind the other from `base` on, a single one on the top level; those
  -- of every other level map exactly its range; and their sum is the count of the area.
  pub count_levels-layout :
      IsRange
      → base < 1099511627776
      → let map = first_mapping in
        ((level_at map 3).pfn ≡ base)
        × ((level_at map 2).pfn ≡ base + 1)
        × ((level_at map 1).pfn ≡ (level_at map 2).pfn + (level_at map 2).pgtables)
        × ((level_at map 0).pfn ≡ (level_at map 1).pfn + (level_at map 1).pgtables)
        × (base + map.area.pgtables ≡ (level_at map 0).pfn + (level_at map 0).pgtables)
        × ((level_at map 2).from + (level_at map 2).pgtables * 549755813888
            ≡ (level_at map 2).to + 1)
        × ((level_at map 1).from + (level_at map 1).pgtables * 1073741824 ≡ (level_at map 1).to + 1)
        × ((level_at map 0).from + (level_at map 0).pgtables * 2097152 ≡ (level_at map 0).to + 1)
  unfolding count_levels count_level clip tables_in
  count_levels-layout r b = (
    ground arith,
    ground arith,
    ground arith,
    ground arith,
    ground arith,
    ground arith,
    ground arith,
    ground arith,
  )
