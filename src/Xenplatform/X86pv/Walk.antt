-- ===== src/Xenplatform/X86pv/Walk.antt =====
-- The entries of the page tables lead from an address to its frame, level by level.
use krata.Prelude.{
  ℕ, zero, suc, ◌+◌, ◌-◌, ◌/◌, ◌%◌, ◌^◌, ◌≤◌, ◌<◌, ◌≡◌, refl, false, ◌||◌, some, arith, leb,
}
use krata.Xenplatform.Sys.{add64, sub64, shr64}
use krata.Xenplatform.X86pv.Tables.{
  PageTableMappingLevel, shift_of, has_no_tables, Span, span, max, min,
}

-- The address has its entry in the span, and the entry maps the target's frame for the address.
pub record Walks (l v : ℕ) (level lvl : PageTableMappingLevel) (s : Span) : Type 0 where
  pub from : s.first ≤ (v - level.from) / 2 ^ shift_of l
  pub to : (v - level.from) / 2 ^ shift_of l < s.first + s.count
  pub frame :
      s.pfn + ((v - level.from) / 2 ^ shift_of l - s.first)
      ≡ lvl.pfn + (v - lvl.from) / 2 ^ shift_of l

-- The ranges of a table and of its target begin at multiples of what an entry maps, and lie below 2 ^ 48.
pub record IsAligned (l : ℕ) (level lvl : PageTableMappingLevel) : Type 0 where
  pub level_from : level.from % 2 ^ shift_of l ≡ 0
  pub lvl_from : lvl.from % 2 ^ shift_of l ≡ 0
  pub level_to : level.to < 281474976710656
  pub lvl_to : lvl.to < 281474976710656
  pub frames : lvl.pfn < 4503599627370496
  pub tables : has_no_tables l lvl ≡ false

abbrev span_of : ℕ → PageTableMappingLevel → PageTableMappingLevel → Span
span_of l level lvl =
    let first = shr64 (sub64 (max level.from lvl.from) level.from) (shift_of l) in
    let last = shr64 (sub64 (min level.to lvl.to) level.from) (shift_of l) in
    record {
      first = first;
      count = last + 1 - first;
      pfn = add64 (shr64 (sub64 (max level.from lvl.from) lvl.from) (shift_of l)) lvl.pfn;
    }

-- A table and its target have addresses in common.
abbrev pub Meets : PageTableMappingLevel → PageTableMappingLevel → Type 0
Meets level lvl = (lvl.from < level.to) × (level.from < lvl.to)

span-some :
    (l : ℕ) (level lvl : PageTableMappingLevel)
    → has_no_tables l lvl ≡ false
    → Meets level lvl
    → span l level lvl ≡ some (span_of l level lvl)
unfolding span
span-some l level lvl e (a, b) =
    let skip : (leb level.to lvl.from || leb lvl.to level.from) ≡ false = ground arith in
    rw (e, skip) refl

-- The address lies in both ranges.
abbrev pub InBoth : ℕ → PageTableMappingLevel → PageTableMappingLevel → Type 0
InBoth v level lvl = (level.from ≤ v) × (v ≤ level.to) × (lvl.from ≤ v) × (v ≤ lvl.to)

span_of-Walks :
    (l v : ℕ) (level lvl : PageTableMappingLevel)
    → l < 4
    → IsAligned l level lvl
    → InBoth v level lvl
    → Walks l v level lvl (span_of l level lvl)
span_of-Walks zero v level lvl h a (f1, t1, f2, t2) = record {
  from = ground arith;
  to = ground arith;
  frame = ground arith;
}
span_of-Walks (suc zero) v level lvl h a (f1, t1, f2, t2) = record {
  from = ground arith;
  to = ground arith;
  frame = ground arith;
}
span_of-Walks (suc (suc zero)) v level lvl h a (f1, t1, f2, t2) = record {
  from = ground arith;
  to = ground arith;
  frame = ground arith;
}
span_of-Walks (suc (suc (suc zero))) v level lvl h a (f1, t1, f2, t2) = record {
  from = ground arith;
  to = ground arith;
  frame = ground arith;
}
span_of-Walks (suc (suc (suc (suc l)))) v level lvl h a k = absurd (omega arith)

-- Every address that a table and its target have in common has its entry among those that are written,
-- and that entry maps the target's frame for the address.
pub span-Walks :
    (l v : ℕ) (level lvl : PageTableMappingLevel)
    → l < 4
    → IsAligned l level lvl
    → Meets level lvl
    → InBoth v level lvl
    → (s : Span) × (span l level lvl ≡ some s) × Walks l v level lvl s
span-Walks l v level lvl h a m k =
    (span_of l level lvl, span-some l level lvl a.tables m, span_of-Walks l v level lvl h a k)
