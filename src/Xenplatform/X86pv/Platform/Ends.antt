-- ===== src/Xenplatform/X86pv/Platform/Ends.antt =====
-- The loop of `alloc_page_tables` ends, with room for the tables that it has counted.
use krata.Prelude.{
  ℕ, zero, suc, ◌+◌, ◌*◌, ◌/◌, ◌%◌, ◌≤◌, ◌<◌, ◌≡◌, refl, Bool, true, false, arith, Outcome, ok, err,
  panic,
}
use krata.Prelude.Bits.{bit_or_low}
use krata.Xenplatform.Sys.{Error, add64, mul64}
use krata.Xenplatform.Boot.{round_up, bits_to_mask}
use krata.Xenplatform.X86pv.Tables.{PageTable}
use krata.Xenplatform.X86pv.Count.{Counted, refused, counted, count_page_tables-Counted}
use krata.Xenplatform.X86pv.Platform.Alloc.{
  Found, end_of, pages_with, fits, found_or, find_tables, tables_fuel,
}
use krata.Xenplatform.X86pv.Platform.Alloc

module _ (pfn_alloc_end p2m_size virt_base virt_alloc_end : ℕ) where
  abbrev needed : ℕ → ℕ
  needed pages = add64 virt_alloc_end (mul64 pages 4096)

  abbrev tried : ℕ → ℕ
  tried pages = end_of pfn_alloc_end p2m_size virt_base virt_alloc_end pages

  -- The end of the 4 MB that hold the address.
  tried_lem : (pages : ℕ) → tried pages ≡ needed pages / 4194304 * 4194304 + 4194303
  unfolding round_up bits_to_mask
  tried_lem pages = bit_or_low 22 (needed pages)

  -- The loop has ended: in an error, or at the end of 4 MB with room for the tables and 129 more pages.
  abbrev pub Ends : Outcome Error Found × PageTable → Type 0
  Ends (ok f, t) =
      (f.try_virt_end % 4194304 ≡ 4194303)
      × (needed (pages_with pfn_alloc_end p2m_size virt_base virt_alloc_end f.mapping t)
          ≤ f.try_virt_end + 1)
  Ends (err e, t) = Unit
  Ends (panic, t) = ⊥

  module _ (fit : virt_base + p2m_size * 4096 < 18446744073709551616) where
    counted-Ends :
        (pages : ℕ) (again : ℕ → PageTable → Outcome Error Found × PageTable) (t : PageTable)
        (s : Outcome Error ℕ × PageTable)
        → ((more : ℕ) (t' : PageTable)
            → tried pages / 4194304 < tried more / 4194304
            → Ends (again more t'))
        → Counted pfn_alloc_end p2m_size virt_base (tried pages) 0 t s
        → Ends (Alloc.counted pfn_alloc_end p2m_size virt_base virt_alloc_end (tried pages) again s)
    counted-Ends pages again t s a (refused e) = tt
    counted-Ends pages again t s a (counted x y z) = by_test _ refl
      where
        more : ℕ
        more = pages_with pfn_alloc_end p2m_size virt_base virt_alloc_end t.mappings_count s.1

        no_wrap : add64 (tried pages) 1 ≡ tried pages + 1
        no_wrap = let k = tried_lem pages in omega arith

        by_test :
            (b : Bool)
            → fits pfn_alloc_end p2m_size virt_base virt_alloc_end more (tried pages) ≡ b
            → Ends (
                Alloc.counted pfn_alloc_end p2m_size virt_base virt_alloc_end (tried pages) again s)
        by_test true e = rw e (let k = tried_lem pages in omega arith, ground (arith, no_wrap))
        by_test false e =
            rw (e, found_or)
              (a more s.1
                (let k = tried_lem pages in let l = tried_lem more in ground (arith, no_wrap)))

    find_tables-Ends_upto :
        (fuel pages : ℕ) (t : PageTable)
        → 4398046511104 ≤ fuel + tried pages / 4194304
        → Ends (find_tables pfn_alloc_end p2m_size virt_base virt_alloc_end fuel pages t)
    unfolding find_tables
    find_tables-Ends_upto zero pages t h = absurd (let k = tried_lem pages in omega arith)
    find_tables-Ends_upto (suc fuel) pages t h =
        counted-Ends pages _ t _ (λ more t' r. find_tables-Ends_upto fuel more t' (omega arith))
          (count_page_tables-Counted pfn_alloc_end p2m_size virt_base (tried pages) 0 t)

    -- If the guest's memory fits behind its base address, the loop of alloc_page_tables ends: with
    -- an error of count_page_tables, or with an end of 4 MB up to which there is room for the
    -- tables counted last and 129 more pages.
    pub find_tables-Ends :
        (pages : ℕ) (t : PageTable)
        → Ends (find_tables pfn_alloc_end p2m_size virt_base virt_alloc_end tables_fuel pages t)
    find_tables-Ends pages t = find_tables-Ends_upto tables_fuel pages t (omega arith)
