-- ===== src/Xenplatform/X86pv/Platform/Beside.antt =====
-- The allocator of boot.rs leaves the platform's state alone.
use krata.Prelude.{
  ℕ, zero, suc, ◌≡◌, refl, ◌∙◌, ◌==◌, Bool, true, false, Option, none, some, List, Outcome, ok, err,
  panic,
}
use krata.Xenplatform.Sys.{Error, HyperApi}
use krata.Xenplatform.Mem.{
  PhysicalPages, Visit, skip, out_of_range, inside, find_page, entries, mapped, batched, map_frames,
  pfn_alloc, pfn_to_ptr,
}
use krata.Xenplatform.Boot.{pages_of, segment_at, with_pages, BootDomain, alloc_segment}
use krata.Xenplatform.X86pv.Platform.{X86PvPlatform, with_platform, after_platform}

module _ (H : HyperApi) where
  mapped_stays :
      (pfn count addr : ℕ) (phys : PhysicalPages) (p : X86PvPlatform) (r : Outcome Error ℕ × H.W)
      → (mapped (with_platform H) pfn count addr phys (after_platform p r)).1.1.0 ≡ p
  mapped_stays pfn count addr phys p (ok zero, w) = refl
  mapped_stays pfn count addr phys p (ok (suc n), w) = refl
  mapped_stays pfn count addr phys p (err e, w) = refl
  mapped_stays pfn count addr phys p (panic, w) = refl

  batched_stays :
      (pfn count : ℕ) (mfns : List ℕ) (phys : PhysicalPages) (p : X86PvPlatform)
      (r : Option ℕ × H.W)
      → (batched (with_platform H) pfn count mfns phys (after_platform p r)).1.1.0 ≡ p
  batched_stays pfn count mfns phys p (none, w) = refl
  batched_stays pfn count mfns phys p (some addr, w) = mapped_stays pfn count addr phys p _

  pfn_to_ptr_stays :
      (pfn count : ℕ) (phys : PhysicalPages) (p : X86PvPlatform) (w : H.W)
      → (pfn_to_ptr (with_platform H) pfn count (phys, (p, w))).1.1.0 ≡ p
  unfolding pfn_to_ptr pfn_alloc map_frames
  pfn_to_ptr_stays pfn count phys p w = by_visit _ refl
    where
      allocated : (pfn_alloc (with_platform H) pfn count (phys, (p, w))).1.1.0 ≡ p
      allocated = by_entries _ refl
        where
          by_entries :
              (o : Option (List ℕ))
              → entries phys.p2m pfn count ≡ o
              → (pfn_alloc (with_platform H) pfn count (phys, (p, w))).1.1.0 ≡ p
          by_entries none e = rw (e, pfn_alloc) refl
          by_entries (some mfns) e = rw (e, pfn_alloc) (batched_stays pfn count mfns phys p _)

      by_count :
          (b : Bool)
          → (count == 0) ≡ b
          → find_page phys.page_shift pfn count phys.pages ≡ skip
          → (pfn_to_ptr (with_platform H) pfn count (phys, (p, w))).1.1.0 ≡ p
      by_count true e f = rw (f, e, pfn_to_ptr) refl
      by_count false e f = rw (f, e, pfn_to_ptr) allocated

      by_visit :
          (v : Visit)
          → find_page phys.page_shift pfn count phys.pages ≡ v
          → (pfn_to_ptr (with_platform H) pfn count (phys, (p, w))).1.1.0 ≡ p
      by_visit skip f = by_count _ refl f
      by_visit out_of_range f = rw (f, pfn_to_ptr) refl
      by_visit (inside ptr) f = rw (f, pfn_to_ptr) refl

  segment_at_stays :
      (size : ℕ) (b d : BootDomain) (r : Outcome Error ℕ × (PhysicalPages × (X86PvPlatform × H.W)))
      → (segment_at (with_platform H) size b d r).1.1.0 ≡ r.1.1.0
  segment_at_stays size b d (ok ptr, s) = refl
  segment_at_stays size b d (err e, s) = refl
  segment_at_stays size b d (panic, s) = refl

  with_pages_stays :
      (size : ℕ) (b : BootDomain) (p : X86PvPlatform) (w : H.W)
      (r : Outcome Error (Unit {0}) × BootDomain)
      → (with_pages (with_platform H) size b (p, w) r).1.1.0 ≡ p
  with_pages_stays size b p w (ok u, d) =
      segment_at_stays size b d _ ∙ pfn_to_ptr_stays b.pfn_alloc_end (pages_of size) d.phys p w
  with_pages_stays size b p w (err e, d) = refl
  with_pages_stays size b p w (panic, d) = refl

  -- The allocator leaves the platform alone.
  pub alloc_segment_stays :
      (size : ℕ) (d : BootDomain) (p : X86PvPlatform) (w : H.W)
      → (alloc_segment (with_platform H) 0 size (d, (p, w))).1.1.0 ≡ p
  unfolding alloc_segment
  alloc_segment_stays size d p w = with_pages_stays size d p w _
