-- ===== src/Xenplatform/Elf/Parse.antt =====
-- What `parse_sync` gives is right for `load`: memory of the extent that it finds is enough.
use krata.Prelude.{
  ℕ, ◌≤◌, ◌<◌, ◌≡◌, refl, sym, subst, ◌∙◌, Bool, true, false, not, ◌&&◌, Option, none, some, List,
  [], ◌∷◌, length, All, All-map, arith, ltb, ◌==◌, if◌then◌else◌, Outcome, ok, err, panic, ok_or,
}
use krata.Prelude.Effect.{lift, raise_if}
use krata.Prelude.Triples.{Returns, Triple, by_run, next}
use krata.Xenplatform.Sys.{Error, HyperApi, add64, sub64}
use krata.Xenplatform.Boot.{BootImageInfo}
use krata.Xenplatform.Elf.{ElfBytes, ProgramHeader, is_loaded, extent, xen_notes, get_note, note_or}
use krata.Xenplatform.Elf.Load.{u64_max, image_info, is_empty, parse_sync, load}
use krata.Xenplatform.Elf.Extent.{
  extent-grows, IsSegment, LiesIn, CanLoad, extent-LiesIn, load_segments_ok,
}

-- The extent is of addresses in u64.
extent-bound :
    (headers : List ProgramHeader) (start end : ℕ)
    → end < 18446744073709551616
    → (extent headers start end).1 < 18446744073709551616
unfolding extent
extent-bound [] start end h = h
extent-bound (header ∷ headers) start end h =
    by_test _ refl (extent-bound headers start end h) (extent-bound headers low high (ground arith))
  where
    low : ℕ
    low = if ltb header.p_paddr start then header.p_paddr else start

    high : ℕ
    high =
        if ltb end (add64 header.p_paddr header.p_memsz)
        then add64 header.p_paddr header.p_memsz
        else end

    by_test :
        (b : Bool)
        → is_loaded header ≡ b
        → (extent headers start end).1 < 18446744073709551616
        → (extent headers low high).1 < 18446744073709551616
        → (extent (header ∷ headers) start end).1 < 18446744073709551616
    by_test true e p q = rw (e, extent) q
    by_test false e p q = rw (e, extent) p

-- The description has the least address of the image's segments, and their extent.
pub record Describes (elf : ElfBytes) (headers : List ProgramHeader) (info : BootImageInfo)
    : Type 0 where
  pub segments : elf.segments ≡ some headers
  pub start : info.start ≡ (extent headers u64_max 0).0
  pub size :
      sub64 info.virt_kend info.virt_kstart
      ≡ sub64 (extent headers u64_max 0).1 (extent headers u64_max 0).0

image_info-Describes :
    (elf : ElfBytes) (hvm : Bool) (headers : List ProgramHeader)
    (paddr_offset virt_base entry virt_hypercall init_p2m mod_start_pfn : ℕ)
    (phys32_entry : Option ℕ)
    → elf.segments ≡ some headers
    → Describes elf headers (
        image_info elf hvm headers paddr_offset virt_base entry virt_hypercall init_p2m
          mod_start_pfn phys32_entry)
unfolding image_info
image_info-Describes elf hvm headers paddr_offset virt_base entry virt_hypercall init_p2m
      mod_start_pfn phys32_entry e =
    let b = extent-bound headers u64_max 0 (omega arith) in
    let (l, u) = extent-grows headers u64_max 0 in
    record { segments = e; start = refl; size = omega arith }

module _ (W : Type 0) (elf : ElfBytes) where
  abbrev Parsed : BootImageInfo → W → Type 0
  Parsed info w = (headers : List ProgramHeader) × Describes elf headers info

  abbrev Found : List ProgramHeader → W → Type 0
  Found headers w = elf.segments ≡ some headers

  abbrev Any : {A : Type 0} → A → W → Type 0
  Any a w = Unit

  lifted : {A : Type 0} (r : Outcome Error A) → Triple (λ w. Unit) (lift r) Any
  lifted {A} r = by_run (λ w u. at_end w r)
    where
      at_end : (w : W) (r : Outcome Error A) → Returns Any (r, w)
      at_end w (ok a) = tt
      at_end w (err e) = tt
      at_end w panic = tt

  raised : (t : Bool) (e : Error) (P : W → Type 0) → Triple P (raise_if t e) (λ u w. P w)
  raised true e P = by_run (λ w p. tt)
  raised false e P = by_run (λ w p. p)

  found : (e : Error) → Triple (λ w. Unit) (lift (ok_or elf.segments e)) Found
  found e = by_run (λ w u. at_end w elf.segments refl)
    where
      at_end :
          (w : W) (o : Option (List ProgramHeader))
          → elf.segments ≡ o
          → Returns Found (ok_or o e, w)
      at_end w none q = tt
      at_end w (some headers) q = q

  parse_sync-Parsed : (hvm : Bool) → Triple (λ w. Unit) (parse_sync {W = W} (ok elf) hvm) Parsed
  unfolding parse_sync
  parse_sync-Parsed hvm =
      next Any
        (lifted (ok_or elf.section_headers (Error.elf_invalid_image "section headers missing")))
        (λ headers. next Any (lifted (xen_notes elf.little_endian headers [])) (λ notes.
          next Any (raised (is_empty notes) Error.elf_xen_support_missing (λ w. Unit)) (λ u.
            next Any (lifted (note_or (get_note 4 notes) "PADDR_OFFSET")) (λ paddr_offset.
              next Any (lifted (note_or (get_note 3 notes) "VIRT_BASE")) (λ virt_base.
                next Any (lifted (note_or (get_note 1 notes) "ENTRY")) (λ entry.
                  next Any (lifted (note_or (get_note 2 notes) "HYPERCALL_PAGE")) (λ virt_hypercall.
                    next Any (lifted (note_or (get_note 15 notes) "INIT_P2M")) (λ init_p2m.
                      next Any (lifted (note_or (get_note 16 notes) "MOD_START_PFN"))
                        (λ mod_start_pfn.
                          next Found (found (Error.elf_invalid_image "segments missing"))
                            (λ segments.
                              next (λ v. Found segments)
                                (raised (not (paddr_offset == u64_max) && (virt_base == u64_max))
                                  (Error.elf_invalid_image
                                    "paddr_offset specified, but virt_base is not specified")
                                  (Found segments))
                                (λ v. by_run (λ w e. (
                                  segments,
                                  image_info-Describes elf hvm segments paddr_offset virt_base entry
                                      virt_hypercall init_p2m mod_start_pfn (get_note 18 notes) e,
                                )))))))))))))

-- The segment is to be loaded, its addresses do not leave u64, it has no more bytes in the file than in memory, and the
-- file has them.
pub record IsSound (header : ProgramHeader) : Type 0 where
  pub loaded : is_loaded header ≡ true
  pub segment : IsSegment header
  pub in_file : header.p_filesz ≤ header.p_memsz
  pub contents :
      (found : List ℕ) × (header.segment_data ≡ ok found) × (header.p_filesz ≤ length found)

IsSound-CanLoad :
    (start end : ℕ) (headers : List ProgramHeader)
    → All (λ header. is_loaded header ≡ true → LiesIn start end header) headers
    → All IsSound headers
    → All (CanLoad start end) headers
IsSound-CanLoad start end [] l s = tt
IsSound-CanLoad start end (header ∷ headers) l s = (
  record { lies = l.0 s.0.loaded; in_file = s.0.in_file; contents = s.0.contents },
  IsSound-CanLoad start end headers l.1 s.1,
)

module _ (H : HyperApi) (elf : ElfBytes) where
  open H use {W}

  load_ok :
      (headers : List ProgramHeader) (info : BootImageInfo) (addr : ℕ) (w : W)
      → Describes elf headers info
      → All IsSound headers
      → (load H (ok elf) info addr (sub64 info.virt_kend info.virt_kstart) w).0 ≡ ok tt
  unfolding load
  load_ok headers info addr w d s =
      let b = extent-bound headers u64_max 0 (omega arith) in
      let (l, u) = extent-grows headers u64_max 0 in
      rw (d.segments, d.size, d.start)
        (load_segments_ok H (extent headers u64_max 0).0 (extent headers u64_max 0).1 addr
          (sub64 (extent headers u64_max 0).1 (extent headers u64_max 0).0) headers w b
          (omega arith)
          (IsSound-CanLoad (extent headers u64_max 0).0 (extent headers u64_max 0).1 headers
            (extent-LiesIn headers u64_max 0 (All-map headers (λ h k. k.segment) s)) s))

  -- If all segments of an image are to be loaded, with addresses that do not leave u64, with no
  -- more bytes in the file than in memory, and the file has these bytes, then once parse_sync has described the image, load to memory of the size
  -- that the description gives does not fail.
  pub parse_sync-load :
      (hvm : Bool) (headers : List ProgramHeader) (info : BootImageInfo) (addr : ℕ) (w w' w'' : W)
      → elf.segments ≡ some headers
      → All IsSound headers
      → parse_sync (ok elf) hvm w ≡ (ok info, w')
      → (load H (ok elf) info addr (sub64 info.virt_kend info.virt_kstart) w'').0 ≡ ok tt
  parse_sync-load hvm headers info addr w w' w'' e s p =
      let (found_headers, d) =
        subst (Returns (Parsed W elf)) p ((parse_sync-Parsed W elf hvm).run w tt) in
      let same : some headers ≡ some found_headers = sym e ∙ d.segments in
      let q : headers ≡ found_headers = cc same in
      load_ok found_headers info addr w'' d (subst (All IsSound) q s)
