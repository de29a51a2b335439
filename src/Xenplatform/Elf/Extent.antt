-- ===== src/Xenplatform/Elf/Extent.antt =====
-- The addresses that `parse_sync` finds hold every loaded segment, and memory of that extent is enough for `load`.
use krata.Prelude.{
  ℕ, ◌+◌, ◌-◌, ◌≤◌, ◌<◌, ◌≡◌, ◌≢◌, ◌++◌, refl, sym, ap, subst, ◌∙◌, Bool, true, false, ◌&&◌, List,
  [], ◌∷◌, length, All, arith, ltb, leb, if◌then◌else◌, Outcome, ok, err, panic,
}
use krata.Prelude.Effect.{continue}
use krata.Xenplatform.Sys.{Error, HyperApi, add64, sub64}
use krata.Xenplatform.Elf.{ProgramHeader, is_loaded, extent}
use krata.Xenplatform.Elf.Load.{load_segment, load_segments, copied, cleared}

-- The segment lies between the addresses.
abbrev pub LiesIn : ℕ → ℕ → ProgramHeader → Type 0
LiesIn start end header = (start ≤ header.p_paddr) × (header.p_paddr + header.p_memsz ≤ end)

-- The addresses of the segment do not leave u64.
abbrev pub IsSegment : ProgramHeader → Type 0
IsSegment header = header.p_paddr + header.p_memsz < 18446744073709551616

-- Once found, the extent only grows.
pub extent-grows :
    (headers : List ProgramHeader) (start end : ℕ)
    → ((extent headers start end).0 ≤ start) × (end ≤ (extent headers start end).1)
unfolding extent
extent-grows [] start end = (omega arith, omega arith)
extent-grows (header ∷ headers) start end =
    by_test _ refl (extent-grows headers start end) (extent-grows headers _ _)
  where
    low : ℕ
    low = if ltb header.p_paddr start then header.p_paddr else start

    high : ℕ
    high =
        if ltb end (add64 header.p_paddr header.p_memsz)
        then add64 header.p_paddr header.p_memsz
        else end

    by_test :
        (b : Bool)
        → is_loaded header ≡ b
        → ((extent headers start end).0 ≤ start) × (end ≤ (extent headers start end).1)
        → ((extent headers low high).0 ≤ low) × (high ≤ (extent headers low high).1)
        → ((extent (header ∷ headers) start end).0 ≤ start)
          × (end ≤ (extent (header ∷ headers) start end).1)
    by_test true e p q = rw (e, extent) (ground arith, ground arith)
    by_test false e p q = rw (e, extent) p

-- Every segment that is to be loaded lies between the addresses that `extent` finds.
pub extent-LiesIn :
    (headers : List ProgramHeader) (start end : ℕ)
    → All IsSegment headers
    → All
        (λ header.
          is_loaded header ≡ true
          → LiesIn (extent headers start end).0 (extent headers start end).1 header)
        headers
unfolding extent
extent-LiesIn [] start end s = tt
extent-LiesIn (header ∷ headers) start end s =
    by_test _ refl (extent-LiesIn headers start end s.1) (extent-LiesIn headers low high s.1)
      (extent-grows headers low high)
  where
    low : ℕ
    low = if ltb header.p_paddr start then header.p_paddr else start

    high : ℕ
    high =
        if ltb end (add64 header.p_paddr header.p_memsz)
        then add64 header.p_paddr header.p_memsz
        else end

    Inside : ℕ × ℕ → ProgramHeader → Type 0
    Inside r h = is_loaded h ≡ true → LiesIn r.0 r.1 h

    by_test :
        (b : Bool)
        → is_loaded header ≡ b
        → All (Inside (extent headers start end)) headers
        → All (Inside (extent headers low high)) headers
        → ((extent headers low high).0 ≤ low) × (high ≤ (extent headers low high).1)
        → All (Inside (extent (header ∷ headers) start end)) (header ∷ headers)
    by_test true e p q (a, b) =
        let whole : extent (header ∷ headers) start end ≡ extent headers low high =
          rw (e, extent) refl in
        let f = s.0 in
        subst (λ r. All (Inside r) (header ∷ headers)) (sym whole)
          ((λ t. (ground arith, ground arith)), q)
    by_test false e p q k =
        let whole : extent (header ∷ headers) start end ≡ extent headers start end =
          rw (e, extent) refl in
        subst (λ r. All (Inside r) (header ∷ headers)) (sym whole)
          ((λ t. absurd (let g : true ≡ false = sym t ∙ e in cc g)), p)

-- What lies below every segment that is to be loaded lies below the least address that `extent` finds.
pub extent-above :
    (headers : List ProgramHeader) (p start end : ℕ)
    → p < start
    → All (λ h. is_loaded h ≡ true → p < h.p_paddr) headers
    → p < (extent headers start end).0
unfolding extent
extent-above [] p start end h l = h
extent-above (header ∷ headers) p start end h l =
    by_test _ refl (λ s t k. extent-above headers p s t k l.1)
  where
    lower : p < header.p_paddr → p < (if ltb header.p_paddr start then header.p_paddr else start)
    lower k = ground arith

    by_test :
        (b : Bool)
        → is_loaded header ≡ b
        → ((s t : ℕ) → p < s → p < (extent headers s t).0)
        → p < (extent (header ∷ headers) start end).0
    by_test true e rest = rw (e, extent) (rest _ _ (lower (l.0 e)))
    by_test false e rest = rw (e, extent) (rest start end h)

-- The segment can be copied to memory for the addresses from `start` on and below `end`.
pub record CanLoad (start end : ℕ) (header : ProgramHeader) : Type 0 where
  pub lies : LiesIn start end header
  pub in_file : header.p_filesz ≤ header.p_memsz
  pub contents :
      (found : List ℕ) × (header.segment_data ≡ ok found) × (header.p_filesz ≤ length found)

module _ (H : HyperApi) where
  open H use {W}

  load_segment_ok :
      (start end addr len : ℕ) (header : ProgramHeader) (w : W)
      → end < 18446744073709551616
      → end ≤ start + len
      → CanLoad start end header
      → (load_segment H start addr len header header.segment_data w).0 ≡ ok tt
  load_segment_ok start end addr len header w b h c =
      let (contents, e, f) = c.contents in
      let l = c.lies in
      let g = c.in_file in
      let offset : sub64 header.p_paddr start ≡ header.p_paddr - start = omega arith in
      let fits : (leb (header.p_paddr - start) len && leb header.p_filesz (length contents))
          ≡ true =
        ground arith in
      let rest : (leb header.p_filesz header.p_memsz
            && leb header.p_memsz (len - (header.p_paddr - start)))
          ≡ true =
        ground arith in
      ap (λ r. (load_segment H start addr len header r w).0) e
      ∙ rw (offset, fits, rest)
          (at_rest (ltb 0 (sub64 header.p_memsz header.p_filesz)) (header.p_paddr - start) _)
    where
      at_rest :
          (t : Bool) (offset : ℕ) (w' : W) → (cleared H t true addr offset header w').0 ≡ ok tt
      at_rest true offset w' = refl
      at_rest false offset w' = refl

  -- If every segment lies between two addresses and has its bytes in the file, `load` to memory of that extent does
  -- not fail.
  pub load_segments_ok :
      (start end addr len : ℕ) (headers : List ProgramHeader) (w : W)
      → end < 18446744073709551616
      → end ≤ start + len
      → All (CanLoad start end) headers
      → (load_segments H start addr len headers w).0 ≡ ok tt
  unfolding load_segments
  load_segments_ok start end addr len [] w b h c = refl
  load_segments_ok start end addr len (header ∷ headers) w b h c =
      go_on _ (load_segment_ok start end addr len header w b h c.0)
        (λ w'. load_segments_ok start end addr len headers w' b h c.1)
    where
      go_on :
          (r : Outcome Error (Unit {0}) × W)
          → r.0 ≡ ok tt
          → ((w' : W) → (load_segments H start addr len headers w').0 ≡ ok tt)
          → (continue r (λ _. load_segments H start addr len headers)).0 ≡ ok tt
      go_on (ok u, w') e f = f w'
      go_on (err x, w') e f = absurd (cc e)
      go_on (panic, w') e f = absurd (cc e)

  load_segment_outside :
      (start addr len : ℕ) (header : ProgramHeader) (contents : List ℕ) (w : W)
      → header.segment_data ≡ ok contents
      → header.p_paddr < start
      → start < 9223372036854775808
      → len < 9223372036854775808
      → (load_segment H start addr len header header.segment_data w).0 ≡ panic
  load_segment_outside start addr len header contents w e h b c =
      let fits : (leb (sub64 header.p_paddr start) len && leb header.p_filesz (length contents))
          ≡ false =
        ground arith in
      rw (e, fits, copied) refl

  -- Such a segment keeps `load` from succeeding, wherever it stands.
  pub load_segments_outside :
      (start addr len : ℕ) (before after : List ProgramHeader) (header : ProgramHeader)
      (contents : List ℕ) (w : W)
      → header.segment_data ≡ ok contents
      → header.p_paddr < start
      → start < 9223372036854775808
      → len < 9223372036854775808
      → (load_segments H start addr len (before ++ header ∷ after) w).0 ≢ ok tt
  unfolding load_segments
  load_segments_outside start addr len [] after header contents w e h b c =
      stops _ (load_segment_outside start addr len header contents w e h b c)
    where
      stops :
          (r : Outcome Error (Unit {0}) × W)
          → r.0 ≡ panic
          → (continue r (λ _. load_segments H start addr len after)).0 ≢ ok tt
      stops (ok u, v) p = absurd (cc p)
      stops (err x, v) p = absurd (cc p)
      stops (panic, v) p = λ q. cc q
  load_segments_outside start addr len (first ∷ before) after header contents w e h b c =
      goes_on _ (λ v. load_segments_outside start addr len before after header contents v e h b c)
    where
      goes_on :
          (r : Outcome Error (Unit {0}) × W)
          → ((v : W) → (load_segments H start addr len (before ++ header ∷ after) v).0 ≢ ok tt)
          → (continue r (λ _. load_segments H start addr len (before ++ header ∷ after))).0 ≢ ok tt
      goes_on (ok u, v) f = f v
      goes_on (err x, v) f = λ q. cc q
      goes_on (panic, v) f = λ q. cc q
