-- ===== src/Xenplatform/X86pv/Memory/Complete.antt =====
-- crates/xen/xenplatform/src/x86pv.rs over crates/xen/xencall/src/lib.rs: `initialize_memory` with requests for frames
-- that give as many as they are asked for.
use krata.Prelude.{
  ℕ, zero, suc, ◌+◌, ◌-◌, ◌*◌, ◌/◌, ◌≡◌, ◌≤◌, ◌<◌, refl, ap, subst, ◌∙◌, some, Bool-cases, inl, inr,
  true, false, List, [], ◌∷◌, ◌++◌, length, length-append, get_elem?-lt, take, drop, leb, ◌==◌,
  arith, Outcome, ok, err, panic,
}
use krata.Prelude.Effect.{Action}
use krata.Xenplatform.Sys.{Error, shr64, shl64}
use krata.Xenplatform.X86pv.Memory.{
  fill_p2m, frames_of, populate_super, populate_small, super_starts, super_frames, overwrite,
  super_batch, populated, small_populated, continue_with, only_p2m, min,
}
use krata.Xenplatform.X86pv.Memory.Begun.{length-take, length-drop}
use krata.Xencall
use krata.Xenplatform.FromXencall.{from_xencall, xencall_populate}
use krata.Xencall.Hypercall.{Hypervisor}
use krata.Xencall.MemoryOp.Extents.{AsManyAs, populate_physmap-AsManyAs}

-- How a call ends whose only errors are those of `XenCall`.
abbrev pub Ends : {A : Type 0} → (A → Type 0) → Outcome Error A → Type 0
Ends P (ok a) = P a
Ends P (err e) = (x : Xencall.Error) × (e ≡ Error.xen_call x)
Ends P panic = ⊥

length-frames_of : (k mfn : ℕ) → length (frames_of k mfn) ≡ k
unfolding frames_of
length-frames_of zero mfn = refl
length-frames_of (suc k) mfn = omega (arith, length-frames_of k (mfn + 1))

length-super_frames : (extents : List ℕ) → length (super_frames extents) ≡ 512 * length extents
unfolding super_frames
length-super_frames [] = omega arith
length-super_frames (mfn ∷ extents) =
    length-append (frames_of 512 mfn) (super_frames extents)
    ∙ omega (arith, length-frames_of 512 mfn, length-super_frames extents)

super_starts-some :
    (n pfn : ℕ) (p2m : List ℕ)
    → pfn + 512 * n ≤ length p2m
    → (starts : List ℕ) × (super_starts n pfn p2m ≡ some starts) × (length starts ≡ n)
unfolding super_starts
super_starts-some zero pfn p2m h = ([], refl, refl)
super_starts-some (suc n) pfn p2m h =
    let (start, at_pfn) = get_elem?-lt p2m pfn (omega arith) in
    let (starts, e, l) = super_starts-some n (pfn + 512) p2m (omega arith) in
    (start ∷ starts, rw (at_pfn, e, super_starts) refl, ap suc l)

overwrite_fits :
    (p2m frames : List ℕ) (j : ℕ)
    → j + length frames ≤ length p2m
    → (q : List ℕ) × (overwrite p2m j frames ≡ some q) × (length q ≡ length p2m)
unfolding overwrite
overwrite_fits p2m frames j h = (
  take j p2m ++ (frames ++ drop (j + length frames) p2m),
  rw (within h) refl,
  length-append (take j p2m) (frames ++ drop (j + length frames) p2m)
      ∙ omega (
        arith,
        length-take j p2m (omega arith),
        length-append frames (drop (j + length frames) p2m),
        length-drop (j + length frames) p2m,
      ),
)
  where
    within : j + length frames ≤ length p2m → leb (j + length frames) (length p2m) ≡ true
    within h = ground arith

module _ {W : Type 0} (populate : (domid count order flags : ℕ) → List ℕ → Action W Error (List ℕ))
    (domid : ℕ) (pages : ℕ) where
  -- The list has a frame for each page, and so many more fit behind the index.
  abbrev Room : ℕ → List ℕ × ℕ → Type 0
  Room left s = (length s.0 ≡ pages) × (s.1 + left ≤ pages)

  -- The index has come so far.
  abbrev Advanced : ℕ → List ℕ × ℕ → Type 0
  Advanced k s = (length s.0 ≡ pages) × (s.1 ≡ k) × (k ≤ pages)

  -- A request for frames that gives as many as there are starts, or fails.
  abbrev pub Gives : Type 0
  Gives =
      (count order : ℕ) (starts : List ℕ) (w : W)
      → Ends (λ extents. length extents ≡ length starts) (populate domid count order 0 starts w).0

  continue_with-Ends :
      (left : ℕ) (f : List ℕ × ℕ → Action W Error (List ℕ × ℕ)) (r : Outcome Error (List ℕ × ℕ) × W)
      → Ends (Room left) r.0
      → ((s : List ℕ × ℕ) (w : W) → Room left s → Ends (Room 0) (f s w).0)
      → Ends (Room 0) (continue_with populate domid f r).0
  continue_with-Ends left f (ok s, w) h g = g s w h
  continue_with-Ends left f (err e, w) h g = h
  continue_with-Ends left f (panic, w) h g = h

  populated-Ends :
      (left count : ℕ) (p2m : List ℕ) (pfn : ℕ) (r : Outcome Error (List ℕ) × W)
      → Room (512 * count + left) (p2m, pfn)
      → Ends (λ extents. length extents ≡ count) r.0
      → Ends (Room left) (populated populate domid p2m pfn r).0
  populated-Ends left count p2m pfn (ok extents, w) b h =
      let fits : pfn + length (super_frames extents) + left ≤ length p2m =
        omega (arith, length-super_frames extents, h, b.0, b.1) in
      let (q, e, l) = overwrite_fits p2m (super_frames extents) pfn (omega arith) in
      rw e (l ∙ b.0, omega (arith, b.0))
  populated-Ends left count p2m pfn (err e, w) b h = h
  populated-Ends left count p2m pfn (panic, w) b h = h

  super_batch-Ends :
      (left count : ℕ) (p2m : List ℕ) (pfn : ℕ) (w : W)
      → Gives
      → Room (512 * count + left) (p2m, pfn)
      → Ends (Room left) (super_batch populate domid count p2m pfn (super_starts count pfn p2m) w).0
  super_batch-Ends left count p2m pfn w g b =
      let (starts, e, l) = super_starts-some count pfn p2m (omega (arith, b.0, b.1)) in
      rw e (
        populated-Ends left count p2m pfn (populate domid count 9 0 starts w) b (
          subst (λ n. Ends (λ extents. length extents ≡ n) (populate domid count 9 0 starts w).0) l
            (g count 9 starts w)))

  populate_super-Ends :
      (fuel super_pages : ℕ) (s : List ℕ × ℕ) (w : W)
      → Gives
      → super_pages ≤ fuel
      → Room (512 * super_pages) s
      → Ends (Room 0) (populate_super populate domid fuel super_pages s w).0
  unfolding populate_super
  populate_super-Ends zero super_pages (p2m, pfn) w g h b = (b.0, omega (arith, b.1))
  populate_super-Ends (suc fuel) super_pages (p2m, pfn) w g h b =
      elim (Bool-cases (super_pages == 0)) [
        | inl e ↦ rw (e, populate_super) (b.0, omega (arith, b.1))
        | inr e ↦
            rw (e, populate_super)
              (continue_with-Ends (512 * (super_pages - min super_pages 512)) _ _
                (super_batch-Ends (512 * (super_pages - min super_pages 512)) (min super_pages 512)
                  p2m pfn w g (b.0, split e b.1))
                (λ s v k.
                  populate_super-Ends fuel (super_pages - min super_pages 512) s v g (fewer e) k))
      ]
    where
      split :
          (super_pages == 0) ≡ false
          → pfn + 512 * super_pages ≤ pages
          → pfn + (512 * min super_pages 512 + 512 * (super_pages - min super_pages 512)) ≤ pages
      split e k = ground arith

      fewer : (super_pages == 0) ≡ false → super_pages - min super_pages 512 ≤ fuel
      fewer e = ground arith

  small_populated-Ends :
      (left allocsz : ℕ) (p2m : List ℕ) (j : ℕ) (r : Outcome Error (List ℕ) × W)
      → Room (allocsz + left) (p2m, j)
      → Ends (λ result. length result ≡ allocsz) r.0
      → Ends (Advanced (j + allocsz)) (small_populated populate domid allocsz p2m j r).0
  small_populated-Ends left allocsz p2m j (ok result, w) b h =
      let (q, e, l) = overwrite_fits p2m result j (omega (arith, h, b.0, b.1)) in
      rw (same_size h, e) (l ∙ b.0, refl, omega (arith, b.1))
    where
      same_size : length result ≡ allocsz → (length result == allocsz) ≡ true
      same_size h = ground arith
  small_populated-Ends left allocsz p2m j (err e, w) b h = h
  small_populated-Ends left allocsz p2m j (panic, w) b h = h

  then_small-Ends :
      (k : ℕ) (f : List ℕ × ℕ → Action W Error (List ℕ × ℕ)) (r : Outcome Error (List ℕ × ℕ) × W)
      → Ends (Advanced k) r.0
      → ((s : List ℕ × ℕ) (w : W) → Advanced k s → Ends (Room 0) (f s w).0)
      → Ends (Room 0) (continue_with populate domid f r).0
  then_small-Ends k f (ok s, w) h g = g s w h
  then_small-Ends k f (err e, w) h g = h
  then_small-Ends k f (panic, w) h g = h

  populate_small-Ends :
      (fuel : ℕ) (s : List ℕ × ℕ) (w : W)
      → Gives
      → Room 0 s
      → Ends (Room 0) (populate_small populate domid fuel pages s w).0
  unfolding populate_small
  populate_small-Ends zero (p2m, j) w g b = b
  populate_small-Ends (suc fuel) (p2m, j) w g b = elim (Bool-cases (leb pages j)) [
    | inl e ↦ rw (e, populate_small) b
    | inr e ↦
        rw (e, populate_small)
          (then_small-Ends (j + min 1048576 (pages - j)) _ _
            (small_populated-Ends 0 (min 1048576 (pages - j)) p2m j
              (populate domid (min 1048576 (pages - j)) 0 0
                (take (min 1048576 (pages - j)) (drop j p2m)) w)
              (b.0, fits e)
              (subst
                (λ n.
                  Ends (λ result. length result ≡ n)
                    (populate domid (min 1048576 (pages - j)) 0 0
                      (take (min 1048576 (pages - j)) (drop j p2m)) w).0)
                (length-take (min 1048576 (pages - j)) (drop j p2m)
                  (omega (arith, length-drop j p2m, b.0, at_most)))
                (g (min 1048576 (pages - j)) 0 (take (min 1048576 (pages - j)) (drop j p2m)) w)))
            (λ s v k. populate_small-Ends fuel s v g (k.0, omega (arith, k.1, k.2, fits e))))
  ]
    where
      at_most : min 1048576 (pages - j) ≤ pages - j
      at_most = ground arith

      fits : leb pages j ≡ false → j + (min 1048576 (pages - j) + 0) ≤ pages
      fits e = ground arith

  only_p2m-Ends :
      (r : Outcome Error (List ℕ × ℕ) × W)
      → Ends (Room 0) r.0
      → Ends (λ p2m. length p2m ≡ pages) (only_p2m populate domid r).0
  only_p2m-Ends (ok (p2m, j), w) h = h.0
  only_p2m-Ends (err e, w) h = h
  only_p2m-Ends (panic, w) h = h

fill_p2m-Ends :
    {W : Type 0} (populate : (domid count order flags : ℕ) → List ℕ → Action W Error (List ℕ))
    (domid total_pages : ℕ) (w : W)
    → Gives populate domid total_pages
    → total_pages < 4503599627370496
    → Ends (λ p2m. length p2m ≡ total_pages) (fill_p2m populate domid total_pages w).0
unfolding fill_p2m
fill_p2m-Ends populate domid total_pages w g h =
    rw (whole, test, fill_p2m)
      (only_p2m-Ends populate domid total_pages _ (
        continue_with-Ends populate domid total_pages 0 _ _
          (populate_super-Ends populate domid total_pages (total_pages / 512) (total_pages / 512)
            (frames_of total_pages 0, 0) w g (omega arith)
            (length-frames_of total_pages 0, omega arith))
          (λ s v k. populate_small-Ends populate domid total_pages total_pages s v g k)))
  where
    whole : shr64 (shl64 total_pages 12) 12 ≡ total_pages
    whole = omega arith

    test : (total_pages == total_pages) ≡ true
    test = ground arith

-- With `XenCall`'s requests for frames, the filling of the list of a guest of less than 2^52 pages ends with a frame for
-- each page, or with an error of `XenCall`, which that of a short answer is too, whatever the hypervisor answers: it
-- does not panic, and no check of `initialize_memory` itself fails.
pub initialize_memory_filled :
    (H : Hypervisor) (domid total_pages : ℕ) (w : H.W)
    → total_pages < 4503599627370496
    → Ends (λ p2m. length p2m ≡ total_pages) (fill_p2m (xencall_populate H) domid total_pages w).0
initialize_memory_filled H domid total_pages w h =
    fill_p2m-Ends (xencall_populate H) domid total_pages w gives h
  where
    by_result :
        (starts : List ℕ) (r : Outcome Xencall.Error (List ℕ) × H.W)
        → AsManyAs starts r.0
        → Ends (λ extents. length extents ≡ length starts) (from_xencall r).0
    by_result starts (ok extents, v) a = a
    by_result starts (err e, v) a = (e, refl)
    by_result starts (panic, v) a = a

    gives : Gives (xencall_populate H) domid total_pages
    gives count order starts v =
        by_result starts _ (populate_physmap-AsManyAs H domid count order 0 starts v)
