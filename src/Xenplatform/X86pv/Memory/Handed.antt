-- ===== src/Xenplatform/X86pv/Memory/Handed.antt =====
-- Every frame of the guest's list is one that the hypervisor has handed out.
use krata.Prelude.{
  All-append, ℕ, zero, suc, ◌+◌, ◌-◌, ◌/◌, ◌%◌, ◌^◌, ◌≤◌, ◌<◌, ◌≡◌, refl, sym, ap, subst, ◌∙◌, Bool,
  true, false, Option, none, some, List, [], ◌∷◌, length, take, drop, All, All-map, arith, leb,
  ◌==◌, Outcome, ok, err, panic, inl, inr, Bool-cases,
}
use krata.Prelude.Effect.{Action}
use krata.Xenplatform.Sys.{Error, shl64, shr64}
use krata.Xenplatform.X86pv.Memory.{
  min, frames_of, super_frames, overwrite, recorded, populated, super_batch, continue_with,
  populate_super, small_recorded, small_populated, populate_small, only_p2m, fill_p2m,
}
use krata.Xenplatform.X86pv.Memory.Begun.{take_all, Begun, overwrite-Begun}

module _ {W : Type 0}
    (populate_physmap : (domid count order flags : ℕ) → List ℕ → Action W Error (List ℕ))
    (domid : ℕ) (Good : ℕ → ℕ → Type 0) where
  -- Whatever the hypervisor answers, for pages of `2 ^ order` frames, is good.
  abbrev pub Answers : Type 0
  Answers =
      (count order : ℕ) (starts extents : List ℕ) (w w' : W)
      → populate_physmap domid count order 0 starts w ≡ (ok extents, w')
      → All (Good order) extents

  -- A single frame that was answered, or one of the 512 of a superpage.
  pub data Handed (mfn : ℕ) : Type 0 where
    single : Good 0 mfn → Handed mfn
    part :
        (base k : ℕ) → Good 9 base → k < 512 → mfn ≡ (base + k) % 18446744073709551616 → Handed mfn

  frames_of-Handed :
      (n mfn base k : ℕ) → Good 9 base → mfn ≡ base + k → k + n ≤ 512 → All Handed (frames_of n mfn)
  unfolding frames_of
  frames_of-Handed zero mfn base k g e h = tt
  frames_of-Handed (suc n) mfn base k g e h = (
    part base k g (omega arith) (omega arith),
    frames_of-Handed n (mfn + 1) base (k + 1) g (omega arith) (omega arith),
  )

  super_frames-Handed :
      (extents : List ℕ) → All (Good 9) extents → All Handed (super_frames extents)
  unfolding super_frames
  super_frames-Handed [] h = tt
  super_frames-Handed (mfn ∷ extents) h =
      All-append Handed (frames_of 512 mfn) (super_frames extents)
        (frames_of-Handed 512 mfn mfn 0 h.0 (omega arith) (omega arith))
        (super_frames-Handed extents h.1)

  -- What a call leaves if it succeeds.
  abbrev Leaves : ℕ → Outcome Error (List ℕ × ℕ) × W → Type 0
  Leaves n (ok f, w) = Begun Handed n f
  Leaves n (err e, w) = Unit {0}
  Leaves n (panic, w) = Unit {0}

  recorded-Leaves :
      (n pfn : ℕ) (p2m extents : List ℕ) (w : W) (o : Option (List ℕ))
      → Begun Handed n (p2m, pfn)
      → All (Good 9) extents
      → overwrite p2m pfn (super_frames extents) ≡ o
      → Leaves n (recorded populate_physmap domid pfn extents o w)
  recorded-Leaves n pfn p2m extents w none b h e = tt
  recorded-Leaves n pfn p2m extents w (some q) b h e =
      overwrite-Begun Handed n pfn p2m q (super_frames extents) b (super_frames-Handed extents h) e

  populated-Leaves :
      (n pfn : ℕ) (p2m : List ℕ) (s : Outcome Error (List ℕ) × W)
      → Begun Handed n (p2m, pfn)
      → ((extents : List ℕ) (w : W) → s ≡ (ok extents, w) → All (Good 9) extents)
      → Leaves n (populated populate_physmap domid p2m pfn s)
  populated-Leaves n pfn p2m (ok extents, w) b h =
      recorded-Leaves n pfn p2m extents w _ b (h extents w refl) refl
  populated-Leaves n pfn p2m (err e, w) b h = tt
  populated-Leaves n pfn p2m (panic, w) b h = tt

  super_batch-Leaves :
      (n count pfn : ℕ) (p2m : List ℕ) (o : Option (List ℕ)) (w : W)
      → Answers
      → Begun Handed n (p2m, pfn)
      → Leaves n (super_batch populate_physmap domid count p2m pfn o w)
  super_batch-Leaves n count pfn p2m none w a b = tt
  super_batch-Leaves n count pfn p2m (some starts) w a b =
      populated-Leaves n pfn p2m _ b (λ extents w' e. a count 9 starts extents w w' e)

  continue_with-Leaves :
      (n : ℕ) (f : List ℕ × ℕ → Action W Error (List ℕ × ℕ)) (s : Outcome Error (List ℕ × ℕ) × W)
      → ((g : List ℕ × ℕ) (w : W) → Begun Handed n g → Leaves n (f g w))
      → Leaves n s
      → Leaves n (continue_with populate_physmap domid f s)
  continue_with-Leaves n f (ok g, w) h b = h g w b
  continue_with-Leaves n f (err e, w) h b = tt
  continue_with-Leaves n f (panic, w) h b = tt

  populate_super-Leaves :
      (n fuel super_pages : ℕ) (s : List ℕ × ℕ) (w : W)
      → Answers
      → Begun Handed n s
      → Leaves n (populate_super populate_physmap domid fuel super_pages s w)
  unfolding populate_super
  populate_super-Leaves n zero super_pages s w a b = b
  populate_super-Leaves n (suc fuel) super_pages (p2m, pfn) w a b =
      elim (Bool-cases (super_pages == 0)) [
        | inl e ↦ rw (e, populate_super) b
        | inr e ↦
            rw (e, populate_super)
              (continue_with-Leaves n _ _
                (λ g v k. populate_super-Leaves n fuel (super_pages - min super_pages 512) g v a k)
                (super_batch-Leaves n (min super_pages 512) pfn p2m _ w a b))
      ]

  small_recorded-Leaves :
      (n j : ℕ) (p2m result : List ℕ) (w : W) (o : Option (List ℕ))
      → Begun Handed n (p2m, j)
      → All Handed result
      → overwrite p2m j result ≡ o
      → Leaves n (small_recorded populate_physmap domid o (j + length result) w)
  small_recorded-Leaves n j p2m result w none b h e = tt
  small_recorded-Leaves n j p2m result w (some q) b h e =
      overwrite-Begun Handed n j p2m q result b h e

  -- The next index is behind as many pages as were asked for.
  abbrev Advances : ℕ → Outcome Error (List ℕ × ℕ) × W → Type 0
  Advances k (ok f, w) = k ≤ f.1
  Advances k (err e, w) = Unit {0}
  Advances k (panic, w) = Unit {0}

  small_recorded-Advances :
      (k j : ℕ) (w : W) (o : Option (List ℕ))
      → k ≤ j
      → Advances k (small_recorded populate_physmap domid o j w)
  small_recorded-Advances k j w none h = tt
  small_recorded-Advances k j w (some q) h = h

  small_populated-Leaves :
      (n allocsz j : ℕ) (p2m : List ℕ) (s : Outcome Error (List ℕ) × W)
      → Begun Handed n (p2m, j)
      → ((result : List ℕ) (w : W) → s ≡ (ok result, w) → All (Good 0) result)
      → Leaves n (small_populated populate_physmap domid allocsz p2m j s)
        × Advances (j + allocsz) (small_populated populate_physmap domid allocsz p2m j s)
  small_populated-Leaves n allocsz j p2m (ok result, w) b h =
      elim (Bool-cases (length result == allocsz)) [
        | inl e ↦ rw e (
          subst
              (λ k.
                Leaves n (small_recorded populate_physmap domid (overwrite p2m j result) (j + k) w))
              (same e)
              (small_recorded-Leaves n j p2m result w _ b
                (All-map result (λ m g. single g) (h result w refl)) refl),
          small_recorded-Advances (j + allocsz) (j + allocsz) w (overwrite p2m j result)
              (omega arith),
        )
        | inr e ↦ rw e (tt, tt)
      ]
    where
      same : (length result == allocsz) ≡ true → length result ≡ allocsz
      same e = ground arith
  small_populated-Leaves n allocsz j p2m (err e, w) b h = (tt, tt)
  small_populated-Leaves n allocsz j p2m (panic, w) b h = (tt, tt)

  -- The loop ends with every page populated.
  abbrev Completes : ℕ → ℕ → Outcome Error (List ℕ × ℕ) × W → Type 0
  Completes n pages s = Leaves n s × Advances pages s

  continue_with-Completes :
      (n pages k : ℕ) (f : List ℕ × ℕ → Action W Error (List ℕ × ℕ))
      (s : Outcome Error (List ℕ × ℕ) × W)
      → ((g : List ℕ × ℕ) (w : W) → Begun Handed n g → k ≤ g.1 → Completes n pages (f g w))
      → Leaves n s
      → Advances k s
      → Completes n pages (continue_with populate_physmap domid f s)
  continue_with-Completes n pages k f (ok g, w) h b a = h g w b a
  continue_with-Completes n pages k f (err e, w) h b a = (tt, tt)
  continue_with-Completes n pages k f (panic, w) h b a = (tt, tt)

  populate_small-Completes :
      (n fuel pages : ℕ) (s : List ℕ × ℕ) (w : W)
      → Answers
      → Begun Handed n s
      → pages ≤ fuel + s.1
      → Completes n pages (populate_small populate_physmap domid fuel pages s w)
  unfolding populate_small
  populate_small-Completes n zero pages s w a b h = (b, omega arith)
  populate_small-Completes n (suc fuel) pages (p2m, j) w a b h = elim (Bool-cases (leb pages j)) [
    | inl e ↦ rw (e, populate_small) (b, ground arith)
    | inr e ↦
        let (l, v) =
          small_populated-Leaves n (min 1048576 (pages - j)) j p2m
            (populate_physmap domid (min 1048576 (pages - j)) 0 0
              (take (min 1048576 (pages - j)) (drop j p2m)) w)
            b
            (λ result w' q.
              a (min 1048576 (pages - j)) 0 (take (min 1048576 (pages - j)) (drop j p2m)) result w
                w' q) in
        rw (e, populate_small)
          (continue_with-Completes n pages (j + min 1048576 (pages - j)) _ _
            (λ g u k m. populate_small-Completes n fuel pages g u a k (ground arith)) l v)
  ]

  length-frames_of : (k mfn : ℕ) → length (frames_of k mfn) ≡ k
  unfolding frames_of
  length-frames_of zero mfn = refl
  length-frames_of (suc k) mfn = omega (arith, length-frames_of k (mfn + 1))

  finished :
      (n : ℕ) (s : Outcome Error (List ℕ × ℕ) × W) (p2m : List ℕ) (w' : W)
      → Completes n n s
      → only_p2m populate_physmap domid s ≡ (ok p2m, w')
      → (length p2m ≡ n) × All Handed p2m
  finished n (ok (q, j), w) p2m w' (b, a) e =
      let same : q ≡ p2m = first (ok q) refl (ap (λ k. k.0) e) in
      subst (λ k. (length k ≡ n) × All Handed k) same
        (b.whole, subst (All Handed) (take_all j q (omega (arith, b.whole, b.inside))) b.begun)
    where
      first : (r : Outcome Error (List ℕ)) → r ≡ ok q → r ≡ ok p2m → q ≡ p2m
      first r x y = cc
  finished n (err x, w) p2m w' c e = let h = ap (λ k. k.0) e in absurd (cc h)
  finished n (panic, w) p2m w' c e = let h = ap (λ k. k.0) e in absurd (cc h)

  -- If all frames that the hypervisor answers are good, the list that initialize_memory records
  -- has one frame for each page of the guest, and each is a frame that was answered, alone or as a
  -- part of a superpage: no placeholder is left.
  pub fill_p2m-Handed :
      (total_pages : ℕ) (p2m : List ℕ) (w w' : W)
      → Answers
      → fill_p2m populate_physmap domid total_pages w ≡ (ok p2m, w')
      → (length p2m ≡ total_pages) × All Handed p2m
  unfolding fill_p2m
  fill_p2m-Handed total_pages p2m w w' a e = by_test _ refl
    where
      pages : ℕ
      pages = shr64 (shl64 total_pages 12) 12

      -- The two loops, one after the other.
      loops : Outcome Error (List ℕ × ℕ) × W
      loops =
          continue_with populate_physmap domid (populate_small populate_physmap domid pages pages) (
            populate_super populate_physmap domid (pages / 2 ^ 9) (pages / 2 ^ 9)
              (frames_of pages 0, 0) w)

      complete : Completes pages pages loops
      complete =
          continue_with-Completes pages pages 0 _ _
            (λ g u b k. populate_small-Completes pages pages pages g u a b (omega arith))
            (populate_super-Leaves pages (pages / 2 ^ 9) (pages / 2 ^ 9) (frames_of pages 0, 0) w a
              (record { whole = length-frames_of pages 0; inside = omega arith; begun = tt }))
            (at_least_0 (
              populate_super populate_physmap domid (pages / 2 ^ 9) (pages / 2 ^ 9)
                (frames_of pages 0, 0) w))
        where
          at_least_0 : (s : Outcome Error (List ℕ × ℕ) × W) → Advances 0 s
          at_least_0 (ok f, w) = omega arith
          at_least_0 (err e, w) = tt
          at_least_0 (panic, w) = tt

      ended :
          (shr64 (shl64 total_pages 12) 12 == total_pages) ≡ true
          → only_p2m populate_physmap domid loops ≡ (ok p2m, w')
      ended t = sym (rw (t, fill_p2m) refl) ∙ e

      refused :
          (shr64 (shl64 total_pages 12) 12 == total_pages) ≡ false
          → (fill_p2m populate_physmap domid total_pages w).0
            ≡ err (Error.memory_setup_failed "total pages mismatch")
      refused t = rw (t, fill_p2m) refl

      clash : (r : Outcome Error (List ℕ)) (x : Error) → r ≡ err x → r ≡ ok p2m → ⊥
      clash r x h k = cc

      by_test :
          (b : Bool)
          → (shr64 (shl64 total_pages 12) 12 == total_pages) ≡ b
          → (length p2m ≡ total_pages) × All Handed p2m
      by_test true t =
          let all : pages ≡ total_pages = ground arith in
          subst (λ k. (length p2m ≡ k) × All Handed p2m) all
            (finished pages loops p2m w' complete (ended t))
      by_test false t = absurd (clash _ _ (refused t) (ap (λ k. k.0) e))
