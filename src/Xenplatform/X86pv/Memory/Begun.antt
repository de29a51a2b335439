-- ===== src/Xenplatform/X86pv/Memory/Begun.antt =====
-- The list of frames while it is filled: of the first, up to an index, a property holds.
use krata.Prelude.{
  ℕ, zero, suc, ◌+◌, ◌-◌, ◌≤◌, ◌≡◌, refl, sym, ap, subst, ◌∙◌, some, List, [], ◌∷◌, ◌++◌, length,
  take, drop, All, All-append, length-append, arith, leb, inl, inr, Bool-cases,
}
use krata.Xenplatform.X86pv.Memory.{overwrite}

module _ {ℓ} {A : Type ℓ} where
  pub length-take : (n : ℕ) (xs : List A) → n ≤ length xs → length (take n xs) ≡ n
  length-take zero xs h = refl
  length-take (suc n) [] h = absurd (omega arith)
  length-take (suc n) (x ∷ xs) h = omega (arith, length-take n xs (omega arith))

  pub take_all : (n : ℕ) (xs : List A) → length xs ≤ n → take n xs ≡ xs
  take_all zero [] h = refl
  take_all zero (x ∷ xs) h = absurd (omega arith)
  take_all (suc n) [] h = refl
  take_all (suc n) (x ∷ xs) h = ap (λ k. x ∷ k) (take_all n xs (omega arith))

  pub length-drop : (n : ℕ) (xs : List A) → length (drop n xs) ≡ length xs - n
  length-drop zero xs = omega arith
  length-drop (suc n) [] = omega arith
  length-drop (suc n) (x ∷ xs) = omega (arith, length-drop n xs)

  pub take-two :
      (xs ys zs : List A) (n : ℕ) → n ≡ length xs + length ys → take n (xs ++ (ys ++ zs)) ≡ xs ++ ys
  take-two [] [] zs zero h = refl
  take-two [] [] zs (suc n) h = absurd (omega arith)
  take-two [] (y ∷ ys) zs zero h = absurd (omega arith)
  take-two [] (y ∷ ys) zs (suc n) h = ap (λ k. y ∷ k) (take-two [] ys zs n (omega arith))
  take-two (x ∷ xs) ys zs zero h = absurd (omega arith)
  take-two (x ∷ xs) ys zs (suc n) h = ap (λ k. x ∷ k) (take-two xs ys zs n (omega arith))

-- A list whose first `j` elements satisfy `P`.
pub record Begun (P : ℕ → Type 0) (n : ℕ) (s : List ℕ × ℕ) : Type 0 where
  pub whole : length s.0 ≡ n
  pub inside : s.1 ≤ n
  pub begun : All P (take s.1 s.0)

pub overwrite-some :
    (j : ℕ) (p2m q frames : List ℕ)
    → overwrite p2m j frames ≡ some q
    → (j + length frames ≤ length p2m)
      × (q ≡ take j p2m ++ (frames ++ drop (j + length frames) p2m))
unfolding overwrite
overwrite-some j p2m q frames e = elim (Bool-cases (leb (j + length frames) (length p2m))) [
  | inl t ↦ (ground arith, ground arith)
  | inr t ↦ absurd (ground arith)
]

pub overwrite-Begun :
    (P : ℕ → Type 0) (n j : ℕ) (p2m q frames : List ℕ)
    → Begun P n (p2m, j)
    → All P frames
    → overwrite p2m j frames ≡ some q
    → Begun P n (q, j + length frames)
overwrite-Begun P n j p2m q frames b h e =
    let (fits, same) = overwrite-some j p2m q frames e in
    subst (λ k. Begun P n (k, j + length frames)) (sym same) (written fits)
  where
    front : j + length frames ≤ length p2m → length (take j p2m) ≡ j
    front fits = length-take j p2m (omega arith)

    written :
        j + length frames ≤ length p2m
        → Begun P n (take j p2m ++ (frames ++ drop (j + length frames) p2m), j + length frames)
    written fits = record {
      whole =
          length-append (take j p2m) (frames ++ drop (j + length frames) p2m)
          ∙ omega (
            arith,
            front fits,
            length-append frames (drop (j + length frames) p2m),
            length-drop (j + length frames) p2m,
            b.whole,
          );
      inside = omega (arith, b.whole);
      begun =
          subst (All P)
            (sym (
              take-two (take j p2m) frames (drop (j + length frames) p2m) (j + length frames)
                (omega (arith, front fits))))
            (All-append P (take j p2m) frames b.begun h);
    }
