-- ===== src/Xenclient/DiskName.antt =====
-- crates/xen/xenclient/src/util.rs: the name of a block device in the guest, by its index.
use krata.Prelude.{
  ℕ, zero, suc, ◌+◌, ◌-◌, ◌*◌, ◌/◌, ◌%◌, ◌≤◌, ◌<◌, ◌≡◌, refl, sym, ◌∙◌, ap, Bool, true, false,
  Option, none, some, List, [], ◌∷◌, ◌++◌, All, arith, ltb,
}
use krata.Prelude.Text.{bytes}

-- The letters from the last on. A letter is a `char`, so that `from_u32` does not fail.
unfoldable pub suffix : ℕ → ℕ → Option (List ℕ)
suffix zero n = none
suffix (suc fuel) n =
    let c = 97 + n % 26 in
    let rest = suffix fuel (n / 26 - 1) in
    elim (ltb n 26) [
      | true ↦ some (c ∷ [])
      | false ↦ elim rest [ none ↦ none | some cs ↦ some (c ∷ cs) ]
    ]

unfoldable pub reversed : List ℕ → List ℕ
reversed [] = []
reversed (c ∷ cs) = reversed cs ++ c ∷ []

-- `none` when the fuel does not suffice.
unfoldable pub disk_name : Option (List ℕ) → Option (List ℕ)
unfolding reversed
disk_name none = none
disk_name (some letters) = some (bytes "xvd" ++ reversed letters)

-- Each round but the last makes the index smaller.
unfoldable pub vbd_blkidx_to_disk_name : ℕ → Option (List ℕ)
unfolding suffix disk_name
vbd_blkidx_to_disk_name blkid = disk_name (suffix (blkid + 1) blkid)

-- The number that the letters stand for when they are read from the last on: a to z, then aa and so on.
unfoldable pub value : List ℕ → ℕ
value [] = 0
value (c ∷ []) = c - 97
value (c ∷ d ∷ cs) = c - 97 + 26 * (value (d ∷ cs) + 1)

-- The letters that `suffix` has found.
pub record Spells (n : ℕ) (letters : List ℕ) : Type 0 where
  pub letter : All (λ c. (97 ≤ c) × (c ≤ 122)) letters
  pub number : value letters ≡ n
  pub some_letter : (c : ℕ) × (cs : List ℕ) × (letters ≡ c ∷ cs)

value_more :
    (c : ℕ) (cs : List ℕ)
    → ((d : ℕ) × (ds : List ℕ) × (cs ≡ d ∷ ds))
    → value (c ∷ cs) ≡ c - 97 + 26 * (value cs + 1)
unfolding value
value_more c [] (d, ds, e) = absurd (cc e)
value_more c (x ∷ xs) k = refl

suffix_lem :
    (fuel n : ℕ) → n < fuel → (letters : List ℕ) × (suffix fuel n ≡ some letters) × Spells n letters
unfolding suffix value
suffix_lem zero n h = absurd (omega arith)
suffix_lem (suc fuel) n h = by_test _ refl (λ q. suffix_lem fuel (n / 26 - 1) q)
  where
    Rest : Type 0
    Rest =
        (letters : List ℕ) × (suffix fuel (n / 26 - 1) ≡ some letters) × Spells (n / 26 - 1) letters

    by_test :
        (b : Bool)
        → ltb n 26 ≡ b
        → (n / 26 - 1 < fuel → Rest)
        → (letters : List ℕ) × (suffix (suc fuel) n ≡ some letters) × Spells n letters
    by_test true e r = (
      (97 + n % 26) ∷ [],
      rw (e, suffix) refl,
      record {
        letter = ((omega arith, omega arith), tt);
        number = ground arith;
        some_letter = (97 + n % 26, [], refl);
      },
    )
    by_test false e r =
        let (cs, f, k) = r (ground arith) in
        (
          (97 + n % 26) ∷ cs,
          rw (e, f, suffix) refl,
          record {
            letter = ((omega arith, omega arith), k.letter);
            number =
                let v = value_more (97 + n % 26) cs k.some_letter in
                let w = k.number in ground arith;
            some_letter = (97 + n % 26, cs, refl);
          },
        )

-- The name of a disk is found for every index: xvd and letters that spell the index.
pub vbd_blkidx_to_disk_name_lem :
    (blkid : ℕ)
    → (letters : List ℕ) × (vbd_blkidx_to_disk_name blkid ≡ some (bytes "xvd" ++ reversed letters))
      × Spells blkid letters
unfolding vbd_blkidx_to_disk_name disk_name
vbd_blkidx_to_disk_name_lem blkid =
    let (letters, e, k) = suffix_lem (blkid + 1) blkid (omega arith) in (letters, ap disk_name e, k)

reversed-append : (xs : List ℕ) (c : ℕ) → reversed (xs ++ c ∷ []) ≡ c ∷ reversed xs
unfolding reversed
reversed-append [] c = refl
reversed-append (x ∷ xs) c = ap (λ t. t ++ x ∷ []) (reversed-append xs c)

reversed-reversed : (xs : List ℕ) → reversed (reversed xs) ≡ xs
unfolding reversed
reversed-reversed [] = refl
reversed-reversed (x ∷ xs) =
    reversed-append (reversed xs) x ∙ ap (λ t. x ∷ t) (reversed-reversed xs)

-- Disks of different indices have different names.
pub vbd_blkidx_to_disk_name-injective :
    (a b : ℕ) → vbd_blkidx_to_disk_name a ≡ vbd_blkidx_to_disk_name b → a ≡ b
vbd_blkidx_to_disk_name-injective a b e =
    let (xs, f, k) = vbd_blkidx_to_disk_name_lem a in
    let (ys, g, l) = vbd_blkidx_to_disk_name_lem b in
    let same : some (bytes "xvd" ++ reversed xs) ≡ some (bytes "xvd" ++ reversed ys) =
      sym f ∙ e ∙ g in
    let q : reversed xs ≡ reversed ys = cc same in
    let p : xs ≡ ys = sym (reversed-reversed xs) ∙ ap reversed q ∙ reversed-reversed ys in
    sym k.number ∙ ap value p ∙ l.number
