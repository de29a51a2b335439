-- ===== src/Xengnt/Map.antt =====
-- `MapGrantRef`: the u32 words of a map request, and what is read from them after the ioctl.
use krata.Prelude.{
  ℕ, zero, suc, ◌+◌, ◌*◌, ◌%◌, ◌^◌, ◌≤◌, ◌<◌, ◌≡◌, refl, ap, ◌∙◌, false, Option, none, some, List,
  [], ◌∷◌, arith, length, get_elem?, set, ltb, if◌then◌else◌, ◌⊎◌, inl, inr, Bool-cases,
}
use Prim.Native.Nat.{bit_or}
use krata.Prelude.Bits.{low-bit_or-high}

pub record GrantRef : Type 0 where
  pub domid : ℕ
  pub reference : ℕ

pub record MapGrantRef : Type 0 where
  pub count : ℕ
  pub pad : ℕ
  pub index : ℕ
  pub refs : List GrantRef

unfoldable pub words_of : List GrantRef → List ℕ
words_of [] = []
words_of (r ∷ rs) = r.domid ∷ r.reference ∷ words_of rs

unfoldable pub write : List GrantRef → List ℕ
unfolding words_of
write slice = length slice % 2 ^ 32 ∷ 0 ∷ 0 ∷ 0 ∷ words_of slice

-- The pairs of words; a last word without a second is left out.
unfoldable pub refs_of : List ℕ → List GrantRef
refs_of [] = []
refs_of (domid ∷ []) = []
refs_of (domid ∷ reference ∷ words) =
    record { domid = domid; reference = reference } ∷ refs_of words

abbrev pub tail_of : List ℕ → List ℕ
tail_of (a ∷ b ∷ c ∷ d ∷ words) = words
tail_of words = []

abbrev pub with_index : ℕ → List GrantRef → Option ℕ → Option ℕ → Option MapGrantRef
with_index count refs (some low) (some high) =
    some
      (record { count = count; pad = 0; index = bit_or low (high * 2 ^ 32 % 2 ^ 64); refs = refs })
with_index count refs (some low) none = none
with_index count refs none high = none

unfoldable pub read : ℕ → List ℕ → Option MapGrantRef
unfolding refs_of
read count values =
    if ltb (length values) (4 + count * 2)
    then none
    else with_index count (refs_of (tail_of values)) (get_elem? values 2) (get_elem? values 3)

refs_of-words_of : (rs : List GrantRef) → refs_of (words_of rs) ≡ rs
unfolding refs_of words_of
refs_of-words_of [] = refl
refs_of-words_of (r ∷ rs) = ap (λ k. r ∷ k) (refs_of-words_of rs)

length-words_of : (rs : List GrantRef) → length (words_of rs) ≡ length rs * 2
unfolding words_of
length-words_of [] = refl
length-words_of (r ∷ rs) = omega (arith, length-words_of rs)

read_whole :
    (count a b c d : ℕ) (words : List ℕ)
    → ltb (length (a ∷ b ∷ c ∷ d ∷ words)) (4 + count * 2) ≡ false
    → read count (a ∷ b ∷ c ∷ d ∷ words) ≡ with_index count (refs_of words) (some c) (some d)
unfolding read
read_whole count a b c d words e =
    ap (λ t. if t then none else with_index count (refs_of words) (some c) (some d)) e

-- Once the ioctl has filled in the two u32 words of the index in a request that `write` made,
-- `read` gives that index and the same references.
pub read-write_refs :
    (slice : List GrantRef) (low high : ℕ)
    → low < 4294967296
    → high < 4294967296
    → read (length slice) (set (set (write slice) 2 low) 3 high)
      ≡ some
          (record { count = length slice; pad = 0; index = low + high * 4294967296; refs = slice })
unfolding write
read-write_refs slice low high hl hh =
    read_whole (length slice) (length slice % 2 ^ 32) 0 low high (words_of slice) enough
    ∙ ap (λ rs. with_index (length slice) rs (some low) (some high)) (refs_of-words_of slice)
    ∙ ap (λ i. some (record { count = length slice; pad = 0; index = i; refs = slice })) index
  where
    enough :
        ltb
          (length (length slice % 2 ^ 32 ∷ 0 ∷ low ∷ high ∷ words_of slice))
          (4 + length slice * 2)
        ≡ false
    enough = ground (arith, length-words_of slice)

    index : bit_or low (high * 2 ^ 32 % 2 ^ 64) ≡ low + high * 4294967296
    index =
        let e : high * 2 ^ 32 % 2 ^ 64 ≡ high * 2 ^ 32 = omega arith in
        ap (bit_or low) e ∙ low-bit_or-high 32 low high hl

length-refs_of : (n : ℕ) (ws : List ℕ) → n * 2 ≤ length ws → n ≤ length (refs_of ws)
unfolding refs_of
length-refs_of zero ws h = omega arith
length-refs_of (suc n) [] h = absurd (omega arith)
length-refs_of (suc n) (a ∷ []) h = absurd (omega arith)
length-refs_of (suc n) (a ∷ b ∷ ws) h = omega (arith, length-refs_of n ws (omega arith))

-- Words too few for `count` references are refused, and any others give at least so many.
pub read_lem :
    (count : ℕ) (values : List ℕ)
    → ((length values < 4 + count * 2) × (read count values ≡ none))
      ⊎ ((m : MapGrantRef) × (read count values ≡ some m) × (count ≤ length m.refs))
unfolding read
read_lem count values = elim (Bool-cases (ltb (length values) (4 + count * 2))) [
  | inl e ↦ inl (ground arith, rw (e, read) refl)
  | inr e ↦ inr (long values e)
]
  where
    long :
        (ws : List ℕ)
        → ltb (length ws) (4 + count * 2) ≡ false
        → (m : MapGrantRef) × (read count ws ≡ some m) × (count ≤ length m.refs)
    long (a ∷ b ∷ c ∷ d ∷ ws) e =
        (_, read_whole count a b c d ws e, length-refs_of count ws (ground arith))
    long [] e = absurd (ground arith)
    long (a ∷ []) e = absurd (ground arith)
    long (a ∷ b ∷ []) e = absurd (ground arith)
    long (a ∷ b ∷ c ∷ []) e = absurd (ground arith)
