-- ===== src/Xengnt/Alloc.antt =====
-- `AllocGref`: the u16 words of an allocation request, and what is read from them after the ioctl.
use krata.Prelude.{
  ℕ, ◌+◌, ◌*◌, ◌/◌, ◌%◌, ◌^◌, ◌<◌, ◌≡◌, refl, ap, ◌∙◌, false, Option, none, some, List, [], ◌∷◌,
  arith, length, replicate, ltb, if◌then◌else◌, All,
}
use Prim.Native.Nat.{bit_or}
use krata.Prelude.Bits.{low-bit_or-high}

pub record AllocGref : Type 0 where
  pub domid : ℕ
  pub flags : ℕ
  pub count : ℕ

-- `(count << 16) as u16` and `count as u16`.
unfoldable pub write : AllocGref → List ℕ
write gref =
    gref.domid
    ∷ gref.flags
    ∷ (gref.count * 2 ^ 16 % 2 ^ 32 % 2 ^ 16)
    ∷ (gref.count % 2 ^ 16)
    ∷ 0
    ∷ 0
    ∷ 0
    ∷ 0
    ∷ replicate (gref.count * 2) 0

unfoldable pub refs_of : List ℕ → List ℕ
refs_of [] = []
refs_of (low ∷ []) = []
refs_of (low ∷ high ∷ words) = bit_or low (high * 2 ^ 16 % 2 ^ 32) ∷ refs_of words

abbrev pub index_and_refs : List ℕ → Option (ℕ × List ℕ)
index_and_refs (a ∷ b ∷ c ∷ d ∷ i0 ∷ i1 ∷ i2 ∷ i3 ∷ words) =
    some (bit_or (bit_or (bit_or i0 (i1 * 2 ^ 16)) (i2 * 2 ^ 32)) (i3 * 2 ^ 48), refs_of words)
index_and_refs words = none

unfoldable pub read : ℕ → List ℕ → Option (ℕ × List ℕ)
unfolding refs_of
read count values = if ltb (length values) (8 + count * 2) then none else index_and_refs values

-- The u32 count of the request, as the little-endian layout of `struct ioctl_gntalloc_alloc_gref` has it.
abbrev pub count_field : List ℕ → ℕ
count_field (a ∷ b ∷ low ∷ high ∷ words) = low + high * 65536
count_field words = 0

-- The count that stands in a request is 65536 times the low half of the one that was asked for: 0 stands
-- where the low half belongs, and the low half where the high half does.
pub count_field-write : (gref : AllocGref) → count_field (write gref) ≡ gref.count % 65536 * 65536
unfolding write
count_field-write gref = omega arith

-- What the kernel writes for the references, a u32 in two halves each.
pub halves_of : List ℕ → List ℕ
halves_of [] = []
halves_of (r ∷ rs) = (r % 65536) ∷ (r / 65536) ∷ halves_of rs

length-halves_of : (rs : List ℕ) → length (halves_of rs) ≡ length rs * 2
unfolding halves_of
length-halves_of [] = refl
length-halves_of (r ∷ rs) = omega (arith, length-halves_of rs)

refs_of-halves_of : (rs : List ℕ) → All (λ r. r < 4294967296) rs → refs_of (halves_of rs) ≡ rs
unfolding refs_of halves_of
refs_of-halves_of [] h = refl
refs_of-halves_of (r ∷ rs) (h, hs) = rw (refs_of-halves_of rs hs, whole)
  where
    whole : bit_or (r % 65536) (r / 65536 * 2 ^ 16 % 2 ^ 32) ≡ r
    whole =
        let e : r / 65536 * 2 ^ 16 % 2 ^ 32 ≡ r / 65536 * 2 ^ 16 = omega arith in
        ap (bit_or (r % 65536)) e
        ∙ low-bit_or-high 16 (r % 65536) (r / 65536) (omega arith)
        ∙ omega arith

-- `read` gives the index, of u16 words, and the u32 references of a request that the kernel has
-- filled in.
pub read-halves_of :
    (d f c0 c1 i0 i1 i2 i3 : ℕ) (rs : List ℕ)
    → i0 < 65536
    → i1 < 65536
    → i2 < 65536
    → All (λ r. r < 4294967296) rs
    → read (length rs) (d ∷ f ∷ c0 ∷ c1 ∷ i0 ∷ i1 ∷ i2 ∷ i3 ∷ halves_of rs)
      ≡ some (i0 + i1 * 65536 + i2 * 4294967296 + i3 * 281474976710656, rs)
unfolding read
read-halves_of d f c0 c1 i0 i1 i2 i3 rs h0 h1 h2 h =
    ap
      (λ t. if t then none else index_and_refs (d ∷ f ∷ c0 ∷ c1 ∷ i0 ∷ i1 ∷ i2 ∷ i3 ∷ halves_of rs))
      enough
    ∙ ap (λ k. some (bit_or (bit_or (bit_or i0 (i1 * 2 ^ 16)) (i2 * 2 ^ 32)) (i3 * 2 ^ 48), k))
        (refs_of-halves_of rs h)
    ∙ ap (λ k. some (k, rs)) index
  where
    enough :
        ltb (length (d ∷ f ∷ c0 ∷ c1 ∷ i0 ∷ i1 ∷ i2 ∷ i3 ∷ halves_of rs)) (8 + length rs * 2)
        ≡ false
    enough = ground (arith, length-halves_of rs)

    index :
        bit_or (bit_or (bit_or i0 (i1 * 2 ^ 16)) (i2 * 2 ^ 32)) (i3 * 2 ^ 48)
        ≡ i0 + i1 * 65536 + i2 * 4294967296 + i3 * 281474976710656
    index =
        ap (λ k. bit_or (bit_or k (i2 * 2 ^ 32)) (i3 * 2 ^ 48))
          (low-bit_or-high 16 i0 i1 (omega arith))
        ∙ ap (λ k. bit_or k (i3 * 2 ^ 48)) (low-bit_or-high 32 (i0 + i1 * 2 ^ 16) i2 (omega arith))
        ∙ low-bit_or-high 48 (i0 + i1 * 2 ^ 16 + i2 * 2 ^ 32) i3 (omega arith)
        ∙ omega arith
