-- ===== src/Xenclient/DevAlloc/BitVec.antt =====
-- What devalloc.rs uses of the crate `bit_vec`, with the laws that its documentation gives, and
-- bits as a function below a length, which meet them.
use krata.Prelude.{
  ℕ, zero, suc, ◌+◌, ◌-◌, ◌*◌, ◌/◌, ◌%◌, ◌^◌, ◌≤◌, ◌<◌, ◌≡◌, ◌≢◌, refl, ap, ◌∙◌, Bool, true, false,
  Option, none, some, List, [], ◌∷◌, length, get_elem?, if◌then◌else◌, ◌==◌, ltb, arith, lt→ltb,
}

-- The bit of weight `2 ^ k`.
abbrev pub test_bit : ℕ → ℕ → Bool
test_bit b k = b / 2 ^ k % 2 == 1

abbrev pub zeros_below : ℕ → (ℕ → Option Bool) → ℕ
zeros_below zero bits = 0
zeros_below (suc n) bits =
    let rest = zeros_below n bits in elim (bits n) [ some false ↦ suc rest | _ ↦ rest ]

pub record BitVecApi : Type 1 where
  pub BitVec : Type 0
  pub len : BitVec → ℕ
  pub from_elem : ℕ → Bool → BitVec
  pub get : BitVec → ℕ → Option Bool
  -- `none` is the panic on an index out of range.
  pub set : BitVec → ℕ → Bool → Option BitVec
  pub count_zeros : BitVec → ℕ
  pub to_bytes : BitVec → List ℕ
  pub from_bytes : List ℕ → BitVec
  pub len-from_elem : (n : ℕ) (b : Bool) → len (from_elem n b) ≡ n
  pub get-from_elem : (n i : ℕ) (b : Bool) → i < n → get (from_elem n b) i ≡ some b
  pub get_inside : (v : BitVec) (i : ℕ) → i < len v → (b : Bool) × (get v i ≡ some b)
  pub get_outside : (v : BitVec) (i : ℕ) → len v ≤ i → get v i ≡ none
  pub set_inside :
      (v : BitVec) (i : ℕ) (b : Bool)
      → i < len v
      → (w : BitVec) × (set v i b ≡ some w)
        × (len w ≡ len v)
        × (get w i ≡ some b)
        × ((j : ℕ) → j ≢ i → get w j ≡ get v j)
  pub set_outside : (v : BitVec) (i : ℕ) (b : Bool) → len v ≤ i → set v i b ≡ none
  pub count_zeros_lem : (v : BitVec) → count_zeros v ≡ zeros_below (len v) (get v)
  -- Eight bits to a byte, the bit of highest weight first.
  pub len-from_bytes : (bs : List ℕ) → len (from_bytes bs) ≡ length bs * 8
  pub get-from_bytes :
      (bs : List ℕ) (i b : ℕ)
      → get_elem? bs (i / 8) ≡ some b
      → get (from_bytes bs) i ≡ some (test_bit b (7 - i % 8))
  pub length-to_bytes : (v : BitVec) (n : ℕ) → len v ≡ n * 8 → length (to_bytes v) ≡ n
  pub get_elem?-to_bytes :
      (v : BitVec) (i : ℕ)
      → len v % 8 ≡ 0
      → i < len v
      → (b : ℕ) × (get_elem? (to_bytes v) (i / 8) ≡ some b)
        × (get v i ≡ some (test_bit b (7 - i % 8)))

pub record Bits : Type 0 where
  pub size : ℕ
  pub bit : ℕ → Bool

abbrev pub weight : Bool → ℕ
weight true = 1
weight false = 0

-- Horner's rule over the `n` bits from `i` on.
unfoldable pub byte_at : (ℕ → Bool) → ℕ → ℕ → ℕ
byte_at bit i zero = 0
byte_at bit i (suc n) = byte_at bit i n * 2 + weight (bit (i + n))

unfoldable pub bytes_from : ℕ → ℕ → (ℕ → Bool) → List ℕ
bytes_from zero i bit = []
bytes_from (suc n) i bit = byte_at bit i 8 ∷ bytes_from n (i + 8) bit

length-bytes_from : (n i : ℕ) (bit : ℕ → Bool) → length (bytes_from n i bit) ≡ n
unfolding bytes_from
length-bytes_from zero i bit = refl
length-bytes_from (suc n) i bit = omega (arith, length-bytes_from n (i + 8) bit)

get_elem?-bytes_from :
    (n i j : ℕ) (bit : ℕ → Bool)
    → j < n
    → get_elem? (bytes_from n i bit) j ≡ some (byte_at bit (i + j * 8) 8)
unfolding bytes_from
get_elem?-bytes_from zero i j bit h = absurd (omega arith)
get_elem?-bytes_from (suc n) i zero bit h = ap (λ t. some (byte_at bit t 8)) (omega arith)
get_elem?-bytes_from (suc n) i (suc j) bit h =
    get_elem?-bytes_from n (i + 8) j bit (omega arith)
    ∙ ap (λ t. some (byte_at bit t 8)) (omega arith)

weight-le : (b : Bool) → weight b ≤ 1
weight-le true = omega arith
weight-le false = omega arith

weight_test : (b : Bool) (n : ℕ) → n ≡ weight b → (n == 1) ≡ b
weight_test true n h = ground arith
weight_test false n h = ground arith

test_bit-byte_at :
    (bit : ℕ → Bool) (i k : ℕ) → k < 8 → test_bit (byte_at bit i 8) (7 - k) ≡ bit (i + k)
unfolding byte_at
test_bit-byte_at bit i zero h = weight_test (bit (i + 0)) _ (omega (arith, weight-le))
test_bit-byte_at bit i (suc zero) h = weight_test (bit (i + 1)) _ (omega (arith, weight-le))
test_bit-byte_at bit i (suc (suc zero)) h = weight_test (bit (i + 2)) _ (omega (arith, weight-le))
test_bit-byte_at bit i (suc (suc (suc zero))) h =
    weight_test (bit (i + 3)) _ (omega (arith, weight-le))
test_bit-byte_at bit i (suc (suc (suc (suc zero)))) h =
    weight_test (bit (i + 4)) _ (omega (arith, weight-le))
test_bit-byte_at bit i (suc (suc (suc (suc (suc zero))))) h =
    weight_test (bit (i + 5)) _ (omega (arith, weight-le))
test_bit-byte_at bit i (suc (suc (suc (suc (suc (suc zero)))))) h =
    weight_test (bit (i + 6)) _ (omega (arith, weight-le))
test_bit-byte_at bit i (suc (suc (suc (suc (suc (suc (suc zero))))))) h =
    weight_test (bit (i + 7)) _ (omega (arith, weight-le))
test_bit-byte_at bit i (suc (suc (suc (suc (suc (suc (suc (suc n)))))))) h = absurd (omega arith)

zeros_below-replicate : (n : ℕ) → zeros_below n (λ _. some false) ≡ n
zeros_below-replicate zero = refl
zeros_below-replicate (suc n) = ap suc (zeros_below-replicate n)

lt_of_get_elem? : (bs : List ℕ) (j b : ℕ) → get_elem? bs j ≡ some b → j < length bs
lt_of_get_elem? [] j b e = cc
lt_of_get_elem? (x ∷ bs) zero b e = omega arith
lt_of_get_elem? (x ∷ bs) (suc j) b e = omega (arith, lt_of_get_elem? bs j b e)

unfoldable pub get : Bits → ℕ → Option Bool
get v i = if ltb i v.size then some (v.bit i) else none

unfoldable pub set : Bits → ℕ → Bool → Option Bits
set v i b =
    if ltb i v.size then some (record v { bit = λ j. if j == i then b else v.bit j }) else none

unfoldable pub from_bytes : List ℕ → Bits
from_bytes bs = record {
  size = length bs * 8;
  bit = λ i. elim (get_elem? bs (i / 8)) [ none ↦ false | some b ↦ test_bit b (7 - i % 8) ];
}

unfoldable pub to_bytes : Bits → List ℕ
to_bytes v = bytes_from (v.size / 8) 0 v.bit

pub set_inside :
    (v : Bits) (i : ℕ) (b : Bool)
    → i < v.size
    → (w : Bits) × (set v i b ≡ some w)
      × (w.size ≡ v.size)
      × (get w i ≡ some b)
      × ((j : ℕ) → j ≢ i → get w j ≡ get v j)
unfolding set get
set_inside v i b h = (
  record v { bit = λ j. if j == i then b else v.bit j },
  ground arith,
  refl,
  ground arith,
  λ j ne. ground arith,
)

pub get-from_bytes :
    (bs : List ℕ) (i b : ℕ)
    → get_elem? bs (i / 8) ≡ some b
    → get (from_bytes bs) i ≡ some (test_bit b (7 - i % 8))
unfolding get from_bytes
get-from_bytes bs i b e = ground (arith, lt_of_get_elem? bs (i / 8) b e)

pub get_elem?-to_bytes :
    (v : Bits) (i : ℕ)
    → v.size % 8 ≡ 0
    → i < v.size
    → (b : ℕ) × (get_elem? (to_bytes v) (i / 8) ≡ some b)
      × (get v i ≡ some (test_bit b (7 - i % 8)))
unfolding get to_bytes
get_elem?-to_bytes v i whole h = (
  byte_at v.bit (0 + i / 8 * 8) 8,
  get_elem?-bytes_from (v.size / 8) 0 (i / 8) v.bit (omega arith),
  rw (lt→ltb i v.size h, test_bit-byte_at v.bit (0 + i / 8 * 8) (i % 8) (omega arith))
      (ap (λ t. some (v.bit t)) (omega arith)),
)

pub length-to_bytes : (v : Bits) (n : ℕ) → v.size ≡ n * 8 → length (to_bytes v) ≡ n
unfolding to_bytes
length-to_bytes v n e = length-bytes_from (v.size / 8) 0 v.bit ∙ omega arith

pub get_inside : (v : Bits) (i : ℕ) → i < v.size → (b : Bool) × (get v i ≡ some b)
unfolding get
get_inside v i h = (v.bit i, ground arith)

pub get_outside : (v : Bits) (i : ℕ) → v.size ≤ i → get v i ≡ none
unfolding get
get_outside v i h = ground arith

pub set_outside : (v : Bits) (i : ℕ) (b : Bool) → v.size ≤ i → set v i b ≡ none
unfolding set
set_outside v i b h = ground arith

pub get-from_elem :
    (n i : ℕ) (b : Bool) → i < n → get (record { size = n; bit = λ _. b }) i ≡ some b
unfolding get
get-from_elem n i b h = ground arith

pub size-from_bytes : (bs : List ℕ) → (from_bytes bs).size ≡ length bs * 8
unfolding from_bytes
size-from_bytes bs = refl

abbrev pub bits : BitVecApi
bits = record {
  BitVec = Bits;
  len = λ v. v.size;
  from_elem = λ n b. record { size = n; bit = λ _. b };
  get = get;
  set = set;
  count_zeros = λ v. zeros_below v.size (get v);
  to_bytes = to_bytes;
  from_bytes = from_bytes;
  len-from_elem = λ n b. refl;
  get-from_elem = get-from_elem;
  get_inside = get_inside;
  get_outside = get_outside;
  set_inside = set_inside;
  set_outside = set_outside;
  count_zeros_lem = λ v. refl;
  len-from_bytes = size-from_bytes;
  get-from_bytes = get-from_bytes;
  length-to_bytes = length-to_bytes;
  get_elem?-to_bytes = get_elem?-to_bytes;
}
