-- ===== src/Xenclient/DevAlloc/Codec.antt =====
-- `DeviceIdAllocator::serialize` and `deserialize`: four bytes of cursor, then the bits.
use krata.Prelude.{
  ℕ, suc, ◌+◌, ◌*◌, ◌≤◌, ◌∷◌, ◌==◌, true, ok, ◌/◌, ◌%◌, ◌^◌, ◌<◌, ◌≡◌, refl, sym, ◌∙◌, none, some,
  List, length, arith, bit_and,
}
use krata.Prelude.Bits.{bit_and_low, low-bit_or-high}
use krata.Xenclient.DevAlloc.{
  device_count, byte_count, DeviceIdAllocator, decode_cursor, deserialize, serialize, allocate,
  IsValid,
}
use krata.Xenclient.DevAlloc.Allocate.{allocate_stale_cursor}
use krata.Xenclient.DevAlloc.BitVec.{BitVecApi}

-- Four bytes stand for the number whose digits to base 256 they are, the lowest first.
decode_cursor_lem :
    (B : BitVecApi) (b0 b1 b2 b3 : ℕ)
    → b0 < 256
    → b1 < 256
    → b2 < 256
    → decode_cursor B b0 b1 b2 b3 ≡ b0 + b1 * 2 ^ 8 + b2 * 2 ^ 16 + b3 * 2 ^ 24
unfolding decode_cursor
decode_cursor_lem B b0 b1 b2 b3 h0 h1 h2 =
    rw
      (
        low-bit_or-high 8 b0 b1 h0,
        low-bit_or-high 16 (b0 + b1 * 2 ^ 8) b2 (omega arith),
        low-bit_or-high 24 (b0 + b1 * 2 ^ 8 + b2 * 2 ^ 16) b3 (omega arith),
      )
      refl

decode_encoded :
    (B : BitVecApi) (c : ℕ)
    → c < 2 ^ 32
    → decode_cursor B
        (bit_and c 0xff)
        (bit_and (c / 2 ^ 8) 0xff)
        (bit_and (c / 2 ^ 16) 0xff)
        (bit_and (c / 2 ^ 24) 0xff)
      ≡ c
decode_encoded B c h =
    rw
      (
        bit_and_low 8 c,
        bit_and_low 8 (c / 2 ^ 8),
        bit_and_low 8 (c / 2 ^ 16),
        bit_and_low 8 (c / 2 ^ 24),
        decode_cursor_lem B (c % 256) (c / 2 ^ 8 % 256) (c / 2 ^ 16 % 256) (c / 2 ^ 24 % 256)
            (omega arith) (omega arith) (omega arith),
      )
      (omega arith)

module _ (B : BitVecApi) where
  open B use {BitVec, get, to_bytes, from_bytes, len}

  -- A valid allocator is read back from its bytes: the bytes have the length that `deserialize`
  -- demands, the cursor is the same, and so is the bit of every id.
  pub deserialize-serialize :
      (a : DeviceIdAllocator B)
      → IsValid B a
      → (a' : DeviceIdAllocator B) × (deserialize B (serialize B a) ≡ some a')
        × (a'.cursor ≡ a.cursor)
        × IsValid B a'
        × ((i : ℕ) → i < device_count → get a'.states i ≡ get a.states i)
  unfolding deserialize serialize
  deserialize-serialize a valid = (
    record { states = from_bytes (to_bytes a.states); cursor = a.cursor },
    rw (size, decode_encoded B a.cursor (omega (arith, valid.in_range))),
    refl,
    record {
      size = B.len-from_bytes (to_bytes a.states) ∙ omega (arith, size);
      in_range = valid.in_range;
    },
    same,
  )
    where
      size : length (to_bytes a.states) ≡ byte_count
      size = B.length-to_bytes a.states byte_count valid.size

      same : (i : ℕ) → i < device_count → get (from_bytes (to_bytes a.states)) i ≡ get a.states i
      same i h =
          let (b, e, g) =
            B.get_elem?-to_bytes a.states i (omega (arith, valid.size))
              (omega (arith, valid.size)) in
          B.get-from_bytes (to_bytes a.states) i b e ∙ sym g

  -- Bytes of any other length are refused.
  pub deserialize_wrong_length :
      (bytes : List ℕ) → ¬ (length bytes ≡ byte_count + 4) → deserialize B bytes ≡ none
  unfolding deserialize
  deserialize_wrong_length bytes h = ground arith

  -- Bytes of the right length are read whatever cursor they hold. With one at or above the device
  -- count, the allocator that is read hands out nothing, free ids or not, and is left unchanged.
  pub deserialize-allocate_stale :
      (b0 b1 b2 b3 : ℕ) (slice : List ℕ)
      → b0 < 256
      → b1 < 256
      → b2 < 256
      → length slice ≡ byte_count
      → device_count ≤ b0 + b1 * 2 ^ 8 + b2 * 2 ^ 16 + b3 * 2 ^ 24
      → (a : DeviceIdAllocator B) × (deserialize B (b0 ∷ b1 ∷ b2 ∷ b3 ∷ slice) ≡ some a)
        × ((i : ℕ) → get a.states i ≡ get (from_bytes slice) i)
        × (allocate B a ≡ ok (none, a))
  unfolding deserialize
  deserialize-allocate_stale b0 b1 b2 b3 slice h0 h1 h2 size stale =
      let whole : (suc (suc (suc (suc (length slice)))) == byte_count + 4) ≡ true = ground arith in
      let rest : (length slice == byte_count) ≡ true = ground arith in
      let cursor = decode_cursor_lem B b0 b1 b2 b3 h0 h1 h2 in
      (
        record { states = from_bytes slice; cursor = decode_cursor B b0 b1 b2 b3 },
        rw (whole, rest) refl,
        (λ i. refl),
        allocate_stale_cursor B
            (record { states = from_bytes slice; cursor = decode_cursor B b0 b1 b2 b3 })
            (B.len-from_bytes slice ∙ omega (arith, size)) (omega (arith, cursor, stale)),
      )
