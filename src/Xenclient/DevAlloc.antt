-- ===== src/Xenclient/DevAlloc.antt =====
-- crates/xen/xenclient/src/devalloc.rs: the allocator of device ids, over the bit vector that the
-- crate `bit_vec` implements. Cursors and ids are u32, bytes are u8.
pub mod BitVec
pub mod Allocate
pub mod Release
pub mod Codec
mod Tests
use krata.Prelude.{
  ℕ, zero, suc, ◌+◌, ◌*◌, ◌/◌, ◌%◌, ◌^◌, ◌<◌, ◌≡◌, Bool, true, false, not, Option, none, some, List,
  [], ◌∷◌, length, drop, bit_and, bit_or, if◌then◌else◌, ◌==◌, Outcome, ok, err, panic, OutOfFuel,
  out_of_fuel,
}
use BitVec.{BitVecApi}

abbrev pub device_count : ℕ
device_count = 4096

abbrev pub byte_count : ℕ
byte_count = 512

module _ (B : BitVecApi) where
  open B use {BitVec, from_elem, get, set, count_zeros, to_bytes, from_bytes}

  pub record DeviceIdAllocator : Type 0 where
    pub states : BitVec
    pub cursor : ℕ

  pub new : DeviceIdAllocator
  new = record { states = from_elem device_count false; cursor = 0 }

  -- The four bytes of the cursor, the lowest first, as `b0 | b1 << 8 | b2 << 16 | b3 << 24`.
  pub decode_cursor : ℕ → ℕ → ℕ → ℕ → ℕ
  decode_cursor b0 b1 b2 b3 = bit_or (bit_or (bit_or b0 (b1 * 2 ^ 8)) (b2 * 2 ^ 16)) (b3 * 2 ^ 24)

  -- `&bytes[4..BYTE_COUNT + 4]`, with the four bytes before it taken off.
  pub deserialize_parts : List ℕ → Option DeviceIdAllocator
  unfolding decode_cursor
  deserialize_parts (b0 ∷ b1 ∷ b2 ∷ b3 ∷ slice) =
      if length slice == byte_count
      then some (record { states = from_bytes slice; cursor = decode_cursor b0 b1 b2 b3 })
      else none
  deserialize_parts _ = none

  pub deserialize : List ℕ → Option DeviceIdAllocator
  unfolding deserialize_parts
  deserialize bytes = if length bytes == byte_count + 4 then deserialize_parts bytes else none

  -- The body of the loop, once `get` has answered `value` at the cursor `id`.
  unfoldable pub take_or_skip :
      Bool
      → ℕ
      → ℕ
      → BitVec
      → Outcome OutOfFuel (Option ℕ × DeviceIdAllocator)
      → Outcome OutOfFuel (Option ℕ × DeviceIdAllocator)
  take_or_skip false id start states rest = elim (set states id true) [
    | none ↦ panic
    | some states' ↦ ok (some id, record { states = states'; cursor = (id + 1) % device_count })
  ]
  take_or_skip true id start states rest =
      if (id + 1) % device_count == start
      then ok (none, record { states = states; cursor = (id + 1) % device_count })
      else rest

  unfoldable pub allocate_loop :
      ℕ → ℕ → BitVec → ℕ → Outcome OutOfFuel (Option ℕ × DeviceIdAllocator)
  allocate_loop zero start states id = err out_of_fuel
  allocate_loop (suc fuel) start states id =
      let rest = allocate_loop fuel start states ((id + 1) % device_count) in
      elim (get states id) [
        | none ↦ ok (none, record { states = states; cursor = id })
        | some value ↦ take_or_skip value id start states rest
      ]

  unfoldable pub allocate : DeviceIdAllocator → Outcome OutOfFuel (Option ℕ × DeviceIdAllocator)
  allocate a = allocate_loop device_count a.cursor a.states a.cursor

  pub release : DeviceIdAllocator → ℕ → Outcome OutOfFuel DeviceIdAllocator
  release a id = elim (set a.states id false) [
    | none ↦ panic
    | some states ↦ ok (record a { states = states })
  ]

  pub count_free : DeviceIdAllocator → ℕ
  count_free a = count_zeros a.states

  pub serialize : DeviceIdAllocator → List ℕ
  serialize a =
      (bit_and a.cursor 0xff)
      ∷ (bit_and (a.cursor / 2 ^ 8) 0xff)
      ∷ (bit_and (a.cursor / 2 ^ 16) 0xff)
      ∷ (bit_and (a.cursor / 2 ^ 24) 0xff)
      ∷ to_bytes a.states

  -- The bits are those of all the ids, and the cursor is on one of them.
  pub record IsValid (a : DeviceIdAllocator) : Type 0 where
    pub size : B.len a.states ≡ device_count
    pub in_range : a.cursor < device_count
