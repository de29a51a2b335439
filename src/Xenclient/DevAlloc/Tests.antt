-- ===== src/Xenclient/DevAlloc/Tests.antt =====
-- The allocator's theorems at concrete allocators over `bits`.
use krata.Prelude.{
  ◌∷◌, replicate, ℕ, ◌<◌, ◌≡◌, refl, true, false, none, some, arith, ok, if◌then◌else◌, ◌==◌,
}
use krata.Xenclient.DevAlloc.{
  device_count, DeviceIdAllocator, allocate_loop, allocate, serialize, deserialize, IsValid,
  take_or_skip,
}
use krata.Xenclient.DevAlloc.BitVec.{bits, get, set, from_bytes}
use krata.Xenclient.DevAlloc.Allocate.{Changed, allocate_fresh, allocate_total}
use krata.Xenclient.DevAlloc.Codec.{deserialize-serialize, deserialize-allocate_stale}

abbrev fresh : DeviceIdAllocator bits
fresh = record { states = record { size = 4096; bit = λ _. false }; cursor = 4095 }

abbrev full : DeviceIdAllocator bits
full = record { states = record { size = 4096; bit = λ _. true }; cursor = 7 }

-- Every id but 9 is taken.
abbrev one_left : DeviceIdAllocator bits
one_left = record {
  states = record { size = 4096; bit = λ i. if i == 9 then false else true };
  cursor = 5;
}

abbrev after_fresh : DeviceIdAllocator bits
after_fresh = record {
  states = record { size = 4096; bit = λ j. if j == 4095 then true else false };
  cursor = 0;
}

fresh-IsValid : IsValid bits fresh
fresh-IsValid = record { size = refl; in_range = omega arith }

allocates_last : allocate bits fresh ≡ ok (some 4095, after_fresh)
unfolding allocate allocate_loop take_or_skip get set
allocates_last = refl

allocate_fresh_example : IsValid bits after_fresh × Changed bits fresh after_fresh 4095 false true
allocate_fresh_example = allocate_fresh bits fresh after_fresh 4095 fresh-IsValid allocates_last

allocate_total_example :
    (id : ℕ) × (a' : DeviceIdAllocator bits) × (allocate bits one_left ≡ ok (some id, a'))
unfolding get
allocate_total_example =
    allocate_total bits one_left 9 (record { size = refl; in_range = omega arith }) (omega arith)
      refl

-- A cursor of 5000, and no id taken.
deserialize-allocate_stale_example :
    (a : DeviceIdAllocator bits) × (deserialize bits (136 ∷ 19 ∷ 0 ∷ 0 ∷ replicate 512 0) ≡ some a)
    × ((i : ℕ) → get a.states i ≡ get (from_bytes (replicate 512 0)) i)
    × (allocate bits a ≡ ok (none, a))
deserialize-allocate_stale_example =
    deserialize-allocate_stale bits 136 19 0 0 (replicate 512 0) (omega arith) (omega arith)
      (omega arith) refl (omega arith)

deserialize-serialize_example :
    (a' : DeviceIdAllocator bits) × (deserialize bits (serialize bits one_left) ≡ some a')
    × (a'.cursor ≡ one_left.cursor)
    × IsValid bits a'
    × ((i : ℕ) → i < device_count → get a'.states i ≡ get one_left.states i)
deserialize-serialize_example =
    deserialize-serialize bits one_left (record { size = refl; in_range = omega arith })
