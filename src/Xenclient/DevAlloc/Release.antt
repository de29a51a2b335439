-- ===== src/Xenclient/DevAlloc/Release.antt =====
-- crates/xen/xenclient/src/devalloc.rs: `DeviceIdAllocator::release`, and the free ids that `count_free` counts.
use krata.Prelude.{
  ℕ, zero, suc, ◌+◌, ◌≤◌, ◌<◌, ◌≡◌, ◌≢◌, refl, ap, inl, inr, Bool, true, false, Option, some, arith,
  ok, panic, ==_iff, ◌==◌, Bool-cases,
}
use krata.Xenclient.DevAlloc.{
  device_count, DeviceIdAllocator, allocate, release, count_free, IsValid,
}
use krata.Xenclient.DevAlloc.BitVec.{BitVecApi, zeros_below}
use krata.Xenclient.DevAlloc.Allocate.{Changed, allocate_fresh}

module _ (B : BitVecApi) where
  open B use {BitVec, get, set, len}

  -- The number of free ids moves with the one that changed.
  zeros_below-eq :
      (n : ℕ) (f g : ℕ → Option Bool)
      → ((j : ℕ) → j < n → f j ≡ g j)
      → zeros_below n f ≡ zeros_below n g
  zeros_below-eq zero f g same = refl
  zeros_below-eq (suc n) f g same =
      ground (arith, same n (omega arith), zeros_below-eq n f g (λ j h. same j (omega arith)))

  zeros_below_taken :
      (n id : ℕ) (f g : ℕ → Option Bool)
      → id < n
      → f id ≡ some false
      → g id ≡ some true
      → ((j : ℕ) → j ≢ id → g j ≡ f j)
      → zeros_below n g + 1 ≡ zeros_below n f
  zeros_below_taken zero id f g h was is others = absurd (omega arith)
  zeros_below_taken (suc n) id f g h was is others = elim (Bool-cases (n == id)) [
    | inl e ↦
        let here : n ≡ id = (==_iff n id).0 e in
        ground (arith, ap f here, ap g here, zeros_below-eq n g f (λ j hj. others j (omega arith)))
    | inr e ↦
        ground
          (arith, others n (ground arith), zeros_below_taken n id f g (ground arith) was is others)
  ]

  count_free_scan :
      (a a' : DeviceIdAllocator B) (id : ℕ)
      → IsValid B a
      → Changed B a a' id false true
      → count_free B a' + 1 ≡ count_free B a
  unfolding count_free
  count_free_scan a a' id valid ch =
      rw (B.count_zeros_lem a'.states, B.count_zeros_lem a.states, ch.size, valid.size)
        (zeros_below_taken device_count id (get a.states) (get a'.states) ch.in_range ch.was ch.is
          ch.others)

  -- Each id that a valid allocator hands out makes the count of free ids smaller by one.
  pub count_free-allocate :
      (a a' : DeviceIdAllocator B) (id : ℕ)
      → IsValid B a
      → allocate B a ≡ ok (some id, a')
      → count_free B a' + 1 ≡ count_free B a
  count_free-allocate a a' id valid e =
      count_free_scan a a' id valid (allocate_fresh B a a' id valid e).1

  -- With as many bits as devices, `release` of an id at or above the device count panics, whatever
  -- the cursor.
  pub release_out_of_range :
      (a : DeviceIdAllocator B) (id : ℕ)
      → len a.states ≡ device_count
      → device_count ≤ id
      → release B a id ≡ panic
  unfolding release
  release_out_of_range a id size h = rw (B.set_outside a.states id false (omega arith), release)
