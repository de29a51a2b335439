-- ===== src/Xenclient/Tx/Configs/Numbers.antt =====
-- crates/xen/xenclient/src/tx/vbd.rs: the numbers of virtual disks, and what a configuration without one of its
-- parameters does.
use krata.Prelude.{
  ℕ, ◌+◌, ◌*◌, ◌≤◌, ◌<◌, ◌≡◌, ◌⊎◌, inl, inr, refl, Bool-cases, true, arith, Option, none, some,
  List, leb, Outcome, ok, err, panic, OutOfFuel, out_of_fuel, if◌then◌else◌,
}
use krata.Prelude.Bits.{high-bit_or-low}
use krata.Prelude.Effect.{Action}
use krata.Prelude.Keeps.{Keeps, both}
use krata.Xenstore.Message.{XsdMessage}
use krata.Xenstore.Sys
use krata.Xenclient.DevAlloc.{DeviceIdAllocator, allocate}
use krata.Xenclient.DevAlloc.BitVec.{BitVecApi}
use krata.Xenclient.Tx.{XenTransaction, assigned, assign_next_devid}
use krata.Xenclient.Tx.Configs.{VifDeviceConfig, vdev_of, vif_with, add_vif}

-- The numbers of the first six disks lie 16 apart behind 51712, those of the others 256 apart behind 2^28.
vdev_of_lem :
    (idx : ℕ) → (vdev_of idx).0 ≡ (if leb idx 5 then 51712 + idx * 16 else 268435456 + idx * 256)
unfolding vdev_of
vdev_of_lem idx = elim (Bool-cases (leb idx 5)) [
  | inl e ↦ rw e (high-bit_or-low 8 202 (idx * 16) (small e))
  | inr e ↦ rw e refl
]
  where
    small : leb idx 5 ≡ true → idx * 16 < 256
    small e = ground arith

-- Of two disks, the number of the one with the smaller index and those behind it that are its partitions', 16 in all for
-- the first six disks and 256 for any other, all lie below the number of the other disk.
pub vdev_of-apart :
    (a b : ℕ) → a < b → (vdev_of a).0 + (if leb a 5 then 16 else 256) ≤ (vdev_of b).0
vdev_of-apart a b h = rw (vdev_of_lem a, vdev_of_lem b) (by_order h)
  where
    by_order :
        a < b
        → (if leb a 5 then 51712 + a * 16 else 268435456 + a * 256) + (if leb a 5 then 16 else 256)
          ≤ (if leb b 5 then 51712 + b * 16 else 268435456 + b * 256)
    by_order h = ground arith

module _ (B : BitVecApi) (W : Type 0)
    (send_buf : ℕ → ℕ → List ℕ → Action W krata.Xenstore.Sys.Error XsdMessage) (w : W) where
  -- The store is what it was.
  abbrev Untouched : XenTransaction B × W → Type 0
  Untouched s = s.1 ≡ w

  assigned-Untouched :
      (f : DeviceIdAllocator B → XenTransaction B) (s : XenTransaction B × W)
      (r : Outcome OutOfFuel (Option ℕ × DeviceIdAllocator B))
      → Untouched s
      → Untouched (assigned B (λ a. (f a, s.1)) s r).1
  assigned-Untouched f s (ok (some id, a)) u = u
  assigned-Untouched f s (ok (none, a)) u = u
  assigned-Untouched f s (err out_of_fuel) u = u
  assigned-Untouched f s panic u = u

  assign_next_devid-Untouched : Keeps Untouched (assign_next_devid B W send_buf)
  unfolding assign_next_devid
  assign_next_devid-Untouched s u =
      assigned-Untouched (λ a. record s.0 { devalloc = a }) s (allocate B s.0.devalloc) u

  vif_with-Untouched :
      (config : VifDeviceConfig) (id : ℕ)
      → (config.mac ≡ none) ⊎ (config.mtu ≡ none)
      → Keeps Untouched (vif_with B W send_buf config id)
  unfolding vif_with
  vif_with-Untouched config id (inl h) s u = rw h u
  vif_with-Untouched config id (inr h) s u = by_mac config.mac
    where
      by_mac :
          (mac : Option (List ℕ))
          → Untouched (vif_with B W send_buf (record config { mac = mac }) id s).1
      by_mac none = u
      by_mac (some mac) = rw h u

  -- A network device without an address or without an MTU is not added: whichever id is assigned to it, nothing is
  -- written to the store.
  pub add_vif_missing :
      (config : VifDeviceConfig)
      → (config.mac ≡ none) ⊎ (config.mtu ≡ none)
      → Keeps Untouched (add_vif B W send_buf config)
  unfolding add_vif
  add_vif_missing config h =
      both Untouched (assign_next_devid B W send_buf) (vif_with B W send_buf config)
        assign_next_devid-Untouched (λ id. vif_with-Untouched config id h)
