-- ===== src/Xenclient/DevAlloc/Allocate.antt =====
-- crates/xen/xenclient/src/devalloc.rs: `DeviceIdAllocator::allocate`.
use krata.Prelude.{
  ℕ, zero, suc, ◌+◌, ◌-◌, ◌%◌, ◌≤◌, ◌<◌, ◌≡◌, ◌≢◌, sym, ap, subst, ◌∙◌, inl, inr, Bool, true, false,
  Option, none, some, arith, Outcome, ok, OutOfFuel, ==_iff, ◌==◌, Bool-cases,
}
use krata.Xenclient.DevAlloc.{
  device_count, DeviceIdAllocator, take_or_skip, allocate_loop, allocate, IsValid,
}
use krata.Xenclient.DevAlloc.BitVec.{BitVecApi}

module _ (B : BitVecApi) where
  open B use {BitVec, get, set, len}

  -- The id that lies `d` steps after the cursor.
  abbrev pub at : ℕ → ℕ → ℕ
  at start d = (start + d) % device_count

  -- What the scan from `start` has found when it ends.
  pub data Scan (v : BitVec) (start : ℕ) (r : Outcome OutOfFuel (Option ℕ × DeviceIdAllocator B))
      : Type 0 where
    found :
        (d : ℕ) (w : BitVec)
        → d < device_count
        → ((j : ℕ) → j < d → get v (at start j) ≡ some true)
        → get v (at start d) ≡ some false
        → set v (at start d) true ≡ some w
        → r ≡ ok (some (at start d), record { states = w; cursor = at start (suc d) })
        → Scan v start r
    exhausted :
        ((j : ℕ) → j < device_count → get v (at start j) ≡ some true)
        → r ≡ ok (none, record { states = v; cursor = start })
        → Scan v start r

  extend_taken :
      (v : BitVec) (start k : ℕ)
      → ((j : ℕ) → j < k → get v (at start j) ≡ some true)
      → get v (at start k) ≡ some true
      → (j : ℕ) → j < suc k
      → get v (at start j) ≡ some true
  extend_taken v start k before here j h = elim (Bool-cases (j == k)) [
    | inl e ↦ ap (λ t. get v (at start t)) ((==_iff j k).0 e) ∙ here
    | inr e ↦ before j (ground arith)
  ]

  next_at : (start k : ℕ) → (at start k + 1) % device_count ≡ at start (suc k)
  next_at start k = omega arith

  -- One round, after the answer `b` at the `k`-th id; `rest` is what the next rounds find.
  round-Scan :
      (b : Bool) (k start : ℕ) (v : BitVec)
      (rest : Outcome OutOfFuel (Option ℕ × DeviceIdAllocator B))
      → len v ≡ device_count
      → start < device_count
      → k < device_count
      → ((j : ℕ) → j < k → get v (at start j) ≡ some true)
      → get v (at start k) ≡ some b
      → (suc k < device_count → get v (at start k) ≡ some true → Scan v start rest)
      → Scan v start (take_or_skip B b (at start k) start v rest)
  unfolding take_or_skip
  round-Scan false k start v rest size in_range hk before e next =
      let (w, s, _, _, _) = B.set_inside v (at start k) true (omega arith) in
      found k w hk before e s (rw (s, take_or_skip) (rw (next_at start k)))
  round-Scan true k start v rest size in_range hk before e next =
      elim (Bool-cases ((at start k + 1) % device_count == start)) [
        | inl back ↦
            exhausted (λ j hj. extend_taken v start k before e j (ground arith))
              (rw back (rw ((==_iff ((at start k + 1) % device_count) start).0 back)))
        | inr more ↦ rw more (next (ground arith) e)
      ]

  loop-Scan :
      (fuel k start : ℕ) (v : BitVec)
      → len v ≡ device_count
      → start < device_count
      → k < device_count
      → device_count ≤ fuel + k
      → ((j : ℕ) → j < k → get v (at start j) ≡ some true)
      → Scan v start (allocate_loop B fuel start v (at start k))
  unfolding allocate_loop
  loop-Scan zero k start v size in_range hk enough before = absurd (omega arith)
  loop-Scan (suc fuel) k start v size in_range hk enough before =
      let (b, e) = B.get_inside v (at start k) (omega arith) in
      rw (e, allocate_loop)
        (round-Scan b k start v _ size in_range hk before e (λ lt here. rw (next_at start k) (
          loop-Scan fuel (suc k) start v size in_range lt (omega arith)
            (extend_taken v start k before here))))

  scan : (a : DeviceIdAllocator B) → IsValid B a → Scan a.states a.cursor (allocate B a)
  unfolding allocate
  scan a valid = rw (ap (allocate_loop B device_count a.cursor a.states) (sym start_at)) (
      loop-Scan device_count 0 a.cursor a.states valid.size valid.in_range (omega arith)
        (omega arith) (λ j h. absurd (omega arith)))
    where
      start_at : at a.cursor 0 ≡ a.cursor
      start_at = omega (arith, valid.in_range)

  -- What an id that `allocate` or `release` has changed means for the allocator.
  pub record Changed (a a' : DeviceIdAllocator B) (id : ℕ) (before after : Bool) : Type 0 where
    pub in_range : id < device_count
    pub was : get a.states id ≡ some before
    pub is : get a'.states id ≡ some after
    pub others : (j : ℕ) → j ≢ id → get a'.states j ≡ get a.states j
    pub size : len a'.states ≡ device_count

  -- `set` where it does not panic.
  pub set-Changed :
      (a : DeviceIdAllocator B) (id c : ℕ) (before after : Bool) (w : BitVec)
      → len a.states ≡ device_count
      → id < device_count
      → get a.states id ≡ some before
      → set a.states id after ≡ some w
      → Changed a (record { states = w; cursor = c }) id before after
  set-Changed a id c before after w size h was s =
      let (w', s', size', here, others) = B.set_inside a.states id after (omega arith) in
      let same : w ≡ w' = cc (s, s') in
      record {
        in_range = h;
        was = was;
        is = rw same here;
        others = λ j ne. rw same (others j ne);
        size = rw same (size' ∙ size);
      }

  allocated :
      (a a' : DeviceIdAllocator B) (id : ℕ)
      → IsValid B a
      → Scan a.states a.cursor (ok (some id, a'))
      → IsValid B a' × Changed a a' id false true
  allocated a a' id valid (found d w hd taken free s e) =
      let same_id : id ≡ at a.cursor d = cc e in
      let same : a' ≡ record { states = w; cursor = at a.cursor (suc d) } = cc e in
      let changed =
        set-Changed a (at a.cursor d) (at a.cursor (suc d)) false true w valid.size (omega arith)
          free s in
      rw (same_id, same) (record { size = changed.size; in_range = omega arith }, changed)
  allocated a a' id valid (exhausted all e) = cc e

  -- An id that `allocate` of a valid allocator returns is below the device count and was free, and
  -- is now taken; no other id changes, and the allocator stays valid.
  pub allocate_fresh :
      (a a' : DeviceIdAllocator B) (id : ℕ)
      → IsValid B a
      → allocate B a ≡ ok (some id, a')
      → IsValid B a' × Changed a a' id false true
  allocate_fresh a a' id valid e =
      allocated a a' id valid (subst (Scan a.states a.cursor) e (scan a valid))

  distance :
      (a : DeviceIdAllocator B) (i : ℕ)
      → IsValid B a
      → i < device_count
      → (d : ℕ) × (d < device_count) × (at a.cursor d ≡ i)
  distance a i valid h =
      ((i + device_count - a.cursor) % device_count, omega arith, omega (arith, valid.in_range))

  some_found :
      (a : DeviceIdAllocator B) (i : ℕ)
      → IsValid B a
      → i < device_count
      → get a.states i ≡ some false
      → Scan a.states a.cursor (allocate B a)
      → (id : ℕ) × (a' : DeviceIdAllocator B) × (allocate B a ≡ ok (some id, a'))
  some_found a i valid h free (found d w hd taken here s e) = (_, _, e)
  some_found a i valid h free (exhausted all e) =
      let (d, hd, reach) = distance a i valid h in
      let here : get a.states i ≡ some true =
        subst (λ t. get a.states t ≡ some true) reach (all d hd) in
      cc

  -- While an id of a valid allocator is free, `allocate` ends within one round over the ids and
  -- returns one: it neither panics nor reports exhaustion.
  pub allocate_total :
      (a : DeviceIdAllocator B) (i : ℕ)
      → IsValid B a
      → i < device_count
      → get a.states i ≡ some false
      → (id : ℕ) × (a' : DeviceIdAllocator B) × (allocate B a ≡ ok (some id, a'))
  allocate_total a i valid h free = some_found a i valid h free (scan a valid)

  none_found :
      (a : DeviceIdAllocator B) (r : Outcome OutOfFuel (Option ℕ × DeviceIdAllocator B))
      → ((i : ℕ) → i < device_count → get a.states i ≡ some true)
      → Scan a.states a.cursor r
      → r ≡ ok (none, a)
  none_found a r all (found d w hd taken here s e) =
      let taken_here : get a.states (at a.cursor d) ≡ some true = all _ (omega arith) in cc
  none_found a r all (exhausted taken e) = e

  -- When every id of a valid allocator is taken, `allocate` reports that by `None` and leaves the
  -- allocator as it was, its cursor included.
  pub allocate_exhausted :
      (a : DeviceIdAllocator B)
      → IsValid B a
      → ((i : ℕ) → i < device_count → get a.states i ≡ some true)
      → allocate B a ≡ ok (none, a)
  allocate_exhausted a valid all = none_found a _ all (scan a valid)

  loop_outside :
      (fuel start id : ℕ) (v : BitVec)
      → get v id ≡ none
      → allocate_loop B (suc fuel) start v id ≡ ok (none, record { states = v; cursor = id })
  unfolding allocate_loop
  loop_outside fuel start id v e = rw (e, allocate_loop)

  -- With as many bits as devices, a cursor at or above the device count, which `deserialize` lets
  -- in, makes `allocate` return `None` and change nothing, free ids or not.
  pub allocate_stale_cursor :
      (a : DeviceIdAllocator B)
      → len a.states ≡ device_count
      → device_count ≤ a.cursor
      → allocate B a ≡ ok (none, a)
  unfolding allocate
  allocate_stale_cursor a size h =
      loop_outside 4095 a.cursor a.cursor a.states (B.get_outside a.states a.cursor (omega arith))
