-- ===== src/Xenclient/Tx/Ids.antt =====
-- The ids that a transaction hands out, and how they outlive it in the store.
use krata.Prelude.{
  ℕ, ◌<◌, ◌≡◌, ◌≢◌, refl, ap, subst, ◌∙◌, true, false, Option, none, some, List, ◌∷◌, ◌++◌, Outcome,
  ok, err, panic, OutOfFuel, out_of_fuel,
}
use krata.Prelude.Effect.{Action}
use krata.Prelude.Text.{bytes}
use krata.Xenstore.Sys.{xsd_write}
use krata.Xenstore.Message.{XsdMessage}
use krata.Xenstore.Client.{has_nul}
use krata.Xenstore.Client.Store.{IsStore}
use krata.Xenstore.Client
use krata.Xenstore.Sys
use krata.Xenclient.DevAlloc.BitVec.{BitVecApi}
use krata.Xenclient.DevAlloc.{device_count, DeviceIdAllocator, IsValid, allocate}
use krata.Xenclient.DevAlloc.Allocate.{allocate_fresh}
use krata.Xenclient.Tx.{TxError, XenTransaction, assigned, assign_next_devid, load_id_allocator}

module _ (B : BitVecApi) where
  open B use {get}

  assigned_ok :
      {S : Type 0} (f : DeviceIdAllocator B → S) (s s' : S) (id : ℕ)
      (r : Outcome OutOfFuel (Option ℕ × DeviceIdAllocator B))
      → assigned B f s r ≡ (ok id, s')
      → (a : DeviceIdAllocator B) × (r ≡ ok (some id, a)) × (f a ≡ s')
  assigned_ok f s s' id (ok (some i, a)) e =
      (a, ap (λ k. ok (some k, a)) (same (ok i) i refl (ap (λ t. t.0) e)), ap (λ t. t.1) e)
    where
      same : (r : Outcome TxError ℕ) (i : ℕ) → r ≡ ok i → r ≡ ok id → i ≡ id
      same r i h k = cc
  assigned_ok f s s' id (ok (none, a)) e = let h = ap (λ t. t.0) e in absurd (cc h)
  assigned_ok f s s' id (err out_of_fuel) e = let h = ap (λ t. t.0) e in absurd (cc h)
  assigned_ok f s s' id panic e = let h = ap (λ t. t.0) e in absurd (cc h)

  module _ (W : Type 0)
      (send_buf : ℕ → ℕ → List ℕ → Action W krata.Xenstore.Sys.Error XsdMessage) where
    -- Two device ids that a transaction with a valid allocator hands out one after the other are
    -- different, and below the device count.
    pub assign_next_devid-distinct :
        (t t1 t2 : XenTransaction B) (w w1 w2 : W) (a b : ℕ)
        → IsValid B t.devalloc
        → assign_next_devid B W send_buf (t, w) ≡ (ok a, (t1, w1))
        → assign_next_devid B W send_buf (t1, w1) ≡ (ok b, (t2, w2))
        → (a ≢ b) × (a < device_count) × (b < device_count)
    unfolding assign_next_devid
    assign_next_devid-distinct t t1 t2 w w1 w2 a b v e f =
        let (x, ex, sx) =
          assigned_ok (λ k. (record t { devalloc = k }, w)) (t, w) (t1, w1) a
            (allocate B t.devalloc) e in
        let (y, ey, sy) =
          assigned_ok (λ k. (record t1 { devalloc = k }, w1)) (t1, w1) (t2, w2) b
            (allocate B t1.devalloc) f in
        let (vx, cx) = allocate_fresh B t.devalloc x a v ex in
        let moved : x ≡ t1.devalloc = ap (λ s. s.0.devalloc) sx in
        let (vy, cy) = allocate_fresh B t1.devalloc y b (subst (IsValid B) moved vx) ey in
        (differ x a b (cx.is) (ap (λ k. get k.states b) moved ∙ cy.was), cx.in_range, cy.in_range)
      where
        differ :
            (x : DeviceIdAllocator B) (a b : ℕ)
            → get x.states a ≡ some true
            → get x.states b ≡ some false
            → a ≢ b
        differ x a b h k e = let l : get x.states a ≡ get x.states b = ap (get x.states) e in cc

abbrev pub devid : List ℕ
devid = bytes "devid"

abbrev pub blkid : List ℕ
blkid = bytes "blkid"

module _ (B : BitVecApi) (W : Type 0)
    (send_buf : ℕ → ℕ → List ℕ → Action W krata.Xenstore.Sys.Error XsdMessage)
    (contents : W → ℕ → List ℕ → Option (List ℕ)) (store : IsStore W send_buf contents) where
  open B use {get}

  -- A write leaves what is at other paths, as the protocol describes it.
  abbrev pub Keeps : Type 0
  Keeps =
      (tx : ℕ) (path other value : List ℕ) (w : W)
      → has_nul path ≡ false
      → other ≢ path
      → contents (send_buf tx xsd_write (path ++ 0 ∷ value) w).1 tx other ≡ contents w tx other

  -- The allocator that is loaded agrees with the one that was stored.
  pub record Reloaded (a : DeviceIdAllocator B) (tx : ℕ) (allocator_type dom_path : List ℕ) (w : W)
      : Type 0 where
    pub loaded : DeviceIdAllocator B
    pub loads : load_id_allocator B W send_buf tx allocator_type dom_path w ≡ (ok loaded, w)
    pub valid : IsValid B loaded
    pub cursor : loaded.cursor ≡ a.cursor
    pub states : (i : ℕ) → i < device_count → get loaded.states i ≡ get a.states i
