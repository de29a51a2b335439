-- ===== src/Xencall/MemoryOp/Extents.antt =====
-- What a caller gets from the requests that fill a buffer.
use krata.Prelude.{
  ℕ, zero, suc, ◌-◌, ◌≡◌, ◌∙◌, Bool-cases, true, inl, inr, List, [], ◌∷◌, length, length-append,
  take, drop, ◌==◌, arith, Outcome, ok, err, panic, min,
}
use krata.Prelude.Effect.{continue}
use krata.Xencall.{Error}
use krata.Xencall.Hypercall.{
  Hypervisor, Structure, Contents, returned, hypercall, hypercall2, written,
}
use krata.Xencall.MemoryOp.{extents_of, populate_physmap}

module _ {ℓ} {A : Type ℓ} where
  length-take-min : (n : ℕ) (xs : List A) → length (take n xs) ≡ min n (length xs)
  length-take-min zero xs = omega arith
  length-take-min (suc n) [] = omega arith
  length-take-min (suc n) (x ∷ xs) = omega (arith, length-take-min n xs)

  length-drop_sub : (n : ℕ) (xs : List A) → length (drop n xs) ≡ length xs - n
  length-drop_sub zero xs = omega arith
  length-drop_sub (suc n) [] = omega arith
  length-drop_sub (suc n) (x ∷ xs) = omega (arith, length-drop_sub n xs)

  pub length-written : (new old : List A) → length (written new old) ≡ length old
  length-written new old =
      length-append (take (length old) new) (drop (length new) old)
      ∙ omega (arith, length-take-min (length old) new, length-drop_sub (length new) old)

-- How a request for extents may end: with as many as were asked for, or with an error.
abbrev pub AsManyAs : List ℕ → Outcome Error (List ℕ) → Type 0
AsManyAs starts (ok extents) = length extents ≡ length starts
AsManyAs starts (err e) = Unit {0}
AsManyAs starts panic = ⊥

module _ (H : Hypervisor) where
  extents_of-AsManyAs :
      (starts : List ℕ) (code : ℕ) (new : List ℕ) (w : H.W)
      → AsManyAs starts (extents_of H starts code new w).0
  unfolding extents_of
  extents_of-AsManyAs starts code new w = elim (Bool-cases (code == length starts)) [
    | inl e ↦ rw e (
        length-take-min code (written new starts)
        ∙ omega (arith, same_number e, length-written new starts))
    | inr e ↦ rw e tt
  ]
    where
      same_number : (code == length starts) ≡ true → code ≡ length starts
      same_number e = ground arith

  -- Whatever the hypervisor answers, `populate_physmap` ends with an error or with as many extents as there are starts,
  -- and does not panic.
  pub populate_physmap-AsManyAs :
      (domid nr_extents extent_order mem_flags : ℕ) (starts : List ℕ) (w : H.W)
      → AsManyAs starts (populate_physmap H domid nr_extents extent_order mem_flags starts w).0
  unfolding populate_physmap hypercall2 hypercall
  populate_physmap-AsManyAs domid nr order flags starts w = by_answer _
    where
      by_answer :
          (r : Outcome ℕ ℕ × (Contents Structure.memory_reservation × H.W))
          → AsManyAs starts
              (continue
                (returned H Structure.memory_reservation r)
                (λ x. extents_of H starts x.0 x.1.extent_start)).0
      by_answer (ok code, (c, v)) = extents_of-AsManyAs starts code c.extent_start v
      by_answer (err e, (c, v)) = tt
      by_answer (panic, (c, v)) = tt
