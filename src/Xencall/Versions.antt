-- ===== src/Xencall/Versions.antt =====
-- crates/xen/xencall/src/lib.rs: `open` finds the versions of the two control interfaces by trying them in turn.
use krata.Prelude.{
  ℕ, zero, suc, ◌+◌, ◌-◌, ◌≤◌, ◌<◌, ◌≡◌, ◌⊎◌, inl, inr, sym, subst, ◌∙◌, Bool-cases, ltb, Bool,
  true, false, arith, ◌==◌, Outcome, ok, err, panic,
}
use krata.Prelude.Effect.{Action, ◌>>=◌, pure}
use krata.Xencall.{Error, Kernel}

abbrev pub xen_domctl_getdomaininfo : ℕ
xen_domctl_getdomaininfo = 5

abbrev pub xen_sysctl_cputopoinfo : ℕ
xen_sysctl_cputopoinfo = 16

abbrev pub xen_domctl_min_interface_version : ℕ
xen_domctl_min_interface_version = 0x15

abbrev pub xen_domctl_max_interface_version : ℕ
xen_domctl_max_interface_version = 0x17

abbrev pub xen_sysctl_min_interface_version : ℕ
xen_sysctl_min_interface_version = 0x15

abbrev pub xen_sysctl_max_interface_version : ℕ
xen_sysctl_max_interface_version = 0x20

-- `unwrap_or(-1)` and the comparison with 0.
unfoldable pub accepted : Outcome ℕ ℕ → Bool
accepted (ok result) = result == 0
accepted (err e) = false
accepted panic = false

-- What is left of the loop when a version has been tried.
abbrev pub tried : {W : Type 0} → ℕ → (W → Outcome Error ℕ × W) → Bool → W → Outcome Error ℕ × W
tried version rest true w = (ok version, w)
tried version rest false w = rest w

-- The first of `n` versions from `version` on that the hypervisor takes.
unfoldable pub detect : {W : Type 0} → (ℕ → W → Outcome ℕ ℕ × W) → ℕ → ℕ → Action W Error ℕ
unfolding accepted
detect call zero version w = (err Error.xen_version_unsupported, w)
detect call (suc n) version w =
    let rest = detect call n (version + 1) in
    let (r, w') = call version w in tried version rest (accepted r) w'

-- The versions that `open` finds.
pub record XenCall : Type 0 where
  pub domctl_interface_version : ℕ
  pub sysctl_interface_version : ℕ

module _ (K : Kernel) where
  open K use {W, domctl, sysctl}

  unfoldable pub detect_domctl_interface_version : ℕ → Action W Error ℕ
  unfolding detect
  detect_domctl_interface_version current_domid =
      detect
        (λ version. domctl (record {
          cmd = xen_domctl_getdomaininfo;
          interface_version = version;
          domid = current_domid;
        }))
        (xen_domctl_max_interface_version + 1 - xen_domctl_min_interface_version)
        xen_domctl_min_interface_version

  unfoldable pub detect_sysctl_interface_version : Action W Error ℕ
  unfolding detect
  detect_sysctl_interface_version =
      detect
        (λ version.
          sysctl (record { cmd = xen_sysctl_cputopoinfo; interface_version = version; domid = 0 }))
        (xen_sysctl_max_interface_version + 1 - xen_sysctl_min_interface_version)
        xen_sysctl_min_interface_version

  -- `open`, once the device is open.
  unfoldable pub open_versions : ℕ → Action W Error XenCall
  unfolding detect_domctl_interface_version detect_sysctl_interface_version
  open_versions current_domid = do
    domctl_version ← detect_domctl_interface_version current_domid
    sysctl_version ← detect_sysctl_interface_version
    pure (record {
      domctl_interface_version = domctl_version;
      sysctl_interface_version = sysctl_version;
    })

module _ {W : Type 0} (call : ℕ → W → Outcome ℕ ℕ × W) (takes : ℕ → Bool) where
  -- The hypervisor takes a version or not, whatever its state.
  abbrev pub IsSteady : Type 0
  IsSteady = (version : ℕ) (w : W) → accepted (call version w).0 ≡ takes version

  -- None of the versions from `low` on and below `high` is taken.
  abbrev pub NoneTaken : ℕ → ℕ → Type 0
  NoneTaken low high = (v : ℕ) → low ≤ v → v < high → takes v ≡ false

  -- The least version of a range that is taken, or an error if none is.
  abbrev pub Detected : ℕ → ℕ → Outcome Error ℕ → Type 0
  Detected low n (ok v) = (low ≤ v) × (v < low + n) × (takes v ≡ true) × NoneTaken low v
  Detected low n (err e) = NoneTaken low (low + n)
  Detected low n panic = ⊥

  below_next : (low high : ℕ) → takes low ≡ false → NoneTaken (low + 1) high → NoneTaken low high
  below_next low high e f v a b = by_order (nat_cases low v a)
    where
      nat_cases : (l u : ℕ) → l ≤ u → (l ≡ u) ⊎ (l + 1 ≤ u)
      nat_cases l u h = elim (compare_cases (ltb l u)) [
        | inl t ↦ inr (ground arith)
        | inr t ↦ inl (ground arith)
      ]
        where
          compare_cases : (b : Bool) → (b ≡ true) ⊎ (b ≡ false)
          compare_cases = Bool-cases

      by_order : (low ≡ v) ⊎ (low + 1 ≤ v) → takes v ≡ false
      by_order (inl q) = subst (λ k. takes k ≡ false) q e
      by_order (inr q) = f v q b

  later :
      (low n : ℕ) (r : Outcome Error ℕ)
      → takes low ≡ false
      → Detected (low + 1) n r
      → Detected low (suc n) r
  later low n (ok v) e (a, b, c, f) = (omega arith, omega arith, c, below_next low v e f)
  later low n (err x) e f = below_next low (low + suc n) e (λ v a b. f v a (omega arith))
  later low n panic e f = f

  detect-Detected_from : (n low : ℕ) (w : W) → IsSteady → Detected low n (detect call n low w).0
  unfolding detect
  detect-Detected_from zero low w s = λ v a b. absurd (omega arith)
  detect-Detected_from (suc n) low w s =
      by_answer _ (s low w) (detect-Detected_from n (low + 1) (call low w).1 s)
    where
      by_answer :
          (b : Bool)
          → accepted (call low w).0 ≡ b
          → Detected (low + 1) n (detect call n (low + 1) (call low w).1).0
          → Detected low
              (suc n)
              (tried low (detect call n (low + 1)) (accepted (call low w).0) (call low w).1).0
      by_answer true e r =
          rw (e, tried) (omega arith, omega arith, sym (s low w) ∙ e, λ v a b. absurd (omega arith))
      by_answer false e r = rw (e, tried) (later low n _ (sym (s low w) ∙ e) r)

  -- Over a hypervisor whose answers do not depend on its state, the search among n versions gives
  -- the least that is taken, and fails only if none is.
  pub detect-Detected : (n low : ℕ) (w : W) → IsSteady → Detected low n (detect call n low w).0
  detect-Detected n low w s = detect-Detected_from n low w s
