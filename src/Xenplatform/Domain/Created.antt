-- ===== src/Xenplatform/Domain/Created.antt =====
-- crates/xen/xenplatform/src/domain.rs: what `create` leaves behind when it fails.
use krata.Prelude.{ℕ, ◌≡◌, ◌⊎◌, inl, inr, refl, List, [], ◌∷◌, replicate, Outcome, ok, err, panic}
use krata.Prelude.Effect.{continue, pure}
use krata.Xencall.Hypercall.{Structure, DomCtlValue, Contents, Arg, returned, hypercall, hypercall1}
use krata.Xencall.Versions.{XenCall}
use krata.Xencall.Domctl
use krata.Xencall.Domctl.{hypervisor_domctl, xen_domctl_destroydomain}
use krata.Xenplatform.Sys.{Error, HyperApi}
use krata.Xenplatform.Boot.{BootDomain}
use krata.Xenplatform.Domain.{
  PlatformDomainConfig, PlatformDomainInfo, Writes, Readers, hypervisor, create_base_domain,
  create_internal, or_destroy, create,
}

module _ (H : HyperApi)
    (call : (s : Structure) → ℕ → List Arg → Contents s → H.W → Outcome ℕ ℕ × (Contents s × H.W))
    (resource : (dom typ id idx num addr : ℕ) → H.W → Outcome ℕ ℕ × H.W) (writes : Writes H.W)
    (readers : Readers) (x : XenCall) where
  -- What holds when the hypervisor has answered a request to destroy a domain, whatever the answer is.
  abbrev pub AfterDestroy : (ℕ → H.W → Type 0) → Type 0
  AfterDestroy P =
      (domid : ℕ) (w : H.W)
      → P domid
          (call (Structure.domctl DomCtlValue.pad) hypervisor_domctl
            (Arg.address ∷ Arg.word 0 ∷ Arg.word 0 ∷ Arg.word 0 ∷ Arg.word 0 ∷ [])
            (record {
              cmd = xen_domctl_destroydomain;
              interface_version = x.domctl_interface_version;
              domid = domid;
              value = replicate 128 0;
            })
            w).1.1

  -- How `create` ends, by how the domain itself was created: it gives the domain that the hypervisor made; or its error
  -- is that of the creation; or there was a domain, and the request to destroy it was the last call.
  abbrev pub CleanedUp :
      (ℕ → H.W → Type 0) → Outcome Error ℕ → Outcome Error PlatformDomainInfo × H.W → Type 0
  CleanedUp P base (ok info, w) = base ≡ ok info.domid
  CleanedUp P base (err e, w) = (base ≡ err e) ⊎ ((domid : ℕ) × (base ≡ ok domid) × P domid w)
  CleanedUp P base (panic, w) = Unit {0}

  destroy_domain_last :
      (P : ℕ → H.W → Type 0) (domid : ℕ) (w : H.W)
      → AfterDestroy P
      → P domid (Domctl.destroy_domain (hypervisor H call resource writes readers x) x domid w).1
  unfolding Domctl.destroy_domain Domctl.request hypercall1 hypercall
  destroy_domain_last P domid w a = by_answer _ (a domid w)
    where
      by_answer :
          (r : Outcome ℕ ℕ × (Contents (Structure.domctl DomCtlValue.pad) × H.W))
          → P domid r.1.1
          → P domid
              (continue
                (continue
                  (returned
                    (hypervisor H call resource writes readers x)
                    (Structure.domctl DomCtlValue.pad)
                    r)
                  (λ c. pure c.1))
                (λ c. pure tt)).1
      by_answer (ok code, (c, v)) p = p
      by_answer (err e, (c, v)) p = p
      by_answer (panic, (c, v)) p = p

  or_destroy-CleanedUp :
      (P : ℕ → H.W → Type 0) (domid : ℕ) (r : Outcome Error BootDomain × H.W)
      → AfterDestroy P
      → CleanedUp P (ok domid) (or_destroy H call resource writes readers x domid r)
  or_destroy-CleanedUp P domid (ok domain, w) a = refl
  or_destroy-CleanedUp P domid (err e, w) a = inr (domid, refl, destroy_domain_last P domid w a)
  or_destroy-CleanedUp P domid (panic, w) a = tt

  -- When `create` fails, the error is that of making the domain, or the hypervisor has made a domain and the last call is
  -- the request to destroy it, so that what holds after every such request holds. When it succeeds it gives the domain
  -- that the hypervisor made. Of a panic nothing is said.
  pub create-CleanedUp :
      (P : ℕ → H.W → Type 0) (config : PlatformDomainConfig) (w : H.W)
      → AfterDestroy P
      → CleanedUp P
          (create_base_domain H call resource writes readers x config w).0
          (create H call resource writes readers x config w)
  unfolding create
  create-CleanedUp P config w a =
      by_base (create_base_domain H call resource writes readers x config w)
    where
      by_base :
          (b : Outcome Error ℕ × H.W)
          → CleanedUp P b.0 (
              continue b (λ domid v.
                or_destroy H call resource writes readers x domid
                  (create_internal H call resource writes readers x domid config v)))
      by_base (ok domid, v) = or_destroy-CleanedUp P domid _ a
      by_base (err e, v) = inl refl
      by_base (panic, v) = tt
