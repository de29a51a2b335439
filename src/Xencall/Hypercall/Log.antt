-- ===== src/Xencall/Hypercall/Log.antt =====
-- The hypervisor with a log of the hypercalls that are made.
use krata.Prelude.{Outcome, ℕ, List, [], ◌∷◌, ◌++◌}
use krata.Xencall.Hypercall.{Hypervisor, Structure, Contents, Arg}

-- A hypercall, with its structure as it was sent and the answer.
pub record Sent : Type 0 where
  pub structure : Structure
  pub op : ℕ
  pub args : List Arg
  pub contents : Contents structure
  pub answer : Outcome ℕ ℕ

-- A call is logged when it is made.
abbrev pub logged : Hypervisor → Hypervisor
logged H = record {
  W = H.W × List Sent;
  hypercall = λ s op args c w.
      let (r, (c', w')) = H.hypercall s op args c w.0 in
      (
        r,
        (
          c',
          (
            w',
            w.1 ++ record { structure = s; op = op; args = args; contents = c; answer = r } ∷ [],
          ),
        ),
      );
  mmap_resource = λ dom typ id idx num addr w.
      let (r, w') = H.mmap_resource dom typ id idx num addr w.0 in (r, (w', w.1));
}
