-- ===== src/Xencall/Sysctl/Governor.antt =====
-- The name of a frequency governor, and the processors that it is set for.
use krata.Prelude.{
  ℕ, zero, suc, ◌+◌, ◌-◌, ◌%◌, ◌^◌, ◌≡◌, ◌≤◌, ◌<◌, refl, sym, ap, ◌∙◌, some, true, false, List, [],
  ◌∷◌, ◌++◌, append_assoc, append-nil, length, length-append, get_elem?, set, replicate, ltb, leb,
  arith, Outcome, ok, err, panic,
}
use krata.Prelude.Effect.{Action, pure, continue}
use krata.Xencall.{Error}
use krata.Xencall.Versions.{XenCall}
use krata.Xencall.Hypercall.{
  Hypervisor, Structure, SysctlValue, Arg, returned, hypercall1, hypercall,
}
use krata.Xencall.Hypercall.Log.{Sent, logged}
use krata.Xencall.Hypercall.Structures.{
  CpuId, SysctlPhysinfo, Sysctl, SysctlPmOp, SysctlSetCpuFreqGov,
}
use krata.Xencall.Sysctl.{
  hypervisor_sysctl, xen_sysctl_physinfo, xen_sysctl_pm_op, xen_sysctl_pm_op_set_cpufreq_gov,
  no_phys_info, copy_governor, request, phys_info, do_set_cpufreq_gov, for_cpus, set_cpufreq_gov,
}

module _ {A : Type 0} where
  get_elem?-middle : (xs ys : List A) (y : A) → get_elem? (xs ++ y ∷ ys) (length xs) ≡ some y
  get_elem?-middle [] ys y = refl
  get_elem?-middle (x ∷ xs) ys y = get_elem?-middle xs ys y

  set-middle : (xs ys : List A) (y z : A) → set (xs ++ y ∷ ys) (length xs) z ≡ (xs ++ z ∷ []) ++ ys
  set-middle [] ys y z = refl
  set-middle (x ∷ xs) ys y z = ap (λ k. x ∷ k) (set-middle xs ys y z)

copy_governor_from :
    (rest done : List ℕ) (n : ℕ)
    → length rest ≤ n
    → copy_governor n (length done) (done ++ rest) (done ++ replicate (suc n) 0)
      ≡ some ((done ++ rest) ++ replicate (suc n - length rest) 0)
unfolding copy_governor
copy_governor_from [] done zero h = rw append-nil refl
copy_governor_from (b ∷ rest) done zero h = absurd (omega arith)
copy_governor_from [] done (suc n) h = rw (append-nil, stops, all_zero) refl
  where
    all_zero : suc (suc n) - 0 ≡ suc (suc n)
    all_zero = omega arith

    stops : leb (length done) (length done) ≡ true
    stops = ground arith
copy_governor_from (b ∷ rest) done (suc n) h =
    rw
      (
        goes_on,
        get_elem?-middle done rest b,
        within,
        one_less,
        set-middle done (replicate (suc n) 0) 0 b,
      )
      (rw (length-snoc, append_assoc done (b ∷ []) rest) at
        (copy_governor_from rest (done ++ b ∷ []) n (omega arith)))
  where
    one_less : suc (suc n) - suc (length rest) ≡ suc n - length rest
    one_less = omega arith

    length-snoc : length (done ++ b ∷ []) ≡ length done + 1
    length-snoc = length-append done (b ∷ [])

    goes_on : leb (length (done ++ b ∷ rest)) (length done) ≡ false
    goes_on =
        let l : length (done ++ b ∷ rest) ≡ length done + suc (length rest) =
          length-append done (b ∷ rest) in
        ground arith

    within : ltb (length done) (length (done ++ replicate (suc (suc n)) 0)) ≡ true
    within =
        let l : length (done ++ replicate (suc (suc n)) 0)
            ≡ length done + suc (suc (length (replicate {A = ℕ} n 0))) =
          length-append done (replicate (suc (suc n)) 0) in
        ground arith

-- The name of a governor of 15 bytes at most is copied into a buffer of 16 whose other bytes, the last among them, are
-- zero, and no byte is written or read out of bounds.
pub governor_padded :
    (governor : List ℕ)
    → length governor ≤ 15
    → copy_governor 15 0 governor (replicate 16 0)
      ≡ some (governor ++ replicate (16 - length governor) 0)
governor_padded governor h = copy_governor_from governor [] 15 h

-- The request that sets the governor of one processor, with its answer.
abbrev pub governor_request : XenCall → List ℕ → ℕ → Outcome ℕ ℕ → Sent
governor_request x gov cpuid answer = record {
  answer = answer;
  structure = Structure.sysctl SysctlValue.pm_op_set_gov;
  op = hypervisor_sysctl;
  args = Arg.address ∷ Arg.word 0 ∷ Arg.word 0 ∷ Arg.word 0 ∷ Arg.word 0 ∷ [];
  contents = record {
    cmd = xen_sysctl_pm_op;
    interface_version = x.sysctl_interface_version;
    value = record {
      cmd = xen_sysctl_pm_op_set_cpufreq_gov;
      cpuid = cpuid;
      value = record { scaling_governor = gov ++ replicate (16 - length gov) 0 };
    };
  };
}

-- The request for the number of processors.
abbrev pub phys_info_request : XenCall → Outcome ℕ ℕ → Sent
phys_info_request x answer = record {
  answer = answer;
  structure = Structure.sysctl SysctlValue.phys_info;
  op = hypervisor_sysctl;
  args = Arg.address ∷ Arg.word 0 ∷ Arg.word 0 ∷ Arg.word 0 ∷ Arg.word 0 ∷ [];
  contents = record {
    cmd = xen_sysctl_physinfo;
    interface_version = x.sysctl_interface_version;
    value = no_phys_info;
  };
}

-- The requests for processors from one on, one for each of the values that were answered.
abbrev pub governor_requests : XenCall → List ℕ → List ℕ → ℕ → List Sent
governor_requests x gov [] from = []
governor_requests x gov (code ∷ codes) from =
    governor_request x gov from (ok code) ∷ governor_requests x gov codes (from + 1)

-- The error that a request fails with by its answer: none where a value is answered.
abbrev pub FailsWith : Outcome ℕ ℕ → Error → Type 0
FailsWith (ok code) e = ⊥
FailsWith (err errno) e = e ≡ Error.kernel errno
FailsWith panic e = e ≡ Error.join_error

module _ (H : Hypervisor) (x : XenCall) (gov : List ℕ) where
  abbrev Logs : Type 0
  Logs = H.W × List Sent

  -- One request was sent to a processor: it was answered with a value; or it failed, with its error as the result.
  abbrev OneSent : List Sent → ℕ → Outcome Error (Unit {0}) × Logs → Type 0
  OneSent log cpuid (ok u, s) =
      (code : ℕ) × (s.1 ≡ log ++ governor_request x gov cpuid (ok code) ∷ [])
  OneSent log cpuid (err e, s) =
      (answer : Outcome ℕ ℕ) × FailsWith answer e
      × (s.1 ≡ log ++ governor_request x gov cpuid answer ∷ [])
  OneSent log cpuid (panic, s) = ⊥

  -- After `before`, each of `n` processors was sent one request, in order, and all were answered with a value; or this
  -- holds of the first of them, the request to the next failed with the error that is the result, and no other was sent.
  abbrev pub AllSent : List Sent → (n from : ℕ) → Outcome Error (Unit {0}) × Logs → Type 0
  AllSent before n from (ok u, s) =
      (codes : List ℕ) × (length codes ≡ n) × (s.1 ≡ before ++ governor_requests x gov codes from)
  AllSent before n from (err e, s) =
      (codes : List ℕ) × (answer : Outcome ℕ ℕ) × (length codes < n)
      × FailsWith answer e
      × (s.1
          ≡ before
            ++ (governor_requests x gov codes from
                ++ governor_request x gov (from + length codes) answer ∷ []))
  AllSent before n from (panic, s) = ⊥

  do_set_cpufreq_gov-OneSent :
      (cpuid : ℕ) (w : H.W) (log : List Sent)
      → length gov ≤ 15
      → OneSent log cpuid (do_set_cpufreq_gov (logged H) x cpuid gov (w, log))
  unfolding do_set_cpufreq_gov request hypercall1
  do_set_cpufreq_gov-OneSent cpuid w log h =
      rw (short, governor_padded gov h)
        (by_answer (
          H.hypercall (governor_request x gov cpuid (ok 0)).structure hypervisor_sysctl
            (governor_request x gov cpuid (ok 0)).args
            (governor_request x gov cpuid (ok 0)).contents w))
    where
      by_answer :
          (r : Outcome ℕ ℕ × (Sysctl (SysctlPmOp SysctlSetCpuFreqGov) × H.W))
          → OneSent log cpuid (
              continue
                (continue
                  (returned
                    (logged H)
                    (Structure.sysctl SysctlValue.pm_op_set_gov)
                    (r.0, (r.1.0, (r.1.1, log ++ governor_request x gov cpuid r.0 ∷ []))))
                  (λ c. pure c.1.value))
                (λ c. pure tt))
      by_answer (ok code, (c, v)) = (code, refl)
      by_answer (err e, (c, v)) = (err e, refl, refl)
      by_answer (panic, (c, v)) = (panic, refl, refl)

      short : ltb 15 (length gov) ≡ false
      short = ground arith

  continue-AllSent :
      (log : List Sent) (n from : ℕ) (r : Outcome Error (Unit {0}) × Logs)
      (f : Unit {0} → Action Logs Error (Unit {0}))
      → OneSent log from r
      → ((w : H.W) (log' : List Sent) → AllSent log' n (from + 1) (f tt (w, log')))
      → AllSent log (suc n) from (continue r f)
  continue-AllSent log n from (ok u, (w, log')) f (code, h) g = moved _ (g w log')
    where
      joined :
          (sent rest : List Sent)
          → sent ≡ log' ++ rest
          → sent ≡ log ++ governor_request x gov from (ok code) ∷ rest
      joined sent rest e =
          e
          ∙ ap (λ k. k ++ rest) h
          ∙ append_assoc log (governor_request x gov from (ok code) ∷ []) rest

      next_is : (k : ℕ) → from + 1 + k ≡ from + suc k
      next_is k = omega arith

      moved :
          (r : Outcome Error (Unit {0}) × Logs)
          → AllSent log' n (from + 1) r
          → AllSent log (suc n) from r
      moved (ok u, s) (codes, k, e) = (code ∷ codes, ap suc k, joined s.1 _ e)
      moved (err e, s) (codes, answer, k, a, l) = (
        code ∷ codes,
        answer,
        omega arith,
        a,
        joined s.1 _ (
            l
            ∙ ap
                (λ i.
                  log'
                  ++ (governor_requests x gov codes (from + 1)
                      ++ governor_request x gov i answer ∷ []))
                (next_is (length codes))),
      )
      moved (panic, s) e = e
  continue-AllSent log n from (err e, s) f (answer, a, h) g =
      let here : from ≡ from + 0 = omega arith in
      ([], answer, omega arith, a, h ∙ ap (λ i. log ++ governor_request x gov i answer ∷ []) here)
  continue-AllSent log n from (panic, s) f h g = h

  for_cpus-AllSent :
      (n from : ℕ) (w : H.W) (log : List Sent)
      → length gov ≤ 15
      → AllSent log n from (
          for_cpus
            (logged H)
            x
            (λ cpuid. do_set_cpufreq_gov (logged H) x cpuid gov)
            n
            from
            (w, log))
  unfolding for_cpus
  for_cpus-AllSent zero from w log h = ([], refl, sym (append-nil log))
  for_cpus-AllSent (suc n) from w log h =
      continue-AllSent log n from _ _ (do_set_cpufreq_gov-OneSent from w log h)
        (λ v log'. for_cpus-AllSent n (from + 1) v log' h)

  -- When the hypervisor says how many processors there are, fewer than 2^32, setting a governor of 15 bytes at most for
  -- all of them asks for that number and then sends one request to each processor from 0 on, in order, all of which are
  -- answered with a value; or it sends them up to the first that fails, whose error is the result.
  pub set_cpufreq_gov-AllSent :
      (w : H.W) (info : SysctlPhysinfo)
      → length gov ≤ 15
      → info.max_cpu_id + 1 < 4294967296
      → (phys_info H x w).0 ≡ ok info
      → (code : ℕ) × AllSent
          (phys_info_request x (ok code) ∷ [])
          (info.max_cpu_id + 1)
          0
          (set_cpufreq_gov (logged H) x CpuId.all gov (w, []))
  unfolding set_cpufreq_gov phys_info request hypercall1 hypercall
  set_cpufreq_gov-AllSent w info h small e =
      by_answer
        (H.hypercall (Structure.sysctl SysctlValue.phys_info) hypervisor_sysctl
          (phys_info_request x (ok 0)).args (phys_info_request x (ok 0)).contents w)
        e
    where
      by_answer :
          (r : Outcome ℕ ℕ × (Sysctl SysctlPhysinfo × H.W))
          → (continue
              (returned H (Structure.sysctl SysctlValue.phys_info) r)
              (λ c. pure c.1.value)).0
            ≡ ok info
          → (code : ℕ) × AllSent (phys_info_request x (ok code) ∷ []) (info.max_cpu_id + 1) 0 (
              continue
                (continue
                  (returned
                    (logged H)
                    (Structure.sysctl SysctlValue.phys_info)
                    (r.0, (r.1.0, (r.1.1, phys_info_request x r.0 ∷ []))))
                  (λ c. pure c.1.value))
                (λ i.
                  for_cpus
                    (logged H)
                    x
                    (λ cpuid. do_set_cpufreq_gov (logged H) x cpuid gov)
                    ((i.max_cpu_id + 1) % 2 ^ 32)
                    0))
      by_answer (ok code, (c, v)) e =
          let same : c.value ≡ info = cc in
          let number : (info.max_cpu_id + 1) % 2 ^ 32 ≡ info.max_cpu_id + 1 = omega arith in
          (
            code,
            rw (same, number)
                (for_cpus-AllSent (info.max_cpu_id + 1) 0 v (phys_info_request x (ok code) ∷ []) h),
          )
      by_answer (err n, (c, v)) e = absurd (let g : err (Error.kernel n) ≡ ok info = e in cc g)
      by_answer (panic, (c, v)) e = absurd (let g : err Error.join_error ≡ ok info = e in cc g)
