-- ===== src/Xencall/Sysctl.antt =====
-- crates/xen/xencall/src/lib.rs: the requests of the system control interface, on the processors of the machine and on
-- the console of the hypervisor.
pub mod Governor
use krata.Prelude.{
  ℕ, zero, suc, ◌+◌, ◌%◌, ◌^◌, Bool, true, false, Option, none, some, List, [], ◌∷◌, length,
  get_elem?, set, replicate, ltb, leb, if◌then◌else◌, Outcome, ok, err, or_panic,
}
use krata.Prelude.Effect.{Action, ◌>>=◌, ◌>>◌, pure, raise, raise_if, lift}
use krata.Xencall.{Error}
use krata.Xencall.Versions.{XenCall, xen_sysctl_cputopoinfo}
use krata.Xencall.Hypercall.{
  Hypervisor, Arg, Structure, SysctlValue, SysctlMember, hypercall1, written,
}
use krata.Xencall.Hypercall.Structures.{Sysctl, SysctlCputopo, SysctlPhysinfo, CpuId, all, single}

abbrev pub hypervisor_sysctl : ℕ
hypervisor_sysctl = 35

abbrev pub xen_sysctl_readconsole : ℕ
xen_sysctl_readconsole = 1

abbrev pub xen_sysctl_physinfo : ℕ
xen_sysctl_physinfo = 3

abbrev pub xen_sysctl_pm_op : ℕ
xen_sysctl_pm_op = 12

abbrev pub xen_sysctl_pm_op_set_cpufreq_gov : ℕ
xen_sysctl_pm_op_set_cpufreq_gov = 0x12

abbrev pub xen_sysctl_pm_op_enable_turbo : ℕ
xen_sysctl_pm_op_enable_turbo = 0x26

abbrev pub xen_sysctl_pm_op_disable_turbo : ℕ
xen_sysctl_pm_op_disable_turbo = 0x27

abbrev pub no_cputopo : SysctlCputopo
no_cputopo = record { core = 0; socket = 0; node = 0 }

-- `SysctlPhysinfo::default()`.
abbrev pub no_phys_info : SysctlPhysinfo
no_phys_info = record {
  threads_per_core = 0;
  cores_per_socket = 0;
  nr_cpus = 0;
  max_cpu_id = 0;
  nr_nodes = 0;
  max_node_id = 0;
  cpu_khz = 0;
  capabilities = 0;
  arch_capabilities = 0;
  pad = 0;
  total_pages = 0;
  free_pages = 0;
  scrub_pages = 0;
  outstanding_pages = 0;
  max_mfn = 0;
  hw_cap = replicate 8 0;
}

-- `scaling_governor[i] = governor[i]`, which panics past the end of either.
abbrev pub copied : Option ℕ → ℕ → List ℕ → Option (List ℕ)
copied none i scaling_governor = none
copied (some byte) i scaling_governor =
    if ltb i (length scaling_governor) then some (set scaling_governor i byte) else none

abbrev pub and_on : (List ℕ → Option (List ℕ)) → Option (List ℕ) → Option (List ℕ)
and_on rest none = none
and_on rest (some scaling_governor) = rest scaling_governor

-- The loop over `0..15` with `n` rounds left, at the byte `i`.
unfoldable pub copy_governor : ℕ → ℕ → List ℕ → List ℕ → Option (List ℕ)
copy_governor zero i governor scaling_governor = some scaling_governor
copy_governor (suc n) i governor scaling_governor =
    let rest = copy_governor n (i + 1) governor in
    if leb (length governor) i
    then some scaling_governor
    else and_on rest (copied (get_elem? governor i) i scaling_governor)

module _ (H : Hypervisor) (x : XenCall) where
  open H use {W}

  -- A request of the system control interface, and what the hypervisor leaves in it.
  unfoldable pub request : (f : SysctlValue) → ℕ → SysctlMember f → Action W Error (SysctlMember f)
  unfolding hypercall1
  request f cmd value = do
    (code, sysctl') ←
        hypercall1 H (Structure.sysctl f) hypervisor_sysctl Arg.address
          (record { cmd = cmd; interface_version = x.sysctl_interface_version; value = value })
    pure sysctl'.value

  unfoldable pub cpu_topology : Action W Error (List SysctlCputopo)
  unfolding request
  cpu_topology = do
    first ←
        request SysctlValue.cputopoinfo xen_sysctl_cputopoinfo
          (record { num_cpus = 0; handle = [] })
    let topos = replicate first.num_cpus no_cputopo
    second ←
        request SysctlValue.cputopoinfo xen_sysctl_cputopoinfo
          (record { num_cpus = first.num_cpus; handle = topos })
    pure (written second.handle topos)

  unfoldable pub phys_info : Action W Error SysctlPhysinfo
  unfolding request
  phys_info = request SysctlValue.phys_info xen_sysctl_physinfo no_phys_info

  unfoldable pub do_set_cpufreq_gov : ℕ → List ℕ → Action W Error (Unit {0})
  unfolding request copy_governor
  do_set_cpufreq_gov cpuid governor = do
    raise_if (ltb 15 (length governor)) Error.value_too_long
    scaling_governor ← lift (or_panic (copy_governor 15 0 governor (replicate 16 0)))
    request SysctlValue.pm_op_set_gov xen_sysctl_pm_op (record {
      cmd = xen_sysctl_pm_op_set_cpufreq_gov;
      cpuid = cpuid;
      value = record { scaling_governor = scaling_governor };
    })
    pure tt

  unfoldable pub do_set_turbo_mode : ℕ → Bool → Action W Error (Unit {0})
  unfolding request
  do_set_turbo_mode cpuid enable = do
    request SysctlValue.pm_op_pad xen_sysctl_pm_op (record {
      cmd = if enable then xen_sysctl_pm_op_enable_turbo else xen_sysctl_pm_op_disable_turbo;
      cpuid = cpuid;
      value = replicate 128 0;
    })
    pure tt

  -- `for cpuid in from..from + n`.
  unfoldable pub for_cpus :
      (ℕ → Action W Error (Unit {0})) → (n from : ℕ) → Action W Error (Unit {0})
  for_cpus body zero from = pure tt
  for_cpus body (suc n) from = do body from; for_cpus body n (from + 1)

  -- The bound `max_cpu_id + 1` is a u32.
  unfoldable pub set_cpufreq_gov : CpuId → List ℕ → Action W Error (Unit {0})
  unfolding phys_info do_set_cpufreq_gov for_cpus
  set_cpufreq_gov all gov = do
    info ← phys_info
    for_cpus (λ cpuid. do_set_cpufreq_gov cpuid gov) ((info.max_cpu_id + 1) % 2 ^ 32) 0
  set_cpufreq_gov (single id) gov = do_set_cpufreq_gov id gov

  unfoldable pub set_turbo_mode : CpuId → Bool → Action W Error (Unit {0})
  unfolding phys_info do_set_turbo_mode for_cpus
  set_turbo_mode all enable = do
    info ← phys_info
    for_cpus (λ cpuid. do_set_turbo_mode cpuid enable) ((info.max_cpu_id + 1) % 2 ^ 32) 0
  set_turbo_mode (single id) enable = do_set_turbo_mode id enable

  -- The buffer and the new index.
  unfoldable pub read_console_ring_raw : Bool → ℕ → Action W Error (List ℕ × ℕ)
  unfolding request
  read_console_ring_raw clear index = do
    console ← request SysctlValue.console xen_sysctl_readconsole (record {
      clear = if clear then 1 else 0;
      incremental = 1;
      pad = 0;
      index = index;
      buffer = replicate 16384 0;
      count = 16384;
    })
    pure (written console.buffer (replicate 16384 0), console.index)
