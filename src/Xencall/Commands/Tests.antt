-- ===== src/Xencall/Commands/Tests.antt =====
-- The theorems on the hypercalls at a hypervisor that keeps the memory limits of two domains, and knows two processors.
use krata.Prelude.{
  ℕ, ◌≡◌, refl, some, List, [], ◌∷◌, ◌++◌, replicate, arith, ◌==◌, if◌then◌else◌, Outcome, ok, err,
}
use krata.Prelude.Text.{bytes}
use krata.Xencall.Versions.{XenCall}
use krata.Xencall.Hypercall.{Hypervisor, Structure, DomCtlValue, SysctlValue, Contents, Arg}
use krata.Xencall.Hypercall.Log.{logged}
use krata.Xencall.Hypercall.Structures.{CpuId, SysctlPhysinfo}
use krata.Xencall.Domctl
use krata.Xencall.Commands
use krata.Xencall.Commands.{Command, Addressed, run_all, run_all-Keeps}
use krata.Xencall.MemoryOp.{get_memory_map, no_entry}
use krata.Xencall.Sysctl.{copy_governor, set_cpufreq_gov, phys_info, no_phys_info}
use krata.Xencall.Sysctl.Governor.{
  governor_padded, set_cpufreq_gov-AllSent, AllSent, phys_info_request,
}

-- The limits of the domains 7 and 9.
abbrev Limits : Type 0
Limits = ℕ × ℕ

abbrev with_limit : ℕ → ℕ → Limits → Limits
with_limit domid memkb (a, b) =
    if domid == 7 then (memkb, b) else if domid == 9 then (a, memkb) else (a, b)

abbrev two_processors : SysctlPhysinfo
two_processors = record no_phys_info { nr_cpus = 2; max_cpu_id = 1 }

abbrev answers :
    (s : Structure) → ℕ → List Arg → Contents s → Limits → Outcome ℕ ℕ × (Contents s × Limits)
answers (Structure.domctl DomCtlValue.max_mem) op args c w =
    (ok 0, (c, with_limit c.domid c.value.max_memkb w))
answers (Structure.sysctl SysctlValue.phys_info) op args c w =
    (ok 0, (record c { value = two_processors }, w))
answers (Structure.sysctl SysctlValue.pm_op_set_gov) op args c w =
    (if c.value.cpuid == 0 then ok 0 else err 19, (c, w))
answers Structure.memory_map op args c w = (ok 0, (record c { count = 5 }, w))
answers s op args c w = (err 38, (c, w))

abbrev two_domains : Hypervisor
two_domains = record {
  W = Limits;
  hypercall = answers;
  mmap_resource = λ dom typ id idx num addr w. (err 38, w);
}

abbrev version_17 : XenCall
version_17 = record { domctl_interface_version = 0x17; sysctl_interface_version = 0x20 }

-- The limit of domain 9.
abbrev NineHas : ℕ → Limits → Type 0
NineHas memkb w = w.1 ≡ memkb

other_domain :
    (s : Structure) (op : ℕ) (args : List Arg) (c : Contents s) (w : Limits)
    → Addressed version_17 7 s op args c
    → NineHas 512 w
    → NineHas 512 (answers s op args c w).1.1
other_domain (Structure.domctl DomCtlValue.max_mem) op args c (a, b) (o, v, d) i = rw d i
other_domain (Structure.domctl f) op args c w h i = i
other_domain (Structure.sysctl f) op args c w h i = absurd h
other_domain s op args c w h i = i

abbrev commands : List Command
commands = Command.set_max_mem 1024 ∷ Command.set_max_vcpus 2 ∷ []

ran : (run_all two_domains version_17 7 commands (256, 512)).1 ≡ (1024, 512)
unfolding Commands.run Domctl.set_max_mem Domctl.set_max_vcpus
ran = refl

run_all-Keeps_example : NineHas 512 (run_all two_domains version_17 7 commands (256, 512)).1
run_all-Keeps_example =
    run_all-Keeps two_domains version_17 7 (NineHas 512) other_domain commands (256, 512) refl

-- The hypervisor says that it has five entries where there is room for three.
entries_limited : (get_memory_map two_domains 3 (256, 512)).0 ≡ ok (replicate 3 no_entry)
unfolding get_memory_map
entries_limited = refl

abbrev performance : List ℕ
performance = bytes "performance"

governor_padded_example :
    copy_governor 15 0 performance (replicate 16 0) ≡ some (performance ++ replicate 5 0)
governor_padded_example = governor_padded performance (omega arith)

two_known : (phys_info two_domains version_17 (256, 512)).0 ≡ ok two_processors
unfolding phys_info
two_known = refl

-- The second processor refuses.
set_cpufreq_gov-AllSent_example :
    (code : ℕ) × AllSent two_domains version_17 performance
      (phys_info_request version_17 (ok code) ∷ [])
      2
      0
      (set_cpufreq_gov (logged two_domains) version_17 CpuId.all performance ((256, 512), []))
set_cpufreq_gov-AllSent_example =
    set_cpufreq_gov-AllSent two_domains version_17 performance (256, 512) two_processors
      (omega arith) (omega arith) two_known
