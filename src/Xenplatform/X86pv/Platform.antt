-- ===== src/Xenplatform/X86pv/Platform.antt =====
-- crates/xen/xenplatform/src/x86pv.rs: the state of `X86PvPlatform`, and the calls of the hypervisor and
-- the writes to memory that its steps make, which are parameters. The state stands beside the hypervisor's,
-- so that the allocator of boot.rs is used as it is.
pub mod Alloc
pub mod Setup
pub mod Build
pub mod Ends
pub mod Apart
pub mod Beside
pub mod LaidOut
pub mod Disjoint
use krata.Prelude.{
  ℕ, Bool, true, false, Option, none, some, List, get_elem?, Outcome, ok, err, panic, or_panic,
}
use Prim.Native.String.{String}
use krata.Prelude.Effect.{Action}
use krata.Xenplatform.Sys.{Error, HyperApi}
use krata.Xenplatform.Mem.{PhysicalPages}
use krata.Xenplatform.Boot.{DomainSegment, BootDomain}
use krata.Xenplatform.X86pv.Tables.{PageTable, no_tables}

pub record X86PvPlatform : Type 0 where
  pub table : PageTable
  pub p2m_segment : Option DomainSegment
  pub page_table_segment : Option DomainSegment
  pub start_info_segment : Option DomainSegment
  pub boot_stack_segment : Option DomainSegment
  pub xenstore_segment : Option DomainSegment

abbrev pub new : X86PvPlatform
new = record {
  table = no_tables;
  p2m_segment = none;
  page_table_segment = none;
  start_info_segment = none;
  boot_stack_segment = none;
  xenstore_segment = none;
}

pub record StartInfoConsole : Type 0 where
  pub mfn : ℕ
  pub evtchn : ℕ

-- The two arrays of characters are lists of bytes; what is past them is 0.
pub record StartInfo : Type 0 where
  pub magic : List ℕ
  pub nr_pages : ℕ
  pub shared_info : ℕ
  pub flags : ℕ
  pub store_mfn : ℕ
  pub store_evtchn : ℕ
  pub console : StartInfoConsole
  pub pt_base : ℕ
  pub nr_pt_frames : ℕ
  pub mfn_list : ℕ
  pub mod_start : ℕ
  pub mod_len : ℕ
  pub cmdline : List ℕ
  pub first_p2m_pfn : ℕ
  pub nr_p2m_frames : ℕ

pub record GrantEntry : Type 0 where
  pub flags : ℕ
  pub domid : ℕ
  pub frame : ℕ

-- The registers of `x8664VcpuGuestContext` that are set; all others are 0.
pub record VcpuGuestContext : Type 0 where
  pub flags : ℕ
  pub rip : ℕ
  pub rsp : ℕ
  pub rsi : ℕ
  pub rflags : ℕ
  pub cs : ℕ
  pub ss : ℕ
  pub kernel_ss : ℕ
  pub kernel_sp : ℕ
  pub cr3 : ℕ
  pub debug6 : ℕ
  pub debug7 : ℕ

-- The calls of `XenCall` that the steps make, and what they write through pointers.
pub record X86Calls (W : Type 0) : Type 0 where
  pub set_address_size : (domid size : ℕ) → Action W Error (Unit {0})
  pub claim_pages : (domid pages : ℕ) → Action W Error (Unit {0})
  pub populate_physmap : (domid count order flags : ℕ) → List ℕ → Action W Error (List ℕ)
  pub evtchn_alloc_unbound : (domid remote : ℕ) → Action W Error ℕ
  pub mmuext : (domid cmd arg1 arg2 : ℕ) → Action W Error (Unit {0})
  pub map_resource : (domid typ id idx num addr : ℕ) → Action W Error (Unit {0})
  pub set_vcpu_context : (domid vcpu : ℕ) → VcpuGuestContext → Action W Error (Unit {0})
  pub hypercall_init : (domid gmfn : ℕ) → Action W Error (Unit {0})
  -- Words of 64 bits, from an address on.
  pub write_words : ℕ → List ℕ → W → W
  pub write_start_info : ℕ → StartInfo → W → W
  -- `vcpu_info[i].evtchn_upcall_mask = 1` of the first so many entries.
  pub mask_upcalls : (addr count : ℕ) → W → W
  pub write_grant_entry : (addr index : ℕ) → GrantEntry → W → W

abbrev pub after_platform : {R W : Type 0} → X86PvPlatform → R × W → R × (X86PvPlatform × W)
after_platform p (r, w) = (r, (p, w))

-- The calls that boot.rs and mem.rs make, beside the platform's state.
abbrev pub with_platform : HyperApi → HyperApi
with_platform H = record {
  W = X86PvPlatform × H.W;
  mmap = λ len s. after_platform s.0 (H.mmap len s.1);
  mmap_batch = λ domid num addr mfns s. after_platform s.0 (H.mmap_batch domid num addr mfns s.1);
  munmap = λ addr len s. after_platform s.0 (H.munmap addr len s.1);
  fill_zero = λ addr len s. (s.0, H.fill_zero addr len s.1);
  copy = λ addr buffer s. (s.0, H.copy addr buffer s.1);
}

module _ (H : HyperApi) where
  abbrev pub Built : Type 0
  Built = BootDomain × (X86PvPlatform × H.W)

  abbrev pub Step : Type 0 → Type 0
  Step A = Action Built Error A

  abbrev pub of_domain : {A : Type 0} → (BootDomain → A) → Step A
  of_domain f (d, s) = (ok (f d), (d, s))

  abbrev pub of_platform : {A : Type 0} → (X86PvPlatform → A) → Step A
  of_platform f (d, (p, w)) = (ok (f p), (d, (p, w)))

  abbrev pub change_domain : (BootDomain → BootDomain) → Step (Unit {0})
  change_domain f (d, s) = (ok tt, (f d, s))

  abbrev pub change_platform : (X86PvPlatform → X86PvPlatform) → Step (Unit {0})
  change_platform f (d, (p, w)) = (ok tt, (d, (f p, w)))

  abbrev pub write_out : (H.W → H.W) → Step (Unit {0})
  write_out f (d, (p, w)) = (ok tt, (d, (p, f w)))

  abbrev pub beside :
      {A : Type 0} → BootDomain → X86PvPlatform → Outcome Error A × H.W → Outcome Error A × Built
  beside d p (r, w) = (r, (d, (p, w)))

  abbrev pub call_out : {A : Type 0} → Action H.W Error A → Step A
  call_out f (d, (p, w)) = beside d p (f w)

  abbrev pub on_domain_only :
      {A : Type 0} → X86PvPlatform × H.W → Outcome Error A × BootDomain → Outcome Error A × Built
  on_domain_only s (r, d) = (r, (d, s))

  -- A step of the allocator that leaves the rest alone.
  abbrev pub in_domain : {A : Type 0} → Action BootDomain Error A → Step A
  in_domain f (d, s) = on_domain_only s (f d)

  abbrev pub on_table :
      {A : Type 0}
      → BootDomain
      → X86PvPlatform
      → H.W
      → Outcome Error A × PageTable
      → Outcome Error A × Built
  on_table d p w (r, t) = (r, (d, (record p { table = t }, w)))

  -- A step that changes the page tables.
  abbrev pub in_table : {A : Type 0} → (BootDomain → Action PageTable Error A) → Step A
  in_table f (d, (p, w)) = on_table d p w (f d p.table)

  abbrev pub on_phys :
      {A : Type 0}
      → BootDomain
      → Outcome Error A × (PhysicalPages × (X86PvPlatform × H.W))
      → Outcome Error A × Built
  on_phys d (r, (phys, s)) = (r, (record d { phys = phys }, s))

  -- A step of mem.rs.
  abbrev pub in_phys :
      {A : Type 0} → Action (PhysicalPages × (X86PvPlatform × H.W)) Error A → Step A
  in_phys f (d, s) = on_phys d (f (d.phys, s))

  -- `domain.phys.p2m[pfn as usize]`.
  abbrev pub p2m_at : ℕ → Step ℕ
  p2m_at pfn (d, s) = (or_panic (get_elem? d.phys.p2m pfn), (d, s))

  abbrev pub present : Option DomainSegment → String → Outcome Error DomainSegment
  present none what = err (Error.memory_setup_failed what)
  present (some g) what = ok g

  -- `self.<segment>.as_ref().ok_or(...)`.
  abbrev pub segment_or : (X86PvPlatform → Option DomainSegment) → String → Step DomainSegment
  segment_or f what (d, (p, w)) = (present (f p) what, (d, (p, w)))
