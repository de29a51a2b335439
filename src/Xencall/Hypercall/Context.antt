-- ===== src/Xencall/Hypercall/Context.antt =====
-- crates/xen/xencall/src/sys.rs: the context of a virtual processor of the architecture x86_64, which
-- `VcpuGuestContextAny` holds there. The fields that only fill space are left out.
use krata.Prelude.{ℕ, List, replicate}

pub record VcpuGuestContextFpuCtx : Type 0 where
  pub x : List ℕ

pub record X8664CpuUserRegs : Type 0 where
  pub r15 : ℕ
  pub r14 : ℕ
  pub r13 : ℕ
  pub r12 : ℕ
  pub rbp : ℕ
  pub rbx : ℕ
  pub r11 : ℕ
  pub r10 : ℕ
  pub r9 : ℕ
  pub r8 : ℕ
  pub rax : ℕ
  pub rcx : ℕ
  pub rdx : ℕ
  pub rsi : ℕ
  pub rdi : ℕ
  pub error_code : ℕ
  pub entry_vector : ℕ
  pub rip : ℕ
  pub cs : ℕ
  pub saved_upcall_mask : ℕ
  pub rflags : ℕ
  pub rsp : ℕ
  pub ss : ℕ
  pub es : ℕ
  pub ds : ℕ
  pub fs : ℕ
  pub gs : ℕ

pub record TrapInfo : Type 0 where
  pub vector : ℕ
  pub flags : ℕ
  pub cs : ℕ
  pub address : ℕ

pub record X8664VcpuGuestContext : Type 0 where
  pub fpu_ctx : VcpuGuestContextFpuCtx
  pub flags : ℕ
  pub user_regs : X8664CpuUserRegs
  pub trap_ctx : List TrapInfo
  pub ldt_base : ℕ
  pub ldt_ents : ℕ
  pub gdt_frames : List ℕ
  pub gdt_ents : ℕ
  pub kernel_ss : ℕ
  pub kernel_sp : ℕ
  pub ctrlreg : List ℕ
  pub debugreg : List ℕ
  pub event_callback_eip : ℕ
  pub failsafe_callback_eip : ℕ
  pub syscall_callback_eip : ℕ
  pub vm_assist : ℕ
  pub fs_base : ℕ
  pub gs_base_kernel : ℕ
  pub gs_base_user : ℕ

-- `Default::default()` of the registers, of a trap and of the whole context.
abbrev pub no_regs : X8664CpuUserRegs
no_regs = record {
  r15 = 0;
  r14 = 0;
  r13 = 0;
  r12 = 0;
  rbp = 0;
  rbx = 0;
  r11 = 0;
  r10 = 0;
  r9 = 0;
  r8 = 0;
  rax = 0;
  rcx = 0;
  rdx = 0;
  rsi = 0;
  rdi = 0;
  error_code = 0;
  entry_vector = 0;
  rip = 0;
  cs = 0;
  saved_upcall_mask = 0;
  rflags = 0;
  rsp = 0;
  ss = 0;
  es = 0;
  ds = 0;
  fs = 0;
  gs = 0;
}

abbrev pub no_trap : TrapInfo
no_trap = record { vector = 0; flags = 0; cs = 0; address = 0 }

abbrev pub no_fpu_ctx : VcpuGuestContextFpuCtx
no_fpu_ctx = record { x = replicate 512 0 }

abbrev pub no_context : X8664VcpuGuestContext
no_context = record {
  fpu_ctx = no_fpu_ctx;
  flags = 0;
  user_regs = no_regs;
  trap_ctx = replicate 256 no_trap;
  ldt_base = 0;
  ldt_ents = 0;
  gdt_frames = replicate 16 0;
  gdt_ents = 0;
  kernel_ss = 0;
  kernel_sp = 0;
  ctrlreg = replicate 8 0;
  debugreg = replicate 8 0;
  event_callback_eip = 0;
  failsafe_callback_eip = 0;
  syscall_callback_eip = 0;
  vm_assist = 0;
  fs_base = 0;
  gs_base_kernel = 0;
  gs_base_user = 0;
}
