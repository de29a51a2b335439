-- ===== src/Xencall.antt =====
-- crates/xen/xencall/src/lib.rs and error.rs: which versions of the interface the hypervisor takes, and the
-- mapping of a domain's frames. The ioctl calls of the kernel are parameters.
pub mod Versions
pub mod Batch
pub mod Hypercall
pub mod Domctl
pub mod MemoryOp
pub mod Sysctl
pub mod Commands
mod Tests
use krata.Prelude.{ℕ, List, Outcome, Bool, false, ◌==◌}

pub data Error : Type 0 where
  xen_version_unsupported : Error
  kernel : ℕ → Error
  io acquire_semaphore_failed populate_physmap_failed : Error
  mmap_batch_failed : ℕ → Error
  value_too_long join_error : Error

-- The number of the error of a call that finds frames paged out.
abbrev pub enoent : ℕ
enoent = 2

-- An i32: `negsuc n` is -(n + 1).
pub data ℤ : Type 0 where
  pos negsuc : ℕ → ℤ

-- `== libc::ENOENT`, of an i32.
unfoldable pub is_enoent : ℤ → Bool
is_enoent (pos n) = n == 2
is_enoent (negsuc n) = false

-- The fields of a `DomCtl` and of a `Sysctl` that are not their values.
pub record Request : Type 0 where
  pub cmd : ℕ
  pub interface_version : ℕ
  pub domid : ℕ

-- A call of the kernel ends with an error number or with the value it returns. `mmapbatch` gets the number of
-- frames, the domain, the address and the frames, and leaves an i32 for each of the frames.
pub record Kernel : Type 1 where
  pub W : Type 0
  pub domctl : Request → W → Outcome ℕ ℕ × W
  pub sysctl : Request → W → Outcome ℕ ℕ × W
  pub mmapbatch : (num domid addr : ℕ) → List ℕ → W → Outcome ℕ ℕ × (List ℤ × W)
