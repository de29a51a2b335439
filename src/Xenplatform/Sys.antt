-- ===== src/Xenplatform/Sys.antt =====
-- crates/xen/xenplatform/src/sys.rs and error.rs, and the u64 arithmetic of a release build. The
-- operations of `XenCall` and of libc that this crate uses are parameters: what they answer, and the
-- state of the hypervisor and the address space behind them.
use Prim.Native.String.{String}
use krata.Xencall
use krata.Prelude.{ℕ, ◌+◌, ◌-◌, ◌*◌, ◌/◌, ◌%◌, ◌^◌, List, Option, Outcome}

pub data Error : Type 0 where
  xen_call : Xencall.Error → Error
  io tty_not_found introduce_domain_failed path_string_conversion path_parent_not_found : Error
  domain_non_existent elf_parse_failed mmap_failed : Error
  unmap_failed : ℕ → Error
  memory_setup_failed : String → Error
  populate_physmap_failed : (wanted received extents : ℕ) → Error
  elf_compression_unknown : Error
  elf_invalid_image : String → Error
  elf_not_linux elf_xen_support_missing : Error
  elf_xen_note_missing : String → Error
  regex_error : Error
  generic_error : String → Error
  parse_int_error async_join_error : Error

abbrev pub xen_page_shift : ℕ
xen_page_shift = 12

abbrev pub add64 : ℕ → ℕ → ℕ
add64 a b = (a + b) % 2 ^ 64

abbrev pub sub64 : ℕ → ℕ → ℕ
sub64 a b = (a + 2 ^ 64 - b) % 2 ^ 64

abbrev pub mul64 : ℕ → ℕ → ℕ
mul64 a b = a * b % 2 ^ 64

-- `<<` and `>>` on u64 by less than 64.
abbrev pub shl64 : ℕ → ℕ → ℕ
shl64 a k = a * 2 ^ k % 2 ^ 64

abbrev pub shr64 : ℕ → ℕ → ℕ
shr64 a k = a / 2 ^ k

-- The calls, each with the state that it leaves. Memory is filled and written through pointers.
pub record HyperApi : Type 1 where
  pub W : Type 0
  pub mmap : ℕ → W → Option ℕ × W
  pub mmap_batch : (domid num addr : ℕ) → List ℕ → W → Outcome Error ℕ × W
  -- The value that munmap returns, 0 for success.
  pub munmap : (addr len : ℕ) → W → ℕ × W
  pub fill_zero : (addr len : ℕ) → W → W
  pub copy : ℕ → List ℕ → W → W
