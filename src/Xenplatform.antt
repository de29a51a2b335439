-- ===== src/Xenplatform.antt =====
-- crates/xen/xenplatform/src: the building of a paravirtualised guest's memory and its first state.
pub mod Sys
pub mod Mem
pub mod Boot
pub mod X86pv
pub mod Elf
pub mod FromXencall
pub mod Domain
mod Tests
