-- ===== src/Xenplatform/X86pv.antt =====
-- crates/xen/xenplatform/src/x86pv.rs: the platform of paravirtualised x86-64 guests: its page tables,
-- the frames of the guest, and the pages that the guest starts with.
pub mod Tables
pub mod Walk
pub mod Count
pub mod Memory
pub mod Platform
mod Tests
