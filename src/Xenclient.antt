-- ===== src/Xenclient.antt =====
-- crates/xen/xenclient/src: the allocation of device ids, and the transactions that describe domains and devices.
pub mod DevAlloc
pub mod Tx
pub mod DiskName
pub mod Pci
mod Tests
