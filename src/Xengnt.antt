-- ===== src/Xengnt.antt =====
-- crates/xen/xengnt/src/sys.rs: the words of the grant device's variable-length requests.
pub mod Map
pub mod Alloc
mod Tests
