-- ===== src/Xenstore/Tests.antt =====
-- The theorems of the xenstore crate at concrete messages, connections and stores.
pub mod Wire
mod BusRuns
pub mod StoreRuns
