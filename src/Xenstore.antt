-- ===== src/Xenstore.antt =====
-- crates/xen/xenstore/src: the XenStore protocol, the connection that carries it, and the client.
pub mod Sys
pub mod Message
pub mod Bus
pub mod Client
pub mod Tests
