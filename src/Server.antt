-- ===== src/Server.antt =====
-- crates/snap7-server/src.
pub mod Dispatch
pub mod Handshake
pub mod Memory
pub mod Reads
pub mod Replies
pub mod Serve
pub mod Store
