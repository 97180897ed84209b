-- ===== src/Client.antt =====
-- crates/snap7-client/src: the client above the codecs.
pub mod Areas
pub mod Calendar
pub mod Queries
pub mod Batch
pub mod BlockData
pub mod BlockInfo
pub mod Blocks
pub mod Connection
pub mod MultiVars
pub mod Session
pub mod Wrappers
