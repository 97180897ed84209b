-- ===== src/Plus.antt =====
-- crates/snap7-client/src/proto/s7commplus: the S7CommPlus frames of the S7-1200 and S7-1500.
pub mod Vlq
pub mod Frame
pub mod DataArea
pub mod MultiVar
pub mod Session
pub mod Integrity
pub mod Client
