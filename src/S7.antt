-- ===== src/S7.antt =====
-- crates/snap7-client/src/proto/s7: the S7 PDUs that travel in COTP data.
pub mod Codes
pub mod Header
pub mod Address
pub mod Sized
pub mod ReadVar
pub mod WriteVar
pub mod Negotiate
pub mod Clock
pub mod Szl
