-- ===== src/Wire.antt =====
-- The buffer and the outcomes that every codec of crates/snap7-client/src/proto works with.
mod Error
mod Buffer
mod Loop
pub mod Slices
pub use Error.{
  Message, frame_too_large, vlq_exceeds_u32, vlq_overflow, data_too_long, ProtoError,
  buffer_too_short, invalid_magic, unsupported_pdu_type, unsupported_function, encoding_failed,
  unsupported_area, unsupported_transport_size, invalid_version, integrity_failure, Result, ok, err,
  panic, Result-cases,
}
pub use Buffer.*
pub use Loop.{get_all-put_all, get_all-put_all_self, get_all-ne-panic}
unfoldable pub use Loop.{put_all, get_all}
