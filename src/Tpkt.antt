-- ===== src/Tpkt.antt =====
-- crates/snap7-client/src/proto/tpkt.rs: the outermost frame, a 4-byte header with the total length.
pub mod Laws
use rs_snap.Prelude.{
  ℕ, ◌+◌, ◌-◌, ◌*◌, ◌%◌, List, [], ◌∷◌, ◌++◌, length, ltb, ◌==◌, not, if◌then◌else◌,
}
use rs_snap.Wire.{
  Bytes, Result, ok, err, panic, encoding_failed, frame_too_large, invalid_magic, buffer_too_short,
  Reader, ◌>>=◌, ◌>>◌, need, pure, refuse, advance, split_to, put_u8, put_u16,
}

pub record TpktFrame : Type 0 where
  pub payload : Bytes

abbrev pub version : ℕ
version = 3

abbrev pub header_len : ℕ
header_len = 4

-- The bytes that `TpktFrame::encode` appends.
unfoldable pub encode : TpktFrame → Result Bytes
encode frame =
    let total = header_len + length frame.payload in
    if ltb 65535 total
    then err (encoding_failed frame_too_large)
    else ok (put_u8 version ++ (put_u8 0 ++ (put_u16 (total % 65536) ++ frame.payload)))

-- The reads by index, which leave the buffer as it is: `buf[0]`, and `buf[2]` with `buf[3]`.
abbrev peek_version : Reader ℕ
peek_version [] = panic
peek_version (v ∷ rest) = ok (v, v ∷ rest)

abbrev peek_total : Reader ℕ
peek_total (a ∷ b ∷ c ∷ d ∷ rest) = ok (c * 256 + d, a ∷ b ∷ c ∷ d ∷ rest)
peek_total _ = panic

unfoldable pub decode : Reader TpktFrame
decode = do
  need header_len
  v ← peek_version
  refuse (not (v == version)) (invalid_magic version v)
  total ← peek_total
  refuse (ltb total header_len) (buffer_too_short header_len total)
  need total
  advance header_len
  payload ← split_to (total - header_len)
  pure (record { payload = payload })
