-- ===== src/Plus/Frame.antt =====
-- crates/snap7-client/src/proto/s7commplus/frame.rs: data between a 4-byte header and a trailer that
-- repeats it.
pub mod Laws
use rs_snap.Prelude.{
  ℕ, ◌+◌, ◌*◌, ◌/◌, ◌%◌, List, [], ◌∷◌, ◌++◌, length, ltb, ◌==◌, not, ◌||◌, if◌then◌else◌,
}
use rs_snap.Wire.{
  Bytes, Result, ok, err, panic, encoding_failed, data_too_long, invalid_magic, invalid_version,
  integrity_failure, Reader, ◌>>=◌, ◌>>◌, need, refuse, pure, lift, get_u8, get_u16, split_to,
  put_u8, put_u16,
}

abbrev pub magic : ℕ
magic = 0x72

abbrev pub header_len : ℕ
header_len = 4

pub data Version : Type 0 where
  v1 v2 v3 keep_alive : Version

-- `as_u8`
unfoldable pub version_code : Version → ℕ
version_code Version.v1 = 0x01
version_code Version.v2 = 0x02
version_code Version.v3 = 0x03
version_code Version.keep_alive = 0xff

-- `Version::try_from`
unfoldable pub version_of : ℕ → Result Version
version_of v =
    if v == 0x01
    then ok Version.v1
    else if v == 0x02
    then ok Version.v2
    else if v == 0x03
    then ok Version.v3
    else if v == 0xff
    then ok Version.keep_alive
    else err (invalid_version v)

pub record S7PlusFrame : Type 0 where
  pub version : Version
  pub content : Bytes

-- The header, and the trailer.
abbrev pub put_fence : Version → ℕ → Bytes
put_fence version len = put_u8 magic ++ (put_u8 (version_code version) ++ put_u16 len)

unfoldable pub encode : S7PlusFrame → Result Bytes
encode frame =
    let len = length frame.content in
    if ltb 65535 len
    then err (encoding_failed data_too_long)
    else ok (
        put_fence frame.version (len % 65536)
        ++ (frame.content ++ put_fence frame.version (len % 65536)))

-- The trailer, which must repeat the version and the length of the header.
unfoldable pub check_trailer : ℕ → ℕ → Reader (Unit {0})
check_trailer h_version data_len = do
  need header_len
  t_magic ← get_u8
  t_version ← get_u8
  t_data_len ← get_u16
  refuse (not (t_magic == magic)) (invalid_magic magic t_magic)
  refuse (not (t_version == h_version) || not (t_data_len == data_len)) integrity_failure

unfoldable pub decode : Reader S7PlusFrame
decode = do
  need header_len
  h_magic ← get_u8
  refuse (not (h_magic == magic)) (invalid_magic magic h_magic)
  h_version ← get_u8
  version ← lift (version_of h_version)
  data_len ← get_u16
  need data_len
  content ← split_to data_len
  check_trailer h_version data_len
  pure (record { version = version; content = content })
