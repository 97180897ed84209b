-- ===== src/S7/Sized.antt =====
-- The data of an item in crates/snap7-client/src/proto/s7/read_var.rs and write_var.rs: a length in
-- bits, the bytes, and a pad byte after an odd number of them.
pub mod Laws
use rs_snap.Prelude.{
  ℕ, ◌+◌, ◌*◌, ◌/◌, ◌%◌, List, [], ◌∷◌, ◌++◌, length, ltb, ◌==◌, not, if◌then◌else◌,
}
use rs_snap.Wire.{
  Bytes, Result, ok, err, panic, Reader, ◌>>=◌, ◌>>◌, need, pure, get_u16, put_u16, split_to,
}

-- `if !len.is_multiple_of(2) { buf.put_u8(0x00) }`
abbrev pub pad : ℕ → Bytes
pad n = if n % 2 == 0 then [] else 0 ∷ []

-- `(data.len() * 8) as u16` and what follows it.
unfoldable pub put_sized : Bytes → Bytes
put_sized content = put_u16 (length content * 8 % 65536) ++ (content ++ pad (length content))

-- `if !byte_len.is_multiple_of(2) && buf.has_remaining() { buf.advance(1) }`
abbrev pub skip_pad : ℕ → Reader (Unit {0})
skip_pad n [] = ok (tt, [])
skip_pad n (x ∷ rest) = ok (tt, if n % 2 == 0 then x ∷ rest else rest)

unfoldable pub get_sized : Reader Bytes
get_sized = do
  bit_len ← get_u16
  need ((bit_len + 7) / 8)
  content ← split_to ((bit_len + 7) / 8)
  skip_pad ((bit_len + 7) / 8)
  pure content
