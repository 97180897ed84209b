-- ===== src/Client/BlockData.antt =====
-- crates/snap7-client/src/types.rs: a block in the format of uploads and downloads, the attributes in its
-- footer, its checksum and the obfuscation of passwords; and crates/snap7-client/src/client.rs:
-- `parse_block_info`. A string is its bytes, of which `from_utf8_lossy` changes none that are ASCII.
pub mod Attributes
pub mod RoundTrip
pub mod Passwords
use rs_snap.Prelude.{
  ℕ, zero, suc, ◌+◌, ◌-◌, ◌*◌, ◌/◌, ◌%◌, ◌^◌, min, Bool, true, false, ◌&&◌, ◌||◌, Option, none,
  some, List, [], ◌∷◌, ◌++◌, map, length, take, drop, get_or, ltb, leb, ◌==◌, if◌then◌else◌,
}
use Prim.Native.Nat.{bit_xor}
use rs_snap.Wire.{Bytes, put_u16, put_u32}

pub record BlockData : Type 0 where
  pub block_type : ℕ
  pub block_number : ℕ
  pub format : ℕ
  pub total_length : ℕ
  pub flags : ℕ
  pub crc1 : ℕ
  pub crc2 : ℕ
  pub payload : Bytes

pub record BlockAttributes : Type 0 where
  pub author : Option Bytes
  pub family : Option Bytes
  pub name : Option Bytes
  pub version : Option ℕ
  pub flags : Option ℕ

-- Big-endian numbers; a caller has tested that the bytes are there.
abbrev pub word_at : Bytes → ℕ → ℕ
word_at bytes i = get_or bytes i 0 * 256 + get_or bytes (i + 1) 0

abbrev pub long_at : Bytes → ℕ → ℕ
long_at bytes i = word_at bytes i * 65536 + word_at bytes (i + 2)

unfoldable pub from_bytes : Bytes → Option BlockData
from_bytes bytes =
    if ltb (length bytes) 20
    then none
    else some (record {
      block_type = word_at bytes 0;
      block_number = word_at bytes 2;
      format = word_at bytes 4;
      total_length = long_at bytes 6;
      flags = word_at bytes 10;
      crc1 = word_at bytes 12;
      crc2 = word_at bytes 14;
      payload = drop 20 bytes;
    })

unfoldable pub to_bytes : BlockData → Bytes
to_bytes b =
    put_u16 b.block_type
    ++ put_u16 b.block_number
    ++ put_u16 b.format
    ++ put_u32 b.total_length
    ++ put_u16 b.flags
    ++ put_u16 b.crc1
    ++ put_u16 b.crc2
    ++ (0 ∷ 0 ∷ 0 ∷ 0 ∷ [])
    ++ b.payload

unfoldable pub zeros : ℕ → Bytes
zeros zero = []
zeros (suc n) = 0 ∷ zeros n

-- The size rounded up to an even number, which 16 bits hold unless it is 65536.
unfoldable pub new_db : (db_number size_bytes : ℕ) → BlockData
unfolding zeros
new_db db_number size_bytes =
    let size = (size_bytes + 1) / 2 * 2 in
    let payload = put_u16 (size % 2 ^ 16) ++ zeros size in
    record {
      block_type = 0x41;
      block_number = db_number;
      format = 0x0001;
      total_length = (20 + length payload) % 2 ^ 32;
      flags = 0x0000;
      crc1 = 0x0000;
      crc2 = 0x0000;
      payload = payload;
    }

-- One bit of the checksum.
abbrev crc_bit : ℕ → ℕ
crc_bit crc = if crc % 2 == 1 then bit_xor (crc / 2) 0xEDB88320 else crc / 2

abbrev crc_byte : (byte crc : ℕ) → ℕ
crc_byte byte crc =
    crc_bit (crc_bit (crc_bit (crc_bit (crc_bit (crc_bit (crc_bit (crc_bit (bit_xor crc byte))))))))

unfoldable pub crc_loop : Bytes → ℕ → ℕ
crc_loop [] crc = crc
crc_loop (byte ∷ bytes) crc = crc_loop bytes (crc_byte byte crc)

unfoldable pub crc32_ieee : Bytes → ℕ
unfolding crc_loop
crc32_ieee bytes = bit_xor (crc_loop bytes 0xFFFFFFFF) 0xFFFFFFFF

unfoldable pub crc32 : BlockData → ℕ
unfolding crc32_ieee to_bytes
crc32 b = crc32_ieee (to_bytes b)

-- The bytes that a slice has after `write_padded`.
unfoldable pub write_padded : (dst s : Bytes) → Bytes
write_padded dst s = let n = min (length s) (length dst) in take n s ++ map (λ b. 0x20) (drop n dst)

-- The bytes from `lo` to `hi` replaced by what a function makes of them.
abbrev pub update_range : (lo hi : ℕ) → (Bytes → Bytes) → Bytes → Bytes
update_range lo hi f bytes = take lo bytes ++ (f (drop lo (take hi bytes)) ++ drop hi bytes)

abbrev pub write_field : (lo hi : ℕ) → Option Bytes → Bytes → Bytes
write_field lo hi none footer = footer
write_field lo hi (some s) footer = update_range lo hi (λ dst. write_padded dst s) footer

abbrev pub write_version : Option ℕ → Bytes → Bytes
write_version none footer = footer
write_version (some v) footer = update_range 32 33 (λ dst. v ∷ []) footer

abbrev pub set_footer : BlockAttributes → Bytes → Bytes
set_footer attrs footer = write_version attrs.version (
    write_field 24 32 attrs.name
      (write_field 16 24 attrs.family (write_field 8 16 attrs.author footer)))

abbrev or_else : Option ℕ → ℕ → ℕ
or_else none d = d
or_else (some n) d = n

unfoldable pub set_attributes : BlockAttributes → BlockData → BlockData
unfolding write_padded
set_attributes attrs b =
    let plen = length b.payload in
    record b {
      flags = or_else attrs.flags b.flags;
      payload =
          if ltb plen 48
          then b.payload
          else take (plen - 48) b.payload ++ set_footer attrs (drop (plen - 48) b.payload);
    }

-- The names as ASCII codes.
unfoldable pub block_type_name : ℕ → Bytes
block_type_name bt =
    if bt == 0x38
    then 0x4f ∷ 0x42 ∷ []
    else if bt == 0x41
    then 0x44 ∷ 0x42 ∷ []
    else if bt == 0x42
    then 0x53 ∷ 0x44 ∷ 0x42 ∷ []
    else if bt == 0x43
    then 0x46 ∷ 0x43 ∷ []
    else if bt == 0x44
    then 0x53 ∷ 0x46 ∷ 0x43 ∷ []
    else if bt == 0x45
    then 0x46 ∷ 0x42 ∷ []
    else if bt == 0x46
    then 0x53 ∷ 0x46 ∷ 0x42 ∷ []
    else if bt == 0x47
    then 0x55 ∷ 0x44 ∷ 0x54 ∷ []
    else 0x3f ∷ 0x3f ∷ []

unfoldable pub type_name : BlockData → Bytes
unfolding block_type_name
type_name b = block_type_name (b.block_type % 256)

-- The nibbles swapped, and every other bit flipped.
abbrev pub obfuscated : ℕ → ℕ
obfuscated b = bit_xor (b % 16 * 16 + b / 16) 0x55

abbrev pub eight_spaces : Bytes
eight_spaces = 0x20 ∷ 0x20 ∷ 0x20 ∷ 0x20 ∷ 0x20 ∷ 0x20 ∷ 0x20 ∷ 0x20 ∷ []

unfoldable pub encrypt_password : Bytes → Bytes
encrypt_password password =
    let len = min (length password) 8 in map obfuscated (take len password ++ drop len eight_spaces)
