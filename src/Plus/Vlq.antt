-- ===== src/Plus/Vlq.antt =====
-- crates/snap7-client/src/proto/s7commplus/vlq.rs: a u32 in groups of seven bits, highest first, with
-- bit 7 set on every byte but the last.
pub mod Groups
pub mod RoundTrip
use rs_snap.Prelude.{
  ℕ, zero, suc, ◌+◌, ◌*◌, ◌/◌, ◌%◌, ◌^◌, List, [], ◌∷◌, ◌++◌, ltb, leb, ◌==◌, if◌then◌else◌,
  bit_and, bit_or,
}
use rs_snap.Wire.{
  Bytes, Result, ok, err, panic, encoding_failed, vlq_exceeds_u32, vlq_overflow, buffer_too_short,
  Reader,
}

-- `while v > 0 { groups[n] = (v & 0x7F) as u8; n += 1; v >>= 7; }`, lowest group first. The count is
-- that of the slots left in `groups`: a write behind the last one panics.
unfoldable pub split_groups : ℕ → ℕ → Result Bytes
split_groups zero v = if v == 0 then ok [] else panic
split_groups (suc slots) v =
    let rest = split_groups slots (v / 128) in
    if v == 0
    then ok []
    else elim rest [ ok groups ↦ ok (bit_and v 0x7f ∷ groups) | err e ↦ err e | panic ↦ panic ]

-- `for i in (0..n).rev()`: the groups above the lowest one come first, with the bit set.
unfoldable pub put_groups : ℕ → Bytes → Bytes
put_groups cont [] = []
put_groups cont (g ∷ groups) = put_groups 0x80 groups ++ (bit_or g cont ∷ [])

abbrev put_result : Result Bytes → Result Bytes
put_result (ok groups) = ok (put_groups 0x00 groups)
put_result (err e) = err e
put_result panic = panic

-- The bytes that `encode_vlq` appends.
unfoldable pub encode_vlq : ℕ → Result Bytes
encode_vlq value =
    if ltb value 0x80 then ok (value % 256 ∷ []) else put_result (split_groups 5 value)

-- `(result << 7) | ((byte & 0x7F) as u64)`
abbrev pub push_group : ℕ → ℕ → ℕ
push_group result byte = bit_or (result * 128 % 2 ^ 64) (bit_and byte 0x7f)

unfoldable pub decode_loop : Bytes → ℕ → ℕ → Result (ℕ × Bytes)
decode_loop [] result bytes_read = err (buffer_too_short 1 0)
decode_loop (byte ∷ rest) result bytes_read =
    let next = push_group result byte in
    let more = decode_loop rest next (bytes_read + 1) in
    if ltb 4294967295 next
    then err (encoding_failed vlq_exceeds_u32)
    else if bit_and byte 0x80 == 0
    then ok (next, rest)
    else if leb 5 (bytes_read + 1)
    then err (encoding_failed vlq_overflow)
    else more

unfoldable pub decode_vlq : Reader ℕ
unfolding decode_loop
decode_vlq buf = decode_loop buf 0 0
