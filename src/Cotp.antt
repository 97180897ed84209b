-- ===== src/Cotp.antt =====
-- crates/snap7-client/src/proto/cotp.rs: the transport PDUs inside a TPKT frame.
mod Params
pub mod Laws
pub use Params.{Tsap}
use rs_snap.Prelude.{
  ℕ, ◌+◌, ◌*◌, ◌/◌, List, [], ◌∷◌, ◌++◌, length, ◌==◌, not, Bool, true, false, if◌then◌else◌,
  bit_and, bit_or,
}
use rs_snap.Wire.{
  Bytes, Result, ok, err, panic, unsupported_pdu_type, Reader, ◌>>=◌, ◌>>◌, need, pure, advance,
  get_u8, get_u16, remaining, split_to, put_u8, put_u16,
}
use Params.{Tsap, read_params}

pub data CotpPdu : Type 0 where
  connect_request : (dst_ref src_ref rack slot : ℕ) → CotpPdu
  connect_confirm : (dst_ref src_ref : ℕ) → CotpPdu
  dt : (tpdu_nr : ℕ) (last : Bool) (payload : Bytes) → CotpPdu
  er : (dst_ref src_ref reject_cause : ℕ) → CotpPdu

abbrev pub code_cr : ℕ
code_cr = 0xe0

abbrev pub code_cc : ℕ
code_cc = 0xd0

abbrev pub code_dt : ℕ
code_dt = 0xf0

abbrev pub code_er : ℕ
code_er = 0x70

-- `((rack & 0x07) << 5) | (slot & 0x1F)`, a byte.
unfoldable pub dst_tsap : ℕ → ℕ → ℕ
dst_tsap rack slot = bit_or (bit_and rack 0x07 * 32) (bit_and slot 0x1f)

-- `(tpdu_nr & 0x7F) | if *last { 0x80 } else { 0 }`.
unfoldable pub tpdu_byte : ℕ → Bool → ℕ
tpdu_byte nr last = bit_or (bit_and nr 0x7f) (if last then 0x80 else 0)

-- The bytes that `CotpPdu::encode` appends.
unfoldable pub encode : CotpPdu → Bytes
encode (connect_request dst_ref src_ref rack slot) =
    put_u8 17
    ++ (put_u8 code_cr
        ++ (put_u16 dst_ref
            ++ (put_u16 src_ref
                ++ (put_u8 0
                    ++ ((0xc1 ∷ 2 ∷ 0x01 ∷ 0x00 ∷ [])
                        ++ ((0xc2 ∷ 2 ∷ 0x01 ∷ dst_tsap rack slot ∷ [])
                            ++ (0xc0 ∷ 1 ∷ 0x0a ∷ [])))))))
encode (connect_confirm dst_ref src_ref) =
    put_u8 6 ++ (put_u8 code_cc ++ (put_u16 dst_ref ++ (put_u16 src_ref ++ put_u8 0)))
encode (dt tpdu_nr last payload) =
    put_u8 2 ++ (put_u8 code_dt ++ (put_u8 (tpdu_byte tpdu_nr last) ++ payload))
encode (er dst_ref src_ref reject_cause) =
    put_u8 6 ++ (put_u8 code_er ++ (put_u16 dst_ref ++ (put_u16 src_ref ++ put_u8 reject_cause)))

-- The branch for each code, from the two bytes of length and code on.
unfoldable pub decode_cr : Reader CotpPdu
decode_cr = do
  need 7
  advance 2
  dst_ref ← get_u16
  src_ref ← get_u16
  get_u8
  tsap ← read_params
  pure (connect_request dst_ref src_ref tsap.rack tsap.slot)

unfoldable pub decode_cc : Reader CotpPdu
decode_cc = do
  need 7
  advance 2
  dst_ref ← get_u16
  src_ref ← get_u16
  len ← remaining
  advance len
  pure (connect_confirm dst_ref src_ref)

unfoldable pub decode_dt : Reader CotpPdu
decode_dt = do
  need 3
  advance 2
  byte ← get_u8
  len ← remaining
  payload ← split_to len
  pure (dt (bit_and byte 0x7f) (not (bit_and byte 0x80 == 0)) payload)

-- `if buf.has_remaining() { buf.get_u8() } else { 0 }`
abbrev get_u8_or_zero : Reader ℕ
get_u8_or_zero [] = ok (0, [])
get_u8_or_zero (a ∷ rest) = ok (a, rest)

unfoldable pub decode_er : Reader CotpPdu
decode_er = do
  need 6
  advance 2
  dst_ref ← get_u16
  src_ref ← get_u16
  reject_cause ← get_u8_or_zero
  pure (er dst_ref src_ref reject_cause)

-- `match code { … }`, on the buffer that still holds the code.
unfoldable pub decode_code : ℕ → Reader CotpPdu
decode_code code buf =
    if code == code_cr
    then decode_cr buf
    else if code == code_cc
    then decode_cc buf
    else if code == code_dt
    then decode_dt buf
    else if code == code_er
    then decode_er buf
    else err (unsupported_pdu_type code)

-- `buf[1]`
abbrev peek_code : Reader ℕ
peek_code (a ∷ b ∷ rest) = ok (b, a ∷ b ∷ rest)
peek_code _ = panic

unfoldable pub decode : Reader CotpPdu
decode = do need 2; code ← peek_code; decode_code code
