-- ===== src/Cotp/Laws.antt =====
-- `CotpPdu::decode` on what `CotpPdu::encode` wrote, and on any other input.
use rs_snap.Prelude.{
  ℕ, ◌+◌, ◌*◌, ◌/◌, ◌<◌, ◌≡◌, ◌≢◌, arith, [], ◌∷◌, Bool, true, false, bit_and, bit_or, not, ◌==◌,
}
use rs_snap.Prelude.Bits.{and_7, and_1f, and_7f, bit_and_80, bit_or_80, or_5, or_zero}
use rs_snap.Wire.{Bytes, ok, panic, IsU8, IsU16}
use rs_snap.Wire.Slices.{split_to_all}
use rs_snap.Cotp.Params.{read_params, read_params-ne-panic}
use rs_snap.Cotp.{
  CotpPdu, connect_request, connect_confirm, dt, er, dst_tsap, tpdu_byte, encode, decode_cr,
  decode_cc, decode_dt, decode_er, decode_code, decode,
}

dst_tsap-fields : (rack slot : ℕ) → rack < 8 → slot < 32 → dst_tsap rack slot ≡ rack * 32 + slot
unfolding dst_tsap
dst_tsap-fields rack slot hr hs = ground (arith, and_7 rack, and_1f slot, or_5 rack slot)

-- The fields that a PDU of this type can carry.
abbrev pub IsValid : CotpPdu → Type 0
IsValid (connect_request dst_ref src_ref rack slot) =
    IsU16 dst_ref × IsU16 src_ref × (rack < 8) × (slot < 32)
IsValid (connect_confirm dst_ref src_ref) = IsU16 dst_ref × IsU16 src_ref
IsValid (dt tpdu_nr last payload) = tpdu_nr < 128
IsValid (er dst_ref src_ref reject_cause) = IsU16 dst_ref × IsU16 src_ref × IsU8 reject_cause

-- The last byte before the payload carries the number and the flag apart.
tpdu_byte-fields :
    (nr : ℕ) (last : Bool)
    → nr < 128
    → (bit_and (tpdu_byte nr last) 0x7f ≡ nr) × (not (bit_and (tpdu_byte nr last) 0x80 == 0) ≡ last)
unfolding tpdu_byte
tpdu_byte-fields nr true h =
    let byte : ℕ = bit_or (bit_and nr 0x7f) 0x80 in
    let sum : byte ≡ nr + 128 = ground (arith, and_7f nr, bit_or_80 nr) in
    (ground (arith, sum, and_7f byte), ground (arith, sum, bit_and_80 byte))
tpdu_byte-fields nr false h =
    let byte : ℕ = bit_or (bit_and nr 0x7f) 0 in
    let same : byte ≡ nr = ground (arith, and_7f nr, or_zero nr) in
    (ground (arith, same, and_7f byte), ground (arith, same, bit_and_80 byte))

-- A PDU whose fields fit their width (rack 3 bits, slot 5, TPDU number 7) is read back, and the
-- buffer is used up.
pub CotpPdu-decode-encode : (pdu : CotpPdu) → IsValid pdu → decode (encode pdu) ≡ ok (pdu, [])
unfolding encode decode decode_code decode_cr decode_cc decode_dt decode_er read_params
CotpPdu-decode-encode (connect_request dst_ref src_ref rack slot) h =
    ground (
      arith,
      dst_tsap-fields rack slot,
      and_7 (dst_tsap rack slot / 32),
      and_1f (dst_tsap rack slot),
    )
CotpPdu-decode-encode (connect_confirm dst_ref src_ref) h = ground arith
CotpPdu-decode-encode (dt nr last payload) h =
    ground (arith, tpdu_byte-fields nr last, split_to_all payload)
CotpPdu-decode-encode (er dst_ref src_ref cause) h = ground arith

decode_cr-ne-panic : (buf : Bytes) → decode_cr buf ≢ panic
unfolding decode_cr
decode_cr-ne-panic (a ∷ b ∷ c ∷ d ∷ e ∷ f ∷ g ∷ rest) = ground (arith, read_params-ne-panic rest)
decode_cr-ne-panic _ = ground arith

decode_cc-ne-panic : (buf : Bytes) → decode_cc buf ≢ panic
unfolding decode_cc
decode_cc-ne-panic (a ∷ b ∷ c ∷ d ∷ e ∷ f ∷ g ∷ rest) = ground (arith, split_to_all rest)
decode_cc-ne-panic _ = ground arith

decode_dt-ne-panic : (buf : Bytes) → decode_dt buf ≢ panic
unfolding decode_dt
decode_dt-ne-panic (a ∷ b ∷ c ∷ rest) = ground (arith, split_to_all rest)
decode_dt-ne-panic _ = ground arith

decode_er-ne-panic : (buf : Bytes) → decode_er buf ≢ panic
unfolding decode_er
decode_er-ne-panic (a ∷ b ∷ c ∷ d ∷ e ∷ f ∷ rest) = ground arith
decode_er-ne-panic _ = ground arith

-- No input makes `CotpPdu::decode` panic.
pub decode-ne-panic : (buf : Bytes) → decode buf ≢ panic
unfolding decode decode_code
decode-ne-panic (a ∷ code ∷ rest) =
    let buf : Bytes = a ∷ code ∷ rest in
    ground (
      arith,
      decode_cr-ne-panic buf,
      decode_cc-ne-panic buf,
      decode_dt-ne-panic buf,
      decode_er-ne-panic buf,
    )
decode-ne-panic _ = ground arith
