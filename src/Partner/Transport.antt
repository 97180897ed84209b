-- ===== src/Partner/Transport.antt =====
-- crates/snap7-partner/src/transport.rs: the handshakes, and frames of ISO on TCP. `vec![0u8; total - 4]`
-- panics on a total below 4, which `recv_iso_frame` tests and the handshakes do not.
use rs_snap.Prelude.{
  ℕ, ◌+◌, ◌-◌, ◌/◌, ◌%◌, ◌||◌, not, [], ◌∷◌, length, get_or, ltb, ◌==◌, if◌then◌else◌,
}
use rs_snap.Wire.{Bytes}
use rs_snap.Partner.Proto.{u16_at}
use rs_snap.Partner.Runs.{
  Run, invalid_pdu, ◌>>=◌, ◌>>◌, return, stuck, refuse, write_all, read_exact, slice_from,
}

-- `read_exact` of `total - 4` bytes into a new vector.
abbrev pub read_body : ℕ → Run Bytes
read_body total = if ltb total 4 then stuck else read_exact (total - 4)

-- The connection request and confirm, and the negotiation of the PDU size.
abbrev pub cotp_cr : Bytes
cotp_cr =
    0x03 ∷ 0x00 ∷ 0x00 ∷ 0x13 ∷ 0x0E ∷ 0xE0 ∷ 0x00 ∷ 0x00 ∷ 0x00 ∷ 0x01 ∷ 0x00 ∷ 0xC1 ∷ 0x02 ∷ 0x01
    ∷ 0x00 ∷ 0xC2 ∷ 0x02 ∷ 0x01 ∷ 0x00 ∷ []

abbrev pub cotp_cc : Bytes
cotp_cc =
    0x03 ∷ 0x00 ∷ 0x00 ∷ 0x13 ∷ 0x0E ∷ 0xD0 ∷ 0x00 ∷ 0x01 ∷ 0x00 ∷ 0x01 ∷ 0x00 ∷ 0xC1 ∷ 0x02 ∷ 0x01
    ∷ 0x00 ∷ 0xC2 ∷ 0x02 ∷ 0x01 ∷ 0x00 ∷ []

abbrev pub negotiate : Bytes
negotiate =
    0x03 ∷ 0x00 ∷ 0x00 ∷ 0x19 ∷ 0x02 ∷ 0xF0 ∷ 0x80 ∷ 0x32 ∷ 0x01 ∷ 0x00 ∷ 0x00 ∷ 0x00 ∷ 0x01 ∷ 0x00
    ∷ 0x08 ∷ 0x00 ∷ 0x00 ∷ 0xF0 ∷ 0x00 ∷ 0x00 ∷ 0x01 ∷ 0x00 ∷ 0x01 ∷ 0x01 ∷ 0xE0 ∷ []

abbrev pub neg_resp : Bytes
neg_resp =
    0x03 ∷ 0x00 ∷ 0x00 ∷ 0x1B ∷ 0x02 ∷ 0xF0 ∷ 0x80 ∷ 0x32 ∷ 0x03 ∷ 0x00 ∷ 0x00 ∷ 0x00 ∷ 0x01 ∷ 0x00
    ∷ 0x08 ∷ 0x00 ∷ 0x00 ∷ 0x00 ∷ 0x00 ∷ 0xF0 ∷ 0x00 ∷ 0x00 ∷ 0x01 ∷ 0x00 ∷ 0x01 ∷ 0x01 ∷ 0xE0 ∷ []

-- `send_iso_frame` writes the payload behind these bytes.
abbrev pub iso_frame : Bytes → Bytes
iso_frame payload =
    let total = (7 + length payload) % 65536 in
    0x03 ∷ 0x00 ∷ (total / 256) ∷ (total % 256) ∷ 0x02 ∷ 0xF0 ∷ 0x80 ∷ payload

unfoldable pub send_iso_frame : Bytes → Run (Unit {0})
send_iso_frame payload = write_all (iso_frame payload)

-- What follows the header of four bytes.
unfoldable pub recv_body : ℕ → Run Bytes
unfolding slice_from
recv_body total = do
  refuse (ltb total 7) (invalid_pdu "frame too short")
  rest ← read_body total
  refuse (ltb (length rest) 3) (invalid_pdu "missing COTP DT")
  slice_from rest 3

unfoldable pub recv_iso_frame : Run Bytes
recv_iso_frame = do header ← read_exact 4; recv_body (u16_at header 2)

unfoldable pub active_handshake : Run ℕ
active_handshake = do
  write_all cotp_cr
  tpkt_hdr ← read_exact 4
  rest ← read_body (u16_at tpkt_hdr 2)
  refuse (ltb (length rest) 2 || not (get_or rest 1 0 == 0xD0)) (invalid_pdu "expected COTP CC")
  write_all negotiate
  payload ← recv_iso_frame
  refuse (ltb (length payload) 20) (invalid_pdu "negotiate response too short")
  let pdu_size = u16_at payload 18
  return (if pdu_size == 0 then 480 else pdu_size)

unfoldable pub passive_handshake : Run ℕ
passive_handshake = do
  tpkt_hdr ← read_exact 4
  rest ← read_body (u16_at tpkt_hdr 2)
  write_all cotp_cc
  neg_req ← recv_iso_frame
  write_all neg_resp
  return 480
