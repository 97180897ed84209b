-- ===== src/Partner/Receiver.antt =====
-- crates/snap7-partner/src/partner.rs: the receiving side, brecv.
use rs_snap.Prelude.{
  ℕ, zero, suc, ◌+◌, ◌-◌, ◌%◌, Bool, true, false, not, [], ◌∷◌, ◌++◌, length, ltb, ◌==◌,
  if◌then◌else◌,
}
use rs_snap.Wire.{Bytes}
use rs_snap.Partner.Proto.{
  gr_bsend, gr_bsend_ack, s7_hdr_len, bsend_params_len, bsend_data_hdr_len, BSendParams,
  encode_params, BSendDataHdr, decode_data_hdr,
}
use rs_snap.Partner.Runs.{
  Run, invalid_pdu, not_connected, ◌>>=◌, ◌>>◌, return, stuck, modify, get, or_fail, refuse,
  counting, slice, slice_from,
}
use rs_snap.Partner.Transport.{send_iso_frame, recv_iso_frame}
use rs_snap.Partner.{
  next_seq, next_pdu_ref, add_sent, add_recv, send_error, recv_error, encode_s7_userdata_header,
  parse_s7_bsend_params,
}

-- What a received frame says: the number of the transfer, the bytes of the slice, and whether it is
-- the last one.
pub record Slice : Type 0 where
  pub r_id : ℕ
  pub bytes : Bytes
  pub is_last : Bool

abbrev pub slice_of : ℕ → Bytes → Bool → Slice
slice_of r_id bytes is_last = record { r_id = r_id; bytes = bytes; is_last = is_last }

-- The payload behind the headers; the first frame has the length of all the data in front of it.
unfoldable pub payload_slice : Bool → BSendParams → BSendDataHdr → Bytes → Run Slice
unfolding slice
payload_slice first params dh frame = do
  let extra = if first then 2 else 0
  let payload_start = s7_hdr_len + bsend_params_len + bsend_data_hdr_len + extra
  let slice_len = dh.len - (8 + extra)
  refuse (ltb (length frame) (payload_start + slice_len)) (invalid_pdu "BSend frame data truncated")
  bytes ← slice frame payload_start (payload_start + slice_len)
  return (slice_of dh.r_id bytes (params.eos == 0x00))

unfoldable pub parse_slice : Bool → Bytes → Run Slice
unfolding slice_from
parse_slice first frame = do
  params ← parse_s7_bsend_params frame
  refuse (not (params.tg == gr_bsend)) (invalid_pdu "expected BSend PDU")
  let data_offset = s7_hdr_len + bsend_params_len
  refuse (ltb (length frame) (data_offset + bsend_data_hdr_len))
      (invalid_pdu "frame too short for BSend data")
  block ← slice_from frame data_offset
  decoded ← decode_data_hdr block
  dh ← or_fail decoded (invalid_pdu "bad BSend data header")
  payload_slice first params dh frame

unfoldable pub ack_frame : ℕ → ℕ → Bytes
ack_frame pdu_ref seq_out =
    encode_s7_userdata_header pdu_ref bsend_params_len 4
    ++ (encode_params (record {
      tg = gr_bsend_ack;
      sub_fun = 0x01;
      seq = seq_out;
      id_seq = 0x00;
      eos = 0x00;
      err = 0;
    })
        ++ (0x0A ∷ 0x00 ∷ 0x00 ∷ 0x00 ∷ []))

unfoldable pub send_ack : ℕ → Run (Unit {0})
send_ack seq_out = do
  pdu_ref ← next_pdu_ref
  let ack = ack_frame pdu_ref seq_out
  counting send_error (send_iso_frame ack)
  modify (add_sent (length ack))

-- The loop of `brecv`: each round takes a frame off the input.
unfoldable pub recv_slices : ℕ → Bool → ℕ → Bytes → Run (ℕ × Bytes)
recv_slices zero first seq_out buf = stuck
recv_slices (suc n) first seq_out buf = do
  frame ← counting recv_error recv_iso_frame
  modify (add_recv (length frame))
  slice ← parse_slice first frame
  send_ack seq_out
  let buf' = buf ++ slice.bytes
  let rest = recv_slices n false ((seq_out + 1) % 256) buf'
  if slice.is_last then return (slice.r_id, buf') else rest

-- A bound on the rounds: each one takes a frame off the input.
abbrev input_left : Run ℕ
input_left p input = return (length input) p input

unfoldable pub brecv : Run (ℕ × Bytes)
brecv = do
  p ← get
  pdu_size ← or_fail p.pdu_size not_connected
  seq_out ← next_seq
  rounds ← input_left
  recv_slices (suc rounds) true seq_out []
