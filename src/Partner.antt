-- ===== src/Partner.antt =====
-- crates/snap7-partner/src/partner.rs: the peer of a connection, which sends blocks of data to the
-- other one and receives them.
pub mod Proto
pub mod Runs
pub mod Transport
pub mod Frames
pub mod Ends
pub mod Exchange
pub mod Total
pub mod Receiver
pub mod Agreement
use rs_snap.Prelude.{
  ℕ, zero, suc, ◌+◌, ◌-◌, ◌*◌, ◌/◌, ◌%◌, min, Bool, true, false, not, Option, none, some, List, [],
  ◌∷◌, ◌++◌, length, take, drop, ltb, ◌==◌, if◌then◌else◌,
}
use rs_snap.Wire.{Bytes, put_u16}
use Proto.{
  gr_bsend, gr_bsend_ack, s7_hdr_len, bsend_params_len, bsend_data_hdr_len, BSendParams,
  encode_params, decode_params, BSendDataHdr, encode_data_hdr, decode_data_hdr,
}
use Runs.{
  S7Partner, Run, Error, invalid_pdu, send_refused, not_connected, ◌>>=◌, ◌>>◌, return, fail, stuck,
  modify, get, or_fail, refuse, counting, slice_from,
}
use Transport.{send_iso_frame, recv_iso_frame, active_handshake, passive_handshake}

pub data PartnerStatus : Type 0 where
  disconnected connected : PartnerStatus

pub new_unconnected : S7Partner
new_unconnected = record {
  pdu_size = none;
  seq = 0;
  pdu_ref = 1;
  connected = false;
  bytes_sent = 0;
  bytes_recv = 0;
  send_errors = 0;
  recv_errors = 0;
}

unfoldable pub get_status : S7Partner → PartnerStatus
get_status p = if p.connected then PartnerStatus.connected else PartnerStatus.disconnected

abbrev pub get_stats : S7Partner → ℕ × ℕ
get_stats p = (p.bytes_sent, p.bytes_recv)

abbrev pub get_error_counts : S7Partner → ℕ × ℕ
get_error_counts p = (p.send_errors, p.recv_errors)

-- `fetch_add` wraps at the width of the counter and returns the value before.
abbrev pub next_seq : Run ℕ
next_seq = do p ← get; modify (λ p. record p { seq = (p.seq + 1) % 256 }); return p.seq

abbrev pub next_pdu_ref : Run ℕ
next_pdu_ref = do
  p ← get
  modify (λ p. record p { pdu_ref = (p.pdu_ref + 1) % 65536 })
  return p.pdu_ref

abbrev pub add_sent : ℕ → S7Partner → S7Partner
add_sent n p = record p { bytes_sent = (p.bytes_sent + n) % 18446744073709551616 }

abbrev pub add_recv : ℕ → S7Partner → S7Partner
add_recv n p = record p { bytes_recv = (p.bytes_recv + n) % 18446744073709551616 }

abbrev pub send_error : S7Partner → S7Partner
send_error p = record p { send_errors = (p.send_errors + 1) % 4294967296 }

abbrev pub recv_error : S7Partner → S7Partner
recv_error p = record p { recv_errors = (p.recv_errors + 1) % 4294967296 }

abbrev pub attach : ℕ → S7Partner → S7Partner
attach pdu_size p = record p { pdu_size = some pdu_size; connected = true }

-- `connect`, on the partner that it makes, behind the TCP connection.
unfoldable pub connect : Run (Unit {0})
connect = do pdu_size ← active_handshake; modify (attach pdu_size)

-- `accept`, and `listen` on the partner that it makes.
unfoldable pub accept : Run (Unit {0})
accept = do pdu_size ← passive_handshake; modify (attach pdu_size)

abbrev pub encode_s7_userdata_header : ℕ → ℕ → ℕ → Bytes
encode_s7_userdata_header pdu_ref param_len data_len =
    0x32 ∷ 0x07 ∷ 0x00 ∷ 0x00 ∷ put_u16 pdu_ref ++ (put_u16 param_len ++ put_u16 data_len)

unfoldable pub parse_s7_bsend_params : Bytes → Run BSendParams
unfolding slice_from
parse_s7_bsend_params frame = do
  refuse (ltb (length frame) (s7_hdr_len + bsend_params_len))
      (invalid_pdu "frame too short for BSend params")
  block ← slice_from frame s7_hdr_len
  decoded ← decode_params block
  or_fail decoded (invalid_pdu "malformed BSend params")

-- `saturating_sub(..).max(1)`
unfoldable pub max_slice : ℕ → ℕ
max_slice pdu_size =
    let room = pdu_size - (s7_hdr_len + bsend_params_len + bsend_data_hdr_len + 2) in
    if ltb room 1 then 1 else room

-- What one transfer sends with each slice: its reference, its sequence and its number, and the length
-- of all the data.
pub record Transfer : Type 0 where
  pub slice : ℕ
  pub pdu_ref : ℕ
  pub id_seq : ℕ
  pub r_id : ℕ
  pub total_len : ℕ

abbrev pub transfer : ℕ → ℕ → ℕ → ℕ → ℕ → Transfer
transfer slice pdu_ref id_seq r_id total_len = record {
  slice = slice;
  pdu_ref = pdu_ref;
  id_seq = id_seq;
  r_id = r_id;
  total_len = total_len;
}

abbrev pub total_field : Transfer → Bool → Bytes
total_field t true = put_u16 (t.total_len % 65536)
total_field t false = []

abbrev pub extra_len : Bool → ℕ
extra_len first = if first then 2 else 0

abbrev pub slice_params : Transfer → ℕ → Bool → BSendParams
slice_params t seq_out is_last = record {
  tg = gr_bsend;
  sub_fun = 0x01;
  seq = seq_out;
  id_seq = t.id_seq;
  eos = if is_last then 0x00 else 0x01;
  err = 0;
}

abbrev pub slice_data_hdr : Transfer → Bool → Bytes → BSendDataHdr
slice_data_hdr t first slice = record {
  len = (length slice + 8 + extra_len first) % 65536;
  r_id = t.r_id;
}

abbrev pub slice_data_len : Bytes → Bool → ℕ
slice_data_len slice first = (bsend_data_hdr_len + length slice + extra_len first) % 65536

-- The frame of one slice.
unfoldable pub slice_frame : Transfer → Bool → ℕ → Bool → Bytes → Bytes
slice_frame t first seq_out is_last slice =
    encode_s7_userdata_header t.pdu_ref bsend_params_len (slice_data_len slice first)
    ++ (encode_params (slice_params t seq_out is_last)
        ++ (encode_data_hdr (slice_data_hdr t first slice) ++ (total_field t first ++ slice)))

abbrev pub is_empty : Bytes → Bool
is_empty [] = true
is_empty (x ∷ xs) = false

abbrev pub accepted : BSendParams → Run ℕ
accepted rparams =
    if rparams.err == 0
    then return rparams.seq
    else modify send_error >> fail (send_refused rparams.err)

-- The acknowledgement of a slice: its sequence, or the error that refuses it.
unfoldable pub read_ack : Run ℕ
read_ack = do
  resp ← counting recv_error recv_iso_frame
  rparams ← parse_s7_bsend_params resp
  accepted rparams

-- The loop of `bsend`, on the data from `offset` on; each round sends a slice of one byte or more.
unfoldable pub send_slices : ℕ → Transfer → Bool → ℕ → Bytes → Run (Unit {0})
send_slices n t first seq_out [] = return tt
send_slices zero t first seq_out (x ∷ xs) = stuck
send_slices (suc n) t first seq_out (x ∷ xs) = do
  let slice = take t.slice (x ∷ xs)
  let rest = drop t.slice (x ∷ xs)
  let frame = slice_frame t first seq_out (is_empty rest) slice
  counting send_error (send_iso_frame frame)
  modify (add_sent (length frame))
  seq ← read_ack
  send_slices n t false seq rest

unfoldable pub bsend : ℕ → Bytes → Run (Unit {0})
bsend r_id bytes = do
  refuse (ltb 65536 (length bytes)) (invalid_pdu "data exceeds 64 kB BSend limit")
  p ← get
  pdu_size ← or_fail p.pdu_size not_connected
  pdu_ref ← next_pdu_ref
  id_seq ← if ltb (max_slice pdu_size) (length bytes) then next_seq else return 0x00
  let n = length bytes
  send_slices n (transfer (max_slice pdu_size) pdu_ref id_seq r_id n) true 0 bytes
