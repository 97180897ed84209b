-- ===== src/Server/Handshake.antt =====
-- crates/snap7-server/src/handshake.rs: the receiving half of the transport, and the set-up of a
-- connection.
pub mod Frames
use rs_snap.Prelude.{ℕ, ◌+◌, ◌-◌, ◌*◌, List, [], ◌∷◌, ◌++◌, ltb, ◌==◌, if◌then◌else◌, some, min}
use rs_snap.Wire.{Bytes}
use rs_snap.Io.{
  Io, proto, negotiation_failed, done, ◌>>=◌, ◌>>◌, return, fail, read_exact, try, value, send_cotp,
  send_cotp_data,
}
use rs_snap.Cotp.{CotpPdu, connect_request, connect_confirm, dt, er}
use rs_snap.Cotp
use rs_snap.S7.Codes.{PduType}
use rs_snap.S7.Header.{S7Header}
use rs_snap.S7.Header
use rs_snap.S7.Negotiate.{Negotiate}
use rs_snap.S7.Negotiate
use rs_snap.Server.Replies.{ack_header}

abbrev pub max_pdu_size : ℕ
max_pdu_size = 480

abbrev negotiate_param_len : ℕ
negotiate_param_len = 8

-- The checks on the four header bytes, then the rest of the frame.
abbrev pub recv_body : Bytes → Io CotpPdu
recv_body (a ∷ b ∷ c ∷ d ∷ _) =
    if a == 0x03
    then if ltb (c * 256 + d) 4
      then fail negotiation_failed
      else (do payload ← read_exact (c * 256 + d - 4); try (value (Cotp.decode payload)))
    else fail negotiation_failed
recv_body _ = fail negotiation_failed

unfoldable pub recv_tpkt_cotp : Io CotpPdu
recv_tpkt_cotp = do header ← read_exact 4; recv_body header

abbrev pub data_payload : CotpPdu → Io Bytes
data_payload (dt nr last payload) = return payload
data_payload (connect_request _ _ _ _) = fail negotiation_failed
data_payload (connect_confirm _ _) = fail negotiation_failed
data_payload (er _ _ _) = fail negotiation_failed

unfoldable pub recv_cotp_data : Io Bytes
unfolding recv_tpkt_cotp
recv_cotp_data = do pdu ← recv_tpkt_cotp; data_payload pdu

abbrev pub src_ref_of : CotpPdu → Io ℕ
src_ref_of (connect_request dst_ref src_ref rack slot) = return src_ref
src_ref_of (connect_confirm _ _) = fail negotiation_failed
src_ref_of (dt _ _ _) = fail negotiation_failed
src_ref_of (er _ _ _) = fail negotiation_failed

-- `if req_header.pdu_type != PduType::Job { return Err(…) }`
abbrev pub expect_job : PduType → Io (Unit {0})
expect_job PduType.job = return tt
expect_job PduType.ack = fail negotiation_failed
expect_job PduType.ack_data = fail negotiation_failed
expect_job PduType.user_data = fail negotiation_failed

-- The request that the client sent, and the reply to it with the PDU size capped.
abbrev pub read_request : Bytes → Io (S7Header × Negotiate)
read_request payload = do
  header ← try (Header.decode payload)
  expect_job header.0.pdu_type
  request ← try (value (Negotiate.decode header.1))
  return (header.0, request)

abbrev pub negotiated : Negotiate → Negotiate
negotiated request = record request { pdu_length = min request.pdu_length max_pdu_size }

unfoldable pub server_handshake : Io ℕ
server_handshake = do
  cr ← recv_tpkt_cotp
  src_ref ← src_ref_of cr
  send_cotp (connect_confirm src_ref 0x0001)
  payload ← recv_cotp_data
  request ← read_request payload
  send_cotp_data (
      Header.encode (ack_header request.0.pdu_ref negotiate_param_len 0 0 0)
      ++ Negotiate.encode (negotiated request.1))
  return (negotiated request.1).pdu_length
