-- ===== src/Client/Session/Frames.antt =====
-- The exchange of crates/snap7-client/src/client.rs with a peer whose frames come whole.
use rs_snap.Prelude.{ℕ, ◌≤◌, ◌≡◌, arith, [], ◌++◌, length, length-append, take-append, drop-append}
use rs_snap.Wire.{Bytes, ok}
use rs_snap.Cotp.{CotpPdu, dt, tpdu_byte}
use rs_snap.Cotp
use rs_snap.S7.Codes.{PduType}
use rs_snap.S7.Header.{S7Header}
use rs_snap.S7.Header
use rs_snap.Io.{done}
use rs_snap.Io.Frames.{data_frame, send_cotp_data-framed}
use rs_snap.Client.Session.{Inner, request_payload, send_s7, recv_s7}

pub send_s7-framed :
    (param_buf data_buf : Bytes) (pdu_ref : ℕ) (t : PduType) (inner : Inner) (input : Bytes)
    → length (request_payload param_buf data_buf pdu_ref t) ≤ 65528
    → send_s7 param_buf data_buf pdu_ref t inner input
      ≡ (inner, (data_frame (request_payload param_buf data_buf pdu_ref t), done (tt, input)))
unfolding send_s7
send_s7-framed param_buf data_buf pdu_ref t inner input h =
    rw (send_cotp_data-framed (request_payload param_buf data_buf pdu_ref t) input h)

pub recv_s7-framed :
    (payload body rest : Bytes) (header : S7Header) (inner : Inner)
    → length payload ≤ 65528
    → Header.decode payload ≡ ok (header, body)
    → recv_s7 inner (data_frame payload ++ rest) ≡ (inner, ([], done ((header, body), rest)))
unfolding recv_s7 Cotp.encode
recv_s7-framed payload body rest header inner h d =
    ground (arith, length-append payload rest, take-append payload rest, drop-append payload rest)
