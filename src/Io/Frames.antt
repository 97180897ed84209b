-- ===== src/Io/Frames.antt =====
-- A COTP PDU in its TPKT frame, as `send_tpkt_cotp` writes it.
use rs_snap.Prelude.{◌+◌, ◌/◌, ◌%◌, ◌≤◌, ◌<◌, ◌≡◌, arith, [], ◌∷◌, length, true}
use rs_snap.Wire.{Bytes, encoding_failed, frame_too_large}
use rs_snap.Tpkt.{TpktFrame}
use rs_snap.Tpkt
use rs_snap.Cotp.{CotpPdu, dt}
use rs_snap.Cotp
use rs_snap.Io.{done, failed, proto, send_cotp, send_cotp_data}

abbrev pub framed : Bytes → Bytes
framed body = 3 ∷ 0 ∷ ((4 + length body) / 256) ∷ ((4 + length body) % 256) ∷ body

abbrev pub data_frame : Bytes → Bytes
data_frame payload = framed (Cotp.encode (dt 0 true payload))

pub send_cotp-framed :
    (pdu : CotpPdu) (input : Bytes)
    → length (Cotp.encode pdu) ≤ 65531
    → send_cotp pdu input ≡ (framed (Cotp.encode pdu), done (tt, input))
unfolding send_cotp Tpkt.encode
send_cotp-framed pdu input h = ground arith

pub length-dt : (payload : Bytes) → length (Cotp.encode (dt 0 true payload)) ≡ 3 + length payload
unfolding Cotp.encode
length-dt payload = omega arith

pub send_cotp_data-framed :
    (payload input : Bytes)
    → length payload ≤ 65528
    → send_cotp_data payload input ≡ (data_frame payload, done (tt, input))
unfolding send_cotp_data
send_cotp_data-framed payload input h =
    send_cotp-framed (dt 0 true payload) input (omega (arith, length-dt payload))

-- A payload that does not fit a frame is refused, and nothing is written.
pub send_cotp_data-refused :
    (payload input : Bytes)
    → 65528 < length payload
    → send_cotp_data payload input ≡ ([], failed (proto (encoding_failed frame_too_large)))
unfolding send_cotp_data send_cotp Tpkt.encode
send_cotp_data-refused payload input h = ground (arith, length-dt payload)
