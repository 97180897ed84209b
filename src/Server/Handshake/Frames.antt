-- ===== src/Server/Handshake/Frames.antt =====
-- What the server receives of a frame that was sent whole.
use rs_snap.Prelude.{
  ◌≤◌, ◌≡◌, arith, [], ◌++◌, length, length-append, take-append, drop-append, true,
}
use rs_snap.Wire.{Bytes}
use rs_snap.Cotp.{CotpPdu, dt}
use rs_snap.Cotp
use rs_snap.Cotp.Laws.{IsValid, CotpPdu-decode-encode}
use rs_snap.Io.{done}
use rs_snap.Io.Frames.{framed, data_frame}
use rs_snap.Server.Handshake.{recv_tpkt_cotp, recv_cotp_data}

pub recv_tpkt_cotp-framed :
    (pdu : CotpPdu) (rest : Bytes)
    → IsValid pdu
    → length (Cotp.encode pdu) ≤ 65531
    → recv_tpkt_cotp (framed (Cotp.encode pdu) ++ rest) ≡ ([], done (pdu, rest))
unfolding recv_tpkt_cotp
recv_tpkt_cotp-framed pdu rest v h = ground (
  arith,
  length-append (Cotp.encode pdu) rest,
  take-append (Cotp.encode pdu) rest,
  drop-append (Cotp.encode pdu) rest,
  CotpPdu-decode-encode pdu v,
)

pub recv_cotp_data-framed :
    (payload rest : Bytes)
    → length payload ≤ 65528
    → recv_cotp_data (data_frame payload ++ rest) ≡ ([], done (payload, rest))
unfolding recv_cotp_data
recv_cotp_data-framed payload rest h =
    let r =
      recv_tpkt_cotp-framed (dt 0 true payload) rest (omega arith)
        (unfold Cotp.encode in omega arith) in
    rw r
