-- ===== src/Decoders.antt =====
-- All the decoders of crates/snap7-client/src/proto together.
use rs_snap.Prelude.{◌≢◌}
use rs_snap.Wire.{Bytes, panic}
use rs_snap.Tpkt
use rs_snap.Tpkt.Laws as TpktLaws
use rs_snap.Cotp
use rs_snap.Cotp.Laws as CotpLaws
use rs_snap.S7.Header
use rs_snap.S7.Header.Laws as HeaderLaws
use rs_snap.S7.ReadVar
use rs_snap.S7.ReadVar.Request
use rs_snap.S7.ReadVar.Response
use rs_snap.S7.WriteVar
use rs_snap.S7.WriteVar.Laws as WriteVarLaws
use rs_snap.S7.Negotiate
use rs_snap.S7.Clock
use rs_snap.S7.Clock.Laws as ClockLaws
use rs_snap.S7.Szl
use rs_snap.Plus.Vlq
use rs_snap.Plus.Vlq.RoundTrip
use rs_snap.Plus.Frame
use rs_snap.Plus.Frame.Laws as FrameLaws
use rs_snap.Plus.DataArea
use rs_snap.Plus.Session
use rs_snap.Plus.MultiVar
use rs_snap.Plus.MultiVar.Laws as MultiVarLaws

-- No input, of any length and with any content, makes a decoder of the transport layers panic.
transport_decoders-ne-panic :
    (buf : Bytes)
    → (Tpkt.decode buf ≢ panic)
      × (Cotp.decode buf ≢ panic)
      × (Frame.decode buf ≢ panic)
      × (Vlq.decode_vlq buf ≢ panic)
      × (DataArea.decode buf ≢ panic)
transport_decoders-ne-panic buf = (
  TpktLaws.decode-ne-panic buf,
  CotpLaws.decode-ne-panic buf,
  FrameLaws.decode-ne-panic buf,
  RoundTrip.decode_vlq-ne-panic buf,
  DataArea.decode-ne-panic buf,
)
