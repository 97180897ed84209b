-- ===== src/Tpkt/Laws.antt =====
-- What `TpktFrame::decode` does with what `TpktFrame::encode` wrote, and with any other input.
use rs_snap.Prelude.{◌≡◌, ◌≢◌, arith, ◌∷◌, ◌++◌, length-append, take-append, drop-append}
use rs_snap.Wire.{Bytes, ok, panic}
use rs_snap.Tpkt.{TpktFrame, encode, decode}

-- A frame that `encode` accepts is read back, and what follows it is left in the buffer.
TpktFrame-decode-encode :
    (frame : TpktFrame) (rest : Bytes) {wire : Bytes}
    → encode frame ≡ ok wire
    → decode (wire ++ rest) ≡ ok (frame, rest)
unfolding encode decode
TpktFrame-decode-encode frame rest h = ground (
  arith,
  length-append frame.payload rest,
  take-append frame.payload rest,
  drop-append frame.payload rest,
)

pub decode-ne-panic : (buf : Bytes) → decode buf ≢ panic
unfolding decode
decode-ne-panic (a ∷ b ∷ c ∷ d ∷ rest) = ground arith
decode-ne-panic _ = ground arith
