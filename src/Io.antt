-- ===== src/Io.antt =====
-- Code that reads and writes a transport: a run takes the bytes that the peer sends, and gives the
-- bytes sent and the outcome with the input that is left. `read_exact` at the end of the input is
-- the I/O error; the error types of crates/snap7-client/src/error.rs and
-- crates/snap7-server/src/error.rs are one type, with no variants for timeouts and refused
-- connections.
pub mod Frames
use rs_snap.Prelude.{
  ℕ, ◌+◌, ◌-◌, ◌*◌, List, [], ◌∷◌, ◌++◌, length, take, drop, leb, Bool, true, false,
}
use rs_snap.Wire.{Bytes, ProtoError, Result, ok, err, panic, Reader}
use rs_snap.Tpkt.{TpktFrame}
use rs_snap.Tpkt
use rs_snap.Cotp.{CotpPdu, dt}
use rs_snap.Cotp

pub data Error : Type 0 where
  proto : ProtoError → Error
  io : Error
  negotiation_failed unexpected_response : Error
  plc_error : ℕ → Error

pub data Outcome (A : Type 0) : Type 0 where
  done : A → Outcome A
  failed : Error → Outcome A
  crash : Outcome A

abbrev pub Io : Type 0 → Type 0
Io A = Bytes → Bytes × Outcome (A × Bytes)

-- Put what was sent before in front.
abbrev pub after_sending : {A : Type 0} → Bytes → Bytes × Outcome A → Bytes × Outcome A
after_sending sent run = (sent ++ run.0, run.1)

abbrev pub go_on :
    {A B : Type 0} → Bytes × Outcome (A × Bytes) → (A → Io B) → Bytes × Outcome (B × Bytes)
go_on (sent, done (a, rest)) f = after_sending sent (f a rest)
go_on (sent, failed e) f = (sent, failed e)
go_on (sent, crash) f = (sent, crash)

infixl 5 ◌>>=◌ ◌>>◌
abbrev pub ◌>>=◌ : {A B : Type 0} → Io A → (A → Io B) → Io B
◌>>=◌ m f input = go_on (m input) f

abbrev pub ◌>>◌ : {A B : Type 0} → Io A → Io B → Io B
m >> k = m >>= λ _. k

abbrev pub return : {A : Type 0} → A → Io A
return a input = ([], done (a, input))

abbrev pub fail : {A : Type 0} → Error → Io A
fail e input = ([], failed e)

abbrev pub write_all : Bytes → Io (Unit {0})
write_all bytes input = (bytes, done (tt, input))

abbrev pub cut_exact : Bool → ℕ → Io Bytes
cut_exact true n input = ([], done (take n input, drop n input))
cut_exact false n input = ([], failed io)

abbrev pub read_exact : ℕ → Io Bytes
read_exact n input = cut_exact (leb n (length input)) n input

-- `result?` for a result of the protocol layer.
abbrev pub try : {A : Type 0} → Result A → Io A
try (ok a) input = ([], done (a, input))
try (err e) input = ([], failed (proto e))
try panic input = ([], crash)

-- A reader on a buffer that is not used after it.
abbrev pub value : {A : Type 0} → Result (A × Bytes) → Result A
value (ok (a, rest)) = ok a
value (err e) = err e
value panic = panic

-- `send_tpkt_cotp`, `send_cotp`: handshake.rs and connection.rs have the same.
unfoldable pub send_cotp : CotpPdu → Io (Unit {0})
send_cotp pdu = do wire ← try (Tpkt.encode (record { payload = Cotp.encode pdu })); write_all wire

unfoldable pub send_cotp_data : Bytes → Io (Unit {0})
unfolding send_cotp
send_cotp_data payload = send_cotp (dt 0 true payload)
