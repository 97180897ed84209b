-- ===== src/Client/Session.antt =====
-- crates/snap7-client/src/client.rs: `Inner` and the exchange of one request and its response. A peer
-- that stays silent for the whole request timeout is at the end of its input, as one that hangs up:
-- both are an error of the read.
pub mod Frames
use rs_snap.Prelude.{
  ℕ, ◌+◌, ◌-◌, ◌*◌, ◌%◌, ◌^◌, Bool, true, false, Option, none, some, List, [], ◌∷◌, ◌++◌, length,
  ltb, ◌==◌, ◌&&◌, if◌then◌else◌,
}
use rs_snap.Wire.{Bytes}
use rs_snap.Io.{
  Io, Outcome, Error, done, failed, crash, unexpected_response, plc_error, return, fail, try,
  read_exact, send_cotp_data,
}
use rs_snap.S7.Codes.{PduType}
use rs_snap.S7.Header.{S7Header}
use rs_snap.S7.Header
use rs_snap.Client.Connection.{check_error}

-- The fields of `Inner` that are not times: `pdu_size` is that of the `Connection`.
pub record Inner : Type 0 where
  pub pdu_size : ℕ
  pub pdu_ref : ℕ
  pub connected : Bool

-- A run on the state that the mutex guards, which it leaves whatever the outcome.
abbrev pub Run : Type 0 → Type 0
Run A = Inner → Bytes → Inner × (Bytes × Outcome (A × Bytes))

abbrev pub after_sending : {A : Type 0} → Bytes → Inner × (Bytes × A) → Inner × (Bytes × A)
after_sending sent (inner, (more, o)) = (inner, (sent ++ more, o))

abbrev pub go_on :
    {A B : Type 0}
    → Inner × (Bytes × Outcome (A × Bytes))
    → (A → Run B)
    → Inner × (Bytes × Outcome (B × Bytes))
go_on (inner, (sent, done (a, rest))) f = after_sending sent (f a inner rest)
go_on (inner, (sent, failed e)) f = (inner, (sent, failed e))
go_on (inner, (sent, crash)) f = (inner, (sent, crash))

infixl 5 ◌>>=◌ ◌>>◌
abbrev pub ◌>>=◌ : {A B : Type 0} → Run A → (A → Run B) → Run B
◌>>=◌ m f inner input = go_on (m inner input) f

abbrev pub ◌>>◌ : {A B : Type 0} → Run A → Run B → Run B
m >> k = m >>= λ _. k

-- A step that leaves the state alone.
abbrev pub run_io : {A : Type 0} → Io A → Run A
run_io m inner input = (inner, m input)

abbrev mark : {A : Type 0} → Inner → Bytes × Outcome A → Inner × (Bytes × Outcome A)
mark inner (sent, done a) = (inner, (sent, done a))
mark inner (sent, failed e) = (record inner { connected = false }, (sent, failed e))
mark inner (sent, crash) = (inner, (sent, crash))

-- `inner.connected = false` where a read fails.
abbrev pub reading : {A : Type 0} → Io A → Run A
reading m inner input = mark inner (m input)

-- `wrapping_add(1)`
unfoldable pub next_pdu_ref : Run ℕ
next_pdu_ref inner input =
    let next = (inner.pdu_ref + 1) % 2 ^ 16 in
    (record inner { pdu_ref = next }, ([], done (next, input)))

abbrev pub request_header : (pdu_ref param_len data_len : ℕ) → PduType → S7Header
request_header pdu_ref param_len data_len pdu_type = record {
  pdu_type = pdu_type;
  reserved = 0;
  pdu_ref = pdu_ref;
  param_len = param_len;
  data_len = data_len;
  error_class = none;
  error_code = none;
}

abbrev pub request_payload : (param_buf data_buf : Bytes) → (pdu_ref : ℕ) → PduType → Bytes
request_payload param_buf data_buf pdu_ref pdu_type =
    Header.encode
      (request_header pdu_ref (length param_buf % 2 ^ 16) (length data_buf % 2 ^ 16) pdu_type)
    ++ (param_buf ++ data_buf)

unfoldable pub send_s7 : (param_buf data_buf : Bytes) → (pdu_ref : ℕ) → PduType → Run (Unit {0})
send_s7 param_buf data_buf pdu_ref pdu_type =
    run_io (send_cotp_data (request_payload param_buf data_buf pdu_ref pdu_type))

-- `total < 4`, on the four bytes read.
abbrev pub body_len : Bytes → Io ℕ
body_len (a ∷ b ∷ c ∷ d ∷ _) =
    if ltb (c * 256 + d) 4 then fail unexpected_response else return (c * 256 + d - 4)
body_len _ = fail unexpected_response

-- The COTP header: a length that is not looked at, the code of a DT, and a number that is not.
abbrev pub strip_dt : Bytes → Io Bytes
strip_dt (li ∷ code ∷ nr ∷ rest) = if code == 0xf0 then return rest else fail unexpected_response
strip_dt _ = fail unexpected_response

unfoldable pub recv_s7 : Run (S7Header × Bytes)
recv_s7 = do
  header ← reading (read_exact 4)
  len ← run_io (body_len header)
  payload ← reading (read_exact len)
  s7 ← run_io (strip_dt payload)
  run_io (try (Header.decode s7))

-- `check_plc_error`; its message is left out.
abbrev pub check_plc_error : S7Header → Run (Unit {0})
check_plc_error header = run_io (check_error header.error_class header.error_code)
