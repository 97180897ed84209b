-- ===== src/S7/Negotiate.antt =====
-- crates/snap7-client/src/proto/s7/negotiate.rs: the parameters of the S7 connection set-up.
use rs_snap.Prelude.{ℕ, ◌≡◌, ◌≢◌, arith, ◌∷◌, ◌++◌, ◌==◌, not}
use rs_snap.Wire.{
  Bytes, IsU16, ok, panic, unsupported_function, Reader, ◌>>=◌, ◌>>◌, need, refuse, pure, get_u8,
  get_u16, put_u8, put_u16,
}

abbrev pub func_negotiate : ℕ
func_negotiate = 0xf0

-- `NegotiateRequest`; `NegotiateResponse` has the same fields, and the same code reads and writes it.
pub record Negotiate : Type 0 where
  pub max_amq_calling : ℕ
  pub max_amq_called : ℕ
  pub pdu_length : ℕ

unfoldable pub encode : Negotiate → Bytes
encode n =
    put_u8 func_negotiate
    ++ (put_u8 0
        ++ (put_u16 n.max_amq_calling ++ (put_u16 n.max_amq_called ++ put_u16 n.pdu_length)))

unfoldable pub decode : Reader Negotiate
decode = do
  need 8
  func ← get_u8
  refuse (not (func == func_negotiate)) (unsupported_function func)
  get_u8
  calling ← get_u16
  called ← get_u16
  pdu_length ← get_u16
  pure (record { max_amq_calling = calling; max_amq_called = called; pdu_length = pdu_length })

pub record IsValid (n : Negotiate) : Type 0 where
  pub calling_fits : IsU16 n.max_amq_calling
  pub called_fits : IsU16 n.max_amq_called
  pub pdu_length_fits : IsU16 n.pdu_length

-- Parameters of 16 bits each are read back, and what follows them is left in the buffer.
pub Negotiate-decode-encode :
    (n : Negotiate) (rest : Bytes) → IsValid n → decode (encode n ++ rest) ≡ ok (n, rest)
unfolding encode decode
Negotiate-decode-encode n rest v = ground arith

-- No input makes the negotiation decoders panic.
pub decode-ne-panic : (buf : Bytes) → decode buf ≢ panic
unfolding decode
decode-ne-panic (a ∷ b ∷ c ∷ d ∷ e ∷ f ∷ g ∷ h ∷ rest) = ground arith
decode-ne-panic _ = ground arith
