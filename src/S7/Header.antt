-- ===== src/S7/Header.antt =====
-- crates/snap7-client/src/proto/s7/header.rs: the header of every S7 PDU.
pub mod Laws
use rs_snap.Prelude.{
  ℕ, ◌+◌, ◌*◌, ◌/◌, ◌%◌, Option, none, some, List, [], ◌∷◌, ◌++◌, length, ltb, ◌==◌, not,
}
use rs_snap.Wire.{
  Bytes, Result, ok, err, panic, invalid_magic, Reader, ◌>>=◌, ◌>>◌, need, refuse, pure, lift,
  get_u8, get_u16, put_u8, put_u16,
}
use rs_snap.S7.Codes.{PduType, pdu_code, pdu_type_of}

abbrev pub s7_magic : ℕ
s7_magic = 0x32

pub record S7Header : Type 0 where
  pub pdu_type : PduType
  pub reserved : ℕ
  pub pdu_ref : ℕ
  pub param_len : ℕ
  pub data_len : ℕ
  pub error_class : Option ℕ
  pub error_code : Option ℕ

-- `if let (Some(ec), Some(ecd)) = (self.error_class, self.error_code)`
abbrev pub put_error : Option ℕ → Option ℕ → Bytes
put_error (some class) (some code) = put_u8 class ++ put_u8 code
put_error _ _ = []

-- The bytes that `S7Header::encode` appends.
unfoldable pub encode : S7Header → Bytes
encode h =
    put_u8 s7_magic
    ++ (put_u8 (pdu_code h.pdu_type)
        ++ (put_u16 h.reserved
            ++ (put_u16 h.pdu_ref
                ++ (put_u16 h.param_len
                    ++ (put_u16 h.data_len ++ put_error h.error_class h.error_code)))))

abbrev get_pair : Reader (Option ℕ × Option ℕ)
get_pair (class ∷ code ∷ rest) = ok ((some class, some code), rest)
get_pair buf = ok ((none, none), buf)

-- `PduType::Ack | PduType::AckData if buf.remaining() >= 2`, and the catch-all.
abbrev pub get_error : PduType → Reader (Option ℕ × Option ℕ)
get_error PduType.ack buf = get_pair buf
get_error PduType.ack_data buf = get_pair buf
get_error PduType.job buf = ok ((none, none), buf)
get_error PduType.user_data buf = ok ((none, none), buf)

unfoldable pub decode : Reader S7Header
decode = do
  need 10
  magic ← get_u8
  refuse (not (magic == s7_magic)) (invalid_magic s7_magic magic)
  code ← get_u8
  pdu_type ← lift (pdu_type_of code)
  reserved ← get_u16
  pdu_ref ← get_u16
  param_len ← get_u16
  data_len ← get_u16
  error ← get_error pdu_type
  pure (record {
    pdu_type = pdu_type;
    reserved = reserved;
    pdu_ref = pdu_ref;
    param_len = param_len;
    data_len = data_len;
    error_class = error.0;
    error_code = error.1;
  })
