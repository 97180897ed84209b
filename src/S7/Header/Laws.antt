-- ===== src/S7/Header/Laws.antt =====
-- `S7Header::decode` on what `S7Header::encode` wrote, and on any other input.
use rs_snap.Prelude.{ℕ, ◌≡◌, ◌≢◌, refl, arith, Option, none, some, ◌∷◌, ◌++◌}
use rs_snap.Wire.{Bytes, ok, panic, IsU8, IsU16}
use rs_snap.S7.Codes.{PduType, pdu_type_of-pdu_code, pdu_type_of-ne-panic}
use rs_snap.S7.Header.{S7Header, encode, decode, put_error, get_error}

-- Error bytes stand in acknowledgements only, both or none.
abbrev pub ErrorFits : PduType → Option ℕ → Option ℕ → Type 0
ErrorFits PduType.ack (some class) (some code) = IsU8 class × IsU8 code
ErrorFits PduType.ack_data (some class) (some code) = IsU8 class × IsU8 code
ErrorFits PduType.job none none = Unit {0}
ErrorFits PduType.user_data none none = Unit {0}
ErrorFits _ _ _ = ⊥

pub record IsValid (h : S7Header) : Type 0 where
  pub reserved_fits : IsU16 h.reserved
  pub pdu_ref_fits : IsU16 h.pdu_ref
  pub param_len_fits : IsU16 h.param_len
  pub data_len_fits : IsU16 h.data_len
  pub error_fits : ErrorFits h.pdu_type h.error_class h.error_code

get_error-put_error :
    (p : PduType) (class code : Option ℕ) (rest : Bytes)
    → ErrorFits p class code
    → get_error p (put_error class code ++ rest) ≡ ok ((class, code), rest)
get_error-put_error PduType.ack (some a) (some b) rest h = refl
get_error-put_error PduType.ack_data (some a) (some b) rest h = refl
get_error-put_error PduType.job none none rest h = refl
get_error-put_error PduType.user_data none none rest h = refl
get_error-put_error _ _ _ rest h = absurd h

-- A header with fields in range, whose error bytes fit its type, is read back with what follows it
-- left in the buffer.
pub S7Header-decode-encode :
    (h : S7Header) (rest : Bytes) → IsValid h → decode (encode h ++ rest) ≡ ok (h, rest)
unfolding encode decode
S7Header-decode-encode h rest v = ground (
  arith,
  pdu_type_of-pdu_code h.pdu_type,
  get_error-put_error h.pdu_type h.error_class h.error_code rest,
)

pub get_error-ne-panic : (p : PduType) (buf : Bytes) → get_error p buf ≢ panic
get_error-ne-panic PduType.ack (a ∷ b ∷ buf) = λ e. cc
get_error-ne-panic PduType.ack_data (a ∷ b ∷ buf) = λ e. cc
get_error-ne-panic _ _ = λ e. cc

-- No input makes `S7Header::decode` panic.
pub decode-ne-panic : (buf : Bytes) → decode buf ≢ panic
unfolding decode
decode-ne-panic (m ∷ p ∷ c ∷ d ∷ e ∷ f ∷ g ∷ h ∷ i ∷ j ∷ rest) =
    ground (arith, pdu_type_of-ne-panic p)
decode-ne-panic _ = ground arith
