-- ===== src/Server/Replies/Laws.antt =====
-- The header of every reply of crates/snap7-server/src/dispatch.rs.
use rs_snap.Prelude.{
  ℕ, ◌%◌, ◌^◌, ◌≡◌, refl, arith, Bool-cases, inl, inr, [], ◌∷◌, ◌++◌, length, ◌==◌,
}
use rs_snap.Wire.{Bytes, ok, IsU8, IsU16}
use rs_snap.S7.Header.{S7Header, encode, decode}
use rs_snap.S7.Header.Laws.{IsValid, S7Header-decode-encode}
use rs_snap.Server.Replies.{
  ack_header, simple_ack, error_response, ack_data, control_reply, clock_reply, szl_reply,
}

-- The reply starts with a header that `decode` accepts and that carries this reference.
abbrev pub Answers : ℕ → Bytes → Type 0
Answers pdu_ref reply =
    (h : S7Header) × (body : Bytes) × (decode reply ≡ ok (h, body)) × (h.pdu_ref ≡ pdu_ref)

pub ack_header-IsValid :
    (r p d c e : ℕ) → IsU16 r → IsU16 p → IsU16 d → IsU8 c → IsU8 e → IsValid (ack_header r p d c e)
ack_header-IsValid r p d c e hr hp hd hc he = record {
  reserved_fits = omega arith;
  pdu_ref_fits = hr;
  param_len_fits = hp;
  data_len_fits = hd;
  error_fits = (hc, he);
}

-- What a client decodes of each reply.
module _ (r : ℕ) (hr : IsU16 r) where
  pub decode-ack_header :
      (p d c e : ℕ) (body : Bytes)
      → IsU16 p
      → IsU16 d
      → IsU8 c
      → IsU8 e
      → decode (encode (ack_header r p d c e) ++ body) ≡ ok (ack_header r p d c e, body)
  decode-ack_header p d c e body hp hd hc he =
      S7Header-decode-encode (ack_header r p d c e) body
        (ack_header-IsValid r p d c e hr hp hd hc he)

  pub decode-ack_data :
      (func n : ℕ) (content : Bytes)
      → decode (ack_data r func n content)
        ≡ ok (ack_header r 2 (length content % 2 ^ 16) 0 0, func ∷ n ∷ content)
  unfolding ack_data
  decode-ack_data func n content =
      decode-ack_header 2 (length content % 2 ^ 16) 0 0 (func ∷ n ∷ content) (omega arith)
        (omega arith) (omega arith) (omega arith)

  pub decode-error_response :
      (c e : ℕ) → IsU8 c → IsU8 e → decode (error_response r c e) ≡ ok (ack_header r 0 0 c e, [])
  unfolding error_response encode
  decode-error_response c e hc he = decode-ack_header 0 0 c e [] (omega arith) (omega arith) hc he

  pub decode-simple_ack : decode (simple_ack r) ≡ ok (ack_header r 0 0 0 0, [])
  unfolding simple_ack encode
  decode-simple_ack =
      decode-ack_header 0 0 0 0 [] (omega arith) (omega arith) (omega arith) (omega arith)

  pub control_reply-Answers : (func : ℕ) → Answers r (control_reply r func)
  unfolding control_reply
  control_reply-Answers func = elim (Bool-cases (func == 0x31)) [
    | inl stop ↦ rw stop (
      ack_header r 2 1 0 0,
      func ∷ 0 ∷ 0x08 ∷ [],
      decode-ack_header 2 1 0 0 (func ∷ 0 ∷ 0x08 ∷ []) (omega arith) (omega arith) (omega arith)
          (omega arith),
      refl,
    )
    | inr other ↦ rw other (
      ack_header r 2 0 0 0,
      func ∷ 0 ∷ [],
      decode-ack_header 2 0 0 0 (func ∷ 0 ∷ []) (omega arith) (omega arith) (omega arith)
          (omega arith),
      refl,
    )
  ]

  pub clock_reply-Answers : (clock : Bytes) → Answers r (clock_reply r clock)
  unfolding clock_reply
  clock_reply-Answers clock = (
    _,
    _,
    S7Header-decode-encode _ _ (record {
      reserved_fits = omega arith;
      pdu_ref_fits = hr;
      param_len_fits = omega arith;
      data_len_fits = omega arith;
      error_fits = tt;
    }),
    refl,
  )

  pub szl_reply-Answers : (params : Bytes) (szl_id : ℕ) → Answers r (szl_reply r params szl_id)
  unfolding szl_reply
  szl_reply-Answers params szl_id = (
    _,
    _,
    decode-ack_header 12 _ 0 0 _ (omega arith) (omega arith) (omega arith) (omega arith),
    refl,
  )
