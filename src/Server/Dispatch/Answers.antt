-- ===== src/Server/Dispatch/Answers.antt =====
-- The replies of crates/snap7-server/src/dispatch.rs to requests of every kind.
use rs_snap.Prelude.{
  ℕ, ◌≡◌, ◌≢◌, ◌+◌, refl, arith, Bool-cases, inl, inr, leb, leb→le, length, bit_and, either, [],
  ◌∷◌, ◌++◌, ◌==◌, ◌||◌,
}
use rs_snap.Wire.{Bytes, Result, ok, err, panic, IsU16}
use rs_snap.S7.Codes.{PduType}
use rs_snap.S7.Header.{S7Header, encode, decode}
use rs_snap.S7.Header.Laws.{IsValid, S7Header-decode-encode, decode-ne-panic}
use rs_snap.S7.ReadVar
use rs_snap.S7.ReadVar.Request.{decode_request-ne-panic}
use rs_snap.S7.WriteVar
use rs_snap.S7.WriteVar.Laws as WriteVarLaws
use rs_snap.Server.Replies.{simple_ack, error_response, szl_id_of, szl_params}
use rs_snap.Server.Reads.{index_in_range}
use rs_snap.Server.Replies.Laws.{
  Answers, decode-ack_data, decode-error_response, decode-simple_ack, control_reply-Answers,
  clock_reply-Answers, szl_reply-Answers,
}
use rs_snap.Server.Store.{Store, Callbacks}
use rs_snap.Server.Dispatch.{
  Handled, handle_read_var, handle_write_var, answer, handle_job, handle_clock_user_data,
  handle_user_data, handle_szl_user_data, set_clock_user_data, byte_at, is_user_request, dispatch,
  respond, is_control, respond_decoded,
}

-- What the outcome of a request is: a reply that answers it, and a store.
abbrev pub IsAnswered : ℕ → Result (Bytes × Store) → Type 0
IsAnswered pdu_ref r =
    (reply : Bytes) × (after : Store) × (r ≡ ok (reply, after)) × Answers pdu_ref reply

-- A read that gives a value.
abbrev IsRead : {A : Type 0} → Result A → Type 0
IsRead {A} r = (a : A) × (r ≡ ok a)

szl_id_of-IsRead : (payload : Bytes) → IsRead (szl_id_of payload)
unfolding szl_id_of
szl_id_of-IsRead payload = elim (Bool-cases (leb 14 (length payload))) [
  | inl e ↦
      let long = leb→le 14 (length payload) e in
      rw (e, index_in_range payload 12 (omega arith), index_in_range payload 13 (omega arith))
        (_, refl)
  | inr e ↦ rw e (_, refl)
]

szl_params-IsRead : (payload : Bytes) → IsRead (szl_params payload)
unfolding szl_params
szl_params-IsRead payload = elim (Bool-cases (leb 12 (length payload))) [
  | inl e ↦ rw e (_, refl)
  | inr e ↦ rw e (_, refl)
]

module _ (calls : Callbacks) where
  byte_at-IsRead : (payload : Bytes) (i : ℕ) → IsRead (byte_at calls payload i)
  unfolding byte_at
  byte_at-IsRead payload i = elim (Bool-cases (leb (i + 1) (length payload))) [
    | inl e ↦
        let long = leb→le (i + 1) (length payload) e in
        rw (e, index_in_range payload i (omega arith)) (_, refl)
    | inr e ↦ rw e (_, refl)
  ]

  is_user_request-IsRead : (payload : Bytes) → IsRead (is_user_request calls payload)
  unfolding is_user_request
  is_user_request-IsRead payload = elim (Bool-cases (leb 5 (length payload))) [
    | inl e ↦
        let long = leb→le 5 (length payload) e in
        rw (e, index_in_range payload 4 (omega arith)) (_, refl)
    | inr e ↦ rw e (_, refl)
  ]

  set_clock_user_data-IsRead :
      (r : ℕ) (payload : Bytes) (s : Store) → IsRead (set_clock_user_data calls r payload s)
  unfolding set_clock_user_data
  set_clock_user_data-IsRead r payload s = elim (Bool-cases (leb 20 (length payload))) [
    | inl e ↦ rw e (_, refl)
    | inr e ↦ rw e (_, refl)
  ]

  handle_clock_user_data-IsRead :
      (r : ℕ) (payload : Bytes) (s : Store) → IsRead (handle_clock_user_data calls r payload s)
  unfolding handle_clock_user_data
  handle_clock_user_data-IsRead r payload s =
      let (subfn, e) = byte_at-IsRead payload 6 in
      rw e (either IsRead (subfn == 0x02) (set_clock_user_data-IsRead r payload s) (_, refl))

  handle_user_data-IsRead :
      (r : ℕ) (payload : Bytes) (s : Store) → IsRead (handle_user_data calls r payload s)
  unfolding handle_user_data handle_szl_user_data
  handle_user_data-IsRead r payload s =
      let (tg, e) = byte_at-IsRead payload 5 in
      let (szl_id, e') = szl_id_of-IsRead payload in
      let (params, e'') = szl_params-IsRead payload in
      rw (e, e', e'')
        (either IsRead (bit_and tg 0x0f == 0x07) (handle_clock_user_data-IsRead r payload s)
          (_, refl))

  handle_read_var-ne-panic : (payload : Bytes) (s : Store) → handle_read_var calls payload s ≢ panic
  unfolding handle_read_var
  handle_read_var-ne-panic payload s = ground (arith, decode_request-ne-panic payload)

  handle_write_var-ne-panic :
      (payload : Bytes) (s : Store) → handle_write_var calls payload s ≢ panic
  unfolding handle_write_var
  handle_write_var-ne-panic payload s = ground (arith, WriteVarLaws.decode_request-ne-panic payload)

module _ (calls : Callbacks) (r : ℕ) (hr : IsU16 r) where
  error-IsAnswered : (s : Store) → IsAnswered r (ok (error_response r 0x81 0x04, s))
  error-IsAnswered s =
      (_, _, refl, (_, _, decode-error_response r hr 0x81 0x04 (omega arith) (omega arith), refl))

  ack-IsAnswered : (s : Store) → IsAnswered r (ok (simple_ack r, s))
  ack-IsAnswered s = (_, _, refl, (_, _, decode-simple_ack r hr, refl))

  answer-IsAnswered :
      (func : ℕ) (h : Handled) (s : Store) → h ≢ panic → IsAnswered r (answer calls r func h s)
  answer-IsAnswered func (ok (reply, after)) s ne =
      (_, _, refl, (_, _, decode-ack_data r hr func reply.0 reply.1, refl))
  answer-IsAnswered func (err e) s ne = error-IsAnswered s
  answer-IsAnswered func panic s ne = absurd (ne refl)

  handle_job-IsAnswered :
      (func : ℕ) (payload : Bytes) (s : Store) → IsAnswered r (handle_job calls r func payload s)
  unfolding handle_job
  handle_job-IsAnswered func payload s =
      either (IsAnswered r) (func == ReadVar.func_read_var)
        (answer-IsAnswered ReadVar.func_read_var _ s (handle_read_var-ne-panic calls payload s))
        (either (IsAnswered r) (func == WriteVar.func_write_var)
          (answer-IsAnswered WriteVar.func_write_var _ s
            (handle_write_var-ne-panic calls payload s))
          (either (IsAnswered r) (is_control calls func)
            (_, s, refl, control_reply-Answers r hr func)
            (either (IsAnswered r) (func == 0x11 || func == 0x12) (ack-IsAnswered s)
              (error-IsAnswered s))))

  set_clock_user_data-IsAnswered :
      (payload : Bytes) (s : Store) → IsAnswered r (set_clock_user_data calls r payload s)
  unfolding set_clock_user_data
  set_clock_user_data-IsAnswered payload s = elim (Bool-cases (leb 20 (length payload))) [
    | inl e ↦ rw e (ack-IsAnswered _)
    | inr e ↦ rw e (ack-IsAnswered s)
  ]

  handle_clock_user_data-IsAnswered :
      (payload : Bytes) (s : Store) → IsAnswered r (handle_clock_user_data calls r payload s)
  unfolding handle_clock_user_data
  handle_clock_user_data-IsAnswered payload s =
      let (subfn, e) = byte_at-IsRead calls payload 6 in
      rw e (
        either (IsAnswered r) (subfn == 0x02) (set_clock_user_data-IsAnswered payload s)
          (_, _, refl, clock_reply-Answers r hr _))

  handle_szl_user_data-IsAnswered :
      (payload : Bytes) (s : Store) → IsAnswered r (handle_szl_user_data calls r payload s)
  unfolding handle_szl_user_data
  handle_szl_user_data-IsAnswered payload s =
      let (szl_id, e) = szl_id_of-IsRead payload in
      let (params, e') = szl_params-IsRead payload in
      rw (e, e') (_, _, refl, szl_reply-Answers r hr params szl_id)

  handle_user_data-IsAnswered :
      (payload : Bytes) (s : Store) → IsAnswered r (handle_user_data calls r payload s)
  unfolding handle_user_data
  handle_user_data-IsAnswered payload s =
      let (tg, e) = byte_at-IsRead calls payload 5 in
      rw e (
        either (IsAnswered r) (bit_and tg 0x0f == 0x07)
          (handle_clock_user_data-IsAnswered payload s) (handle_szl_user_data-IsAnswered payload s))

  dispatch-IsAnswered :
      (p : PduType) (func : ℕ) (payload : Bytes) (s : Store)
      → IsAnswered r (dispatch calls p r func payload s)
  unfolding dispatch
  dispatch-IsAnswered PduType.job func payload s = handle_job-IsAnswered func payload s
  dispatch-IsAnswered PduType.user_data func payload s =
      let (is_request, e) = is_user_request-IsRead calls payload in
      rw e (
        either (IsAnswered r) is_request (handle_user_data-IsAnswered payload s) (ack-IsAnswered s))
  dispatch-IsAnswered _ func payload s = error-IsAnswered s

  respond_decoded-IsAnswered :
      (h : S7Header) (payload : Bytes) (s : Store)
      → h.pdu_ref ≡ r
      → IsAnswered r (respond_decoded calls (ok (h, payload)) s)
  respond_decoded-IsAnswered h [] s e = rw e (error-IsAnswered s)
  respond_decoded-IsAnswered h (func ∷ rest) s e =
      rw e (dispatch-IsAnswered h.pdu_type func (func ∷ rest) s)

module _ (calls : Callbacks) where
  -- For a request with a well-formed header one reply is computed, whatever its type, its function and
  -- its body, and whatever the store holds: the reply starts with a header that the client decodes,
  -- with the reference number of the request.
  pub respond-IsAnswered :
      (h : S7Header) (body : Bytes) (s : Store)
      → IsValid h
      → IsAnswered h.pdu_ref (respond calls (encode h ++ body) s)
  unfolding respond
  respond-IsAnswered h body s v =
      rw (S7Header-decode-encode h body v)
        (respond_decoded-IsAnswered calls h.pdu_ref v.pdu_ref_fits h body s refl)

  dispatch-ne-panic :
      (p : PduType) (r func : ℕ) (payload : Bytes) (s : Store)
      → dispatch calls p r func payload s ≢ panic
  unfolding dispatch handle_job
  dispatch-ne-panic PduType.job r func payload s =
      ground
        (arith, handle_read_var-ne-panic calls payload s, handle_write_var-ne-panic calls payload s)
  dispatch-ne-panic PduType.user_data r func payload s =
      let (is_request, e) = is_user_request-IsRead calls payload in
      let (x, e') = handle_user_data-IsRead calls r payload s in
      rw (e, e') (either (λ (y : Result (Bytes × Store)). y ≢ panic) is_request (λ h. cc) (λ h. cc))
  dispatch-ne-panic _ r func payload s = λ e. cc

  respond_decoded-ne-panic :
      (d : Result (S7Header × Bytes)) (s : Store) → d ≢ panic → respond_decoded calls d s ≢ panic
  respond_decoded-ne-panic (ok (h, [])) s ne = λ e. cc
  respond_decoded-ne-panic (ok (h, func ∷ rest)) s ne =
      dispatch-ne-panic h.pdu_type h.pdu_ref func (func ∷ rest) s
  respond_decoded-ne-panic (err e) s ne = λ e. cc
  respond_decoded-ne-panic panic s ne = absurd (ne refl)

  -- No payload, well-formed or not, makes the loop panic.
  pub respond-ne-panic : (payload : Bytes) (s : Store) → respond calls payload s ≢ panic
  unfolding respond
  respond-ne-panic payload s = respond_decoded-ne-panic (decode payload) s (decode-ne-panic payload)
