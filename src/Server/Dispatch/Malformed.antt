-- ===== src/Server/Dispatch/Malformed.antt =====
-- The requests that crates/snap7-server/src/dispatch.rs answers with an error, told from their bytes.
use rs_snap.Prelude.{
  ℕ, zero, suc, ◌+◌, ◌*◌, ◌<◌, ◌≤◌, ◌≡◌, ◌≢◌, refl, sym, arith, ◌⊎◌, inl, inr, List, [], ◌∷◌, ◌++◌,
  length, All, append-nil,
}
use rs_snap.Wire.{
  Bytes, ok, err, Result-cases, get_all, ProtoError, buffer_too_short, invalid_magic,
}
use rs_snap.S7.Codes.{PduType}
use rs_snap.S7.Address.{AddressItem, get_address}
use rs_snap.S7.Address.Laws.{get_address-ne-panic}
use rs_snap.S7.Header.{S7Header, encode, decode}
use rs_snap.S7.Header.Laws.{IsValid, S7Header-decode-encode}
use rs_snap.S7.ReadVar
use rs_snap.S7.WriteVar
use rs_snap.Server.Replies.{error_response}
use rs_snap.Server.Store.{Store, Callbacks}
use rs_snap.Server.Dispatch.{
  handle_job, handle_read_var, handle_write_var, dispatch, respond, respond_decoded,
}

-- An address item is twelve bytes.
get_address_takes :
    (buf rest : Bytes) (item : AddressItem)
    → get_address buf ≡ ok (item, rest)
    → length buf ≡ 12 + length rest
unfolding get_address
get_address_takes (a ∷ b ∷ c ∷ d ∷ e ∷ f ∷ g ∷ h ∷ i ∷ j ∷ k ∷ l ∷ more) rest item q =
    ground (arith, q)
get_address_takes _ rest item q = ground arith

decode_short :
    (payload : Bytes)
    → length payload < 10
    → decode payload ≡ err (buffer_too_short 10 (length payload))
unfolding decode
decode_short payload h = ground arith

decode_bad_magic :
    (a : ℕ) (rest : Bytes)
    → a ≢ 0x32
    → 9 ≤ length rest
    → decode (a ∷ rest) ≡ err (invalid_magic 0x32 a)
unfolding decode
decode_bad_magic a rest h long = ground arith

-- Fewer bytes than the items need.
get_addresses_short :
    (count : ℕ) (body : Bytes)
    → length body < 12 * count
    → (e : ProtoError) × (get_all get_address count body ≡ err e)
unfolding get_all
get_addresses_short zero body h = absurd (omega arith)
get_addresses_short (suc n) body h =
    elim (Result-cases (get_address body) (get_address-ne-panic body)) [
      | inl ((item, rest), e) ↦
          let takes = get_address_takes body rest item e in
          let (x, e') = get_addresses_short n rest (omega (arith, takes)) in
          (x, ground (arith, e, e'))
      | inr (x, e) ↦ (x, ground (arith, e))
    ]

read_short :
    (count : ℕ) (body : Bytes)
    → length body < 12 * count
    → (e : ProtoError) × (ReadVar.decode_request (4 ∷ count ∷ body) ≡ err e)
unfolding ReadVar.decode_request ReadVar.get_addresses
read_short count body h = let (x, e) = get_addresses_short count body h in (x, ground (arith, e))

write_short :
    (count : ℕ) (body : Bytes)
    → length body < 12 * count
    → (e : ProtoError) × (WriteVar.decode_request (5 ∷ count ∷ body) ≡ err e)
unfolding WriteVar.decode_request
write_short count body h = let (x, e) = get_addresses_short count body h in (x, ground (arith, e))

-- The functions that a job can name.
abbrev pub functions : List ℕ
functions = 0x04 ∷ 0x05 ∷ 0x11 ∷ 0x12 ∷ 0x28 ∷ 0x29 ∷ 0x2a ∷ 0x31 ∷ []

-- The bytes that are no request, with the reference number of the error that answers them: too few for a
-- header, or not of the protocol; a header alone; an acknowledgement; a job of an unknown function; and a read
-- or a write with too few bytes for the addresses that it counts, twelve for each.
pub data IsMalformed (payload : Bytes) : ℕ → Type 0 where
  short : length payload < 10 → IsMalformed payload 0
  foreign :
      (a : ℕ) (rest : Bytes)
      → payload ≡ a ∷ rest
      → a ≢ 0x32
      → 9 ≤ length rest
      → IsMalformed payload 0
  bare : (h : S7Header) → IsValid h → payload ≡ encode h → IsMalformed payload h.pdu_ref
  reply :
      (h : S7Header) (body : Bytes)
      → IsValid h
      → (h.pdu_type ≡ PduType.ack) ⊎ (h.pdu_type ≡ PduType.ack_data)
      → payload ≡ encode h ++ body
      → IsMalformed payload h.pdu_ref
  unknown :
      (h : S7Header) (func : ℕ) (body : Bytes)
      → IsValid h
      → h.pdu_type ≡ PduType.job
      → All (λ known. func ≢ known) functions
      → payload ≡ encode h ++ (func ∷ body)
      → IsMalformed payload h.pdu_ref
  cut_off :
      (h : S7Header) (func count : ℕ) (body : Bytes)
      → IsValid h
      → h.pdu_type ≡ PduType.job
      → (func ≡ 0x04) ⊎ (func ≡ 0x05)
      → length body < 12 * count
      → payload ≡ encode h ++ (func ∷ count ∷ body)
      → IsMalformed payload h.pdu_ref

module _ (calls : Callbacks) where
  unknown-error :
      (r func : ℕ) (payload : Bytes) (s : Store)
      → All (λ known. func ≢ known) functions
      → handle_job calls r func payload s ≡ ok (error_response r 0x81 0x04, s)
  unfolding handle_job
  unknown-error r func payload s (n4, (n5, (n11, (n12, (n28, (n29, (n2a, (n31, u)))))))) =
      ground arith

  cut_off-error :
      (r func count : ℕ) (body : Bytes) (s : Store)
      → (func ≡ 0x04) ⊎ (func ≡ 0x05)
      → length body < 12 * count
      → handle_job calls r func (func ∷ count ∷ body) s ≡ ok (error_response r 0x81 0x04, s)
  unfolding handle_job handle_read_var handle_write_var
  cut_off-error r func count body s (inl e) h =
      let (x, q) = read_short count body h in rw (e, q) refl
  cut_off-error r func count body s (inr e) h =
      let (x, q) = write_short count body h in rw (e, q) refl

  reply-error :
      (h : S7Header) (body : Bytes) (s : Store)
      → (h.pdu_type ≡ PduType.ack) ⊎ (h.pdu_type ≡ PduType.ack_data)
      → respond_decoded calls (ok (h, body)) s ≡ ok (error_response h.pdu_ref 0x81 0x04, s)
  unfolding dispatch
  reply-error h [] s e = refl
  reply-error h (func ∷ rest) s (inl e) = rw e refl
  reply-error h (func ∷ rest) s (inr e) = rw e refl

  pub respond-IsMalformed :
      (payload : Bytes) (pdu_ref : ℕ) (s : Store)
      → IsMalformed payload pdu_ref
      → respond calls payload s ≡ ok (error_response pdu_ref 0x81 0x04, s)
  unfolding respond dispatch
  respond-IsMalformed payload pdu_ref s (short h) = rw (decode_short payload h)
  respond-IsMalformed payload pdu_ref s (foreign a rest e n long) =
      rw (e, decode_bad_magic a rest n long)
  respond-IsMalformed payload pdu_ref s (bare h v e) =
      rw (e, sym (append-nil (encode h)), S7Header-decode-encode h [] v)
  respond-IsMalformed payload pdu_ref s (reply h body v t e) =
      rw (e, S7Header-decode-encode h body v) (reply-error h body s t)
  respond-IsMalformed payload pdu_ref s (unknown h func body v job n e) =
      rw (e, S7Header-decode-encode h (func ∷ body) v, job)
        (unknown-error h.pdu_ref func (func ∷ body) s n)
  respond-IsMalformed payload pdu_ref s (cut_off h func count body v job f few e) =
      rw (e, S7Header-decode-encode h (func ∷ count ∷ body) v, job)
        (cut_off-error h.pdu_ref func count body s f few)
