-- ===== src/Partner/Frames.antt =====
-- The frames of crates/snap7-partner: what one side writes, the other reads.
use rs_snap.Prelude.{
  ℕ, ◌+◌, ◌-◌, ◌*◌, ◌≤◌, ◌≡◌, refl, sym, ◌∙◌, arith, Bool, true, false, [], ◌∷◌, ◌++◌, length,
  length-append, take-append, drop-append, ltb, ◌==◌, if◌then◌else◌,
}
use rs_snap.Wire.{Bytes, IsU32}
use rs_snap.Wire.Slices.{take-length}
use rs_snap.Partner.Proto.{
  BSendParams, encode_params, BSendDataHdr, encode_data_hdr, decode_params-encode_params,
  decode_data_hdr-encode_data_hdr, gr_bsend, bsend_params_len,
}
use rs_snap.Partner.Runs.{S7Partner, done, read_exact, slice_from, slice_from_in_range}
use rs_snap.Partner.Runs as Runs
use rs_snap.Partner.Transport.{iso_frame, recv_body, recv_iso_frame}
use rs_snap.Partner.{
  Transfer, slice_params, slice_data_hdr, slice_data_len, slice_frame, parse_s7_bsend_params,
  read_ack, encode_s7_userdata_header, total_field,
}
use rs_snap.Partner.Receiver.{slice_of, payload_slice, ack_frame, parse_slice}

pub read_exact-append :
    (n : ℕ) (p : S7Partner) (front rest : Bytes)
    → length front ≡ n
    → read_exact n p (front ++ rest) ≡ ([], (p, done (front, rest)))
read_exact-append n p front rest h =
    ground (arith, length-append front rest, take-append front rest, drop-append front rest)

pub not_below : (a b : ℕ) → b ≤ a → ltb a b ≡ false
not_below a b h = ground arith

minus : (a b n : ℕ) → a ≡ n + b → a - b ≡ n
minus a b n h = omega arith

pub recv_iso_frame_header :
    (a b c d : ℕ) (s : Bytes) (p : S7Partner)
    → recv_iso_frame p (a ∷ b ∷ c ∷ d ∷ s) ≡ recv_body (c * 256 + d) p s
unfolding recv_iso_frame
recv_iso_frame_header a b c d s p = rw (read_exact-append 4 p (a ∷ b ∷ c ∷ d ∷ []) s refl) refl

recv_body-payload :
    (payload : Bytes) (p : S7Partner) (rest : Bytes) (total : ℕ)
    → total ≡ 7 + length payload
    → recv_body total p ((2 ∷ 240 ∷ 128 ∷ payload) ++ rest) ≡ ([], (p, done (payload, rest)))
unfolding recv_body slice_from
recv_body-payload payload p rest total e =
    rw
      (
        not_below total 7 (omega arith),
        not_below total 4 (omega arith),
        read_exact-append (total - 4) p (2 ∷ 240 ∷ 128 ∷ payload) rest (omega arith),
      )
      (ground arith)

pub recv_iso_frame-iso_frame :
    (payload : Bytes) (p : S7Partner) (rest : Bytes)
    → length payload ≤ 65528
    → recv_iso_frame p (iso_frame payload ++ rest) ≡ ([], (p, done (payload, rest)))
recv_iso_frame-iso_frame payload p rest h =
    recv_iso_frame_header 3 0 _ _ _ p ∙ recv_body-payload payload p rest _ (omega arith)

pub parse_s7_bsend_params_lem :
    (a b c : ℕ) (params : BSendParams) (body : Bytes) (p : S7Partner) (input : Bytes)
    → parse_s7_bsend_params
        (encode_s7_userdata_header a b c ++ (encode_params params ++ body))
        p
        input
      ≡ ([], (p, done (params, input)))
unfolding parse_s7_bsend_params
parse_s7_bsend_params_lem a b c params body p input =
    ground (arith, decode_params-encode_params params body p input)

-- A frame of a slice in parts, `extra` being the length of all the data in the first one.
module _ (first : Bool) (a b c : ℕ) (params : BSendParams) (hdr : BSendDataHdr)
    (extra slice : Bytes) (p : S7Partner) (input : Bytes) where
  frame : Bytes
  frame =
      encode_s7_userdata_header a b c
      ++ (encode_params params ++ (encode_data_hdr hdr ++ (extra ++ slice)))

  length-frame : 34 ≤ length frame
  unfolding frame
  length-frame = omega arith

  payload_slice-frame :
      length extra ≡ (if first then 2 else 0)
      → hdr.len ≡ length slice + 8 + length extra
      → payload_slice first params hdr frame p input
        ≡ ([], (p, done (slice_of hdr.r_id slice (params.eos == 0), input)))
  unfolding payload_slice frame Runs.slice
  payload_slice-frame size len =
      let n = length slice in
      let m = length extra in
      rw (len, sym size, minus (n + 8 + m) (8 + m) n (omega arith))
        (ground (arith, length-append extra slice, drop-append extra slice, take-length slice))

  parse_slice-frame :
      params.tg ≡ gr_bsend
      → length extra ≡ (if first then 2 else 0)
      → hdr.len ≡ length slice + 8 + length extra
      → IsU32 hdr.r_id
      → parse_slice first frame p input
        ≡ ([], (p, done (slice_of hdr.r_id slice (params.eos == 0), input)))
  unfolding parse_slice frame
  parse_slice-frame tg size len fits =
      rw
        (
          parse_s7_bsend_params_lem a b c params (encode_data_hdr hdr ++ (extra ++ slice)) p input,
          tg,
          not_below (length frame) 34 length-frame,
          slice_from_in_range frame 22 (omega (arith, length-frame)),
          decode_data_hdr-encode_data_hdr hdr (extra ++ slice) p input fits,
        )
        (ground (arith, payload_slice-frame size len))

-- A slice is parsed back from its frame.
pub parse_slice-slice_frame :
    (t : Transfer) (first : Bool) (seq : ℕ) (is_last : Bool) (slice : Bytes) (p : S7Partner)
    (input : Bytes)
    → IsU32 t.r_id
    → length slice ≤ 65500
    → parse_slice first (slice_frame t first seq is_last slice) p input
      ≡ ([], (p, done (slice_of t.r_id slice is_last, input)))
unfolding slice_frame frame
parse_slice-slice_frame t true seq true slice p input fits h =
    parse_slice-frame true _ bsend_params_len (slice_data_len slice true) (slice_params t seq true)
      (slice_data_hdr t true slice) (total_field t true) slice p input refl refl (omega arith) fits
parse_slice-slice_frame t true seq false slice p input fits h =
    parse_slice-frame true _ bsend_params_len (slice_data_len slice true) (slice_params t seq false)
      (slice_data_hdr t true slice) (total_field t true) slice p input refl refl (omega arith) fits
parse_slice-slice_frame t false seq true slice p input fits h =
    parse_slice-frame false _ bsend_params_len (slice_data_len slice false)
      (slice_params t seq true) (slice_data_hdr t false slice) [] slice p input refl refl
      (omega arith) fits
parse_slice-slice_frame t false seq false slice p input fits h =
    parse_slice-frame false _ bsend_params_len (slice_data_len slice false)
      (slice_params t seq false) (slice_data_hdr t false slice) [] slice p input refl refl
      (omega arith) fits

pub read_ack-ack_frame :
    (pdu_ref seq : ℕ) (p : S7Partner) (rest : Bytes)
    → read_ack p (iso_frame (ack_frame pdu_ref seq) ++ rest) ≡ ([], (p, done (seq, rest)))
unfolding read_ack ack_frame
read_ack-ack_frame pdu_ref seq p rest =
    rw (recv_iso_frame-iso_frame (ack_frame pdu_ref seq) p rest (omega arith))
      (rw (parse_s7_bsend_params_lem pdu_ref 12 4 _ (0x0A ∷ 0x00 ∷ 0x00 ∷ 0x00 ∷ []) p rest) refl)
