-- ===== src/Partner/Total.antt =====
-- The two loops of crates/snap7-partner/src/partner.rs against any input.
use rs_snap.Prelude.{
  ℕ, zero, suc, ◌+◌, ◌-◌, ◌%◌, ◌≤◌, ◌<◌, arith, Bool, true, false, either, not, [], ◌∷◌, ◌++◌,
  length, drop, length-drop, ltb, ◌==◌, if◌then◌else◌,
}
use rs_snap.Wire.{Bytes}
use rs_snap.Partner.Runs.{S7Partner, Run, not_connected, return}
use rs_snap.Partner.Proto.{BSendParams, BSendDataHdr, s7_hdr_len, bsend_params_len, gr_bsend}
use rs_snap.Partner.Transport.{recv_iso_frame, recv_body, send_iso_frame}
use rs_snap.Partner.{
  Transfer, transfer, next_seq, send_slices, bsend, parse_s7_bsend_params, read_ack, accepted,
  max_slice, recv_error, send_error, add_recv,
}
use rs_snap.Partner.Receiver.{recv_slices, brecv, parse_slice, payload_slice, send_ack}
use rs_snap.Partner.Ends.{
  Ends, go_on-Ends, on_error-Ends, refuse-Ends, or_fail-Ends, header-Ends, refuse-go_on-Ends,
  read_body-Ends, slice_from-Ends, slice-Ends, decode_params-Ends, decode_data_hdr-Ends,
}

recv_body-Ends :
    (total n : ℕ) (p : S7Partner) (input : Bytes)
    → length input < n
    → Ends n (recv_body total p input)
unfolding recv_body
recv_body-Ends total n p input h = refuse-go_on-Ends n (ltb total 7) _ _ p input λ e.
    go_on-Ends n n _ _ (read_body-Ends total n p input (ground arith) h) λ rest p s h.
      refuse-go_on-Ends n (ltb (length rest) 3) _ _ p s
        λ e'. slice_from-Ends rest 3 n p s (ground arith) h

-- A frame takes the bytes of its header at least.
recv_iso_frame-Ends :
    (n : ℕ) (p : S7Partner) (input : Bytes) → length input ≤ n → Ends n (recv_iso_frame p input)
unfolding recv_iso_frame
recv_iso_frame-Ends n p input h =
    go_on-Ends n n _ _ (header-Ends n p input h) λ header p s h. recv_body-Ends _ n p s h

parse_params-Ends :
    (n : ℕ) (frame : Bytes) (p : S7Partner) (input : Bytes)
    → length input < n
    → Ends n (parse_s7_bsend_params frame p input)
unfolding parse_s7_bsend_params
parse_params-Ends n frame p input h =
    refuse-go_on-Ends n (ltb (length frame) (s7_hdr_len + bsend_params_len)) _ _ p input λ e.
      go_on-Ends n n _ _ (slice_from-Ends frame s7_hdr_len n p input (ground arith) h)
        λ block p s h.
          go_on-Ends n n _ _ (decode_params-Ends block n p s h)
            λ decoded p s h. or_fail-Ends n decoded _ p s h

payload_slice-Ends :
    (n : ℕ) (first : Bool) (params : BSendParams) (dh : BSendDataHdr) (frame : Bytes)
    (p : S7Partner) (input : Bytes)
    → length input < n
    → Ends n (payload_slice first params dh frame p input)
unfolding payload_slice Ends
payload_slice-Ends n first params dh frame p input h =
    let extra = if first then 2 else 0 in
    let slice_len = dh.len - (8 + extra) in
    refuse-go_on-Ends n (ltb (length frame) (34 + extra + slice_len)) _ _ p input λ e.
      go_on-Ends n n _ _
        (slice-Ends frame (34 + extra) (34 + extra + slice_len) n p input (omega arith)
          (ground arith) h)
        λ bytes p s h. h

parse_slice-Ends :
    (n : ℕ) (first : Bool) (frame : Bytes) (p : S7Partner) (input : Bytes)
    → length input < n
    → Ends n (parse_slice first frame p input)
unfolding parse_slice
parse_slice-Ends n first frame p input h =
    go_on-Ends n n _ _ (parse_params-Ends n frame p input h) λ params p s h.
      go_on-Ends n n _ _ (refuse-Ends n (not (params.tg == gr_bsend)) _ p s h) λ _ p s h.
        refuse-go_on-Ends n (ltb (length frame) 34) _ _ p s λ e.
          go_on-Ends n n _ _ (slice_from-Ends frame 22 n p s (ground arith) h) λ block p s h.
            go_on-Ends n n _ _ (decode_data_hdr-Ends block n p s h) λ decoded p s h.
              go_on-Ends n n _ _ (or_fail-Ends n decoded _ p s h)
                λ dh p s h. payload_slice-Ends n first params dh frame p s h

send_frame-Ends :
    (n : ℕ) (frame : Bytes) (p : S7Partner) (input : Bytes)
    → length input < n
    → Ends n (send_iso_frame frame p input)
unfolding send_iso_frame Ends
send_frame-Ends n frame p input h = h

send_ack-Ends :
    (n seq : ℕ) (p : S7Partner) (input : Bytes) → length input < n → Ends n (send_ack seq p input)
unfolding send_ack Ends
send_ack-Ends n seq p input h =
    go_on-Ends n n _ _ (on_error-Ends n send_error _ (send_frame-Ends n _ _ input h)) λ _ p s h. h

recv_slices-Ends :
    (n m : ℕ) (first : Bool) (seq : ℕ) (buf : Bytes) (p : S7Partner) (input : Bytes)
    → length input < n
    → n ≤ m
    → Ends m (recv_slices n first seq buf p input)
unfolding recv_slices Ends
recv_slices-Ends zero m first seq buf p input h le = absurd (omega arith)
recv_slices-Ends (suc n) m first seq buf p input h le =
    go_on-Ends n m _ _
      (on_error-Ends n recv_error (recv_iso_frame p input)
        (recv_iso_frame-Ends n p input (omega arith)))
      λ frame p s h.
        go_on-Ends n m _ _ (parse_slice-Ends n first frame (add_recv (length frame) p) s h)
          λ slice p s h. go_on-Ends n m _ _ (send_ack-Ends n seq p s h) λ _ p s h.
            either (λ (run : Run (ℕ × Bytes)). Ends m (run p s)) slice.is_last (omega arith)
              (recv_slices-Ends n m false ((seq + 1) % 256) (buf ++ slice.bytes) p s h
                (omega arith))

accepted-Ends :
    (n : ℕ) (params : BSendParams) (p : S7Partner) (input : Bytes)
    → length input < n
    → Ends n (accepted params p input)
unfolding Ends
accepted-Ends n params p input h =
    either (λ (run : Run ℕ). Ends n (run p input)) (params.err == 0) h tt

read_ack-Ends :
    (n : ℕ) (p : S7Partner) (input : Bytes) → length input ≤ n → Ends n (read_ack p input)
unfolding read_ack
read_ack-Ends n p input h =
    go_on-Ends n n _ _
      (on_error-Ends n recv_error (recv_iso_frame p input) (recv_iso_frame-Ends n p input h))
      λ resp p s h.
        go_on-Ends n n _ _ (parse_params-Ends n resp p s h)
          λ params p s h. accepted-Ends n params p s h

send_slices-Ends :
    (n m : ℕ) (t : Transfer) (first : Bool) (seq : ℕ) (bytes : Bytes) (p : S7Partner)
    (input : Bytes)
    → 1 ≤ t.slice
    → length bytes ≤ n
    → length input < m
    → Ends m (send_slices n t first seq bytes p input)
unfolding send_slices Ends
send_slices-Ends n m t first seq [] p input pos le h = h
send_slices-Ends zero m t first seq (x ∷ xs) p input pos le h = absurd (omega arith)
send_slices-Ends (suc n) m t first seq (x ∷ xs) p input pos le h =
    go_on-Ends m m _ _ (on_error-Ends m send_error _ (send_frame-Ends m _ _ input h)) λ _ p s h.
      go_on-Ends m m _ _ (read_ack-Ends m _ s (omega arith)) λ seq p s h.
        send_slices-Ends n m t false seq (drop t.slice (x ∷ xs)) p s pos
          (omega (arith, length-drop t.slice (x ∷ xs))) h

id_seq-Ends :
    (n : ℕ) (b : Bool) (p : S7Partner) (input : Bytes)
    → length input < n
    → Ends n ((if b then next_seq else return 0) p input)
unfolding Ends
id_seq-Ends n true p input h = h
id_seq-Ends n false p input h = h

max_slice-positive : (pdu_size : ℕ) → 1 ≤ max_slice pdu_size
unfolding max_slice
max_slice-positive pdu_size = ground arith

-- For every state and every input, `brecv` comes to an end: it returns a block or an error, and
-- neither runs on nor panics, at an index, a slice or the length of a vector.
pub brecv-Ends : (p : S7Partner) (input : Bytes) → Ends (suc (length input)) (brecv p input)
unfolding brecv Ends
brecv-Ends p input =
    let n = suc (length input) in
    go_on-Ends n n _ _ (or_fail-Ends n p.pdu_size not_connected p input (omega arith)) λ size q s h.
      recv_slices-Ends (suc (length s)) n true q.seq [] _ s (omega arith) (omega arith)

-- For every state, every block and every input, `bsend` comes to an end, with or without an error,
-- and the reads of the acknowledgements do not panic.
pub bsend-Ends :
    (r_id : ℕ) (bytes : Bytes) (p : S7Partner) (input : Bytes)
    → Ends (suc (length input)) (bsend r_id bytes p input)
unfolding bsend Ends
bsend-Ends r_id bytes p input =
    let n = suc (length input) in
    let len = length bytes in
    go_on-Ends n n _ _ (refuse-Ends n (ltb 65536 len) _ p input (omega arith)) λ _ p s h.
      go_on-Ends n n _ _ (or_fail-Ends n p.pdu_size not_connected p s h) λ size p s h.
        go_on-Ends n n _ _ (id_seq-Ends n (ltb (max_slice size) len) _ s h) λ id_seq q s h.
          send_slices-Ends len n (transfer (max_slice size) p.pdu_ref id_seq r_id len) true 0 bytes
            q s (max_slice-positive size) (omega arith) h
