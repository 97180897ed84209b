-- ===== src/Partner/Exchange.antt =====
-- `bsend` on one side of a connection and `brecv` on the other (crates/snap7-partner/src/partner.rs).
use rs_snap.Prelude.{
  ℕ, zero, suc, ◌+◌, ◌%◌, ◌≤◌, ◌≡◌, ◌⊎◌, inl, inr, refl, sym, ap, ◌∙◌, arith, Bool, true, false, [],
  ◌∷◌, ◌++◌, length, take, drop, length-append, length-take, length-drop, take-append-drop,
  append_assoc, append-nil, if◌then◌else◌,
}
use rs_snap.Wire.{Bytes, IsU32}
use rs_snap.Partner.Runs.{S7Partner, Outcome, done, after_sending, return}
use rs_snap.Partner.Transport.{iso_frame, send_iso_frame}
use rs_snap.Partner.Frames.{recv_iso_frame-iso_frame, parse_slice-slice_frame, read_ack-ack_frame}
use rs_snap.Partner.{Transfer, slice_frame, send_slices, is_empty, total_field, add_sent, add_recv}
use rs_snap.Partner.Receiver.{ack_frame, recv_slices, send_ack}

-- One round of each loop.
module _ (t : Transfer) (first : Bool) (seq : ℕ) (slice rest : Bytes) where
  sent_frame : Bytes
  sent_frame = iso_frame (slice_frame t first seq (is_empty rest) slice)

  send_round :
      (n pdu_ref ack_seq : ℕ) (x : ℕ) (xs : Bytes) (p : S7Partner) (input : Bytes)
      → take t.slice (x ∷ xs) ≡ slice
      → drop t.slice (x ∷ xs) ≡ rest
      → send_slices (suc n) t first seq (x ∷ xs) p (iso_frame (ack_frame pdu_ref ack_seq) ++ input)
        ≡ after_sending sent_frame (
            send_slices n t false ack_seq rest
              (add_sent (length (slice_frame t first seq (is_empty rest) slice)) p)
              input)
  unfolding send_slices send_iso_frame sent_frame
  send_round n pdu_ref ack_seq x xs p input e e' =
      rw
        (
          e,
          e',
          read_ack-ack_frame pdu_ref ack_seq
              (add_sent (length (slice_frame t first seq (is_empty rest) slice)) p) input,
        )
        refl

  le-slice_frame : (last : Bool) → length (slice_frame t first seq last slice) ≤ 36 + length slice
  unfolding slice_frame
  le-slice_frame last = ground (arith, length-append (total_field t first) slice)

  length-sent_frame : length slice ≤ length sent_frame
  unfolding sent_frame slice_frame
  length-sent_frame = ground (arith, length-append (total_field t first) slice)

  -- The state behind a round.
  acknowledged : ℕ → S7Partner → S7Partner
  acknowledged seq_r q =
      let n = length (slice_frame t first seq (is_empty rest) slice) in
      add_sent (length (ack_frame q.pdu_ref seq_r))
        (record (add_recv n q) { pdu_ref = (q.pdu_ref + 1) % 65536 })

  recv_round :
      (n seq_r : ℕ) (buf : Bytes) (q : S7Partner) (input : Bytes)
      → IsU32 t.r_id
      → length slice ≤ 65492
      → recv_slices (suc n) first seq_r buf q (sent_frame ++ input)
        ≡ after_sending (iso_frame (ack_frame q.pdu_ref seq_r)) (
            (if is_empty rest
                then return (t.r_id, buf ++ slice)
                else recv_slices n false ((seq_r + 1) % 256) (buf ++ slice))
              (acknowledged seq_r q)
              input)
  unfolding recv_slices send_ack send_iso_frame sent_frame acknowledged ack_frame
  recv_round n seq_r buf q input fits h =
      let frame = slice_frame t first seq (is_empty rest) slice in
      rw
        (
          recv_iso_frame-iso_frame frame q input (omega (arith, le-slice_frame (is_empty rest))),
          parse_slice-slice_frame t first seq (is_empty rest) slice (add_recv (length frame) q)
              input fits (omega arith),
        )
        refl

-- The two loops run against each other: with what each one gets from the other, the sender ends and
-- the receiver has the data behind what it had, and both leave what follows in their input.
unfoldable pub Exchanged :
    Transfer → Bool → ℕ → ℕ → ℕ → Bytes → Bytes → S7Partner → S7Partner → Bytes → Bytes → Type 0
Exchanged t first n seq_s seq_r buf bytes p q in_s in_r =
    (frames : Bytes) × (acks : Bytes) × (p' : S7Partner) × (q' : S7Partner) × (length bytes
      ≤ length frames)
    × (send_slices n t first seq_s bytes p (acks ++ in_s) ≡ (frames, (p', done (tt, in_s))))
    × ((m : ℕ)
        → length bytes ≤ m
        → recv_slices m first seq_r buf q (frames ++ in_r)
          ≡ (acks, (q', done ((t.r_id, buf ++ bytes), in_r))))

send_slices-nil :
    (n : ℕ) (t : Transfer) (first : Bool) (seq : ℕ) (p : S7Partner) (input : Bytes)
    → send_slices n t first seq [] p input ≡ ([], (p, done (tt, input)))
unfolding send_slices
send_slices-nil zero t first seq p input = refl
send_slices-nil (suc n) t first seq p input = refl

is_empty_length : (bytes : Bytes) → is_empty bytes ≡ false → 1 ≤ length bytes
is_empty_length [] h = absurd (ground arith)
is_empty_length (x ∷ xs) h = omega arith

Bytes-cases : (bytes : Bytes) → (bytes ≡ []) ⊎ ((x : ℕ) × (xs : Bytes) × (bytes ≡ x ∷ xs))
Bytes-cases [] = inl refl
Bytes-cases (x ∷ xs) = inr (x, xs, refl)

whole_slice : (n : ℕ) (bytes : Bytes) → drop n bytes ≡ [] → take n bytes ≡ bytes
whole_slice n bytes e =
    sym (append-nil (take n bytes)) ∙ ap (◌++◌ (take n bytes)) (sym e) ∙ take-append-drop n bytes

module _ (t : Transfer) (fits : IsU32 t.r_id) (small : t.slice ≤ 65492)
    (positive : 1 ≤ t.slice) where
  le-take : (bytes : Bytes) → length (take t.slice bytes) ≤ 65492
  le-take bytes = omega (arith, length-take t.slice bytes)

  -- The last slice.
  last_round :
      (first : Bool) (n seq_s seq_r : ℕ) (buf : Bytes) (x : ℕ) (xs : Bytes) (p q : S7Partner)
      (in_s in_r : Bytes)
      → drop t.slice (x ∷ xs) ≡ []
      → Exchanged t first (suc n) seq_s seq_r buf (x ∷ xs) p q in_s in_r
  unfolding Exchanged
  last_round first n seq_s seq_r buf x xs p q in_s in_r e =
      let slice = take t.slice (x ∷ xs) in
      let frame = sent_frame t first seq_s slice [] in
      let ack = iso_frame (ack_frame q.pdu_ref seq_r) in
      let q' = acknowledged t first seq_s slice [] seq_r q in
      let p' = add_sent (length (slice_frame t first seq_s true slice)) p in
      (
        frame,
        ack,
        p',
        q',
        sized,
        send_round t first seq_s slice [] n q.pdu_ref seq_r x xs p in_s refl e
            ∙ ap (after_sending frame) (send_slices-nil n t false seq_r p' in_s)
            ∙ cc (append-nil frame),
        receives,
      )
    where
      sized : suc (length xs) ≤ length (sent_frame t first seq_s (take t.slice (x ∷ xs)) [])
      sized = omega (
        arith,
        length-sent_frame t first seq_s (take t.slice (x ∷ xs)) [],
        ap length (whole_slice t.slice (x ∷ xs) e),
      )

      receives :
          (m : ℕ)
          → suc (length xs) ≤ m
          → recv_slices m first seq_r buf q
              (sent_frame t first seq_s (take t.slice (x ∷ xs)) [] ++ in_r)
            ≡ (
              iso_frame (ack_frame q.pdu_ref seq_r),
              (
                acknowledged t first seq_s (take t.slice (x ∷ xs)) [] seq_r q,
                done ((t.r_id, buf ++ (x ∷ xs)), in_r),
              ),
            )
      receives zero h = absurd (omega arith)
      receives (suc m) h =
          recv_round t first seq_s (take t.slice (x ∷ xs)) [] m seq_r buf q in_r fits
            (le-take (x ∷ xs))
          ∙ cc (whole_slice t.slice (x ∷ xs) e, append-nil (iso_frame (ack_frame q.pdu_ref seq_r)))

  receive_next :
      (m : ℕ) (first : Bool) (seq_s seq_r : ℕ) (buf bytes rest : Bytes) (q : S7Partner)
      (input : Bytes)
      → is_empty rest ≡ false
      → drop t.slice bytes ≡ rest
      → length bytes ≤ m
      → (run : Bytes × (S7Partner × Outcome ((ℕ × Bytes) × Bytes)))
      → ((m : ℕ)
          → length rest ≤ m
          → recv_slices m false
              ((seq_r + 1) % 256)
              (buf ++ take t.slice bytes)
              (acknowledged t first seq_s (take t.slice bytes) rest seq_r q)
              input
            ≡ run)
      → recv_slices m first seq_r buf q
          (sent_frame t first seq_s (take t.slice bytes) rest ++ input)
        ≡ after_sending (iso_frame (ack_frame q.pdu_ref seq_r)) run
  receive_next zero first seq_s seq_r buf bytes rest q input some_left e h run receives =
      absurd (omega (arith, is_empty_length rest some_left, length-drop t.slice bytes, ap length e))
  receive_next (suc m) first seq_s seq_r buf bytes rest q input some_left e h run receives =
      recv_round t first seq_s (take t.slice bytes) rest m seq_r buf q input fits (le-take bytes)
      ∙ rw (some_left) (
          ap (after_sending (iso_frame (ack_frame q.pdu_ref seq_r)))
            (receives m (omega (arith, length-drop t.slice bytes, ap length e))))

  -- A slice with others behind it.
  next_round :
      (first : Bool) (n seq_s seq_r : ℕ) (buf : Bytes) (x : ℕ) (xs rest : Bytes) (y : ℕ)
      (ys : Bytes) (p q : S7Partner) (in_s in_r : Bytes)
      → rest ≡ y ∷ ys
      → drop t.slice (x ∷ xs) ≡ rest
      → Exchanged t false n seq_r
          ((seq_r + 1) % 256)
          (buf ++ take t.slice (x ∷ xs))
          rest
          (add_sent (length (slice_frame t first seq_s (is_empty rest) (take t.slice (x ∷ xs)))) p)
          (acknowledged t first seq_s (take t.slice (x ∷ xs)) rest seq_r q)
          in_s
          in_r
      → Exchanged t first (suc n) seq_s seq_r buf (x ∷ xs) p q in_s in_r
  unfolding Exchanged
  next_round first n seq_s seq_r buf x xs rest y ys p q in_s in_r some_left e
        (frames, acks, p', q', size, sends, receives) =
      let slice = take t.slice (x ∷ xs) in
      let frame = sent_frame t first seq_s slice rest in
      let ack = iso_frame (ack_frame q.pdu_ref seq_r) in
      let whole = take-append-drop t.slice (x ∷ xs) in
      (
        frame ++ frames,
        ack ++ acks,
        p',
        q',
        omega (
          arith,
          length-append frame frames,
          length-sent_frame t first seq_s slice rest,
          length-append slice rest,
          ap length (ap (◌++◌ slice) (sym e) ∙ whole),
        ),
        rw (append_assoc ack acks in_s) (
            send_round t first seq_s slice rest n q.pdu_ref seq_r x xs p (acks ++ in_s) refl e
            ∙ ap (after_sending frame) sends),
        λ m h. rw (append_assoc frame frames in_r) (
            receive_next m first seq_s seq_r buf (x ∷ xs) rest q (frames ++ in_r)
              (ap is_empty some_left) e h (acks, (q', done ((t.r_id, buf ++ slice ++ rest), in_r)))
              receives
            ∙ cc (append_assoc buf slice rest, ap (◌++◌ slice) (sym e) ∙ whole)),
      )

  pub exchange :
      (n : ℕ) (first : Bool) (seq_s seq_r : ℕ) (buf : Bytes) (x : ℕ) (xs : Bytes) (p q : S7Partner)
      (in_s in_r : Bytes)
      → suc (length xs) ≤ n
      → Exchanged t first n seq_s seq_r buf (x ∷ xs) p q in_s in_r
  exchange zero first seq_s seq_r buf x xs p q in_s in_r h = absurd (omega arith)
  exchange (suc n) first seq_s seq_r buf x xs p q in_s in_r h =
      elim (Bytes-cases (drop t.slice (x ∷ xs))) [
        | inl e ↦ last_round first n seq_s seq_r buf x xs p q in_s in_r e
        | inr (y, ys, e) ↦
            next_round first n seq_s seq_r buf x xs (y ∷ ys) y ys p q in_s in_r refl e (
              exchange n false seq_r ((seq_r + 1) % 256) _ y ys _ _ in_s in_r
                (omega (arith, length-drop t.slice (x ∷ xs), ap length e)))
      ]
