-- ===== src/Partner/Agreement.antt =====
-- `bsend` and `brecv`, and the handshakes of the two sides (crates/snap7-partner/src/partner.rs).
use rs_snap.Prelude.{
  ℕ, suc, ◌+◌, ◌%◌, ◌≤◌, ◌≡◌, inl, inr, refl, ap, ◌∙◌, arith, true, false, Bool-cases, some, [],
  ◌∷◌, ◌++◌, length, take, drop, length-append, ltb,
}
use rs_snap.Wire.{Bytes, IsU32}
use rs_snap.Partner.Runs.{S7Partner, done, after_sending, ◌>>◌}
use rs_snap.Partner.Exchange.{Exchanged, exchange}
use rs_snap.Partner.{
  transfer, send_slices, bsend, max_slice, connect, accept, attach, new_unconnected,
}
use rs_snap.Partner.Receiver.{recv_slices, brecv}
use rs_snap.Partner.Transport.{
  cotp_cr, cotp_cc, negotiate, neg_resp, active_handshake, passive_handshake,
}
use rs_snap.Partner.Frames.{read_exact-append, recv_iso_frame-iso_frame}

le-max_slice : (pdu_size : ℕ) → pdu_size ≤ 65528 → max_slice pdu_size ≤ 65492
unfolding max_slice
le-max_slice pdu_size h = ground arith

max_slice-positive : (pdu_size : ℕ) → 1 ≤ max_slice pdu_size
unfolding max_slice
max_slice-positive pdu_size = ground arith

fits_64k : (bytes : Bytes) → length bytes ≤ 65536 → ltb 65536 (length bytes) ≡ false
fits_64k bytes h = ground arith

-- What `bsend` does in front of its loop, and the state there.
bsend-slices :
    (r_id pdu_size : ℕ) (bytes : Bytes) (p : S7Partner)
    → p.pdu_size ≡ some pdu_size
    → length bytes ≤ 65536
    → (id_seq : ℕ) × (p' : S7Partner) × ((input : Bytes)
        → bsend r_id bytes p input
          ≡ send_slices
              (length bytes)
              (transfer (max_slice pdu_size) p.pdu_ref id_seq r_id (length bytes))
              true
              0
              bytes
              p'
              input)
unfolding bsend
bsend-slices r_id pdu_size bytes p e h =
    elim (Bool-cases (ltb (max_slice pdu_size) (length bytes))) [
      | inl k ↦ (
        p.seq,
        record p { seq = (p.seq + 1) % 256; pdu_ref = (p.pdu_ref + 1) % 65536 },
        λ input. rw e (rw (fits_64k bytes h) (rw k refl)),
      )
      | inr k ↦ (
        0,
        record p { pdu_ref = (p.pdu_ref + 1) % 65536 },
        λ input. rw e (rw (fits_64k bytes h) (rw k refl)),
      )
    ]

brecv-slices :
    (pdu_size : ℕ) (q : S7Partner) (input : Bytes)
    → q.pdu_size ≡ some pdu_size
    → brecv q input
      ≡ recv_slices (suc (length input)) true q.seq [] (record q { seq = (q.seq + 1) % 256 }) input
unfolding brecv
brecv-slices pdu_size q input e = rw e refl

-- `bsend` on one side and `brecv` on the other, each reading what the other one writes.
pub Delivered : ℕ → Bytes → S7Partner → S7Partner → Bytes → Bytes → Type 0
Delivered r_id bytes p q in_s in_r =
    (frames : Bytes) × (acks : Bytes) × (p' : S7Partner) × (q' : S7Partner) × (bsend r_id bytes p
        (acks ++ in_s)
      ≡ (frames, (p', done (tt, in_s))))
    × (brecv q (frames ++ in_r) ≡ (acks, (q', done ((r_id, bytes), in_r))))

-- From two connected partners, with a PDU size of at most 65528, a block of 1 to 65536 bytes is
-- delivered: the sender's call ends without an error, and the receiver's returns the number of the
-- transfer and exactly the bytes sent, however many slices they take. Each side reads the frames that
-- the other one writes, and leaves what follows them.
pub bsend-brecv :
    (r_id x : ℕ) (xs : Bytes) (size size' : ℕ) (p q : S7Partner) (in_s in_r : Bytes)
    → IsU32 r_id
    → suc (length xs) ≤ 65536
    → p.pdu_size ≡ some size
    → q.pdu_size ≡ some size'
    → size ≤ 65528
    → Delivered r_id (x ∷ xs) p q in_s in_r
unfolding Delivered Exchanged
bsend-brecv r_id x xs size size' p q in_s in_r fits h e e' small =
    let (id_seq, p1, begins) = bsend-slices r_id size (x ∷ xs) p e h in
    let t = transfer (max_slice size) p.pdu_ref id_seq r_id (suc (length xs)) in
    let q1 = record q { seq = (q.seq + 1) % 256 } in
    let (frames, acks, p', q', sized, sends, receives) =
      exchange t fits (le-max_slice size small) (max_slice-positive size) (suc (length xs)) true 0
        q.seq [] x xs p1 q1 in_s in_r (omega arith) in
    (
      frames,
      acks,
      p',
      q',
      begins (acks ++ in_s) ∙ sends,
      brecv-slices size' q (frames ++ in_r) e'
          ∙ receives (suc (length (frames ++ in_r))) (omega (arith, length-append frames in_r)),
    )

-- Each side of the handshake against the other one's bytes.
connect-handshake :
    (p : S7Partner) (input : Bytes)
    → connect p (cotp_cc ++ (neg_resp ++ input))
      ≡ (cotp_cr ++ negotiate, (attach 480 p, done (tt, input)))
unfolding connect active_handshake
connect-handshake p input =
    rw
      (
        read_exact-append 4 p (take 4 cotp_cc) (drop 4 cotp_cc ++ (neg_resp ++ input)) refl,
        read_exact-append 15 p (drop 4 cotp_cc) (neg_resp ++ input) refl,
        recv_iso_frame-iso_frame (drop 7 neg_resp) p input (omega arith),
      )
      refl

accept-handshake :
    (q : S7Partner) (input : Bytes)
    → accept q (cotp_cr ++ (negotiate ++ input))
      ≡ (cotp_cc ++ neg_resp, (attach 480 q, done (tt, input)))
unfolding accept passive_handshake
accept-handshake q input =
    rw
      (
        read_exact-append 4 q (take 4 cotp_cr) (drop 4 cotp_cr ++ (negotiate ++ input)) refl,
        read_exact-append 15 q (drop 4 cotp_cr) (negotiate ++ input) refl,
        recv_iso_frame-iso_frame (drop 7 negotiate) q input (omega arith),
      )
      refl

-- Two partners from the start, one that connects and sends, one that accepts and receives.
pub Session : ℕ → Bytes → Bytes → Bytes → Type 0
Session r_id bytes in_s in_r =
    (sent_s : Bytes) × (sent_r : Bytes) × (p : S7Partner) × (q : S7Partner) × ((connect
          >> bsend r_id bytes)
        new_unconnected (sent_r ++ in_s)
      ≡ (sent_s, (p, done (tt, in_s))))
    × ((accept >> brecv) new_unconnected (sent_s ++ in_r)
        ≡ (sent_r, (q, done ((r_id, bytes), in_r))))

-- A new partner that connects and sends a block of 1 to 65536 bytes, and a new one that accepts and
-- receives, run against each other from the handshake on: both end without an error, the receiver
-- with the number of the transfer and exactly the bytes sent.
pub connect-bsend :
    (r_id x : ℕ) (xs in_s in_r : Bytes)
    → IsU32 r_id
    → suc (length xs) ≤ 65536
    → Session r_id (x ∷ xs) in_s in_r
unfolding Session Delivered
connect-bsend r_id x xs in_s in_r fits h =
    let (frames, acks, p, q, sends, receives) =
      bsend-brecv r_id x xs 480 480 (attach 480 new_unconnected) (attach 480 new_unconnected) in_s
        in_r fits h refl refl (omega arith) in
    (
      cotp_cr ++ (negotiate ++ frames),
      cotp_cc ++ (neg_resp ++ acks),
      p,
      q,
      rw (connect-handshake new_unconnected (acks ++ in_s))
          (ap (after_sending (cotp_cr ++ negotiate)) sends),
      rw (accept-handshake new_unconnected (frames ++ in_r))
          (ap (after_sending (cotp_cc ++ neg_resp)) receives),
    )
