-- ===== src/Plus/Integrity/Laws.antt =====
-- The tail that `append_integrity_v1v2` writes, read back, and what `verify_v1v2` has checked when it
-- accepts a frame.
use rs_snap.Prelude.{
  ℕ, zero, suc, ◌+◌, ◌-◌, ◌≤◌, ◌<◌, ◌≡◌, ◌≢◌, refl, sym, ◌∙◌, ap, arith, Bool, true, false, [], ◌∷◌,
  ◌++◌, length, length-append, length-take, length-drop, append_assoc, append-nil, take, drop,
  take-append, drop-append, take-append-drop, split_at, get_or-append, drop-append_suc, ◌&&◌, ltb,
  Bool-cases, ==_iff, inl, inr,
}
use mathlib.Core.Path.{ap₂}
use native.Mathlib.Numerals.{add-one}
use rs_snap.Wire.{Bytes, IsU32, Result, ok, err, panic}
use rs_snap.Wire.Slices.{split_to-append}
use rs_snap.Plus.Vlq.{decode_vlq}
use rs_snap.Plus.Vlq.RoundTrip.{decode_vlq-encode_vlq}
use rs_snap.Plus.Integrity.{
  digest_marker, digest_len, Hmac, bytes_eq, decode_integrity_tail, append_integrity, tail_matches,
  id_of, verify_from, verify,
}

bytes_eq→eq : (xs ys : Bytes) → bytes_eq xs ys ≡ true → xs ≡ ys
bytes_eq→eq [] [] h = refl
bytes_eq→eq (x ∷ xs) (y ∷ ys) h = ground (arith, bytes_eq→eq xs ys)
bytes_eq→eq [] (y ∷ ys) h = cc
bytes_eq→eq (x ∷ xs) [] h = cc

bytes_eq_refl : (xs : Bytes) → bytes_eq xs xs ≡ true
bytes_eq_refl [] = refl
bytes_eq_refl (x ∷ xs) = ground (arith, bytes_eq_refl xs)

module _ (hmac : Hmac) where
  -- The tail: the number, the marker and a digest of what stands before it. It is read back, and
  -- what follows it is left in the buffer.
  pub decode_integrity_tail-append :
      (buf key : Bytes) (id : ℕ) (rest : Bytes)
      → IsU32 id
      → (tail : Bytes) × (append_integrity hmac buf key id ≡ ok (buf ++ tail))
        × (decode_integrity_tail (tail ++ rest) ≡ ok ((id, hmac.mac key buf), rest))
  unfolding append_integrity decode_integrity_tail
  decode_integrity_tail-append buf key id rest h =
      let digest : Bytes = hmac.mac key buf in
      let (vlq, encoded, read, _, _) =
        decode_vlq-encode_vlq id (digest_marker ∷ (digest ++ rest)) h in
      (
        vlq ++ (digest_marker ∷ digest),
        rw encoded,
        rw append_assoc (
            ground (
              arith,
              read,
              length-append digest rest,
              hmac.length-mac key buf,
              split_to-append digest_len digest rest,
            )),
      )

  -- The data and the number that an accepted frame ends with.
  pub record Sealed (frame key : Bytes) (id : ℕ) : Type 0 where
    pub content : Bytes
    pub vlq : Bytes
    pub left : Bytes
    pub splits : frame ≡ content ++ (vlq ++ (digest_marker ∷ hmac.mac key content))
    pub reads : decode_vlq vlq ≡ ok (id, left)

  and_true : (a b : Bool) → (a && b) ≡ true → (a ≡ true) × (b ≡ true)
  and_true a b h = ground arith

  tail_matches-Sealed :
      (frame key : Bytes) (w id : ℕ) (left : Bytes)
      → w + 1 + digest_len ≤ length frame
      → tail_matches hmac frame key w ≡ true
      → decode_vlq (take w (drop (length frame - (w + 1 + digest_len)) frame)) ≡ ok (id, left)
      → Sealed frame key id
  unfolding tail_matches
  tail_matches-Sealed frame key w id left long h e =
      let data_end : ℕ = length frame - (w + 1 + digest_len) in
      let tail : Bytes = drop data_end frame in
      let digest : Bytes = hmac.mac key (take data_end frame) in
      let (marker_is, digest_is) = and_true _ _ h in
      let cut : tail ≡ take w tail ++ (digest_marker ∷ digest) =
        split_at w 0 tail (omega (arith, length-drop data_end frame))
        ∙ ap₂ (λ (m : ℕ) (d : Bytes). take w tail ++ (m ∷ d)) ((==_iff _ _).0 marker_is)
            (ap (λ (n : ℕ). drop n tail) (sym (add-one w)) ∙ bytes_eq→eq _ _ digest_is) in
      record {
        content = take data_end frame;
        vlq = take w tail;
        left = left;
        splits =
            sym (take-append-drop data_end frame)
            ∙ ap (λ (t : Bytes). take data_end frame ++ t) cut;
        reads = e;
      }

  id_of_inv :
      (r : Result (ℕ × Bytes)) (id : ℕ)
      → id_of hmac r ≡ ok id
      → (left : Bytes) × (r ≡ ok (id, left))
  id_of_inv (ok (n, left)) id e = (left, cc)
  id_of_inv (err x) id e = absurd (cc)
  id_of_inv panic id e = absurd (cc)

  verify_from-Sealed :
      (rounds w : ℕ) (frame key : Bytes) (id : ℕ)
      → verify_from hmac frame key rounds w ≡ ok id
      → Sealed frame key id
  unfolding verify_from
  verify_from-Sealed zero w frame key id e = absurd (ground arith)
  verify_from-Sealed (suc rounds) w frame key id e =
      elim (Bool-cases (ltb (length frame) (w + 1 + digest_len))) [
        | inl short ↦ verify_from-Sealed rounds (w + 1) frame key id (rw (short) at e)
        | inr long ↦ elim (Bool-cases (tail_matches hmac frame key w)) [
          | inl same ↦
              let (left, read) = id_of_inv _ id (rw (long, same) at e) in
              tail_matches-Sealed frame key w id left (ground arith) same read
          | inr other ↦ verify_from-Sealed rounds (w + 1) frame key id (rw (long, other) at e)
        ]
      ]

  -- A frame that `verify_v1v2` accepts ends with the digest of what stands before its tail, and the
  -- number that it returns is the one that the tail begins with.
  pub verify-Sealed :
      (frame key : Bytes) (id : ℕ) → verify hmac frame key ≡ ok id → Sealed frame key id
  unfolding verify
  verify-Sealed frame key id e = verify_from-Sealed 5 1 frame key id e

  -- A frame cut where its tail begins, for a tail with `back` before the marker.
  tail_matches-append :
      (content back key digest : Bytes)
      → length digest ≡ digest_len
      → tail_matches hmac (content ++ (back ++ (digest_marker ∷ digest))) key (length back)
        ≡ bytes_eq digest (hmac.mac key content)
  unfolding tail_matches
  tail_matches-append content back key digest h =
      let frame : Bytes = content ++ (back ++ (digest_marker ∷ digest)) in
      let data_end : length frame - (length back + 1 + digest_len) ≡ length content = omega (
        arith,
        length-append content (back ++ (digest_marker ∷ digest)),
        length-append back (digest_marker ∷ digest),
        h,
      ) in
      rw (data_end, drop-append, take-append, get_or-append, add-one, drop-append_suc)

  -- Where no text of one to four bytes more has the digest of the data, a frame is accepted with the
  -- number that it was sealed with.
  module _ (buf key vlq : Bytes) (id : ℕ)
      (apart : (front : Bytes)
        → front ≢ []
        → length front ≤ 4
        → hmac.mac key (buf ++ front) ≢ hmac.mac key buf)
      (narrow : length vlq ≤ 5) (reads : decode_vlq vlq ≡ ok (id, [])) where
    frame : Bytes
    frame = buf ++ (vlq ++ (digest_marker ∷ hmac.mac key buf))

    recut :
        (k : ℕ) → frame ≡ (buf ++ take k vlq) ++ (drop k vlq ++ (digest_marker ∷ hmac.mac key buf))
    unfolding frame
    recut k = rw (append_assoc, ← append_assoc (take k vlq), take-append-drop k vlq)

    length-frame : length frame ≡ length buf + (length vlq + 33)
    unfolding frame
    length-frame = omega (
      arith,
      length-append buf (vlq ++ (digest_marker ∷ hmac.mac key buf)),
      length-append vlq (digest_marker ∷ hmac.mac key buf),
      hmac.length-mac key buf,
    )

    -- Whether the tail matches at a width that leaves `k` bytes of the number to the data.
    matches_at :
        (k w : ℕ)
        → k + w ≡ length vlq
        → tail_matches hmac frame key w
          ≡ bytes_eq (hmac.mac key buf) (hmac.mac key (buf ++ take k vlq))
    matches_at k w sum =
        ap₂ (λ (f : Bytes) (n : ℕ). tail_matches hmac f key n) (recut k)
          (omega (arith, length-drop k vlq))
        ∙ tail_matches-append (buf ++ take k vlq) (drop k vlq) key (hmac.mac key buf)
            (hmac.length-mac key buf)

    front-ne-nil : (k w : ℕ) → suc k + w ≡ length vlq → take (suc k) vlq ≢ []
    front-ne-nil k w sum e =
        absurd (omega (arith, length-take (suc k) vlq, ap (λ (xs : Bytes). length xs) e))

    no_match : (k w : ℕ) → suc k + w ≡ length vlq → 1 ≤ w → tail_matches hmac frame key w ≡ false
    no_match k w sum pos = elim (Bool-cases (tail_matches hmac frame key w)) [
      | inl same ↦ absurd (
          apart (take (suc k) vlq) (front-ne-nil k w sum)
            (omega (arith, length-take (suc k) vlq, narrow))
            (sym (bytes_eq→eq _ _ (sym (matches_at (suc k) w sum) ∙ same))))
      | inr other ↦ other
    ]

    match : (w : ℕ) → w ≡ length vlq → tail_matches hmac frame key w ≡ true
    match w sum = matches_at 0 w (omega arith) ∙ rw append-nil (bytes_eq_refl (hmac.mac key buf))

    -- What stands at the width of the number.
    tail_vlq : take (length vlq) (drop (length frame - (length vlq + 1 + digest_len)) frame) ≡ vlq
    tail_vlq =
        let data_end : length frame - (length vlq + 1 + digest_len) ≡ length buf =
          omega (arith, length-frame) in
        rw data_end (unfold frame in rw (drop-append, take-append))

    walk :
        (rounds k w : ℕ)
        → k + w ≡ length vlq
        → k < rounds
        → 1 ≤ w
        → verify_from hmac frame key rounds w ≡ ok id
    unfolding verify_from
    walk zero k w sum enough pos = elim enough [ ]
    walk (suc rounds) zero w sum enough pos =
        let w_is : w ≡ length vlq = omega arith in
        rw w_is (ground (arith, match (length vlq) refl, tail_vlq, reads, length-frame))
    walk (suc rounds) (suc k) w sum enough pos =
        ground (arith, no_match k w sum pos, length-frame, walk rounds k (w + 1))

    walk_all : 1 ≤ length vlq → verify hmac frame key ≡ ok id
    unfolding verify
    walk_all lo = walk 5 (length vlq - 1) 1 (omega arith) (omega (arith, narrow)) (omega arith)

  -- If no text of one to four bytes more than the data has the digest of the data under the key, then
  -- `verify_v1v2` accepts what `append_integrity_v1v2` made with it, and returns the 32-bit number that
  -- it was given.
  pub verify-append_integrity :
      (buf key : Bytes) (id : ℕ)
      → IsU32 id
      → ((front : Bytes)
          → front ≢ []
          → length front ≤ 4
          → hmac.mac key (buf ++ front) ≢ hmac.mac key buf)
      → (frame : Bytes) × (append_integrity hmac buf key id ≡ ok frame)
        × (verify hmac frame key ≡ ok id)
  unfolding append_integrity frame
  verify-append_integrity buf key id h apart =
      let (vlq, encoded, read, lo, hi) = decode_vlq-encode_vlq id [] h in
      (
        buf ++ (vlq ++ (digest_marker ∷ hmac.mac key buf)),
        rw encoded,
        walk_all buf key vlq id apart hi (rw append-nil at read) lo,
      )
