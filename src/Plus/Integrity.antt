-- ===== src/Plus/Integrity.antt =====
-- crates/snap7-client/src/proto/s7commplus/integrity.rs: the digest at the end of a frame. HMAC-SHA256
-- is a library's: any function of a key and of the data into 32 bytes.
pub mod Laws
use rs_snap.Prelude.{
  ℕ, zero, suc, ◌+◌, ◌-◌, ◌≡◌, ◌≢◌, Bool, true, false, List, [], ◌∷◌, ◌++◌, length, take, drop,
  get_or, ltb, ◌==◌, not, ◌||◌, ◌&&◌, if◌then◌else◌,
}
use rs_snap.Wire.{
  Bytes, Result, ok, err, panic, invalid_magic, integrity_failure, Reader, ◌>>=◌, ◌>>◌, need,
  refuse, pure, advance, split_to, put_u8,
}
use rs_snap.Plus.Vlq.{encode_vlq, decode_vlq}

abbrev pub digest_marker : ℕ
digest_marker = 0x20

abbrev pub digest_len : ℕ
digest_len = 32

-- `Hmac::<Sha256>`, from the crates `hmac` and `sha2`.
pub record Hmac : Type 0 where
  pub mac : (key content : Bytes) → Bytes
  pub length-mac : (key content : Bytes) → length (mac key content) ≡ digest_len

abbrev pub bytes_eq : Bytes → Bytes → Bool
bytes_eq [] [] = true
bytes_eq (x ∷ xs) (y ∷ ys) = x == y && bytes_eq xs ys
bytes_eq _ _ = false

-- `got: if buf.is_empty() { 0x00 } else { buf[0] }`
abbrev check_marker : Reader (Unit {0})
check_marker [] = err (invalid_magic digest_marker 0)
check_marker (b ∷ rest) =
    if b == digest_marker then ok (tt, b ∷ rest) else err (invalid_magic digest_marker b)

unfoldable pub decode_integrity_tail : Reader (ℕ × Bytes)
decode_integrity_tail = do
  id ← decode_vlq
  check_marker
  advance 1
  need digest_len
  digest ← split_to digest_len
  pure (id, digest)

module _ (hmac : Hmac) where
  abbrev append_tail : Bytes → Bytes → Result Bytes → Result Bytes
  append_tail buf key (ok vlq) = ok (buf ++ (vlq ++ (digest_marker ∷ hmac.mac key buf)))
  append_tail buf key (err e) = err e
  append_tail buf key panic = panic

  -- The buffer after `append_integrity_v1v2`.
  unfoldable pub append_integrity : Bytes → Bytes → ℕ → Result Bytes
  append_integrity buf key id = append_tail buf key (encode_vlq id)

  -- `let id = decode_vlq(&mut id_bytes)?; return Ok(id);`
  abbrev pub id_of : Result (ℕ × Bytes) → Result ℕ
  id_of (ok (id, left)) = ok id
  id_of (err e) = err e
  id_of panic = panic

  -- The digest over what stands before the tail is the one at its end.
  unfoldable pub tail_matches : Bytes → Bytes → ℕ → Bool
  tail_matches frame key vlq_len =
      let data_end = length frame - (vlq_len + 1 + digest_len) in
      let tail = drop data_end frame in
      get_or tail vlq_len 0 == digest_marker
      && bytes_eq (drop (vlq_len + 1) tail) (hmac.mac key (take data_end frame))

  -- `for vlq_len in 1..=5`, over the widths that are left.
  unfoldable pub verify_from : Bytes → Bytes → ℕ → ℕ → Result ℕ
  verify_from frame key zero vlq_len = err integrity_failure
  verify_from frame key (suc rounds) vlq_len =
      let next = verify_from frame key rounds (vlq_len + 1) in
      let data_end = length frame - (vlq_len + 1 + digest_len) in
      if ltb (length frame) (vlq_len + 1 + digest_len)
      then next
      else if tail_matches frame key vlq_len
      then id_of (decode_vlq (take vlq_len (drop data_end frame)))
      else next

  unfoldable pub verify : Bytes → Bytes → Result ℕ
  unfolding verify_from
  verify frame key = verify_from frame key 5 1
