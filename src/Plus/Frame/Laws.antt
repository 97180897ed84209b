-- ===== src/Plus/Frame/Laws.antt =====
-- `S7PlusFrame::decode` on what `S7PlusFrame::encode` wrote, and on any other input.
use rs_snap.Prelude.{
  ℕ, ◌+◌, ◌*◌, ◌≤◌, ◌<◌, ◌≡◌, ◌≢◌, refl, arith, [], ◌∷◌, ◌++◌, length, length-append, append_assoc,
  take, drop, take-append-drop, length-take,
}
use rs_snap.Wire.{Bytes, ok, panic}
use rs_snap.Wire.Slices.{split_to-append}
use rs_snap.Plus.Frame.{
  Version, version_code, version_of, S7PlusFrame, put_fence, encode, check_trailer, decode, magic,
}

pub version_of-version_code : (v : Version) → version_of (version_code v) ≡ ok v
unfolding version_of version_code
version_of-version_code Version.v1 = refl
version_of-version_code _ = refl

pub version_code-version_of : (b : ℕ) {v : Version} → version_of b ≡ ok v → version_code v ≡ b
unfolding version_of version_code
version_code-version_of b e = ground arith

check_trailer-put_fence :
    (v : Version) (len : ℕ) (rest : Bytes)
    → len < 65536
    → check_trailer (version_code v) len (put_fence v len ++ rest) ≡ ok (tt, rest)
unfolding check_trailer
check_trailer-put_fence v len rest h = ground arith

-- A frame that `encode` accepts is read back, and what follows it is left in the buffer.
pub S7PlusFrame-decode-encode :
    (frame : S7PlusFrame) (rest : Bytes) {wire : Bytes}
    → encode frame ≡ ok wire
    → decode (wire ++ rest) ≡ ok (frame, rest)
unfolding encode decode
S7PlusFrame-decode-encode frame rest h =
    let len : ℕ = length frame.content in
    ground (
      arith,
      version_of-version_code frame.version,
      append_assoc frame.content (put_fence frame.version len) rest,
      length-append frame.content (put_fence frame.version len ++ rest),
      split_to-append len frame.content (put_fence frame.version len ++ rest),
      check_trailer-put_fence frame.version len rest,
    )

check_trailer-ne-panic : (v len : ℕ) (buf : Bytes) → check_trailer v len buf ≢ panic
unfolding check_trailer
check_trailer-ne-panic v len (a ∷ b ∷ c ∷ d ∷ rest) = ground arith
check_trailer-ne-panic v len _ = ground arith

version_of-ne-panic : (v : ℕ) → version_of v ≢ panic
unfolding version_of
version_of-ne-panic v = ground arith

-- No input makes `S7PlusFrame::decode` panic.
pub decode-ne-panic : (buf : Bytes) → decode buf ≢ panic
unfolding decode
decode-ne-panic (a ∷ v ∷ c ∷ d ∷ rest) =
    let len : ℕ = c * 256 + d in
    ground (arith, version_of-ne-panic v, check_trailer-ne-panic v len (drop len rest))
decode-ne-panic _ = ground arith

check_trailer_inv :
    (v len : ℕ) (buf : Bytes) {rest : Bytes}
    → check_trailer v len buf ≡ ok (tt, rest)
    → (c d : ℕ) × (buf ≡ magic ∷ v ∷ c ∷ d ∷ rest) × (c * 256 + d ≡ len)
unfolding check_trailer
check_trailer_inv v len (a ∷ b ∷ c ∷ d ∷ tail) e = (c, d, ground arith, ground arith)
check_trailer_inv v len _ e = absurd (ground arith)

-- What `decode` has checked when it returns.
record Accepted (a v c d : ℕ) (tail : Bytes) (frame : S7PlusFrame) (rest : Bytes) : Type 0 where
  starts : a ≡ magic
  version_is : version_of v ≡ ok frame.version
  fits : c * 256 + d ≤ length tail
  content_is : frame.content ≡ take (c * 256 + d) tail
  ends : check_trailer v (c * 256 + d) (drop (c * 256 + d) tail) ≡ ok (tt, rest)

decode-Accepted :
    (a v c d : ℕ) (tail : Bytes) (frame : S7PlusFrame) (rest : Bytes)
    → decode (a ∷ v ∷ c ∷ d ∷ tail) ≡ ok (frame, rest)
    → Accepted a v c d tail frame rest
unfolding decode
decode-Accepted a v c d tail frame rest e = ground arith

decode_long :
    (buf : Bytes) (frame : S7PlusFrame) (rest : Bytes)
    → decode buf ≡ ok (frame, rest)
    → 4 ≤ length buf
unfolding decode
decode_long buf frame rest e = ground arith

-- A frame that `decode` returns stood at the front of the buffer: the data between two fences that
-- name one version and one length, which is that of the data.
decode_accepts :
    (buf : Bytes) (frame : S7PlusFrame) (rest : Bytes)
    → decode buf ≡ ok (frame, rest)
    → (c d c' d' : ℕ) × (buf
        ≡ magic
          ∷ version_code frame.version
          ∷ c
          ∷ d
          ∷ (frame.content ++ (magic ∷ version_code frame.version ∷ c' ∷ d' ∷ rest)))
      × (c * 256 + d ≡ length frame.content)
      × (c' * 256 + d' ≡ length frame.content)
decode_accepts (a ∷ v ∷ c ∷ d ∷ tail) frame rest e =
    let acc = decode-Accepted a v c d tail frame rest e in
    let len : ℕ = c * 256 + d in
    let (c', d', trailer, len_is) = check_trailer_inv v len (drop len tail) acc.ends in
    let code = version_code-version_of v acc.version_is in
    (
      c,
      d,
      c',
      d',
      rw (acc.starts, code, acc.content_is, ← trailer, take-append-drop len tail) refl,
      ground (arith, length-take len tail, acc.content_is, acc.fits),
      ground (arith, length-take len tail, acc.content_is, acc.fits),
    )
decode_accepts [] frame rest e = absurd (omega (arith, decode_long [] frame rest e))
decode_accepts (a ∷ []) frame rest e = absurd (omega (arith, decode_long (a ∷ []) frame rest e))
decode_accepts (a ∷ b ∷ []) frame rest e =
    absurd (omega (arith, decode_long (a ∷ b ∷ []) frame rest e))
decode_accepts (a ∷ b ∷ c ∷ []) frame rest e =
    absurd (omega (arith, decode_long (a ∷ b ∷ c ∷ []) frame rest e))
