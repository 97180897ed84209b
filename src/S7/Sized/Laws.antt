-- ===== src/S7/Sized/Laws.antt =====
-- What is read back where item data was written.
use rs_snap.Prelude.{
  ℕ, ◌+◌, ◌*◌, ◌/◌, ◌%◌, ◌≤◌, ◌<◌, ◌≡◌, ◌≢◌, refl, arith, [], ◌∷◌, ◌++◌, length, length-append,
  append_assoc, drop, ◌==◌, Bool-cases, inl, inr,
}
use rs_snap.Wire.{Bytes, ok, panic}
use rs_snap.Wire.Slices.{split_to-append}
use rs_snap.S7.Sized.{pad, put_sized, skip_pad, get_sized}

skip_pad_even : (n : ℕ) (rest : Bytes) → n % 2 ≡ 0 → skip_pad n rest ≡ ok (tt, rest)
skip_pad_even n [] h = refl
skip_pad_even n (x ∷ rest) h = ground arith

skip_pad-pad : (n : ℕ) (rest : Bytes) → skip_pad n (pad n ++ rest) ≡ ok (tt, rest)
skip_pad-pad n rest = elim (Bool-cases (n % 2 == 0)) [
  | inl even ↦ rw even (skip_pad_even n rest (ground arith))
  | inr odd ↦ rw odd (rw odd)
]

skip_pad-ne-panic : (n : ℕ) (buf : Bytes) → skip_pad n buf ≢ panic
skip_pad-ne-panic n [] = λ e. cc
skip_pad-ne-panic n (x ∷ rest) = λ e. cc

-- Data of at most 8191 bytes is read back, its pad byte with it.
pub get_sized-put_sized :
    (content rest : Bytes)
    → length content < 8192
    → get_sized (put_sized content ++ rest) ≡ ok (content, rest)
unfolding get_sized put_sized
get_sized-put_sized content rest h =
    let n : ℕ = length content in
    let e : (n * 8 % 65536 / 256 * 256 + n * 8 % 65536 % 256 + 7) / 8 ≡ n = omega arith in
    rw (append_assoc, e)
      (ground (
        arith,
        length-append content (pad n ++ rest),
        split_to-append n content (pad n ++ rest),
        skip_pad-pad n rest,
      ))

-- With the two bytes of the length there, the reader does not panic.
pub get_sized-ne-panic : (a b : ℕ) (rest : Bytes) → get_sized (a ∷ b ∷ rest) ≢ panic
unfolding get_sized
get_sized-ne-panic a b rest =
    ground (arith, skip_pad-ne-panic ((a * 256 + b + 7) / 8) (drop ((a * 256 + b + 7) / 8) rest))

-- The length and the content take two bytes at least.
pub length-put_sized : (content rest : Bytes) → 2 ≤ length (put_sized content ++ rest)
unfolding put_sized
length-put_sized content rest = omega arith

length-pad : (n : ℕ) → length (pad n) ≤ 1
length-pad n = ground arith

pub length-put_sized_le : (content : Bytes) → length (put_sized content) ≤ 3 + length content
unfolding put_sized
length-put_sized_le content =
    omega (arith, length-append content (pad (length content)), length-pad (length content))
