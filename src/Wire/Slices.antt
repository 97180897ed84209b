-- ===== src/Wire/Slices.antt =====
-- `split_to` and `advance` on a buffer whose front is known.
use rs_snap.Prelude.{
  refl, List, [], ◌∷◌, take, drop, ℕ, ◌≡◌, arith, ◌++◌, length, length-append, take-append,
  drop-append,
}
use rs_snap.Wire.Error.{ok}
use rs_snap.Wire.Buffer.{Bytes, split_to}

pub split_to-append :
    (n : ℕ) (front rest : Bytes) → length front ≡ n → split_to n (front ++ rest) ≡ ok (front, rest)
split_to-append n front rest h =
    ground (arith, length-append front rest, take-append front rest, drop-append front rest)

pub take-length {ℓ} : {A : Type ℓ} (xs : List A) → take (length xs) xs ≡ xs
take-length [] = refl
take-length (x ∷ xs) = rw (take-length xs)

drop-length {ℓ} : {A : Type ℓ} (xs : List A) → drop (length xs) xs ≡ []
drop-length [] = refl
drop-length (x ∷ xs) = drop-length xs

pub split_to_all : (xs : Bytes) → split_to (length xs) xs ≡ ok (xs, [])
split_to_all xs = ground (arith, take-length xs, drop-length xs)
