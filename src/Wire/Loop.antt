-- ===== src/Wire/Loop.antt =====
-- The loops of the codecs: `for item in items { … put … }`, and `for _ in 0..count { … get … }`
-- that pushes each item.
use rs_snap.Prelude.{
  ℕ, zero, suc, ◌≡◌, ◌≢◌, refl, ap, arith, List, [], ◌∷◌, ◌++◌, map, length, All, append_assoc, inl,
  inr,
}
use rs_snap.Wire.Error.{ok, panic, Result-cases}
use rs_snap.Wire.Buffer.{Bytes, Reader, ◌>>=◌, pure}

unfoldable pub put_all : {A : Type 0} → (A → Bytes) → List A → Bytes
put_all put [] = []
put_all put (a ∷ xs) = put a ++ put_all put xs

unfoldable pub get_all : {A : Type 0} → Reader A → ℕ → Reader (List A)
get_all get zero buf = ok ([], buf)
get_all get (suc n) buf = (do a ← get; xs ← get_all get n; pure (a ∷ xs)) buf

-- If each item is read back xs `f` of it, then so are the items, in their order.
pub get_all-put_all :
    {A B : Type 0} (put : A → Bytes) (get : Reader B) (f : A → B) (P : A → Type 0)
    → ((a : A) (rest : Bytes) → P a → get (put a ++ rest) ≡ ok (f a, rest))
    → (xs : List A) (rest : Bytes) → All P xs
    → get_all get (length xs) (put_all put xs ++ rest) ≡ ok (map f xs, rest)
unfolding get_all put_all
get_all-put_all put get f P each [] rest h = refl
get_all-put_all put get f P each (a ∷ xs) rest (p, h) =
    rw append_assoc (
      ground (arith, each a (put_all put xs ++ rest) p, get_all-put_all put get f P each xs rest h))

pub get_all-ne-panic :
    {A : Type 0} (get : Reader A)
    → ((buf : Bytes) → get buf ≢ panic)
    → (n : ℕ) (buf : Bytes) → get_all get n buf ≢ panic
unfolding get_all
get_all-ne-panic get safe zero buf = λ e. cc
get_all-ne-panic get safe (suc n) buf = elim (Result-cases (get buf) (safe buf)) [
  | inl ((item, rest), e) ↦ ground (arith, e, get_all-ne-panic get safe n rest)
  | inr (x, e) ↦ ground (arith, e)
]

map_self : {A : Type 0} (xs : List A) → map (λ a. a) xs ≡ xs
map_self [] = refl
map_self (x ∷ xs) = ap (◌∷◌ x) (map_self xs)

-- If each item is read back as it was, then so are the items.
pub get_all-put_all_self :
    {A : Type 0} (put : A → Bytes) (get : Reader A) (P : A → Type 0)
    → ((a : A) (rest : Bytes) → P a → get (put a ++ rest) ≡ ok (a, rest))
    → (xs : List A) (rest : Bytes) → All P xs
    → get_all get (length xs) (put_all put xs ++ rest) ≡ ok (xs, rest)
get_all-put_all_self put get P each xs rest h =
    rw (map_self xs) at (get_all-put_all put get (λ a. a) P each xs rest h)
