-- ===== src/Client/BlockData/Passwords.antt =====
-- The obfuscation of passwords (crates/snap7-client/src/types.rs).
use rs_snap.Prelude.{
  ℕ, zero, suc, ◌<◌, ◌≡◌, refl, sym, ap, ◌∙◌, arith, min, Bool, true, false, ◌&&◌, inl, inr,
  Bool-cases, All-append, take-append, length-map, All-take, length-take, length-append, ==_iff, [],
  ◌∷◌, ◌++◌, map, length, take, drop, ◌==◌, All,
}
use rs_snap.Wire.{Bytes, IsU8}
use rs_snap.Client.BlockData.{obfuscated, eight_spaces, encrypt_password}

unfoldable all_below : ℕ → (ℕ → Bool) → Bool
all_below zero f = true
all_below (suc n) f = f n && all_below n f

and_true : (a b : Bool) → (a && b) ≡ true → (a ≡ true) × (b ≡ true)
and_true a b h = ground arith

all_below-at : (n : ℕ) (f : ℕ → Bool) (b : ℕ) → all_below n f ≡ true → b < n → f b ≡ true
unfolding all_below
all_below-at zero f b all h = absurd (omega arith)
all_below-at (suc n) f b all h = elim (Bool-cases (b == n)) [
  | inl same ↦ ap f ((==_iff b n).0 same) ∙ (and_true (f n) (all_below n f) all).0
  | inr other ↦ all_below-at n f b (and_true (f n) (all_below n f) all).1 (omega (arith, ne other))
]
  where
    ne : (b == n) ≡ false → (b ≡ n → ⊥)
    ne e same = ground arith

all_bytes : all_below 256 (λ b. obfuscated (obfuscated b) == b) ≡ true
unfolding all_below
all_bytes = refl

-- Each byte is its own obfuscation's obfuscation.
obfuscated-obfuscated : (b : ℕ) → b < 256 → obfuscated (obfuscated b) ≡ b
obfuscated-obfuscated b h =
    (==_iff (obfuscated (obfuscated b)) b).0
      (all_below-at 256 (λ c. obfuscated (obfuscated c) == c) b all_bytes h)

map-obfuscated : (bytes : Bytes) → All IsU8 bytes → map obfuscated (map obfuscated bytes) ≡ bytes
map-obfuscated [] h = refl
map-obfuscated (b ∷ bytes) (h, hs) = rw (obfuscated-obfuscated b h, map-obfuscated bytes hs) refl

-- The first eight bytes, with spaces behind fewer.
abbrev pub padded : Bytes → Bytes
padded password = take 8 (password ++ eight_spaces)

padded-take :
    (p : Bytes) → take (min (length p) 8) p ++ drop (min (length p) 8) eight_spaces ≡ padded p
padded-take [] = refl
padded-take (a ∷ []) = refl
padded-take (a ∷ b ∷ []) = refl
padded-take (a ∷ b ∷ c ∷ []) = refl
padded-take (a ∷ b ∷ c ∷ d ∷ []) = refl
padded-take (a ∷ b ∷ c ∷ d ∷ e ∷ []) = refl
padded-take (a ∷ b ∷ c ∷ d ∷ e ∷ f ∷ []) = refl
padded-take (a ∷ b ∷ c ∷ d ∷ e ∷ f ∷ g ∷ []) = refl
padded-take (a ∷ b ∷ c ∷ d ∷ e ∷ f ∷ g ∷ h ∷ p) =
    ap (λ n. take n (a ∷ b ∷ c ∷ d ∷ e ∷ f ∷ g ∷ h ∷ p) ++ drop n eight_spaces) eight
  where
    eight : min (length (a ∷ b ∷ c ∷ d ∷ e ∷ f ∷ g ∷ h ∷ p)) 8 ≡ 8
    eight = omega arith

padded-map : (p : Bytes) → padded (map obfuscated (padded p)) ≡ map obfuscated (padded p)
padded-map p =
    let q = map obfuscated (padded p) in
    sym (ap (λ n. take n (q ++ eight_spaces)) whole) ∙ take-append q eight_spaces
  where
    whole : length (map obfuscated (padded p)) ≡ 8
    whole = omega (
      arith,
      length-map obfuscated (padded p),
      length-take 8 (p ++ eight_spaces),
      length-append p eight_spaces,
    )

-- Of a password of bytes, obfuscated twice, the first eight bytes are left, with spaces behind a shorter one.
encrypt_password-encrypt_password :
    (password : Bytes)
    → All IsU8 password
    → encrypt_password (encrypt_password password) ≡ padded password
unfolding encrypt_password
encrypt_password-encrypt_password password h =
    rw (padded-take password, padded-take (map obfuscated (padded password)), padded-map password)
      (map-obfuscated (padded password) (
        All-take IsU8 8 (password ++ eight_spaces)
          (All-append IsU8 password eight_spaces h eight_bytes)))
  where
    eight_bytes : All IsU8 eight_spaces
    eight_bytes = ground arith
