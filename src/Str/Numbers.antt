-- ===== src/Str/Numbers.antt =====
-- Digits: what `parse`, `contains`, `split` and `to_uppercase` make of them.
use rs_snap.Prelude.{
  ℕ, ◌+◌, ◌-◌, ◌*◌, ◌≤◌, ◌≡◌, ◌≢◌, refl, ap, arith, [], ◌∷◌, ◌++◌, none, some, All, true, false,
}
use rs_snap.Str.{
  Text, is_digit, to_upper, to_uppercase, contains, starts_with_digit, split, split_once,
  strip_prefix, scan, parse,
}

unfoldable pub IsDigit : ℕ → Type 0
IsDigit c = is_digit c ≡ true

-- The number that digits spell behind `n`.
unfoldable pub spelled : ℕ → Text → ℕ
spelled n [] = n
spelled n (c ∷ s) = spelled (n * 10 + (c - b'0')) s

-- One or more digits that spell a number of at most `max`.
unfoldable pub IsNumber : ℕ → Text → Type 0
IsNumber max s = (s ≢ []) × All IsDigit s × (spelled 0 s ≤ max)

le-spelled : (n : ℕ) (s : Text) → n ≤ spelled n s
unfolding spelled
le-spelled n [] = omega arith
le-spelled n (c ∷ s) = omega (arith, le-spelled (n * 10 + (c - b'0')) s)

scan-spelled :
    (max n : ℕ) (s : Text) → All IsDigit s → spelled n s ≤ max → scan max n s ≡ some (spelled n s)
unfolding scan spelled IsDigit
scan-spelled max n [] _ _ = refl
scan-spelled max n (c ∷ s) (d, h) fits =
    let m = n * 10 + (c - b'0') in ground (arith, scan-spelled max m s h fits, le-spelled m s)

pub parse-spelled : (max : ℕ) (s : Text) → IsNumber max s → parse max s ≡ some (spelled 0 s)
unfolding parse IsNumber IsDigit
parse-spelled max [] (h, _, _) = absurd (h refl)
parse-spelled max (c ∷ s) (_, (d, h), fits) = ground (arith, scan-spelled max 0 (c ∷ s) (d, h) fits)

pub to_uppercase-digits : (s : Text) → All IsDigit s → to_uppercase s ≡ s
unfolding to_uppercase IsDigit
to_uppercase-digits [] _ = refl
to_uppercase-digits (c ∷ s) (d, h) = cc (digit-to_upper, to_uppercase-digits s h)
  where
    digit-to_upper : to_upper c ≡ c
    digit-to_upper = ground arith

pub to_uppercase-append : (s t : Text) → to_uppercase (s ++ t) ≡ to_uppercase s ++ to_uppercase t
unfolding to_uppercase
to_uppercase-append [] t = refl
to_uppercase-append (c ∷ s) t = ap (◌∷◌ (to_upper c)) (to_uppercase-append s t)

pub contains-digits :
    (x : ℕ) (s t : Text) → is_digit x ≡ false → All IsDigit s → contains x (s ++ t) ≡ contains x t
unfolding contains IsDigit
contains-digits x [] t e _ = refl
contains-digits x (c ∷ s) t e (d, h) = ground (arith, contains-digits x s t e h)

pub split-digits : (s : Text) → All IsDigit s → split b'.' s ≡ s ∷ []
unfolding split IsDigit
split-digits [] _ = refl
split-digits (c ∷ s) (d, h) = ground (arith, split-digits s h)

pub split-digits_dot :
    (s t : Text) → All IsDigit s → All IsDigit t → split b'.' (s ++ (b'.' ∷ t)) ≡ s ∷ t ∷ []
unfolding split IsDigit
split-digits_dot [] t _ k = ap (◌∷◌ []) (split-digits t k)
split-digits_dot (c ∷ s) t (d, h) k = ground (arith, split-digits_dot s t h k)

pub split_once-digits :
    (s t : Text) → All IsDigit s → split_once b',' (s ++ (b',' ∷ t)) ≡ some (s, t)
unfolding split_once IsDigit
split_once-digits [] t _ = refl
split_once-digits (c ∷ s) t (d, h) = ground (arith, split_once-digits s t h)

pub contains-number : (x : ℕ) (s : Text) → is_digit x ≡ false → All IsDigit s → contains x s ≡ false
unfolding contains IsDigit
contains-number x [] e _ = refl
contains-number x (c ∷ s) e (d, h) = ground (arith, contains-number x s e h)

-- A text that starts with a digit does not start with another character.
pub strip_prefix-digit :
    (x : ℕ) (xs s : Text)
    → is_digit x ≡ false
    → starts_with_digit s ≡ true
    → strip_prefix (x ∷ xs) s ≡ none
strip_prefix-digit x xs [] e h = refl
strip_prefix-digit x xs (c ∷ s) e h = ground arith

pub starts_with_digit-number :
    (max : ℕ) (s t : Text) → IsNumber max s → starts_with_digit (s ++ t) ≡ true
unfolding IsNumber IsDigit
starts_with_digit-number max [] t (h, _, _) = absurd (h refl)
starts_with_digit-number max (c ∷ s) t (_, (d, h), fits) = d

pub starts_with_digit_lem : (max : ℕ) (s : Text) → IsNumber max s → starts_with_digit s ≡ true
unfolding IsNumber IsDigit
starts_with_digit_lem max [] (h, _, _) = absurd (h refl)
starts_with_digit_lem max (c ∷ s) (_, (d, h), fits) = d
