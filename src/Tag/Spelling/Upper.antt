-- ===== src/Tag/Spelling/Upper.antt =====
-- Parts of a tag in upper case.
use rs_snap.Prelude.{ℕ, ◌≡◌, refl, ◌∙◌, ◌∷◌, ◌++◌, false}
use rs_snap.Str.{Text, to_upper, to_uppercase, contains}
use rs_snap.Str.Numbers.{IsNumber, to_uppercase-digits, to_uppercase-append, contains-number}

-- No letter of the text is in lower case.
unfoldable pub IsUpper : Text → Type 0
IsUpper s = to_uppercase s ≡ s

pub IsUpper-append : (s t : Text) → IsUpper s → IsUpper t → IsUpper (s ++ t)
unfolding IsUpper
IsUpper-append s t h k = to_uppercase-append s t ∙ cc (h, k)

pub IsUpper-around :
    (c : ℕ) (s t : Text) → to_upper c ≡ c → IsUpper s → IsUpper t → IsUpper (s ++ (c ∷ t))
unfolding IsUpper to_uppercase
IsUpper-around c s t e h k = IsUpper-append s (c ∷ t) h (cc (e, k))

pub number_upper : (max : ℕ) (s : Text) → IsNumber max s → IsUpper s
unfolding IsUpper IsNumber
number_upper max s (_, h, _) = to_uppercase-digits s h

pub front : (c : ℕ) (s : Text) → to_upper c ≡ c → IsUpper s → IsUpper (c ∷ s)
unfolding IsUpper to_uppercase
front c s e h = cc (e, h)

pub no_comma : (max : ℕ) (s : Text) → IsNumber max s → contains b',' s ≡ false
unfolding IsNumber
no_comma max s (_, h, _) = contains-number b',' s refl h
