-- ===== src/Str.antt =====
-- The operations on `str` that the parsers of text call, on texts of ASCII characters:
-- a text is the list of its codes.
pub mod Numbers
use Prim.Native.Char.{code}
use Prim.Native.String.{String}
use rs_snap.Prelude.{
  ℕ, ◌+◌, ◌-◌, ◌*◌, List, [], ◌∷◌, map, Bool, true, false, ◌&&◌, ◌||◌, Option, none, some, leb,
  ◌==◌, if◌then◌else◌,
}

abbrev pub Text : Type 0
Text = List ℕ

-- `String` has its own `[]` and `∷`.
abbrev pub codes : String → Text
codes String.[] = []
codes (String.◌∷◌ c s) = code c ∷ codes s

abbrev pub is_digit : ℕ → Bool
is_digit c = leb b'0' c && leb c b'9'

abbrev is_lower : ℕ → Bool
is_lower c = leb b'a' c && leb c b'z'

abbrev is_upper : ℕ → Bool
is_upper c = leb b'A' c && leb c b'Z'

abbrev pub is_alphabetic : ℕ → Bool
is_alphabetic c = is_lower c || is_upper c

abbrev pub to_upper : ℕ → ℕ
to_upper c = if is_lower c then c - 32 else c

-- `to_uppercase`
unfoldable pub to_uppercase : Text → Text
to_uppercase = map to_upper

-- `contains(c)` for a character
unfoldable pub contains : ℕ → Text → Bool
contains c [] = false
contains c (x ∷ s) = (x == c) || contains c s

abbrev pub starts_with_digit : Text → Bool
starts_with_digit [] = false
starts_with_digit (c ∷ s) = is_digit c

-- `strip_prefix`
abbrev pub strip_prefix : Text → Text → Option Text
strip_prefix [] s = some s
strip_prefix (p ∷ ps) [] = none
strip_prefix (p ∷ ps) (c ∷ s) = let rest = strip_prefix ps s in if c == p then rest else none

abbrev is_some : Option Text → Bool
is_some none = false
is_some (some _) = true

abbrev pub starts_with : Text → Text → Bool
starts_with p s = is_some (strip_prefix p s)

abbrev pub push_front : ℕ → List Text → List Text
push_front c [] = (c ∷ []) ∷ []
push_front c (part ∷ parts) = (c ∷ part) ∷ parts

-- `split(c)`
unfoldable pub split : ℕ → Text → List Text
split c [] = [] ∷ []
split c (x ∷ s) = let parts = split c s in if x == c then [] ∷ parts else push_front x parts

abbrev pub first_front : ℕ → Option (Text × Text) → Option (Text × Text)
first_front c none = none
first_front c (some (a, b)) = some (c ∷ a, b)

-- `splitn(2, c)`, if it gives two parts
unfoldable pub split_once : ℕ → Text → Option (Text × Text)
split_once c [] = none
split_once c (x ∷ s) =
    let parts = split_once c s in if x == c then some ([], s) else first_front x parts

-- The digits of `parse`, behind the number `n`: an overflow is an error.
unfoldable pub scan : ℕ → ℕ → Text → Option ℕ
scan max n [] = some n
scan max n (c ∷ s) =
    let m = n * 10 + (c - b'0') in
    let rest = scan max m s in if is_digit c && leb m max then rest else none

abbrev pub scan_some : ℕ → Text → Option ℕ
scan_some max [] = none
scan_some max (c ∷ s) = scan max 0 (c ∷ s)

-- `parse` into an unsigned integer of at most `max`: a plus sign may stand in front.
unfoldable pub parse : ℕ → Text → Option ℕ
parse max [] = none
parse max (c ∷ s) = if c == b'+' then scan_some max s else scan_some max (c ∷ s)
