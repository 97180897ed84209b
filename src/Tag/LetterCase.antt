-- ===== src/Tag/LetterCase.antt =====
-- The letter case of a tag.
use rs_snap.Prelude.{
  ℕ, ◌≡◌, refl, sym, ap, ◌∙◌, arith, [], ◌∷◌, Option, none, some, Bool, ◌&&◌, ◌==◌, if◌then◌else◌,
  true, false,
}
use rs_snap.Str.{
  Text, is_digit, is_alphabetic, to_upper, to_uppercase, contains, split_once, first_front,
}
use rs_snap.Tag.{replace_dot, normalized, parse_parts, parse_tag}

to_upper_idem : (c : ℕ) → to_upper (to_upper c) ≡ to_upper c
to_upper_idem c = ground arith

pub to_uppercase_idem : (s : Text) → to_uppercase (to_uppercase s) ≡ to_uppercase s
unfolding to_uppercase
to_uppercase_idem [] = refl
to_uppercase_idem (c ∷ s) = cc (to_upper_idem c, to_uppercase_idem s)

digit-to_upper : (c : ℕ) → is_digit (to_upper c) ≡ is_digit c
digit-to_upper c = ground arith

comma-to_upper : (c : ℕ) → (to_upper c == b',') ≡ (c == b',')
comma-to_upper c = ground arith

dot-to_upper : (c : ℕ) → (to_upper c == b'.') ≡ (c == b'.')
dot-to_upper c = ground arith

alphabetic-to_upper : (c : ℕ) → is_alphabetic (to_upper c) ≡ is_alphabetic c
alphabetic-to_upper c = ground arith

contains-to_uppercase : (s : Text) → contains b',' (to_uppercase s) ≡ contains b',' s
unfolding contains to_uppercase
contains-to_uppercase [] = refl
contains-to_uppercase (c ∷ s) = rw (comma-to_upper c, contains-to_uppercase s) refl

-- A function applied to both branches.
if-map {ℓ} :
    {A : Type ℓ} (f : A → A) (b : Bool) {x y x' y' : A}
    → x' ≡ f x
    → y' ≡ f y
    → (if b then x' else y') ≡ f (if b then x else y)
if-map f true h k = h
if-map f false h k = k

replace_dot-to_uppercase : (s : Text) → replace_dot (to_uppercase s) ≡ to_uppercase (replace_dot s)
unfolding replace_dot to_uppercase
replace_dot-to_uppercase [] = refl
replace_dot-to_uppercase (a ∷ []) = refl
replace_dot-to_uppercase (a ∷ b ∷ []) = refl
replace_dot-to_uppercase (a ∷ b ∷ c ∷ s) =
    rw (digit-to_upper a, dot-to_upper b, alphabetic-to_upper c)
      (if-map to_uppercase (is_digit a && (b == b'.') && is_alphabetic c) refl
        (ap (◌∷◌ (to_upper a)) (replace_dot-to_uppercase (b ∷ c ∷ s))))

normalized-to_uppercase : (s : Text) → normalized (to_uppercase s) ≡ to_uppercase (normalized s)
unfolding normalized
normalized-to_uppercase s =
    rw (contains-to_uppercase s)
      (if-map to_uppercase (contains b',' s) refl (replace_dot-to_uppercase s))

upper_parts : Option (Text × Text) → Option (Text × Text)
upper_parts none = none
upper_parts (some (a, b)) = some (to_uppercase a, to_uppercase b)

first_front-upper_parts :
    (c : ℕ) (p : Option (Text × Text))
    → first_front (to_upper c) (upper_parts p) ≡ upper_parts (first_front c p)
unfolding upper_parts to_uppercase
first_front-upper_parts c none = refl
first_front-upper_parts c (some (a, b)) = refl

split_once-to_uppercase :
    (s : Text) → split_once b',' (to_uppercase s) ≡ upper_parts (split_once b',' s)
unfolding split_once to_uppercase upper_parts
split_once-to_uppercase [] = refl
split_once-to_uppercase (c ∷ s) = rw (comma-to_upper c) (
    if-map upper_parts (c == b',') refl (
      ap (first_front (to_upper c)) (split_once-to_uppercase s)
      ∙ first_front-upper_parts c (split_once b',' s)))

parse_parts-upper_parts :
    (parts : Option (Text × Text)) → parse_parts (upper_parts parts) ≡ parse_parts parts
unfolding parse_parts upper_parts
parse_parts-upper_parts none = refl
parse_parts-upper_parts (some (a, b)) = rw (to_uppercase_idem a, to_uppercase_idem b) refl

parse_tag-to_uppercase : (tag : Text) → parse_tag (to_uppercase tag) ≡ parse_tag tag
unfolding parse_tag
parse_tag-to_uppercase tag =
    rw
      (
        to_uppercase_idem tag,
        normalized-to_uppercase tag,
        split_once-to_uppercase (normalized tag),
        parse_parts-upper_parts (split_once b',' (normalized tag)),
      )
      refl

-- Two texts that differ only in the case of letters are the same tag: `parse_tag` returns the same
-- address for both, or the same error.
pub parse_tag-same_letters :
    (s t : Text) → to_uppercase s ≡ to_uppercase t → parse_tag s ≡ parse_tag t
parse_tag-same_letters s t h =
    sym (parse_tag-to_uppercase s) ∙ ap parse_tag h ∙ parse_tag-to_uppercase t
