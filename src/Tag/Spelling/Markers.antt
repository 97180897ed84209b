-- ===== src/Tag/Spelling/Markers.antt =====
-- `parse_tag` of crates/snap7-client/src/tag.rs on timers, counters and markers.
use rs_snap.Prelude.{◌≡◌, refl, ◌∙◌, [], ◌∷◌, ◌++◌, none, false}
use rs_snap.Io.{done}
use rs_snap.S7.Codes.{Area, TransportSize}
use rs_snap.Str.{Text, codes, contains, strip_prefix}
use rs_snap.Str.Numbers.{
  IsNumber, spelled, contains-digits, strip_prefix-digit, starts_with_digit_lem,
  starts_with_digit-number,
}
use rs_snap.Tag.{address, max_u32, parse_marker_tag, parse_tag}
use rs_snap.Tag.Spelling.{Width, width_letter, width_size}
use rs_snap.Tag.Spelling.Parts.{
  parse_upper-timer, parse_upper-counter, parse_upper-marker, parse_tag_upper, index_tag-number,
  parse_marker_tag-sized, parse_marker_tag-x, parse_marker_tag-bit,
}
use rs_snap.Tag.Spelling.Upper.{IsUpper, IsUpper-around, number_upper, front, no_comma}

pub parse_tag-timer :
    (d : Text)
    → IsNumber max_u32 d
    → parse_tag (b'T' ∷ d) ≡ done (address Area.timer 0 (spelled 0 d) 0 TransportSize.timer)
unfolding IsUpper
parse_tag-timer d h =
    parse_tag_upper (b'T' ∷ d) (front b'T' d refl (number_upper max_u32 d h))
    ∙ parse_upper-timer d _ (strip_prefix-digit b'M' [] d refl (starts_with_digit_lem max_u32 d h))
        (no_comma max_u32 d h)
    ∙ index_tag-number Area.timer TransportSize.timer d h

pub parse_tag-counter :
    (d : Text)
    → IsNumber max_u32 d
    → parse_tag (b'C' ∷ d) ≡ done (address Area.counter 0 (spelled 0 d) 0 TransportSize.counter)
unfolding IsUpper
parse_tag-counter d h =
    parse_tag_upper (b'C' ∷ d) (front b'C' d refl (number_upper max_u32 d h))
    ∙ parse_upper-counter d _
        (strip_prefix-digit b'T' [] d refl (starts_with_digit_lem max_u32 d h))
        (no_comma max_u32 d h)
    ∙ index_tag-number Area.counter TransportSize.counter d h

-- Behind the letter of a marker.
parse_tag-marker :
    (s : Text)
    → IsUpper s
    → strip_prefix (codes "K") s ≡ none
    → contains b',' s ≡ false
    → parse_tag (b'M' ∷ s) ≡ parse_marker_tag s
unfolding IsUpper
parse_tag-marker s u h k =
    parse_tag_upper (b'M' ∷ s) (front b'M' s refl u) ∙ parse_upper-marker s _ h k

module _ (d e : Text) (h : IsNumber max_u32 d) (k : IsNumber 7 e) where
  around_dot : Text
  around_dot = d ++ (b'.' ∷ e)

  around_dot-upper : IsUpper around_dot
  unfolding around_dot
  around_dot-upper = IsUpper-around b'.' d e refl (number_upper max_u32 d h) (number_upper 7 e k)

  around_dot-no_comma : contains b',' around_dot ≡ false
  unfolding around_dot contains IsNumber
  around_dot-no_comma = contains-digits b',' d (b'.' ∷ e) refl h.1 ∙ no_comma 7 e k

  pub parse_tag-bit :
      parse_tag (b'M' ∷ (d ++ (b'.' ∷ e)))
      ≡ done (address Area.marker 0 (spelled 0 d) (spelled 0 e) TransportSize.bit)
  unfolding around_dot
  parse_tag-bit =
      parse_tag-marker around_dot around_dot-upper
        (strip_prefix-digit b'K' [] around_dot refl
          (starts_with_digit-number max_u32 d (b'.' ∷ e) h))
        around_dot-no_comma
      ∙ parse_marker_tag-bit d e h k

  pub parse_tag-x :
      parse_tag (b'M' ∷ b'X' ∷ (d ++ (b'.' ∷ e)))
      ≡ done (address Area.marker 0 (spelled 0 d) (spelled 0 e) TransportSize.bit)
  unfolding around_dot contains
  parse_tag-x =
      parse_tag-marker (b'X' ∷ around_dot) (front b'X' around_dot refl around_dot-upper) refl
        around_dot-no_comma
      ∙ parse_marker_tag-x d e h k

pub parse_tag-sized :
    (w : Width) (d : Text)
    → IsNumber max_u32 d
    → parse_tag (b'M' ∷ width_letter w ∷ d)
      ≡ done (address Area.marker 0 (spelled 0 d) 0 (width_size w))
unfolding width_letter contains
parse_tag-sized Width.byte d h =
    parse_tag-marker _ (front b'B' d refl (number_upper max_u32 d h)) refl (no_comma max_u32 d h)
    ∙ parse_marker_tag-sized Width.byte d h
parse_tag-sized Width.word d h =
    parse_tag-marker _ (front b'W' d refl (number_upper max_u32 d h)) refl (no_comma max_u32 d h)
    ∙ parse_marker_tag-sized Width.word d h
parse_tag-sized Width.dword d h =
    parse_tag-marker _ (front b'D' d refl (number_upper max_u32 d h)) refl (no_comma max_u32 d h)
    ∙ parse_marker_tag-sized Width.dword d h
