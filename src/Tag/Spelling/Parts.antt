-- ===== src/Tag/Spelling/Parts.antt =====
-- The parts of the parser of crates/snap7-client/src/tag.rs on the parts of a written tag.
use rs_snap.Prelude.{ℕ, ◌≤◌, ◌≡◌, refl, arith, [], ◌∷◌, ◌++◌, none, false}
use rs_snap.Io.{Outcome, done}
use rs_snap.S7.Codes.{Area, TransportSize}
use rs_snap.Str.{Text, codes, to_uppercase, contains, split, split_once, strip_prefix}
use rs_snap.Str.Numbers.{
  IsNumber, spelled, parse-spelled, strip_prefix-digit, starts_with_digit-number, split-digits_dot,
}
use rs_snap.Tag.{
  TagAddress, address, max_u8, max_u32, index_tag, bit_tag, marker_bit, parse_marker_tag,
  parse_typed_offset, normalized, parse_parts, parse_upper, parse_tag,
}
use rs_snap.Tag.Spelling.{Kind, kind_name, kind_size, Width, width_letter, width_size}

-- `parse_upper` on each first letter.
pub parse_upper-timer :
    (s : Text) (rest : Outcome TagAddress)
    → strip_prefix (codes "M") s ≡ none
    → contains b',' s ≡ false
    → parse_upper (b'T' ∷ s) rest ≡ index_tag Area.timer TransportSize.timer s
unfolding parse_upper contains
parse_upper-timer s rest h k = rw (h, k) refl

pub parse_upper-counter :
    (s : Text) (rest : Outcome TagAddress)
    → strip_prefix (codes "T") s ≡ none
    → contains b',' s ≡ false
    → parse_upper (b'C' ∷ s) rest ≡ index_tag Area.counter TransportSize.counter s
unfolding parse_upper contains
parse_upper-counter s rest h k = rw (h, k) refl

pub parse_upper-marker :
    (s : Text) (rest : Outcome TagAddress)
    → strip_prefix (codes "K") s ≡ none
    → contains b',' s ≡ false
    → parse_upper (b'M' ∷ s) rest ≡ parse_marker_tag s
unfolding parse_upper contains
parse_upper-marker s rest h k = rw (h, k) refl

-- A text that is in upper case.
pub parse_tag_upper :
    (s : Text)
    → to_uppercase s ≡ s
    → parse_tag s ≡ parse_upper s (parse_parts (split_once b',' (normalized s)))
unfolding parse_tag
parse_tag_upper s h = rw h refl

pub index_tag-number :
    (area : Area) (transport : TransportSize) (d : Text)
    → IsNumber max_u32 d
    → index_tag area transport d ≡ done (address area 0 (spelled 0 d) 0 transport)
index_tag-number area transport d h = rw (parse-spelled max_u32 d h) refl

widen : (m n : ℕ) (s : Text) → m ≤ n → IsNumber m s → IsNumber n s
unfolding IsNumber
widen m n s le (a, b, c) = (a, b, omega arith)

pub bit_tag-number :
    (area : Area) (db : ℕ) (d e : Text)
    → IsNumber max_u32 d
    → IsNumber 7 e
    → bit_tag area db d e ≡ done (address area db (spelled 0 d) (spelled 0 e) TransportSize.bit)
unfolding IsNumber
bit_tag-number area db d e h k =
    rw (parse-spelled max_u32 d h, parse-spelled max_u8 e (widen 7 max_u8 e (omega arith) k))
      (ground arith)

pub parse_marker_tag-sized :
    (w : Width) (d : Text)
    → IsNumber max_u32 d
    → parse_marker_tag (width_letter w ∷ d)
      ≡ done (address Area.marker 0 (spelled 0 d) 0 (width_size w))
unfolding parse_marker_tag width_letter width_size
parse_marker_tag-sized Width.byte d h = rw (parse-spelled max_u32 d h) refl
parse_marker_tag-sized Width.word d h = rw (parse-spelled max_u32 d h) refl
parse_marker_tag-sized Width.dword d h = rw (parse-spelled max_u32 d h) refl

marker_bit-number :
    (d e : Text)
    → IsNumber max_u32 d
    → IsNumber 7 e
    → marker_bit (split b'.' (d ++ (b'.' ∷ e)))
      ≡ done (address Area.marker 0 (spelled 0 d) (spelled 0 e) TransportSize.bit)
unfolding IsNumber
marker_bit-number d e h k = rw (split-digits_dot d e h.1 k.1) (bit_tag-number Area.marker 0 d e h k)

pub parse_marker_tag-x :
    (d e : Text)
    → IsNumber max_u32 d
    → IsNumber 7 e
    → parse_marker_tag (b'X' ∷ (d ++ (b'.' ∷ e)))
      ≡ done (address Area.marker 0 (spelled 0 d) (spelled 0 e) TransportSize.bit)
unfolding parse_marker_tag
parse_marker_tag-x d e h k = marker_bit-number d e h k

pub parse_marker_tag-bit :
    (d e : Text)
    → IsNumber max_u32 d
    → IsNumber 7 e
    → parse_marker_tag (d ++ (b'.' ∷ e))
      ≡ done (address Area.marker 0 (spelled 0 d) (spelled 0 e) TransportSize.bit)
unfolding parse_marker_tag
parse_marker_tag-bit d e h k =
    rw
      (
        strip_prefix-digit b'X' [] (d ++ (b'.' ∷ e)) refl
            (starts_with_digit-number max_u32 d (b'.' ∷ e) h),
        starts_with_digit-number max_u32 d (b'.' ∷ e) h,
      )
      (marker_bit-number d e h k)

pub parse_typed_offset-kind :
    (k : Kind) (d : Text)
    → IsNumber max_u32 d
    → parse_typed_offset (kind_name k ++ d) ≡ done (kind_size k, spelled 0 d)
unfolding parse_typed_offset kind_name kind_size
parse_typed_offset-kind Kind.real d h = rw (parse-spelled max_u32 d h) refl
parse_typed_offset-kind Kind.dword d h = rw (parse-spelled max_u32 d h) refl
parse_typed_offset-kind Kind.dint d h = rw (parse-spelled max_u32 d h) refl
parse_typed_offset-kind Kind.word d h = rw (parse-spelled max_u32 d h) refl
parse_typed_offset-kind Kind.int d h = rw (parse-spelled max_u32 d h) refl
parse_typed_offset-kind Kind.byte d h = rw (parse-spelled max_u32 d h) refl
