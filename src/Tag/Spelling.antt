-- ===== src/Tag/Spelling.antt =====
-- The written forms of a tag, as the comments of crates/snap7-client/src/tag.rs and its tests give
-- them, and the address that each one stands for.
pub mod Parts
pub mod Upper
pub mod Markers
pub mod DataBlocks
pub mod Parsed
use rs_snap.Prelude.{
  ℕ, ◌≤◌, ◌≡◌, refl, sym, ap, ◌∙◌, arith, List, [], ◌∷◌, ◌++◌, none, some, All, Bool, true, false,
  if◌then◌else◌,
}
use rs_snap.Io.{Outcome, done}
use rs_snap.S7.Codes.{Area, TransportSize}
use rs_snap.Str.{
  Text, codes, is_digit, to_upper, to_uppercase, contains, starts_with_digit, split, split_once,
  strip_prefix, parse,
}
use rs_snap.Str.Numbers.{
  IsDigit, IsNumber, spelled, parse-spelled, to_uppercase-digits, to_uppercase-append,
  contains-digits, contains-number, strip_prefix-digit, starts_with_digit-number, split-digits_dot,
  split_once-digits,
}
use rs_snap.Tag.{
  TagAddress, address, max_u8, max_u16, max_u32, index_tag, bit_tag, marker_bit, typed_item,
  digit_item, db_tag, parse_marker_tag, parse_typed_offset, replace_dot, normalized, parse_parts,
  parse_upper, parse_tag,
}
use rs_snap.Tag.LetterCase.{parse_tag-same_letters}

pub data Kind : Type 0 where
  real dword dint word int byte : Kind

unfoldable pub kind_name : Kind → Text
kind_name Kind.real = codes "REAL"
kind_name Kind.dword = codes "DWORD"
kind_name Kind.dint = codes "DINT"
kind_name Kind.word = codes "WORD"
kind_name Kind.int = codes "INT"
kind_name Kind.byte = codes "BYTE"

unfoldable pub kind_size : Kind → TransportSize
kind_size Kind.real = TransportSize.real
kind_size Kind.dword = TransportSize.dword
kind_size Kind.dint = TransportSize.dint
kind_size Kind.word = TransportSize.word
kind_size Kind.int = TransportSize.int
kind_size Kind.byte = TransportSize.byte

-- The sizes of a marker.
pub data Width : Type 0 where
  byte word dword : Width

unfoldable pub width_letter : Width → ℕ
width_letter Width.byte = b'B'
width_letter Width.word = b'W'
width_letter Width.dword = b'D'

unfoldable pub width_size : Width → TransportSize
width_size Width.byte = TransportSize.byte
width_size Width.word = TransportSize.word
width_size Width.dword = TransportSize.dword

-- Each number is the text of its digits. A marker bit has an `X` or none, and the two parts of a
-- data block item stand around a comma or a dot.
pub data Spelling : Type 0 where
  timer counter : Text → Spelling
  bit_marker : Bool → Text → Text → Spelling
  marker : Width → Text → Spelling
  db_bit : Text → Text → Text → Spelling
  db_item : Text → Bool → Kind → Text → Spelling

unfoldable pub text : Spelling → Text
text (timer d) = b'T' ∷ d
text (counter d) = b'C' ∷ d
text (bit_marker true d e) = b'M' ∷ b'X' ∷ (d ++ (b'.' ∷ e))
text (bit_marker false d e) = b'M' ∷ (d ++ (b'.' ∷ e))
text (marker w d) = b'M' ∷ width_letter w ∷ d
text (db_bit n d e) = b'D' ∷ b'B' ∷ (n ++ (b',' ∷ (d ++ (b'.' ∷ e))))
text (db_item n true k d) = b'D' ∷ b'B' ∷ (n ++ (b',' ∷ (kind_name k ++ d)))
text (db_item n false k d) = b'D' ∷ b'B' ∷ (n ++ (b'.' ∷ (kind_name k ++ d)))

unfoldable pub meaning : Spelling → TagAddress
meaning (timer d) = address Area.timer 0 (spelled 0 d) 0 TransportSize.timer
meaning (counter d) = address Area.counter 0 (spelled 0 d) 0 TransportSize.counter
meaning (bit_marker x d e) = address Area.marker 0 (spelled 0 d) (spelled 0 e) TransportSize.bit
meaning (marker w d) = address Area.marker 0 (spelled 0 d) 0 (width_size w)
meaning (db_bit n d e) =
    address Area.data_block (spelled 0 n) (spelled 0 d) (spelled 0 e) TransportSize.bit
meaning (db_item n c k d) = address Area.data_block (spelled 0 n) (spelled 0 d) 0 (kind_size k)

-- The numbers are digits, and in range.
unfoldable pub IsSpelling : Spelling → Type 0
IsSpelling (timer d) = IsNumber max_u32 d
IsSpelling (counter d) = IsNumber max_u32 d
IsSpelling (bit_marker x d e) = IsNumber max_u32 d × IsNumber 7 e
IsSpelling (marker w d) = IsNumber max_u32 d
IsSpelling (db_bit n d e) = IsNumber max_u16 n × IsNumber max_u32 d × IsNumber 7 e
IsSpelling (db_item n c k d) = IsNumber max_u16 n × IsNumber max_u32 d
