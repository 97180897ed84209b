-- ===== src/Tag.antt =====
-- crates/snap7-client/src/tag.rs: the addresses of items as text, such as `DB1,REAL4`, `MB10`
-- and `T5`. An error is its code; the texts of the messages are left out.
pub mod Bounds
pub mod LetterCase
pub mod Spelling
use rs_snap.Prelude.{
  ℕ, List, [], ◌∷◌, Option, none, some, Bool, ◌&&◌, not, ltb, ◌==◌, if◌then◌else◌,
}
use rs_snap.Io.{Error, plc_error, Outcome, done, failed}
use rs_snap.S7.Codes.{Area, TransportSize}
use rs_snap.Str.{
  Text, codes, is_digit, is_alphabetic, to_uppercase, contains, starts_with_digit, strip_prefix,
  starts_with, split, split_once, parse,
}

pub record TagAddress : Type 0 where
  pub area : Area
  pub db_number : ℕ
  pub byte_offset : ℕ
  pub bit_offset : ℕ
  pub transport : TransportSize
  pub element_count : ℕ

abbrev pub address : Area → ℕ → ℕ → ℕ → TransportSize → TagAddress
address area db_number byte_offset bit_offset transport = record {
  area = area;
  db_number = db_number;
  byte_offset = byte_offset;
  bit_offset = bit_offset;
  transport = transport;
  element_count = 1;
}

abbrev pub max_u8 : ℕ
max_u8 = 255

abbrev pub max_u16 : ℕ
max_u16 = 65535

abbrev pub max_u32 : ℕ
max_u32 = 4294967295

-- `Err(Error::PlcError { code: 0, .. })`
abbrev pub invalid : {A : Type 0} → Outcome A
invalid = failed (plc_error 0)

abbrev pub or_invalid : {A B : Type 0} → Option A → (A → Outcome B) → Outcome B
or_invalid none f = invalid
or_invalid (some a) f = f a

abbrev pub or_else : {A B : Type 0} → Option A → (A → B) → B → B
or_else none f b = b
or_else (some a) f b = f a

abbrev pub or_zero : Option ℕ → ℕ
or_zero none = 0
or_zero (some n) = n

-- The two branches of a timer or a counter.
abbrev pub index_tag : Area → TransportSize → Text → Outcome TagAddress
index_tag area transport digits =
    or_invalid (parse max_u32 digits) λ index. done (address area 0 index 0 transport)

-- A byte and a bit of it, as both a marker and a data block write them.
abbrev pub bit_tag : Area → ℕ → Text → Text → Outcome TagAddress
bit_tag area db_number byte bit = or_invalid (parse max_u32 byte) λ byte_offset.
    or_invalid (parse max_u8 bit) λ bit_offset.
      if ltb 7 bit_offset
      then invalid
      else done (address area db_number byte_offset bit_offset TransportSize.bit)

abbrev pub marker_bit : List Text → Outcome TagAddress
marker_bit (byte ∷ bit ∷ []) = bit_tag Area.marker 0 byte bit
marker_bit _ = invalid

abbrev pub marker_sized : TransportSize → Text → Outcome TagAddress
marker_sized transport digits =
    or_invalid (parse max_u32 digits)
      λ byte_offset. done (address Area.marker 0 byte_offset 0 transport)

-- `parse_marker_tag`, behind the letter `M`
unfoldable pub parse_marker_tag : Text → Outcome TagAddress
parse_marker_tag rest =
    or_else (strip_prefix (codes "X") rest) (λ r. marker_bit (split b'.' r))
      (if starts_with_digit rest
        then marker_bit (split b'.' rest)
        else or_else (strip_prefix (codes "B") rest) (marker_sized TransportSize.byte) (
            or_else (strip_prefix (codes "W") rest) (marker_sized TransportSize.word)
              (or_else (strip_prefix (codes "D") rest) (marker_sized TransportSize.dword) invalid)))

-- A type name in front of an offset; an offset that is no number is read as 0.
abbrev named : TransportSize → Text → Outcome (TransportSize × ℕ)
named transport rest = done (transport, or_zero (parse max_u32 rest))

unfoldable pub parse_typed_offset : Text → Outcome (TransportSize × ℕ)
parse_typed_offset type_part =
    or_else (strip_prefix (codes "REAL") type_part) (named TransportSize.real) (
      or_else (strip_prefix (codes "DWORD") type_part) (named TransportSize.dword) (
        or_else (strip_prefix (codes "DINT") type_part) (named TransportSize.dint) (
          or_else (strip_prefix (codes "WORD") type_part) (named TransportSize.word) (
            or_else (strip_prefix (codes "INT") type_part) (named TransportSize.int) (
              or_else (strip_prefix (codes "BYTE") type_part) (named TransportSize.byte)
                invalid)))))

abbrev pub typed_address : ℕ → Outcome (TransportSize × ℕ) → Outcome TagAddress
typed_address db_number (done (transport, byte_offset)) =
    done (address Area.data_block db_number byte_offset 0 transport)
typed_address db_number (failed e) = failed e
typed_address db_number Outcome.crash = Outcome.crash

abbrev pub typed_item : ℕ → Text → Outcome TagAddress
typed_item db_number type_part = typed_address db_number (parse_typed_offset type_part)

-- Two parts around a dot are a bit; any other text falls through to the type names.
abbrev pub digit_item : ℕ → Text → List Text → Outcome TagAddress
digit_item db_number type_part (byte ∷ bit ∷ []) = bit_tag Area.data_block db_number byte bit
digit_item db_number type_part _ = typed_item db_number type_part

abbrev pub db_item : ℕ → Text → Outcome TagAddress
db_item db_number type_part =
    if starts_with_digit type_part
    then digit_item db_number type_part (split b'.' type_part)
    else typed_item db_number type_part

abbrev pub db_tag : Text → Text → Outcome TagAddress
db_tag area_part type_part =
    or_invalid (strip_prefix (codes "DB") area_part)
      λ rest. or_invalid (parse max_u16 rest) λ db_number. db_item db_number type_part

-- The first dot between a digit and a letter becomes a comma.
unfoldable pub replace_dot : Text → Text
replace_dot (a ∷ b ∷ c ∷ s) =
    let rest = replace_dot (b ∷ c ∷ s) in
    if is_digit a && (b == b'.') && is_alphabetic c then a ∷ b',' ∷ c ∷ s else a ∷ rest
replace_dot s = s

unfoldable pub normalized : Text → Text
normalized tag = if contains b',' tag then tag else replace_dot tag

unfoldable pub parse_parts : Option (Text × Text) → Outcome TagAddress
parse_parts none = invalid
parse_parts (some (area_part, type_part)) = db_tag (to_uppercase area_part) (to_uppercase type_part)

-- The guard of the three tags of one part: the letter, not the other prefix, and no comma.
abbrev pub is_single : Text → Text → Text → Bool
is_single letter other upper =
    starts_with letter upper && not (starts_with other upper) && not (contains b',' upper)

abbrev pub behind : Text → Text → Text
behind letter upper = or_else (strip_prefix letter upper) (λ rest. rest) []

-- What `upper`, the text in upper case, decides, and `rest` for any other text.
unfoldable pub parse_upper : Text → Outcome TagAddress → Outcome TagAddress
parse_upper upper rest =
    if is_single (codes "T") (codes "TM") upper
    then index_tag Area.timer TransportSize.timer (behind (codes "T") upper)
    else if is_single (codes "C") (codes "CT") upper
    then index_tag Area.counter TransportSize.counter (behind (codes "C") upper)
    else if is_single (codes "M") (codes "MK") upper
    then parse_marker_tag (behind (codes "M") upper)
    else rest

unfoldable pub parse_tag : Text → Outcome TagAddress
parse_tag tag = parse_upper (to_uppercase tag) (parse_parts (split_once b',' (normalized tag)))
