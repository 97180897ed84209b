-- ===== src/Tag/Bounds.antt =====
-- What `parse_tag` answers, for every text.
use rs_snap.Prelude.{
  ℕ, ◌+◌, ◌-◌, ◌*◌, ◌≤◌, ◌≡◌, ◌⊎◌, inl, inr, refl, arith, List, [], ◌∷◌, Option, none, some,
  Option-cases, Bool-cases, either, ltb,
}
use rs_snap.Io.{plc_error, Outcome, done, failed}
use rs_snap.S7.Codes.{Area, TransportSize}
use rs_snap.Str.{
  Text, codes, to_uppercase, split, split_once, strip_prefix, starts_with_digit, scan, parse,
}
use rs_snap.Tag.{
  TagAddress, address, max_u8, max_u16, max_u32, or_invalid, or_else, or_zero, index_tag, bit_tag,
  parse_marker_tag, parse_typed_offset, typed_item, typed_address, marker_bit, marker_sized,
  digit_item, db_item, db_tag, normalized, parse_parts, parse_upper, is_single, behind, parse_tag,
}

-- A bit or a whole item; a number of a data block or of none.
pub IsAddress : TagAddress → Type 0
IsAddress a =
    (a.db_number ≤ 65535)
    × (a.byte_offset ≤ 4294967295)
    × (a.bit_offset ≤ 7)
    × (a.element_count ≡ 1)
    × ((a.bit_offset ≡ 0) ⊎ (a.transport ≡ TransportSize.bit))
    × ((a.db_number ≡ 0) ⊎ (a.area ≡ Area.data_block))

-- The outcome is what `P` says of a value, or the error of code 0, and never a panic.
pub Answers : {A : Type 0} → (A → Type 0) → Outcome A → Type 0
Answers P (done a) = P a
Answers P (failed e) = e ≡ plc_error 0
Answers P Outcome.crash = ⊥

or_invalid-Answers :
    {A B : Type 0} (P : B → Type 0) (o : Option A) (f : A → Outcome B)
    → ((a : A) → o ≡ some a → Answers P (f a))
    → Answers P (or_invalid o f)
unfolding Answers
or_invalid-Answers P none f h = refl
or_invalid-Answers P (some a) f h = h a refl

or_else-Answers :
    {A B : Type 0} (P : B → Type 0) (o : Option A) (f : A → Outcome B) (b : Outcome B)
    → ((a : A) → Answers P (f a))
    → Answers P b
    → Answers P (or_else o f b)
or_else-Answers P none f b h k = k
or_else-Answers P (some a) f b h k = h a

le-scan : (max n : ℕ) (s : Text) {r : ℕ} → n ≤ max → scan max n s ≡ some r → r ≤ max
unfolding scan
le-scan max n [] {r} fits h = ground arith
le-scan max n (c ∷ s) {r} fits h = ground (arith, le-scan max (n * 10 + (c - b'0')) s {r = r})

pub le-parse : (max : ℕ) (s : Text) {r : ℕ} → parse max s ≡ some r → r ≤ max
unfolding parse
le-parse max [] {r} h = ground arith
le-parse max (c ∷ []) {r} h = ground (arith, le-scan max 0 (c ∷ []) {r = r})
le-parse max (c ∷ d ∷ s) {r} h =
    ground (arith, le-scan max 0 (c ∷ d ∷ s) {r = r}, le-scan max 0 (d ∷ s) {r = r})

index_tag-Answers :
    (area : Area) (transport : TransportSize) (digits : Text)
    → Answers IsAddress (index_tag area transport digits)
unfolding Answers IsAddress
index_tag-Answers area transport digits =
    or_invalid-Answers IsAddress (parse max_u32 digits)
      (λ index. done (address area 0 index 0 transport))
      λ index e. (omega arith, le-parse max_u32 digits e, omega arith, refl, inl refl, inl refl)

bit_tag-Answers :
    (area : Area) (db : ℕ) (byte bit : Text)
    → db ≤ 65535
    → (db ≡ 0) ⊎ (area ≡ Area.data_block)
    → Answers IsAddress (bit_tag area db byte bit)
unfolding Answers IsAddress
bit_tag-Answers area db byte bit fits k =
    or_invalid-Answers IsAddress (parse max_u32 byte) _ λ byte_offset e.
      or_invalid-Answers IsAddress (parse max_u8 bit) _ λ bit_offset e'.
        elim (Bool-cases (ltb 7 bit_offset)) [
          | inl h ↦ rw h refl
          | inr h ↦ rw h (fits, le-parse max_u32 byte e, ground arith, refl, inr refl, k)
        ]

HasOffset : TransportSize × ℕ → Type 0
HasOffset r = r.1 ≤ max_u32

le-or_zero : (rest : Text) → or_zero (parse max_u32 rest) ≤ max_u32
le-or_zero rest = elim (Option-cases (parse max_u32 rest)) [
  | inl e ↦ rw e (omega arith)
  | inr (n, e) ↦ rw e (le-parse max_u32 rest e)
]

named-Answers :
    (o : Option Text) (transport : TransportSize) (b : Outcome (TransportSize × ℕ))
    → Answers HasOffset b
    → Answers HasOffset (or_else o (λ rest. done (transport, or_zero (parse max_u32 rest))) b)
unfolding Answers HasOffset
named-Answers o transport b h = or_else-Answers _ o _ b (λ rest. le-or_zero rest) h

parse_typed_offset-Answers : (type_part : Text) → Answers HasOffset (parse_typed_offset type_part)
unfolding Answers parse_typed_offset
parse_typed_offset-Answers s = named-Answers (strip_prefix (codes "REAL") s) _ _ (
    named-Answers (strip_prefix (codes "DWORD") s) _ _ (
      named-Answers (strip_prefix (codes "DINT") s) _ _ (
        named-Answers (strip_prefix (codes "WORD") s) _ _ (
          named-Answers (strip_prefix (codes "INT") s) _ _
            (named-Answers (strip_prefix (codes "BYTE") s) _ _ refl)))))

typed_address-Answers :
    (db : ℕ) (o : Outcome (TransportSize × ℕ))
    → db ≤ 65535
    → Answers HasOffset o
    → Answers IsAddress (typed_address db o)
unfolding Answers HasOffset IsAddress
typed_address-Answers db (done (t, n)) fits h = (fits, h, omega arith, refl, inl refl, inr refl)
typed_address-Answers db (failed e) fits h = h
typed_address-Answers db Outcome.crash fits h = elim h [ ]

typed_item-Answers :
    (db : ℕ) (type_part : Text) → db ≤ 65535 → Answers IsAddress (typed_item db type_part)
typed_item-Answers db type_part fits =
    typed_address-Answers db (parse_typed_offset type_part) fits
      (parse_typed_offset-Answers type_part)

digit_item-Answers :
    (db : ℕ) (type_part : Text) (parts : List Text)
    → db ≤ 65535
    → Answers IsAddress (digit_item db type_part parts)
digit_item-Answers db s (byte ∷ bit ∷ []) fits =
    bit_tag-Answers Area.data_block db byte bit fits (inr refl)
digit_item-Answers db s [] fits = typed_item-Answers db s fits
digit_item-Answers db s (_ ∷ []) fits = typed_item-Answers db s fits
digit_item-Answers db s (_ ∷ _ ∷ _ ∷ _) fits = typed_item-Answers db s fits

db_item-Answers :
    (db : ℕ) (type_part : Text) → db ≤ 65535 → Answers IsAddress (db_item db type_part)
db_item-Answers db s fits =
    either (Answers IsAddress) (starts_with_digit s) (digit_item-Answers db s (split b'.' s) fits)
      (typed_item-Answers db s fits)

db_tag-Answers : (area_part type_part : Text) → Answers IsAddress (db_tag area_part type_part)
db_tag-Answers area_part type_part =
    or_invalid-Answers IsAddress (strip_prefix (codes "DB") area_part) _ λ rest _.
      or_invalid-Answers IsAddress (parse max_u16 rest) _
        λ db e. db_item-Answers db type_part (le-parse max_u16 rest e)

parse_parts-Answers : (parts : Option (Text × Text)) → Answers IsAddress (parse_parts parts)
unfolding Answers parse_parts
parse_parts-Answers none = refl
parse_parts-Answers (some (a, b)) = db_tag-Answers (to_uppercase a) (to_uppercase b)

marker_bit-Answers : (parts : List Text) → Answers IsAddress (marker_bit parts)
unfolding Answers
marker_bit-Answers (byte ∷ bit ∷ []) =
    bit_tag-Answers Area.marker 0 byte bit (omega arith) (inl refl)
marker_bit-Answers [] = refl
marker_bit-Answers (_ ∷ []) = refl
marker_bit-Answers (_ ∷ _ ∷ _ ∷ _) = refl

marker_sized-Answers :
    (transport : TransportSize) (digits : Text) → Answers IsAddress (marker_sized transport digits)
unfolding Answers IsAddress
marker_sized-Answers transport digits =
    or_invalid-Answers IsAddress (parse max_u32 digits)
      (λ n. done (address Area.marker 0 n 0 transport))
      λ n e. (omega arith, le-parse max_u32 digits e, omega arith, refl, inl refl, inl refl)

sized_else :
    (o : Option Text) (transport : TransportSize) (b : Outcome TagAddress)
    → Answers IsAddress b
    → Answers IsAddress (or_else o (marker_sized transport) b)
sized_else o transport b h =
    or_else-Answers IsAddress o (marker_sized transport) b (marker_sized-Answers transport) h

marker-Answers : (rest : Text) → Answers IsAddress (parse_marker_tag rest)
unfolding Answers parse_marker_tag
marker-Answers rest =
    or_else-Answers IsAddress (strip_prefix (codes "X") rest) _ _
      (λ r. marker_bit-Answers (split b'.' r))
      (either (Answers IsAddress) (starts_with_digit rest) (marker_bit-Answers (split b'.' rest)) (
        sized_else (strip_prefix (codes "B") rest) _ _ (
          sized_else (strip_prefix (codes "W") rest) _ _
            (sized_else (strip_prefix (codes "D") rest) _ _ refl))))

-- For every text, `parse_tag` returns the error of code 0 or an address whose data block number fits
-- 16 bits, byte offset 32 bits and bit offset 3 bits, that counts one element, that has a bit offset
-- only if it is a bit, and a data block number only if it is in a data block.
pub parse_tag-Answers : (tag : Text) → Answers IsAddress (parse_tag tag)
unfolding parse_tag parse_upper
parse_tag-Answers tag =
    let upper = to_uppercase tag in
    either (Answers IsAddress) (is_single (codes "T") (codes "TM") upper)
      (index_tag-Answers Area.timer TransportSize.timer (behind (codes "T") upper))
      (either (Answers IsAddress) (is_single (codes "C") (codes "CT") upper)
        (index_tag-Answers Area.counter TransportSize.counter (behind (codes "C") upper))
        (either (Answers IsAddress) (is_single (codes "M") (codes "MK") upper)
          (marker-Answers (behind (codes "M") upper))
          (parse_parts-Answers (split_once b',' (normalized tag)))))
