-- ===== src/Tag/Spelling/DataBlocks.antt =====
-- `parse_tag` of crates/snap7-client/src/tag.rs on the items of a data block.
use rs_snap.Prelude.{ℕ, ◌≡◌, ◌≢◌, refl, ap, ◌∙◌, arith, [], ◌∷◌, ◌++◌, All, true, false}
use mathlib.Core.List.{cons-ne-nil}
use rs_snap.Io.{done}
use rs_snap.S7.Codes.{Area, TransportSize}
use rs_snap.Str.{Text, is_alphabetic, to_upper, to_uppercase, contains, split_once}
use rs_snap.Str.Numbers.{
  IsDigit, IsNumber, spelled, parse-spelled, to_uppercase-digits, contains-digits,
  starts_with_digit-number, split-digits_dot, split_once-digits,
}
use rs_snap.Tag
use rs_snap.Tag.{
  TagAddress, address, max_u8, max_u16, max_u32, index_tag, bit_tag, marker_bit, typed_item,
  digit_item, parse_marker_tag, parse_typed_offset, replace_dot, normalized, parse_parts,
  parse_upper, parse_tag,
}
use rs_snap.Tag.Spelling.{Kind, kind_name, kind_size}
use rs_snap.Tag.Spelling.Parts.{parse_tag_upper, bit_tag-number, parse_typed_offset-kind}
use rs_snap.Tag.Spelling.Upper.{
  IsUpper, IsUpper-append, IsUpper-around, number_upper, front, no_comma,
}

-- The text of a data block's item, around the separator `c`.
abbrev around : ℕ → Text → Text → Text
around c n r = b'D' ∷ b'B' ∷ (n ++ (c ∷ r))

replace_dot-digits :
    (n : Text) (c : ℕ) (r : Text)
    → n ≢ []
    → All IsDigit n
    → is_alphabetic c ≡ true
    → replace_dot (n ++ (b'.' ∷ c ∷ r)) ≡ n ++ (b',' ∷ c ∷ r)
unfolding replace_dot IsDigit
replace_dot-digits [] c r h _ _ = absurd (h refl)
replace_dot-digits (a ∷ []) c r h (d, _) e = rw (d, e) refl
replace_dot-digits (a ∷ b ∷ []) c r h (d, (d', k)) e =
    ground (arith, replace_dot-digits (b ∷ []) c r (cons-ne-nil b []) (d', k) e)
replace_dot-digits (a ∷ b ∷ x ∷ n) c r h (d, (d', k)) e =
    ground (arith, replace_dot-digits (b ∷ x ∷ n) c r (cons-ne-nil b (x ∷ n)) (d', k) e)

replace_dot-around :
    (n : Text) (c : ℕ) (r : Text)
    → IsNumber max_u16 n
    → is_alphabetic c ≡ true
    → replace_dot (around b'.' n (c ∷ r)) ≡ around b',' n (c ∷ r)
unfolding replace_dot IsNumber
replace_dot-around [] c r (h, _, _) e = absurd (h refl)
replace_dot-around (a ∷ []) c r (h, k, _) e =
    ap (λ s. b'D' ∷ b'B' ∷ s) (replace_dot-digits (a ∷ []) c r h k e)
replace_dot-around (a ∷ b ∷ n) c r (h, k, _) e =
    ap (λ s. b'D' ∷ b'B' ∷ s) (replace_dot-digits (a ∷ b ∷ n) c r h k e)

contains-around : (n r : Text) → contains b',' (n ++ (b',' ∷ r)) ≡ true
unfolding contains
contains-around [] r = refl
contains-around (a ∷ n) r = ground (arith, contains-around n r)

parse_parts-around :
    (n r : Text)
    → IsNumber max_u16 n
    → IsUpper r
    → parse_parts (split_once b',' (around b',' n r)) ≡ Tag.db_item (spelled 0 n) r
unfolding split_once parse_parts to_uppercase IsNumber IsUpper
parse_parts-around n r h u =
    rw (split_once-digits n r h.1, u, to_uppercase-digits n h.1, parse-spelled max_u16 n h) refl

-- The part behind the prefix is in upper case, so the whole tag is.
around-upper :
    (c : ℕ) (n r : Text) → to_upper c ≡ c → IsNumber max_u16 n → IsUpper r → IsUpper (around c n r)
around-upper c n r e h u =
    front b'D' _ refl (front b'B' _ refl (IsUpper-around c n r e (number_upper max_u16 n h) u))

parse_tag-around :
    (c : ℕ) (n r : Text)
    → to_upper c ≡ c
    → IsNumber max_u16 n
    → IsUpper r
    → normalized (around c n r) ≡ around b',' n r
    → parse_tag (around c n r) ≡ Tag.db_item (spelled 0 n) r
unfolding IsUpper parse_upper
parse_tag-around c n r e h u k =
    parse_tag_upper (around c n r) (around-upper c n r e h u)
    ∙ ap (λ t. parse_parts (split_once b',' t)) k
    ∙ parse_parts-around n r h u

parse_tag-comma :
    (n r : Text)
    → IsNumber max_u16 n
    → IsUpper r
    → parse_tag (around b',' n r) ≡ Tag.db_item (spelled 0 n) r
unfolding normalized contains
parse_tag-comma n r h u = parse_tag-around b',' n r refl h u (rw (contains-around n r) refl)

parse_tag-dot :
    (n : Text) (c : ℕ) (r : Text)
    → IsNumber max_u16 n
    → is_alphabetic c ≡ true
    → IsUpper (c ∷ r)
    → contains b',' (c ∷ r) ≡ false
    → parse_tag (around b'.' n (c ∷ r)) ≡ Tag.db_item (spelled 0 n) (c ∷ r)
unfolding normalized contains IsNumber
parse_tag-dot n c r h e u k =
    parse_tag-around b'.' n (c ∷ r) refl h u
      (rw (contains-digits b',' n (b'.' ∷ c ∷ r) refl h.1, k) (replace_dot-around n c r h e))

pub parse_tag-db_bit :
    (n d e : Text)
    → IsNumber max_u16 n
    → IsNumber max_u32 d
    → IsNumber 7 e
    → parse_tag (around b',' n (d ++ (b'.' ∷ e)))
      ≡ done (address Area.data_block (spelled 0 n) (spelled 0 d) (spelled 0 e) TransportSize.bit)
unfolding IsNumber
parse_tag-db_bit n d e h k l =
    parse_tag-comma n (d ++ (b'.' ∷ e)) h
      (IsUpper-around b'.' d e refl (number_upper max_u32 d k) (number_upper 7 e l))
    ∙ rw (starts_with_digit-number max_u32 d (b'.' ∷ e) k, split-digits_dot d e k.1 l.1)
        (bit_tag-number Area.data_block (spelled 0 n) d e k l)

-- A type name starts with no digit.
item_of_kind :
    (k : Kind) (n : ℕ) (d : Text)
    → Tag.db_item n (kind_name k ++ d) ≡ typed_item n (kind_name k ++ d)
unfolding kind_name
item_of_kind Kind.real n d = refl
item_of_kind _ n d = refl

kind_item :
    (k : Kind) (n : ℕ) (d : Text)
    → IsNumber max_u32 d
    → Tag.db_item n (kind_name k ++ d)
      ≡ done (address Area.data_block n (spelled 0 d) 0 (kind_size k))
kind_item k n d h = item_of_kind k n d ∙ rw (parse_typed_offset-kind k d h) refl

kind_upper : (k : Kind) → IsUpper (kind_name k)
unfolding kind_name IsUpper to_uppercase
kind_upper Kind.real = refl
kind_upper _ = refl

pub parse_tag-db_comma :
    (n : Text) (k : Kind) (d : Text)
    → IsNumber max_u16 n
    → IsNumber max_u32 d
    → parse_tag (around b',' n (kind_name k ++ d))
      ≡ done (address Area.data_block (spelled 0 n) (spelled 0 d) 0 (kind_size k))
parse_tag-db_comma n k d h l =
    parse_tag-comma n (kind_name k ++ d) h
      (IsUpper-append (kind_name k) d (kind_upper k) (number_upper max_u32 d l))
    ∙ kind_item k (spelled 0 n) d l

dot_of_kind :
    (n : Text) (k : Kind) (d : Text)
    → IsNumber max_u16 n
    → contains b',' d ≡ false
    → IsUpper (kind_name k ++ d)
    → parse_tag (around b'.' n (kind_name k ++ d)) ≡ Tag.db_item (spelled 0 n) (kind_name k ++ d)
unfolding kind_name contains
dot_of_kind n Kind.real d h e u = parse_tag-dot n _ _ h refl u e
dot_of_kind n Kind.dword d h e u = parse_tag-dot n _ _ h refl u e
dot_of_kind n Kind.dint d h e u = parse_tag-dot n _ _ h refl u e
dot_of_kind n Kind.word d h e u = parse_tag-dot n _ _ h refl u e
dot_of_kind n Kind.int d h e u = parse_tag-dot n _ _ h refl u e
dot_of_kind n Kind.byte d h e u = parse_tag-dot n _ _ h refl u e

pub parse_tag-db_dot :
    (n : Text) (k : Kind) (d : Text)
    → IsNumber max_u16 n
    → IsNumber max_u32 d
    → parse_tag (around b'.' n (kind_name k ++ d))
      ≡ done (address Area.data_block (spelled 0 n) (spelled 0 d) 0 (kind_size k))
parse_tag-db_dot n k d h l =
    dot_of_kind n k d h (no_comma max_u32 d l)
      (IsUpper-append (kind_name k) d (kind_upper k) (number_upper max_u32 d l))
    ∙ kind_item k (spelled 0 n) d l
