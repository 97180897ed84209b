-- ===== src/Tag/Spelling/Parsed.antt =====
-- `parse_tag` of crates/snap7-client/src/tag.rs on every written form.
use rs_snap.Prelude.{◌≡◌, ◌∙◌, true, false}
use rs_snap.Io.{done}
use rs_snap.Str.{Text, to_uppercase}
use rs_snap.Tag.{parse_tag}
use rs_snap.Tag.LetterCase.{parse_tag-same_letters}
use rs_snap.Tag.Spelling.{
  Spelling, timer, counter, bit_marker, marker, db_bit, db_item, text, meaning, IsSpelling,
}
use rs_snap.Tag.Spelling.Markers.{
  parse_tag-timer, parse_tag-counter, parse_tag-bit, parse_tag-x, parse_tag-sized,
}
use rs_snap.Tag.Spelling.DataBlocks.{parse_tag-db_bit, parse_tag-db_comma, parse_tag-db_dot}

parse_tag-text : (s : Spelling) → IsSpelling s → parse_tag (text s) ≡ done (meaning s)
unfolding text meaning IsSpelling
parse_tag-text (timer d) h = parse_tag-timer d h
parse_tag-text (counter d) h = parse_tag-counter d h
parse_tag-text (bit_marker true d e) (h, k) = parse_tag-x d e h k
parse_tag-text (bit_marker false d e) (h, k) = parse_tag-bit d e h k
parse_tag-text (marker w d) h = parse_tag-sized w d h
parse_tag-text (db_bit n d e) (h, k, l) = parse_tag-db_bit n d e h k l
parse_tag-text (db_item n true k d) (h, l) = parse_tag-db_comma n k d h l
parse_tag-text (db_item n false k d) (h, l) = parse_tag-db_dot n k d h l

-- A tag in one of the written forms, with its numbers in range and its letters in either case, is
-- read as the address that the form stands for: a timer, a counter, a marker's bit, byte, word or
-- double word, a data block's bit, and an item of a data block of each type, behind a comma or a dot.
pub parse_tag-Spelling :
    (s : Spelling) (tag : Text)
    → IsSpelling s
    → to_uppercase tag ≡ to_uppercase (text s)
    → parse_tag tag ≡ done (meaning s)
parse_tag-Spelling s tag h k = parse_tag-same_letters tag (text s) k ∙ parse_tag-text s h
