-- ===== src/Tests/Tags.antt =====
-- Runs of the tag parser and of its theorems.
use rs_snap.Prelude.{◌≡◌, refl, arith, false}
use mathlib.Core.List.{cons-ne-nil}
use rs_snap.Io.{done}
use rs_snap.S7.Codes.{Area, TransportSize}
use rs_snap.Str.{codes, to_uppercase}
use rs_snap.Str.Numbers.{spelled, IsNumber}
use rs_snap.Tag.{parse_tag, address, invalid}
use rs_snap.Tag.Bounds.{IsAddress, Answers, parse_tag-Answers}
use rs_snap.Tag.LetterCase.{parse_tag-same_letters}
use rs_snap.Tag.Spelling.{Spelling, Kind, db_item, text, meaning, IsSpelling}
use rs_snap.Tag.Spelling.Parsed.{parse_tag-Spelling}

dotted_real :
    parse_tag (codes "db170.real262") ≡ done (address Area.data_block 170 262 0 TransportSize.real)
unfolding parse_tag rs_snap.Tag.parse_upper rs_snap.Str.to_uppercase rs_snap.Tag.parse_parts
    rs_snap.Str.split_once rs_snap.Tag.normalized rs_snap.Str.contains rs_snap.Tag.replace_dot
    rs_snap.Str.parse rs_snap.Str.scan rs_snap.Tag.parse_typed_offset rs_snap.Tag.parse_marker_tag
    rs_snap.Str.split
dotted_real = refl

marker_without_bit : parse_tag (codes "M10") ≡ invalid
unfolding parse_tag rs_snap.Tag.parse_upper rs_snap.Str.to_uppercase rs_snap.Tag.parse_parts
    rs_snap.Str.split_once rs_snap.Tag.normalized rs_snap.Str.contains rs_snap.Tag.replace_dot
    rs_snap.Str.parse rs_snap.Str.scan rs_snap.Tag.parse_typed_offset rs_snap.Tag.parse_marker_tag
    rs_snap.Str.split
marker_without_bit = refl

plus_timer : parse_tag (codes "t+5") ≡ done (address Area.timer 0 5 0 TransportSize.timer)
unfolding parse_tag rs_snap.Tag.parse_upper rs_snap.Str.to_uppercase rs_snap.Tag.parse_parts
    rs_snap.Str.split_once rs_snap.Tag.normalized rs_snap.Str.contains rs_snap.Tag.replace_dot
    rs_snap.Str.parse rs_snap.Str.scan rs_snap.Tag.parse_typed_offset rs_snap.Tag.parse_marker_tag
    rs_snap.Str.split
plus_timer = refl

unread_offset :
    parse_tag (codes "DB1,REALx") ≡ done (address Area.data_block 1 0 0 TransportSize.real)
unfolding parse_tag rs_snap.Tag.parse_upper rs_snap.Str.to_uppercase rs_snap.Tag.parse_parts
    rs_snap.Str.split_once rs_snap.Tag.normalized rs_snap.Str.contains rs_snap.Tag.replace_dot
    rs_snap.Str.parse rs_snap.Str.scan rs_snap.Tag.parse_typed_offset rs_snap.Tag.parse_marker_tag
    rs_snap.Str.split
unread_offset = refl

parse_tag-Answers_example : Answers IsAddress (parse_tag (codes "DB70,332.7"))
parse_tag-Answers_example = parse_tag-Answers (codes "DB70,332.7")

parse_tag-same_letters_example : parse_tag (codes "db1.Real4") ≡ parse_tag (codes "DB1.REAL4")
unfolding to_uppercase
parse_tag-same_letters_example = parse_tag-same_letters (codes "db1.Real4") (codes "DB1.REAL4") refl

abbrev real_item : Spelling
real_item = db_item (codes "170") false Kind.real (codes "262")

real_item-IsSpelling : IsSpelling real_item
unfolding IsSpelling IsNumber rs_snap.Str.Numbers.IsDigit spelled
real_item-IsSpelling = (
  (cons-ne-nil _ _, (refl, (refl, (refl, tt))), omega arith),
  (cons-ne-nil _ _, (refl, (refl, (refl, tt))), omega arith),
)

parse_tag-Spelling_example : parse_tag (codes "db170.real262") ≡ done (meaning real_item)
unfolding to_uppercase text rs_snap.Tag.Spelling.kind_name
parse_tag-Spelling_example =
    parse_tag-Spelling real_item (codes "db170.real262") real_item-IsSpelling refl
