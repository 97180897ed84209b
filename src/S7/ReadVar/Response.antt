-- ===== src/S7/ReadVar/Response.antt =====
-- `ReadVarResponse::decode` on what `ReadVarResponse::encode` wrote, and on any other input.
use rs_snap.Prelude.{ℕ, ◌<◌, ◌≡◌, ◌≢◌, arith, List, ◌∷◌, ◌++◌, length, All}
use rs_snap.Wire.{Bytes, ok, panic, get_all-put_all_self, get_all-ne-panic}
use rs_snap.S7.Sized.Laws.{get_sized-put_sized, get_sized-ne-panic, length-put_sized}
use rs_snap.S7.ReadVar.{
  DataItem, ReadVarResponse, put_item, encode_items, encode_response, get_item, get_items,
  decode_response,
}

-- The length in bits fits its 16 bits.
abbrev pub Fits : DataItem → Type 0
Fits item = length item.content < 8192

get_item-put_item :
    (item : DataItem) (rest : Bytes)
    → Fits item
    → get_item (put_item item ++ rest) ≡ ok (item, rest)
unfolding get_item put_item
get_item-put_item item rest h =
    ground (arith, get_sized-put_sized item.content rest h, length-put_sized item.content rest)

pub get_items-encode_items :
    (items : List DataItem) (rest : Bytes)
    → All Fits items
    → get_items (length items) (encode_items items ++ rest) ≡ ok (items, rest)
unfolding get_items encode_items
get_items-encode_items = get_all-put_all_self put_item get_item Fits get_item-put_item

-- A response whose items hold at most 8191 bytes each is read back by a client that asks for as
-- many items, return codes and data unchanged.
pub ReadVarResponse-decode-encode :
    (resp : ReadVarResponse) (rest : Bytes)
    → All Fits resp.items
    → decode_response (length resp.items) (encode_response resp ++ rest) ≡ ok (resp, rest)
unfolding decode_response encode_response
ReadVarResponse-decode-encode resp rest h = ground (arith, get_items-encode_items resp.items rest h)

get_item-ne-panic : (buf : Bytes) → get_item buf ≢ panic
unfolding get_item
get_item-ne-panic (c ∷ t ∷ a ∷ b ∷ rest) = ground (arith, get_sized-ne-panic a b rest)
get_item-ne-panic _ = ground arith

get_items-ne-panic : (n : ℕ) (buf : Bytes) → get_items n buf ≢ panic
unfolding get_items
get_items-ne-panic = get_all-ne-panic get_item get_item-ne-panic

-- No input and no item count make `ReadVarResponse::decode` panic.
pub decode_response-ne-panic : (n : ℕ) (buf : Bytes) → decode_response n buf ≢ panic
unfolding decode_response
decode_response-ne-panic n buf = ground (arith, get_items-ne-panic n buf)
