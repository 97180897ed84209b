-- ===== src/S7/ReadVar/Request.antt =====
-- `ReadVarRequest::decode` on what `ReadVarRequest::encode` wrote, and on any other input.
use rs_snap.Prelude.{ℕ, ◌<◌, ◌≡◌, ◌≢◌, refl, arith, List, [], ◌∷◌, ◌++◌, map, length, All}
use mathlib.Core.Path.{ap₂}
use rs_snap.Wire.{Bytes, ok, panic, get_all-put_all, get_all-ne-panic}
use rs_snap.S7.Address.{AddressItem, put_address, get_address}
use rs_snap.S7.Address.Laws.{
  IsValid, reread, get_address-put_address, get_address-ne-panic, IsByByte, IsByByte-IsValid,
  reread-IsByByte,
}
use rs_snap.S7.ReadVar.{
  ReadVarRequest, put_addresses, encode_request, get_addresses, decode_request,
}

pub get_addresses-put_addresses :
    (items : List AddressItem) (rest : Bytes)
    → All IsValid items
    → get_addresses (length items) (put_addresses items ++ rest) ≡ ok (map reread items, rest)
unfolding get_addresses put_addresses
get_addresses-put_addresses =
    get_all-put_all put_address get_address reread IsValid get_address-put_address

pub map-reread : (items : List AddressItem) → All IsByByte items → map reread items ≡ items
map-reread [] h = refl
map-reread (item ∷ items) (v, h) = ap₂ ◌∷◌ (reread-IsByByte item v) (map-reread items h)

pub All-IsValid : (items : List AddressItem) → All IsByByte items → All IsValid items
All-IsValid [] h = tt
All-IsValid (item ∷ items) (v, h) = (IsByByte-IsValid item v, All-IsValid items h)

-- A request of at most 255 items addressed by byte and bit, with starts below 2^21, is read back, its
-- items in their order, and what follows it is left in the buffer.
pub ReadVarRequest-decode-encode :
    (req : ReadVarRequest) (rest : Bytes)
    → All IsByByte req.items
    → length req.items < 256
    → decode_request (encode_request req ++ rest) ≡ ok (req, rest)
unfolding decode_request encode_request
ReadVarRequest-decode-encode req rest v h = ground (
  arith,
  get_addresses-put_addresses req.items rest (All-IsValid req.items v),
  map-reread req.items v,
)

pub get_addresses-ne-panic : (n : ℕ) (buf : Bytes) → get_addresses n buf ≢ panic
unfolding get_addresses
get_addresses-ne-panic = get_all-ne-panic get_address get_address-ne-panic

-- No input makes `ReadVarRequest::decode` panic.
pub decode_request-ne-panic : (buf : Bytes) → decode_request buf ≢ panic
unfolding decode_request
decode_request-ne-panic (func ∷ count ∷ rest) = ground (arith, get_addresses-ne-panic count rest)
decode_request-ne-panic _ = ground arith
