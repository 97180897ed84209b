-- ===== src/S7/WriteVar/Laws.antt =====
-- `WriteVarRequest::decode` on what `WriteVarRequest::encode` wrote, `WriteVarResponse::decode`, and
-- both on any other input.
use rs_snap.Prelude.{
  ℕ, zero, suc, ◌<◌, ◌≡◌, ◌≢◌, refl, arith, List, [], ◌∷◌, ◌++◌, map, length, All, append_assoc,
  inl, inr,
}
use mathlib.Core.Path.{ap₂}
use rs_snap.Wire.{
  Bytes, ok, err, panic, buffer_too_short, Result-cases, put_all, get_all, get_all-put_all,
  get_all-ne-panic,
}
use rs_snap.S7.Address.{AddressItem, get_address}
use rs_snap.S7.Address.Laws as Address
use rs_snap.S7.Address.Laws.{
  reread, get_address-put_address, get_address-ne-panic, IsByByte, IsByByte-IsValid,
  reread-IsByByte,
}
use rs_snap.S7.Sized.Laws.{get_sized-put_sized, get_sized-ne-panic, length-put_sized}
use rs_snap.S7.WriteVar.{
  WriteItem, WriteVarRequest, put_item_address, put_item_data, encode_request, get_item_data,
  get_items, decode_request, get_code, decode_response,
}

-- The address fits its fields, and the length of the data in bits its 16 bits.
abbrev pub IsValid : WriteItem → Type 0
IsValid item = Address.IsValid item.address × (length item.content < 8192)

abbrev pub reread_item : WriteItem → WriteItem
reread_item item = record item { address = reread item.address }

get_item_data-put_item_data :
    (item : WriteItem) (rest : Bytes)
    → length item.content < 8192
    → get_item_data (put_item_data item ++ rest) ≡ ok (item.content, rest)
unfolding get_item_data put_item_data
get_item_data-put_item_data item rest h =
    ground (arith, get_sized-put_sized item.content rest h, length-put_sized item.content rest)

abbrev reread_address : WriteItem → AddressItem
reread_address item = reread item.address

get_items-put_all :
    (items : List WriteItem) (rest : Bytes)
    → All IsValid items
    → get_items (map reread_address items) (put_all put_item_data items ++ rest)
      ≡ ok (map reread_item items, rest)
unfolding get_items put_all
get_items-put_all [] rest h = refl
get_items-put_all (item ∷ items) rest ((v, fits), h) = rw append_assoc (
    ground (
      arith,
      get_item_data-put_item_data item (put_all put_item_data items ++ rest) fits,
      get_items-put_all items rest h,
    ))

-- An item that is read back as it was.
abbrev pub IsByByteItem : WriteItem → Type 0
IsByByteItem item = IsByByte item.address × (length item.content < 8192)

map-reread_item : (items : List WriteItem) → All IsByByteItem items → map reread_item items ≡ items
map-reread_item [] h = refl
map-reread_item (item ∷ items) ((v, fits), h) =
    ap₂ ◌∷◌ (ground (arith, reread-IsByByte item.address v)) (map-reread_item items h)

All-IsValid : (items : List WriteItem) → All IsByByteItem items → All IsValid items
All-IsValid [] h = tt
All-IsValid (item ∷ items) ((v, fits), h) =
    ((IsByByte-IsValid item.address v, fits), All-IsValid items h)

-- A request of at most 255 items addressed by byte and bit, with starts below 2^21 and at most 8191
-- bytes of data each, is read back, every address with its own data, in their order, and what follows
-- it is left in the buffer.
pub WriteVarRequest-decode-encode :
    (req : WriteVarRequest) (rest : Bytes)
    → All IsByByteItem req.items
    → length req.items < 256
    → decode_request (encode_request req ++ rest) ≡ ok (req, rest)
unfolding decode_request encode_request
WriteVarRequest-decode-encode req rest h few =
    let v = All-IsValid req.items h in
    ground (
      arith,
      append_assoc (put_all put_item_address req.items) (put_all put_item_data req.items) rest,
      get_all-put_all put_item_address get_address reread_address IsValid
          (λ item tail valid. get_address-put_address item.address tail valid.0) req.items
          (put_all put_item_data req.items ++ rest) v,
      get_items-put_all req.items rest v,
      map-reread_item req.items h,
    )

get_item_data-ne-panic : (buf : Bytes) → get_item_data buf ≢ panic
unfolding get_item_data
get_item_data-ne-panic (c ∷ t ∷ a ∷ b ∷ rest) = ground (arith, get_sized-ne-panic a b rest)
get_item_data-ne-panic _ = ground arith

get_items-ne-panic : (addresses : List AddressItem) (buf : Bytes) → get_items addresses buf ≢ panic
unfolding get_items
get_items-ne-panic [] buf = λ e. cc
get_items-ne-panic (address ∷ addresses) buf =
    elim (Result-cases (get_item_data buf) (get_item_data-ne-panic buf)) [
      | inl ((content, rest), e) ↦ ground (arith, e, get_items-ne-panic addresses rest)
      | inr (x, e) ↦ ground (arith, e)
    ]

-- No input makes `WriteVarRequest::decode` panic.
pub decode_request-ne-panic : (buf : Bytes) → decode_request buf ≢ panic
unfolding decode_request
decode_request-ne-panic (func ∷ count ∷ rest) =
    elim (Result-cases (get_all get_address count rest)
      (get_all-ne-panic get_address get_address-ne-panic count rest)) [
        | inl ((addresses, tail), e) ↦ ground (arith, e, get_items-ne-panic addresses tail)
        | inr (x, e) ↦ ground (arith, e)
      ]
decode_request-ne-panic _ = ground arith

get_code-ne-panic : (buf : Bytes) → get_code buf ≢ panic
unfolding get_code
get_code-ne-panic [] = λ e. cc
get_code-ne-panic (c ∷ rest) = λ e. cc

-- No input and no item count make `WriteVarResponse::decode` panic.
pub decode_response-ne-panic : (n : ℕ) (buf : Bytes) → decode_response n buf ≢ panic
unfolding decode_response
decode_response-ne-panic n buf = ground (arith, get_all-ne-panic get_code get_code-ne-panic n buf)

get_codes :
    (codes rest : Bytes) → get_all get_code (length codes) (codes ++ rest) ≡ ok (codes, rest)
unfolding get_all get_code
get_codes [] rest = refl
get_codes (c ∷ codes) rest = ground (arith, get_codes codes rest)

-- A response is one byte for each item: with as many bytes there the codes are those bytes.
pub decode_response-append :
    (codes rest : Bytes)
    → decode_response (length codes) (codes ++ rest) ≡ ok (record { return_codes = codes }, rest)
unfolding decode_response
decode_response-append codes rest = ground (arith, get_codes codes rest)

codes_short :
    (n : ℕ) (buf : Bytes) → length buf < n → get_all get_code n buf ≡ err (buffer_too_short 1 0)
unfolding get_all get_code
codes_short zero buf h = elim h [ ]
codes_short (suc n) [] h = refl
codes_short (suc n) (c ∷ rest) h = ground (arith, codes_short n rest)

-- With fewer bytes than items the response is refused.
pub decode_response_short :
    (n : ℕ) (buf : Bytes) → length buf < n → decode_response n buf ≡ err (buffer_too_short 1 0)
unfolding decode_response
decode_response_short n buf h = ground (arith, codes_short n buf h)
