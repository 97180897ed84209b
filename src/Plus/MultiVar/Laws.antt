-- ===== src/Plus/MultiVar/Laws.antt =====
-- What a peer reads where a request was written, and what the client reads of a response.
use rs_snap.Prelude.{
  ℕ, ◌<◌, ◌≡◌, ◌≢◌, arith, List, [], ◌∷◌, ◌++◌, length, length-append, append-nil, All, inl, inr,
}
use rs_snap.Wire.{
  Bytes, IsU16, IsU32, ok, panic, Reader, ◌>>=◌, pure, get_u8, get_u16, get_u32, split_to, put_u8,
  put_u16, put_all, get_all, get_all-put_all_self, get_all-ne-panic, Result-cases,
}
use rs_snap.Wire.Slices.{split_to-append}
use rs_snap.Plus.DataArea as DataArea
use rs_snap.Plus.DataArea.{DataArea}
use rs_snap.Plus.Session.{fc_get_multi_var, fc_set_multi_var}
use rs_snap.Plus.MultiVar.{
  VarSpec, VarResult, GetMultiVarRequest, SetVarItem, SetMultiVarRequest, request_area, get_payload,
  encode_get, get_result, decode_get, decode_get_one, set_payload, encode_set, put_spec, put_value,
}

-- How a peer reads the items of a request.
abbrev pub read_spec : Reader VarSpec
read_spec = do crc ← get_u32; lid ← get_u32; pure (record { crc = crc; lid = lid })

abbrev pub read_value : Reader SetVarItem
read_value = do
  crc ← get_u32
  lid ← get_u32
  len ← get_u16
  value ← split_to len
  pure (record { crc = crc; lid = lid; value = value })

-- The count, and as many items.
unfoldable pub read_payload : {A : Type 0} → Reader A → Reader (List A)
read_payload item = do count ← get_u8; get_all item count

abbrev pub SpecFits : VarSpec → Type 0
SpecFits item = IsU32 item.crc × IsU32 item.lid

abbrev pub ValueFits : SetVarItem → Type 0
ValueFits item = IsU32 item.crc × IsU32 item.lid × IsU16 (length item.value)

read_spec-put_spec :
    (item : VarSpec) (rest : Bytes)
    → SpecFits item
    → read_spec (put_spec item ++ rest) ≡ ok (item, rest)
read_spec-put_spec item rest h = ground arith

read_value-put_value :
    (item : SetVarItem) (rest : Bytes)
    → ValueFits item
    → read_value (put_value item ++ rest) ≡ ok (item, rest)
read_value-put_value item rest h =
    ground (arith, split_to-append (length item.value) item.value rest)

-- A read request of at most 255 variables whose numbers fit their width carries its number, its
-- session and its items in order.
pub encode_get_carries :
    (req : GetMultiVarRequest)
    → IsU16 req.seqnum
    → IsU32 req.session_id
    → All SpecFits req.items
    → length req.items < 256
    → (DataArea.decode (encode_get req)
        ≡ ok (request_area fc_get_multi_var req.seqnum req.session_id (get_payload req.items), []))
      × (read_payload read_spec (get_payload req.items) ≡ ok (req.items, []))
unfolding encode_get get_payload read_payload
encode_get_carries req hs hid h few = (
  DataArea.DataArea-decode-encode _ (omega arith),
  ground (
    arith,
    append-nil (put_all put_spec req.items),
    get_all-put_all_self put_spec read_spec SpecFits read_spec-put_spec req.items [] h,
  ),
)

-- A write request of at most 255 variables whose numbers and value lengths fit their width carries its
-- number, its session and its items with their values, in order.
encode_set_carries :
    (req : SetMultiVarRequest)
    → IsU16 req.seqnum
    → IsU32 req.session_id
    → All ValueFits req.items
    → length req.items < 256
    → (DataArea.decode (encode_set req)
        ≡ ok (request_area fc_set_multi_var req.seqnum req.session_id (set_payload req.items), []))
      × (read_payload read_value (set_payload req.items) ≡ ok (req.items, []))
unfolding encode_set set_payload read_payload
encode_set_carries req hs hid h few = (
  DataArea.DataArea-decode-encode _ (omega arith),
  ground (
    arith,
    append-nil (put_all put_value req.items),
    get_all-put_all_self put_value read_value ValueFits read_value-put_value req.items [] h,
  ),
)

-- How a peer writes a result.
abbrev pub put_result : VarResult → Bytes
put_result r = put_u8 r.return_code ++ (put_u16 (length r.value) ++ r.value)

abbrev pub ResultFits : VarResult → Type 0
ResultFits r = IsU16 (length r.value)

get_result-put_result :
    (r : VarResult) (rest : Bytes) → ResultFits r → get_result (put_result r ++ rest) ≡ ok (r, rest)
unfolding get_result
get_result-put_result r rest h =
    ground (arith, length-append r.value rest, split_to-append (length r.value) r.value rest)

-- The client reads the results that a data area with fields in range carries, in order, each with a
-- value of less than 65536 bytes, and ignores what follows them in the payload.
pub decode_get-put_all :
    (a : DataArea) (results : List VarResult) (more : Bytes)
    → DataArea.IsValid a
    → All ResultFits results
    → a.payload ≡ put_all put_result results ++ more
    → decode_get (length results) (DataArea.encode a) ≡ ok (results, [])
unfolding decode_get
decode_get-put_all a results more v h e = ground (
  arith,
  DataArea.DataArea-decode-encode a v,
  e,
  get_all-put_all_self put_result get_result ResultFits get_result-put_result results more h,
)

get_result-ne-panic : (buf : Bytes) → get_result buf ≢ panic
unfolding get_result
get_result-ne-panic (a ∷ b ∷ c ∷ rest) = ground arith
get_result-ne-panic _ = ground arith

-- No input and no item count make `GetMultiVarResponse::decode` panic.
pub decode_get-ne-panic : (n : ℕ) (buf : Bytes) → decode_get n buf ≢ panic
unfolding decode_get
decode_get-ne-panic n buf =
    elim (Result-cases (DataArea.decode buf) (DataArea.decode-ne-panic buf)) [
      | inl ((a, left), e) ↦
          ground (arith, e, get_all-ne-panic get_result get_result-ne-panic n a.payload)
      | inr (x, e) ↦ ground (arith, e)
    ]

-- No input makes `GetVarResponse::decode` panic.
pub decode_get_one-ne-panic : (buf : Bytes) → decode_get_one buf ≢ panic
unfolding decode_get_one
decode_get_one-ne-panic buf = elim (Result-cases (decode_get 1 buf) (decode_get-ne-panic 1 buf)) [
  | inl (([], left), e) ↦ ground (arith, e)
  | inl ((item ∷ items, left), e) ↦ ground (arith, e)
  | inr (x, e) ↦ ground (arith, e)
]
