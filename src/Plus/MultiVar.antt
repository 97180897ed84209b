-- ===== src/Plus/MultiVar.antt =====
-- crates/snap7-client/src/proto/s7commplus/multivar.rs: reads and writes of several variables.
pub mod Laws
use rs_snap.Prelude.{ℕ, ◌+◌, ◌*◌, ◌/◌, ◌%◌, List, [], ◌∷◌, ◌++◌, length}
use rs_snap.Wire.{
  Bytes, Result, ok, err, panic, buffer_too_short, Reader, ◌>>=◌, ◌>>◌, need, pure, get_u8, get_u16,
  split_to, put_u8, put_u16, put_u32, put_all, get_all,
}
use rs_snap.Plus.DataArea as DataArea
use rs_snap.Plus.DataArea.{DataArea}
use rs_snap.Plus.Session.{opcode_request, fc_get_multi_var, fc_set_multi_var}

pub record VarSpec : Type 0 where
  pub crc : ℕ
  pub lid : ℕ

pub record VarResult : Type 0 where
  pub return_code : ℕ
  pub value : Bytes

pub record GetMultiVarRequest : Type 0 where
  pub seqnum : ℕ
  pub session_id : ℕ
  pub items : List VarSpec

abbrev pub put_spec : VarSpec → Bytes
put_spec item = put_u32 item.crc ++ put_u32 item.lid

-- The data area that a request of either kind travels in.
abbrev pub request_area : ℕ → ℕ → ℕ → Bytes → DataArea
request_area code seqnum session_id payload = record {
  opcode = opcode_request;
  function_code = code;
  seqnum = seqnum;
  session_id = session_id;
  transport_flags = 0;
  payload = payload;
}

unfoldable pub get_payload : List VarSpec → Bytes
unfolding put_all
get_payload items = put_u8 (length items % 256) ++ put_all put_spec items

unfoldable pub encode_get : GetMultiVarRequest → Bytes
encode_get req =
    DataArea.encode
      (request_area fc_get_multi_var req.seqnum req.session_id (get_payload req.items))

unfoldable pub get_result : Reader VarResult
get_result = do
  need 3
  return_code ← get_u8
  data_len ← get_u16
  need data_len
  value ← split_to data_len
  pure (record { return_code = return_code; value = value })

-- The items are read from the payload; the buffer is used up by the data area.
abbrev from_payload : Bytes → Result (List VarResult × Bytes) → Result (List VarResult × Bytes)
from_payload left (ok (items, more)) = ok (items, left)
from_payload left (err e) = err e
from_payload left panic = panic

unfoldable pub decode_get : ℕ → Reader (List VarResult)
unfolding get_all
decode_get item_count = do
  a ← DataArea.decode
  λ left. from_payload left (get_all get_result item_count a.payload)

pub record GetVarRequest : Type 0 where
  pub seqnum : ℕ
  pub session_id : ℕ
  pub crc : ℕ
  pub lid : ℕ

unfoldable pub encode_get_one : GetVarRequest → Bytes
encode_get_one req = encode_get (record {
  seqnum = req.seqnum;
  session_id = req.session_id;
  items = record { crc = req.crc; lid = req.lid } ∷ [];
})

-- `multi.items.is_empty()`, and `multi.items[0]`.
abbrev first_item : List VarResult → Reader VarResult
first_item [] left = err (buffer_too_short 3 0)
first_item (item ∷ items) left = ok (item, left)

unfoldable pub decode_get_one : Reader VarResult
decode_get_one = do items ← decode_get 1; first_item items

pub record SetVarItem : Type 0 where
  pub crc : ℕ
  pub lid : ℕ
  pub value : Bytes

pub record SetMultiVarRequest : Type 0 where
  pub seqnum : ℕ
  pub session_id : ℕ
  pub items : List SetVarItem

abbrev put_value : SetVarItem → Bytes
put_value item =
    put_u32 item.crc ++ (put_u32 item.lid ++ (put_u16 (length item.value % 65536) ++ item.value))

unfoldable pub set_payload : List SetVarItem → Bytes
unfolding put_all
set_payload items = put_u8 (length items % 256) ++ put_all put_value items

unfoldable pub encode_set : SetMultiVarRequest → Bytes
encode_set req =
    DataArea.encode
      (request_area fc_set_multi_var req.seqnum req.session_id (set_payload req.items))

pub record SetVarRequest : Type 0 where
  pub seqnum : ℕ
  pub session_id : ℕ
  pub crc : ℕ
  pub lid : ℕ
  pub value : Bytes

unfoldable pub encode_set_one : SetVarRequest → Bytes
encode_set_one req = encode_set (record {
  seqnum = req.seqnum;
  session_id = req.session_id;
  items = record { crc = req.crc; lid = req.lid; value = req.value } ∷ [];
})
