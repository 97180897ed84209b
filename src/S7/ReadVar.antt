-- ===== src/S7/ReadVar.antt =====
-- crates/snap7-client/src/proto/s7/read_var.rs: the request for several variables and its response.
pub mod Request
pub mod Response
use rs_snap.Prelude.{ℕ, zero, suc, ◌+◌, ◌*◌, ◌/◌, ◌%◌, List, [], ◌∷◌, ◌++◌, length, ltb, ◌==◌, not}
use rs_snap.Wire.{
  Bytes, Result, ok, err, panic, unsupported_function, Reader, ◌>>=◌, ◌>>◌, need, refuse, pure,
  get_u8, put_u8, put_all, get_all,
}
use rs_snap.S7.Address.{AddressItem, put_address, get_address}
use rs_snap.S7.Sized.{put_sized, get_sized}

abbrev pub func_read_var : ℕ
func_read_var = 0x04

pub record ReadVarRequest : Type 0 where
  pub items : List AddressItem

pub record DataItem : Type 0 where
  pub return_code : ℕ
  pub content : Bytes

pub record ReadVarResponse : Type 0 where
  pub items : List DataItem

-- The loop over `self.items`.
unfoldable pub put_addresses : List AddressItem → Bytes
unfolding put_all
put_addresses = put_all put_address

unfoldable pub encode_request : ReadVarRequest → Bytes
encode_request req =
    put_u8 func_read_var ++ (put_u8 (length req.items % 256) ++ put_addresses req.items)

-- The loop `for _ in 0..count`.
unfoldable pub get_addresses : ℕ → Reader (List AddressItem)
unfolding get_all
get_addresses = get_all get_address

unfoldable pub decode_request : Reader ReadVarRequest
decode_request = do
  need 2
  func ← get_u8
  refuse (not (func == func_read_var)) (unsupported_function func)
  count ← get_u8
  items ← get_addresses count
  pure (record { items = items })

unfoldable pub put_item : DataItem → Bytes
put_item item = put_u8 item.return_code ++ (put_u8 0x04 ++ put_sized item.content)

-- The loop of `ReadVarResponse::encode`.
unfoldable pub encode_items : List DataItem → Bytes
unfolding put_all
encode_items = put_all put_item

unfoldable pub encode_response : ReadVarResponse → Bytes
encode_response resp = encode_items resp.items

unfoldable pub get_item : Reader DataItem
get_item = do
  need 4
  return_code ← get_u8
  get_u8
  content ← get_sized
  pure (record { return_code = return_code; content = content })

unfoldable pub get_items : ℕ → Reader (List DataItem)
unfolding get_all
get_items = get_all get_item

unfoldable pub decode_response : ℕ → Reader ReadVarResponse
decode_response item_count = do items ← get_items item_count; pure (record { items = items })
