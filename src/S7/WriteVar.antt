-- ===== src/S7/WriteVar.antt =====
-- crates/snap7-client/src/proto/s7/write_var.rs: the request that writes several variables, and the
-- return codes that answer it.
pub mod Laws
use rs_snap.Prelude.{
  ℕ, zero, suc, ◌+◌, ◌*◌, ◌/◌, ◌%◌, List, [], ◌∷◌, ◌++◌, map, length, ltb, ◌==◌, not,
}
use rs_snap.Wire.{
  Bytes, Result, ok, err, panic, unsupported_function, buffer_too_short, Reader, ◌>>=◌, ◌>>◌, need,
  refuse, pure, get_u8, put_u8, put_all, get_all,
}
use rs_snap.S7.Codes.{transport_code}
use rs_snap.S7.Address.{AddressItem, put_address, get_address}
use rs_snap.S7.Sized.{put_sized, get_sized}

abbrev pub func_write_var : ℕ
func_write_var = 0x05

pub record WriteItem : Type 0 where
  pub address : AddressItem
  pub content : Bytes

pub record WriteVarRequest : Type 0 where
  pub items : List WriteItem

pub record WriteVarResponse : Type 0 where
  pub return_codes : List ℕ

abbrev pub put_item_address : WriteItem → Bytes
put_item_address item = put_address item.address

unfoldable pub put_item_data : WriteItem → Bytes
put_item_data item =
    put_u8 0 ++ (put_u8 (transport_code item.address.transport) ++ put_sized item.content)

-- The address items first, then the data items.
unfoldable pub encode_request : WriteVarRequest → Bytes
unfolding put_all
encode_request req =
    put_u8 func_write_var
    ++ (put_u8 (length req.items % 256)
        ++ (put_all put_item_address req.items ++ put_all put_item_data req.items))

unfoldable pub get_item_data : Reader Bytes
get_item_data = do need 4; get_u8; get_u8; get_sized

-- `for address in addresses`
unfoldable pub get_items : List AddressItem → Reader (List WriteItem)
get_items [] buf = ok ([], buf)
get_items (address ∷ addresses) buf =
    (do
      content ← get_item_data
      items ← get_items addresses
      pure (record { address = address; content = content } ∷ items))
      buf

unfoldable pub decode_request : Reader WriteVarRequest
unfolding get_all
decode_request = do
  need 2
  func ← get_u8
  refuse (not (func == func_write_var)) (unsupported_function func)
  count ← get_u8
  addresses ← get_all get_address count
  items ← get_items addresses
  pure (record { items = items })

-- `if !buf.has_remaining() { return Err(…) }`, then `get_u8`.
unfoldable pub get_code : Reader ℕ
get_code [] = err (buffer_too_short 1 0)
get_code (code ∷ rest) = ok (code, rest)

unfoldable pub decode_response : ℕ → Reader WriteVarResponse
unfolding get_all
decode_response item_count = do
  codes ← get_all get_code item_count
  pure (record { return_codes = codes })
