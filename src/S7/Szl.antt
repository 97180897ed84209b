-- ===== src/S7/Szl.antt =====
-- crates/snap7-client/src/proto/s7/szl.rs: the request for a system status list and its response.
use rs_snap.Prelude.{ℕ, ◌≤◌, ◌≡◌, ◌≢◌, arith, [], ◌∷◌, ◌++◌, length}
use rs_snap.Wire.{
  Bytes, IsU16, ok, panic, Reader, ◌>>=◌, ◌>>◌, need, pure, advance, get_u16, remaining, split_to,
  put_u8, put_u16,
}
use rs_snap.Wire.Slices.{split_to_all}

pub record SzlRequest : Type 0 where
  pub szl_id : ℕ
  pub szl_index : ℕ

pub record SzlResponse : Type 0 where
  pub szl_id : ℕ
  pub szl_index : ℕ
  pub content : Bytes

-- Head, Plen, Uk, Tg = grSZL, SubFun = ReadSZL, Seq.
unfoldable pub encode_params : SzlRequest → Bytes
encode_params req = 0x00 ∷ 0x01 ∷ 0x12 ∷ 0x04 ∷ 0x11 ∷ 0x44 ∷ 0x01 ∷ 0x00 ∷ []

-- Ret, TS, DLen, then the two numbers.
unfoldable pub encode_data : SzlRequest → Bytes
encode_data req =
    put_u8 0xff
    ++ (put_u8 0x09 ++ (put_u16 0x0004 ++ (put_u16 req.szl_id ++ put_u16 req.szl_index)))

unfoldable pub encode : SzlRequest → Bytes
unfolding encode_params encode_data
encode req = encode_params req ++ encode_data req

unfoldable pub decode_request : Reader SzlRequest
decode_request = do
  need 16
  advance 8
  advance 4
  szl_id ← get_u16
  szl_index ← get_u16
  pure (record { szl_id = szl_id; szl_index = szl_index })

unfoldable pub decode_response : Reader SzlResponse
decode_response = do
  need 8
  szl_id ← get_u16
  szl_index ← get_u16
  len ← remaining
  content ← split_to len
  pure (record { szl_id = szl_id; szl_index = szl_index; content = content })

-- A request of two 16-bit numbers is read back from its 16 bytes, and what follows them is left.
pub SzlRequest-decode-encode :
    (req : SzlRequest) (rest : Bytes)
    → IsU16 req.szl_id
    → IsU16 req.szl_index
    → decode_request (encode req ++ rest) ≡ ok (req, rest)
unfolding encode decode_request
SzlRequest-decode-encode req rest hid hix = ground arith

-- A response takes its two numbers off the front and keeps all of the rest, if that is four bytes
-- or more.
pub decode_response-append :
    (resp : SzlResponse)
    → IsU16 resp.szl_id
    → IsU16 resp.szl_index
    → 4 ≤ length resp.content
    → decode_response (put_u16 resp.szl_id ++ (put_u16 resp.szl_index ++ resp.content))
      ≡ ok (resp, [])
unfolding decode_response
decode_response-append resp hid hix hlen = ground (arith, split_to_all resp.content)

-- No input makes the two decoders panic.
pub decode_request-ne-panic : (buf : Bytes) → decode_request buf ≢ panic
unfolding decode_request
decode_request-ne-panic (a ∷ b ∷ c ∷ d ∷ e ∷ f ∷ g ∷ h ∷ i ∷ j ∷ k ∷ l ∷ m ∷ n ∷ o ∷ p ∷ rest) =
    ground arith
decode_request-ne-panic _ = ground arith

pub decode_response-ne-panic : (buf : Bytes) → decode_response buf ≢ panic
unfolding decode_response
decode_response-ne-panic (a ∷ b ∷ c ∷ d ∷ e ∷ f ∷ g ∷ h ∷ rest) =
    ground (arith, split_to_all (e ∷ f ∷ g ∷ h ∷ rest))
decode_response-ne-panic _ = ground arith
