-- ===== src/Plus/Session.antt =====
-- crates/snap7-client/src/proto/s7commplus/session.rs: the codes of the session, and CreateObject.
use rs_snap.Prelude.{ℕ, ◌≡◌, ◌≢◌, arith, [], replicate}
use rs_snap.Wire.{Bytes, IsU16, ok, panic, Reader, ◌>>=◌, pure}
use rs_snap.Plus.DataArea as DataArea
use rs_snap.Plus.DataArea.{DataArea}

abbrev pub fc_create_object : ℕ
fc_create_object = 0x04ca

abbrev pub fc_delete_object : ℕ
fc_delete_object = 0x04d4

abbrev pub fc_get_multi_var : ℕ
fc_get_multi_var = 0x054c

abbrev pub fc_set_multi_var : ℕ
fc_set_multi_var = 0x0542

abbrev pub opcode_request : ℕ
opcode_request = 0x31

pub record CreateObjectRequest : Type 0 where
  pub seqnum : ℕ

pub record CreateObjectResponse : Type 0 where
  pub session_id : ℕ
  pub raw_payload : Bytes

unfoldable pub encode_create : CreateObjectRequest → Bytes
encode_create req = DataArea.encode (record {
  opcode = opcode_request;
  function_code = fc_create_object;
  seqnum = req.seqnum;
  session_id = 0;
  transport_flags = 0;
  payload = replicate 64 0;
})

unfoldable pub decode_create : Reader CreateObjectResponse
decode_create = do
  a ← DataArea.decode
  pure (record { session_id = a.session_id; raw_payload = a.payload })

-- The peer reads a CreateObject request as 64 zero bytes under session 0, and takes the session id
-- of the response from any data area that it is sent.
pub decode-encode_create :
    (req : CreateObjectRequest)
    → IsU16 req.seqnum
    → DataArea.decode (encode_create req)
      ≡ ok (
        record {
          opcode = opcode_request;
          function_code = fc_create_object;
          seqnum = req.seqnum;
          session_id = 0;
          transport_flags = 0;
          payload = replicate 64 0;
        },
        [],
      )
unfolding encode_create
decode-encode_create req h = DataArea.DataArea-decode-encode _ (omega arith)

pub decode_create-encode :
    (a : DataArea)
    → DataArea.IsValid a
    → decode_create (DataArea.encode a)
      ≡ ok (record { session_id = a.session_id; raw_payload = a.payload }, [])
unfolding decode_create
decode_create-encode a v = ground (arith, DataArea.DataArea-decode-encode a v)

-- No input makes `CreateObjectResponse::decode` panic.
pub decode_create-ne-panic : (buf : Bytes) → decode_create buf ≢ panic
unfolding decode_create
decode_create-ne-panic buf = ground (arith, DataArea.decode-ne-panic buf)
