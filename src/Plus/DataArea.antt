-- ===== src/Plus/DataArea.antt =====
-- crates/snap7-client/src/proto/s7commplus/data.rs: the header of 14 bytes inside a frame.
use rs_snap.Prelude.{ℕ, ◌≡◌, ◌≢◌, arith, [], ◌∷◌, ◌++◌}
use rs_snap.Wire.{
  Bytes, IsU16, IsU32, ok, panic, Reader, ◌>>=◌, ◌>>◌, need, pure, advance, get_u8, get_u16,
  get_u32, remaining, split_to, put_u8, put_u16, put_u32,
}
use rs_snap.Wire.Slices.{split_to_all}

abbrev fixed_len : ℕ
fixed_len = 14

pub record DataArea : Type 0 where
  pub opcode : ℕ
  pub function_code : ℕ
  pub seqnum : ℕ
  pub session_id : ℕ
  pub transport_flags : ℕ
  pub payload : Bytes

unfoldable pub encode : DataArea → Bytes
encode a =
    put_u8 a.opcode
    ++ (put_u16 0
        ++ (put_u16 a.function_code
            ++ (put_u16 0
                ++ (put_u16 a.seqnum
                    ++ (put_u32 a.session_id ++ (put_u8 a.transport_flags ++ a.payload))))))

unfoldable pub decode : Reader DataArea
decode = do
  need fixed_len
  opcode ← get_u8
  advance 2
  function_code ← get_u16
  advance 2
  seqnum ← get_u16
  session_id ← get_u32
  transport_flags ← get_u8
  len ← remaining
  payload ← split_to len
  pure (record {
    opcode = opcode;
    function_code = function_code;
    seqnum = seqnum;
    session_id = session_id;
    transport_flags = transport_flags;
    payload = payload;
  })

pub record IsValid (a : DataArea) : Type 0 where
  pub function_code_fits : IsU16 a.function_code
  pub seqnum_fits : IsU16 a.seqnum
  pub session_id_fits : IsU32 a.session_id

-- A data area with fields in range is read back, its payload being all that follows the header.
pub DataArea-decode-encode : (a : DataArea) → IsValid a → decode (encode a) ≡ ok (a, [])
unfolding encode decode
DataArea-decode-encode a v = ground (arith, split_to_all a.payload)

-- No input makes `DataArea::decode` panic.
pub decode-ne-panic : (buf : Bytes) → decode buf ≢ panic
unfolding decode
decode-ne-panic (a ∷ b ∷ c ∷ d ∷ e ∷ f ∷ g ∷ h ∷ i ∷ j ∷ k ∷ l ∷ m ∷ n ∷ rest) =
    ground (arith, split_to_all rest)
decode-ne-panic _ = ground arith

-- Nothing is left in the buffer behind the payload.
pub decode_takes_all :
    (buf : Bytes) (a : DataArea) (rest : Bytes) → decode buf ≡ ok (a, rest) → rest ≡ []
unfolding decode
decode_takes_all (b0 ∷ b ∷ c ∷ d ∷ e ∷ f ∷ g ∷ h ∷ i ∷ j ∷ k ∷ l ∷ m ∷ n ∷ tail) a rest p =
    ground (arith, split_to_all tail)
decode_takes_all _ a rest p = absurd (ground arith)
