-- ===== src/Partner/Proto.antt =====
-- crates/snap7-partner/src/proto.rs: the parameters and the data header of a BSend frame.
use rs_snap.Prelude.{
  ℕ, ◌+◌, ◌*◌, ◌≡◌, ◌≤◌, refl, arith, Bool-cases, inl, inr, [], ◌∷◌, ◌++◌, length, get_or, Option,
  none, some, ltb, if◌then◌else◌,
}
use rs_snap.Wire.{Bytes, IsU8, IsU16, IsU32, put_u16, put_u32}
use rs_snap.Partner.Runs.{S7Partner, Run, done, ◌>>=◌, return, index, index_in_range}

-- GR_BSEND, GR_BSEND_ACK, S7_HDR_LEN, BSEND_PARAMS_LEN and BSEND_DATA_HDR_LEN
abbrev pub gr_bsend : ℕ
gr_bsend = 0x46

abbrev pub gr_bsend_ack : ℕ
gr_bsend_ack = 0x86

abbrev pub s7_hdr_len : ℕ
s7_hdr_len = 10

abbrev pub bsend_params_len : ℕ
bsend_params_len = 12

abbrev pub bsend_data_hdr_len : ℕ
bsend_data_hdr_len = 12

pub record BSendParams : Type 0 where
  pub tg : ℕ
  pub sub_fun : ℕ
  pub seq : ℕ
  pub id_seq : ℕ
  pub eos : ℕ
  pub err : ℕ

pub IsBSendParams : BSendParams → Type 0
IsBSendParams p = IsU8 p.tg × IsU8 p.sub_fun × IsU8 p.seq × IsU8 p.id_seq × IsU8 p.eos × IsU16 p.err

abbrev pub encode_params : BSendParams → Bytes
encode_params p =
    0x00 ∷ 0x01 ∷ 0x12 ∷ 0x08 ∷ 0x12 ∷ p.tg ∷ p.sub_fun ∷ p.seq ∷ p.id_seq ∷ p.eos ∷ put_u16 p.err

-- `u16::from_be_bytes` of the two bytes at `i`, where the code has tested or fixed the length.
abbrev pub u16_at : Bytes → ℕ → ℕ
u16_at bytes i = get_or bytes i 0 * 256 + get_or bytes (i + 1) 0

unfoldable pub params_at : Bytes → Run (Option BSendParams)
unfolding index
params_at bytes = do
  tg ← index bytes 5
  sub_fun ← index bytes 6
  seq ← index bytes 7
  id_seq ← index bytes 8
  eos ← index bytes 9
  hi ← index bytes 10
  lo ← index bytes 11
  return (
      some (record {
        tg = tg;
        sub_fun = sub_fun;
        seq = seq;
        id_seq = id_seq;
        eos = eos;
        err = hi * 256 + lo;
      }))

unfoldable pub decode_params : Bytes → Run (Option BSendParams)
unfolding params_at
decode_params bytes = if ltb (length bytes) bsend_params_len then return none else params_at bytes

pub record BSendDataHdr : Type 0 where
  pub len : ℕ
  pub r_id : ℕ

abbrev pub encode_data_hdr : BSendDataHdr → Bytes
encode_data_hdr h = 0xFF ∷ 0x09 ∷ put_u16 h.len ++ (0x12 ∷ 0x06 ∷ 0x13 ∷ 0x00 ∷ put_u32 h.r_id)

unfoldable pub data_hdr_at : Bytes → Run (Option BSendDataHdr)
unfolding index
data_hdr_at bytes = do
  len_hi ← index bytes 2
  len_lo ← index bytes 3
  a ← index bytes 8
  b ← index bytes 9
  c ← index bytes 10
  d ← index bytes 11
  return
      (some (record { len = len_hi * 256 + len_lo; r_id = (a * 256 + b) * 65536 + (c * 256 + d) }))

unfoldable pub decode_data_hdr : Bytes → Run (Option BSendDataHdr)
unfolding data_hdr_at
decode_data_hdr bytes =
    if ltb (length bytes) bsend_data_hdr_len then return none else data_hdr_at bytes

pub decode_params-encode_params :
    (params : BSendParams) (rest : Bytes) (p : S7Partner) (input : Bytes)
    → decode_params (encode_params params ++ rest) p input ≡ ([], (p, done (some params, input)))
unfolding decode_params params_at index
decode_params-encode_params params rest p input = ground (arith)

pub decode_data_hdr-encode_data_hdr :
    (h : BSendDataHdr) (rest : Bytes) (p : S7Partner) (input : Bytes)
    → IsU32 h.r_id
    → decode_data_hdr (encode_data_hdr h ++ rest) p input ≡ ([], (p, done (some h, input)))
unfolding decode_data_hdr data_hdr_at index
decode_data_hdr-encode_data_hdr h rest p input fits = ground (arith)

-- Both decoders give an option on every input: no index is out of range.
pub decode_params-returns :
    (bytes : Bytes) (p : S7Partner) (input : Bytes)
    → (o : Option BSendParams) × (decode_params bytes p input ≡ ([], (p, done (o, input))))
unfolding decode_params params_at
decode_params-returns bytes p input = elim (Bool-cases (ltb (length bytes) bsend_params_len)) [
  | inl e ↦ rw e (none, refl)
  | inr e ↦
      let long : 12 ≤ length bytes = ground arith in
      rw
        (
          e,
          index_in_range bytes 5 (omega arith),
          index_in_range bytes 6 (omega arith),
          index_in_range bytes 7 (omega arith),
          index_in_range bytes 8 (omega arith),
          index_in_range bytes 9 (omega arith),
          index_in_range bytes 10 (omega arith),
          index_in_range bytes 11 (omega arith),
        )
        (_, refl)
]

pub decode_data_hdr-returns :
    (bytes : Bytes) (p : S7Partner) (input : Bytes)
    → (o : Option BSendDataHdr) × (decode_data_hdr bytes p input ≡ ([], (p, done (o, input))))
unfolding decode_data_hdr data_hdr_at
decode_data_hdr-returns bytes p input = elim (Bool-cases (ltb (length bytes) bsend_data_hdr_len)) [
  | inl e ↦ rw e (none, refl)
  | inr e ↦
      let long : 12 ≤ length bytes = ground arith in
      rw
        (
          e,
          index_in_range bytes 2 (omega arith),
          index_in_range bytes 3 (omega arith),
          index_in_range bytes 8 (omega arith),
          index_in_range bytes 9 (omega arith),
          index_in_range bytes 10 (omega arith),
          index_in_range bytes 11 (omega arith),
        )
        (_, refl)
]
