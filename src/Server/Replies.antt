-- ===== src/Server/Replies.antt =====
-- crates/snap7-server/src/dispatch.rs: the replies that the server builds, without their transport
-- framing, and the fixed tables of `build_szl_response`.
pub mod Laws
use rs_snap.Prelude.{
  ℕ, ◌+◌, ◌-◌, ◌*◌, ◌/◌, ◌%◌, ◌^◌, Option, none, some, Bool, true, false, List, [], ◌∷◌, ◌++◌,
  length, take, drop, replicate, ltb, leb, ◌==◌, if◌then◌else◌, get_or,
}
use rs_snap.Wire.{Bytes, Result, ok, put_u8, put_u16}
use rs_snap.Server.Reads.{and_then, index, slice}
use rs_snap.S7.Codes.{PduType}
use rs_snap.S7.Header.{S7Header, encode}

-- The header of a reply that is an `AckData`.
abbrev pub ack_header : (pdu_ref param_len data_len error_class error_code : ℕ) → S7Header
ack_header pdu_ref param_len data_len error_class error_code = record {
  pdu_type = PduType.ack_data;
  reserved = 0;
  pdu_ref = pdu_ref;
  param_len = param_len;
  data_len = data_len;
  error_class = some error_class;
  error_code = some error_code;
}

unfoldable pub simple_ack : ℕ → Bytes
simple_ack pdu_ref = encode (ack_header pdu_ref 0 0 0 0)

unfoldable pub error_response : (pdu_ref error_class error_code : ℕ) → Bytes
error_response pdu_ref error_class error_code =
    encode (ack_header pdu_ref 0 0 error_class error_code)

unfoldable pub ack_data : (pdu_ref func item_count : ℕ) → Bytes → Bytes
ack_data pdu_ref func item_count content =
    encode (ack_header pdu_ref 2 (length content % 2 ^ 16) 0 0)
    ++ ((func ∷ item_count ∷ []) ++ content)

-- The arm of the PLC control commands.
unfoldable pub control_reply : (pdu_ref func : ℕ) → Bytes
control_reply pdu_ref func =
    encode (ack_header pdu_ref 2 (if func == 0x31 then 1 else 0) 0 0)
    ++ ((func ∷ 0 ∷ []) ++ (if func == 0x31 then 0x08 ∷ [] else []))

unfoldable pub clock_reply : ℕ → Bytes → Bytes
clock_reply pdu_ref clock =
    encode (record {
      pdu_type = PduType.user_data;
      reserved = 0;
      pdu_ref = pdu_ref;
      param_len = 12;
      data_len = 4;
      error_class = none;
      error_code = none;
    })
    ++ ((0x00 ∷ 0x01 ∷ 0x12 ∷ 0x08 ∷ 0x12 ∷ 0x87 ∷ 0x01 ∷ 0x00 ∷ [])
        ++ (take 4 clock ++ drop 4 clock))

-- `if entry_len > 0 { entries.len() / entry_len } else { 0 }`
abbrev entry_count : ℕ → ℕ → ℕ
entry_count entry_len total = if ltb 0 entry_len then (total / entry_len) % 2 ^ 16 else 0

unfoldable pub szl_block : (szl_id szl_index entry_len : ℕ) → Bytes → Bytes
szl_block szl_id szl_index entry_len entries =
    put_u16 szl_id
    ++ (put_u16 szl_index
        ++ (put_u16 entry_len ++ (put_u16 (entry_count entry_len (length entries)) ++ entries)))

-- "Simulated PLC       "
abbrev order_code : Bytes
order_code =
    0x53
    ∷ 0x69
    ∷ 0x6d
    ∷ 0x75
    ∷ 0x6c
    ∷ 0x61
    ∷ 0x74
    ∷ 0x65
    ∷ 0x64
    ∷ 0x20
    ∷ 0x50
    ∷ 0x4c
    ∷ 0x43
    ∷ replicate 7 0x20

-- `make`: an index and a text padded with spaces to 32 bytes.
abbrev make_entry : ℕ → Bytes → Bytes
make_entry index text =
    (index / 256 % 256) ∷ (index % 256) ∷ take 32 text ++ replicate (32 - length text) 0x20

-- "SimPLC", "CPU Simulated", "(C) Simulated", "SIM-0000000001"
abbrev as_name : Bytes
as_name = 0x53 ∷ 0x69 ∷ 0x6d ∷ 0x50 ∷ 0x4c ∷ 0x43 ∷ []

abbrev module_type : Bytes
module_type =
    0x43 ∷ 0x50 ∷ 0x55 ∷ 0x20 ∷ 0x53 ∷ 0x69 ∷ 0x6d ∷ 0x75 ∷ 0x6c ∷ 0x61 ∷ 0x74 ∷ 0x65 ∷ 0x64 ∷ []

abbrev copyright : Bytes
copyright =
    0x28 ∷ 0x43 ∷ 0x29 ∷ 0x20 ∷ 0x53 ∷ 0x69 ∷ 0x6d ∷ 0x75 ∷ 0x6c ∷ 0x61 ∷ 0x74 ∷ 0x65 ∷ 0x64 ∷ []

abbrev serial_number : Bytes
serial_number = 0x53 ∷ 0x49 ∷ 0x4d ∷ 0x2d ∷ replicate 9 0x30 ++ (0x31 ∷ [])

-- The entries of each list, with the length of one.
unfoldable pub build_szl_response : ℕ → Bytes
unfolding szl_block
build_szl_response szl_id =
    if szl_id == 0x0011
    then szl_block 0x0011 0 28 (0x00 ∷ 0x01 ∷ order_code ++ (0 ∷ 1 ∷ 0 ∷ 0 ∷ 0 ∷ 0 ∷ []))
    else if szl_id == 0x0032
    then szl_block 0x0032 0 16 (3 ∷ 0 ∷ 3 ∷ 0 ∷ 3 ∷ replicate 11 0)
    else if szl_id == 0x001c
    then szl_block 0x001c 0 34 (
        make_entry 1 as_name
        ++ (make_entry 2 module_type
            ++ (make_entry 3 as_name
                ++ (make_entry 4 copyright
                    ++ (make_entry 5 serial_number
                        ++ (make_entry 7 module_type ++ make_entry 8 as_name))))))
    else if szl_id == 0x0131
    then szl_block 0x0131 1 14 (
        0x00 ∷ 0x01 ∷ 0x01 ∷ 0xe0 ∷ 0x00 ∷ 0x20 ∷ 0x00 ∷ 0x02 ∷ 0xdc ∷ 0x6c ∷ 0x00 ∷ 0x00 ∷ 0x61
        ∷ 0xa8 ∷ [])
    else if szl_id == 0x0424
    then szl_block 0x0424 0 12 (0 ∷ 0 ∷ 0 ∷ 0x08 ∷ replicate 8 0)
    else szl_block szl_id 0 0 []

-- `if payload.len() >= 12 { &payload[..12] } else { 12 zeros }`
unfoldable pub szl_params : Bytes → Result Bytes
unfolding slice
szl_params payload = if leb 12 (length payload) then slice payload 0 12 else ok (replicate 12 0)

-- `if payload.len() >= 14 { u16::from_be_bytes([payload[12], payload[13]]) } else { 0 }`
unfoldable pub szl_id_of : Bytes → Result ℕ
unfolding index
szl_id_of payload =
    if leb 14 (length payload)
    then and_then (index payload 12) (λ a. and_then (index payload 13) (λ b. ok (a * 256 + b)))
    else ok 0

-- The reply with these parameters, for this list.
unfoldable pub szl_reply : (pdu_ref : ℕ) (params : Bytes) (szl_id : ℕ) → Bytes
unfolding build_szl_response
szl_reply pdu_ref params szl_id =
    let content = build_szl_response szl_id in
    encode (ack_header pdu_ref 12 (length content % 2 ^ 16) 0 0)
    ++ (params ++ (put_u8 0xff ++ (put_u8 0x04 ++ (put_u16 (length content % 2 ^ 16) ++ content))))
