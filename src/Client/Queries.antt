-- ===== src/Client/Queries.antt =====
-- crates/snap7-client/src/client.rs: requests that are no reads or writes of variables: system status
-- lists, the clock, and commands to the CPU.
pub mod Served
pub mod Clocks
use rs_snap.Prelude.{
  ℕ, ◌+◌, ◌-◌, ◌*◌, ◌%◌, ◌^◌, Bool, ◌&&◌, ◌||◌, not, List, [], ◌∷◌, ◌++◌, length, drop, get_or, ltb,
  leb, ◌==◌, if◌then◌else◌,
}
use rs_snap.Wire.{Bytes, put_u16}
use rs_snap.Io.{Io, unexpected_response, return, fail, try, value}
use rs_snap.S7.Codes.{PduType}
use rs_snap.S7.Header.{S7Header}
use rs_snap.S7.Szl.{SzlRequest, SzlResponse}
use rs_snap.S7.Szl
use rs_snap.S7.Clock.{PlcDateTime}
use rs_snap.S7.Clock
use rs_snap.Client.Session.{
  Run, ◌>>=◌, ◌>>◌, run_io, next_pdu_ref, send_s7, recv_s7, check_plc_error,
}

-- A request and the response to it.
abbrev pub request : (param_buf data_buf : Bytes) → PduType → Run (S7Header × Bytes)
request param_buf data_buf pdu_type = do
  pdu_ref ← next_pdu_ref
  send_s7 param_buf data_buf pdu_ref pdu_type
  recv_s7

-- A request whose response is looked at only for an error.
abbrev pub command : (param_buf data_buf : Bytes) → PduType → Run (Unit {0})
command param_buf data_buf pdu_type = do
  received ← request param_buf data_buf pdu_type
  check_plc_error received.0

-- The data envelope of a list: a short one, or a return code other than 0xFF, is an empty list.
abbrev szl_data : Bytes → Bytes
szl_data (return_code ∷ transport ∷ hi ∷ lo ∷ block) = if return_code == 0xff then block else []
szl_data _ = []

abbrev pub szl_body : S7Header × Bytes → Io Bytes
szl_body (header, body) =
    if ltb (length body) header.param_len
    then fail unexpected_response
    else return (szl_data (drop header.param_len body))

unfoldable pub read_szl_payload : (szl_id szl_index : ℕ) → Run Bytes
read_szl_payload szl_id szl_index = do
  let req : SzlRequest = record { szl_id = szl_id; szl_index = szl_index }
  received ← request (Szl.encode_params req) (Szl.encode_data req) PduType.user_data
  run_io (szl_body received)

unfoldable pub read_szl : (szl_id szl_index : ℕ) → Run SzlResponse
unfolding read_szl_payload
read_szl szl_id szl_index = do
  payload ← read_szl_payload szl_id szl_index
  run_io (try (value (Szl.decode_response payload)))

-- The last 8 bytes of the parameters and the data.
abbrev pub clock_body : S7Header × Bytes → Io PlcDateTime
clock_body (header, body) =
    let total = header.param_len + header.data_len in
    if ltb (length body) total || ltb total 8
    then fail unexpected_response
    else try (value (Clock.decode (drop (total - 8) body)))

abbrev pub user_params : (group subfn : ℕ) → Bytes
user_params group subfn = 0x00 ∷ 0x01 ∷ 0x12 ∷ 0x04 ∷ 0x11 ∷ group ∷ subfn ∷ 0x00 ∷ []

unfoldable pub read_clock : Run PlcDateTime
read_clock = do
  received ← request (user_params 0x47 0x01) [] PduType.user_data
  run_io (clock_body received)

unfoldable pub set_clock : PlcDateTime → Run (Unit {0})
set_clock dt =
    command (user_params 0x47 0x02) (0xff ∷ 0x09 ∷ 0x00 ∷ 0x08 ∷ Clock.encode dt) PduType.user_data

unfoldable pub read_force_list : Run Bytes
unfolding read_szl_payload
read_force_list = read_szl_payload 0x0025 0x0000

-- The rounds of the loop over the entries, each with its number in front.
unfoldable pub szl_ids : (entry_count entry_len : ℕ) → Bytes → List ℕ
szl_ids ℕ.zero entry_len b = []
szl_ids (ℕ.suc n) entry_len b =
    let rest = szl_ids n entry_len (drop entry_len b) in
    if ltb (length b) entry_len then [] else (get_or b 0 0 * 256 + get_or b 1 0) ∷ rest

-- The two numbers of a list, the length of an entry and the number of entries, in front of them.
abbrev pub szl_list : Bytes → Io (List ℕ)
szl_list [] = return []
szl_list (a ∷ b ∷ c ∷ d ∷ e ∷ f ∷ g ∷ h ∷ entries) =
    if ltb (e * 256 + f) 2
    then fail unexpected_response
    else return (szl_ids (g * 256 + h) (e * 256 + f) entries)
szl_list _ = fail unexpected_response

unfoldable pub read_szl_list : Run (List ℕ)
unfolding read_szl_payload
read_szl_list = do payload ← read_szl_payload 0x0000 0x0000; run_io (szl_list payload)

unfoldable pub copy_ram_to_rom : Run (Unit {0})
copy_ram_to_rom =
    command (0x00 ∷ 0x01 ∷ 0x12 ∷ 0x04 ∷ 0x43 ∷ 0x44 ∷ 0x01 ∷ 0x00 ∷ []) [] PduType.user_data

unfoldable pub compress : Run (Unit {0})
compress = command (0x00 ∷ 0x01 ∷ 0x12 ∷ 0x04 ∷ 0x42 ∷ 0x44 ∷ 0x01 ∷ 0x00 ∷ []) [] PduType.user_data

-- A program invocation by the bytes of its name.
unfoldable pub pi_service : Bytes → Run (Unit {0})
pi_service name =
    command (0x28 ∷ 0x00 ∷ 0x00 ∷ put_u16 (length name % 2 ^ 16) ++ name) [] PduType.job

-- "_MRES"
unfoldable pub memory_reset : Run (Unit {0})
unfolding pi_service
memory_reset = pi_service (b'_' ∷ b'M' ∷ b'R' ∷ b'E' ∷ b'S' ∷ [])

-- "_OVERALL_RESET"
unfoldable pub overall_reset : Run (Unit {0})
unfolding pi_service
overall_reset = pi_service (
    b'_' ∷ b'O' ∷ b'V' ∷ b'E' ∷ b'R' ∷ b'A' ∷ b'L' ∷ b'L' ∷ b'_' ∷ b'R' ∷ b'E' ∷ b'S' ∷ b'E' ∷ b'T'
    ∷ [])

unfoldable pub simple_control : ℕ → Run (Unit {0})
simple_control func = command (func ∷ 0x00 ∷ []) [] PduType.job

unfoldable pub plc_stop : Run (Unit {0})
unfolding simple_control
plc_stop = simple_control 0x29

unfoldable pub plc_hot_start : Run (Unit {0})
unfolding simple_control
plc_hot_start = simple_control 0x28

unfoldable pub plc_cold_start : Run (Unit {0})
unfolding simple_control
plc_cold_start = simple_control 0x2a

pub data PlcStatus : Type 0 where
  unknown stop run : PlcStatus

-- The byte 11 of a list of 12 bytes or more.
unfoldable pub status_of : Bytes → PlcStatus
status_of payload =
    if ltb (length payload) 12
    then PlcStatus.unknown
    else if get_or payload 11 0 == 0x00
    then PlcStatus.unknown
    else if get_or payload 11 0 == 0x08
    then PlcStatus.run
    else PlcStatus.stop

unfoldable pub get_plc_status : Run PlcStatus
unfolding read_szl_payload status_of
get_plc_status = do payload ← read_szl_payload 0x0424 0x0000; run_io (return (status_of payload))

pub record CpInfo : Type 0 where
  pub max_pdu_len : ℕ
  pub max_connections : ℕ
  pub max_mpi_rate : ℕ
  pub max_bus_rate : ℕ

abbrev cp_info : (max_pdu_len max_connections max_mpi_rate max_bus_rate : ℕ) → CpInfo
cp_info p c m b = record {
  max_pdu_len = p;
  max_connections = c;
  max_mpi_rate = m;
  max_bus_rate = b;
}

abbrev u16_at : Bytes → ℕ → ℕ
u16_at bytes i = get_or bytes i 0 * 256 + get_or bytes (i + 1) 0

abbrev u32_at : Bytes → ℕ → ℕ
u32_at bytes i = u16_at bytes i * 65536 + u16_at bytes (i + 2)

-- The entry, of `entry_len` bytes, stands behind the 8 bytes of the header of the list. A list whose
-- entries are of 12 or 13 bytes is read past its end, which panics if no more bytes follow.
abbrev entry_info : Bytes → Io CpInfo
entry_info entry =
    if leb 14 (length entry)
    then return (cp_info (u16_at entry 2) (u16_at entry 4) (u32_at entry 6) (u32_at entry 10))
    else λ input. ([], rs_snap.Io.crash)

unfoldable pub cp_info_of : Bytes → Io CpInfo
cp_info_of payload =
    let entry_len = u16_at payload 4 in
    if leb 8 (length payload)
      && (u16_at payload 0 == 0x0131)
      && leb 12 entry_len
      && leb 1 (u16_at payload 6)
      && leb (8 + entry_len) (length payload)
    then entry_info (drop 8 payload)
    else return (cp_info 0 0 0 0)

unfoldable pub get_cp_info : Run CpInfo
unfolding read_szl_payload cp_info_of
get_cp_info = do payload ← read_szl_payload 0x0131 0x0001; run_io (cp_info_of payload)

-- The length of an entry is taken for a prefix, if it is from 1 to 200.
abbrev pub skip_szl_entry_header : Bytes → Bytes
skip_szl_entry_header (a ∷ b ∷ rest) =
    if (a == 0x00) && ltb 0 b && leb b 200 then rest else a ∷ b ∷ rest
skip_szl_entry_header bytes = bytes

-- `while b.remaining() >= 2 { modules.push(b.get_u16()) }`
unfoldable pub module_types : Bytes → List ℕ
module_types (a ∷ b ∷ rest) = (a * 256 + b) ∷ module_types rest
module_types _ = []

abbrev pub modules_of : Bytes → List ℕ
modules_of payload =
    if ltb (length payload) 6 then [] else module_types (skip_szl_entry_header (drop 6 payload))

unfoldable pub read_module_list : Run (List ℕ)
unfolding read_szl_payload
read_module_list = do payload ← read_szl_payload 0x00a0 0x0000; run_io (return (modules_of payload))
