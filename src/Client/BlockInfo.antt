-- ===== src/Client/BlockInfo.antt =====
-- crates/snap7-client/src/client.rs: what is known of a block, asked for or read from its bytes, and the
-- protection of a PLC. A string is its bytes, of which `from_utf8_lossy` changes none that are ASCII.
-- Reading past the end of a buffer is a panic.
use rs_snap.Prelude.{
  ℕ, ◌+◌, ◌-◌, ◌/◌, ◌%◌, min, Bool, true, false, ◌&&◌, ◌||◌, not, Option, none, some, [], ◌∷◌, ◌++◌,
  length, take, drop, get_or, ltb, leb, ◌==◌, if◌then◌else◌,
}
use rs_snap.Wire.{Bytes}
use rs_snap.Io.{Io, crash, unexpected_response, plc_error}
use rs_snap.Io
use rs_snap.S7.Codes.{PduType}
use rs_snap.S7.Header.{S7Header}
use rs_snap.Client.Session.{Run, ◌>>=◌, run_io}
use rs_snap.Client.Queries.{request, command, read_szl_payload, skip_szl_entry_header}
use rs_snap.Client.BlockData.{word_at, long_at, encrypt_password}

pub record BlockInfo : Type 0 where
  pub block_type : ℕ
  pub block_number : ℕ
  pub language : ℕ
  pub flags : ℕ
  pub size : ℕ
  pub size_ram : ℕ
  pub mc7_size : ℕ
  pub local_data : ℕ
  pub checksum : ℕ
  pub version : ℕ
  pub author : Bytes
  pub family : Bytes
  pub header : Bytes

-- Space, tab, line feed, vertical tab, form feed and carriage return.
abbrev is_space : ℕ → Bool
is_space c = c == 0x20 || (leb 0x09 c && leb c 0x0d)

unfoldable trim_start : Bytes → Bytes
trim_start [] = []
trim_start (c ∷ s) = if is_space c then trim_start s else c ∷ s

-- A trailing space is one with only spaces behind it.
unfoldable trim_end : Bytes → Bytes
trim_end [] = []
trim_end (c ∷ s) = if is_space c && (length (trim_end s) == 0) then [] else c ∷ trim_end s

unfoldable pub trim : Bytes → Bytes
unfolding trim_start trim_end
trim s = trim_end (trim_start s)

unfoldable pub until_null : Bytes → Bytes
until_null [] = []
until_null (c ∷ s) = if c == 0 then [] else c ∷ until_null s

unfoldable pub read_str : Bytes → Bytes
unfolding trim until_null
read_str s = trim (until_null s)

-- The digits of a number in 32 bits, as bytes.
abbrev ascii_digits : ℕ → Bytes
ascii_digits n =
    (n / 10000 + 0x30) % 256
    ∷ (n % 10000 / 1000 + 0x30)
    ∷ (n % 1000 / 100 + 0x30)
    ∷ (n % 100 / 10 + 0x30)
    ∷ (n % 10 + 0x30)
    ∷ []

-- Error code and return code of the response, and what they let through.
abbrev block_info_body : S7Header × Bytes → Io Bytes
block_info_body (header, body) =
    let params = take header.param_len body in
    let rest = drop header.param_len body in
    if ltb (length body) header.param_len
    then Io.fail unexpected_response
    else if leb 12 (length params) && not (word_at params 10 == 0)
    then Io.fail (plc_error (word_at params 10))
    else if ltb (length rest) 4
    then Io.fail unexpected_response
    else if get_or rest 0 0 == 0xff
    then Io.return (drop 4 rest)
    else Io.fail (plc_error (get_or rest 0 0))

unfoldable pub block_info_query : (func block_type block_number : ℕ) → Run Bytes
block_info_query func block_type block_number = do
  received ←
      request (0x00 ∷ 0x01 ∷ 0x12 ∷ 0x04 ∷ 0x11 ∷ 0x43 ∷ 0x03 ∷ 0x00 ∷ [])
        (0xff ∷ 0x09 ∷ 0x00 ∷ 0x08 ∷ 0x30 ∷ block_type ∷ ascii_digits block_number ++ (0x41 ∷ []))
        PduType.user_data
  run_io (block_info_body received)

-- The fields of a response; 42 bytes are read of one that has 40.
unfoldable pub block_info_of : (block_number : ℕ) → Bytes → Io BlockInfo
unfolding read_str
block_info_of block_number b =
    let behind = drop 66 b in
    if ltb (length b) 40
    then Io.fail unexpected_response
    else if ltb (length b) 42
    then (λ input. ([], crash))
    else Io.return (record {
      block_type = get_or b 1 0;
      block_number = block_number;
      language = get_or b 10 0;
      flags = get_or b 9 0;
      size = min (long_at b 14) 0xffff;
      size_ram = word_at b 34;
      mc7_size = word_at b 40;
      local_data = word_at b 38;
      checksum = if leb 4 (length behind) then word_at behind 2 else 0;
      version = if leb 1 (length behind) then get_or behind 0 0 else 0;
      author = read_str (take 8 (drop 42 b));
      family = read_str (take 8 (drop 50 b));
      header = read_str (take 8 (drop 58 b));
    })

unfoldable pub get_block_info : (func block_type block_number : ℕ) → Run BlockInfo
unfolding block_info_query block_info_of
get_block_info func block_type block_number = do
  payload ← block_info_query func block_type block_number
  run_io (block_info_of block_number payload)

unfoldable pub get_ag_block_info : (block_type block_number : ℕ) → Run BlockInfo
unfolding get_block_info
get_ag_block_info block_type block_number = get_block_info 0x13 block_type block_number

unfoldable pub get_pg_block_info : (block_type block_number : ℕ) → Run BlockInfo
unfolding get_block_info
get_pg_block_info block_type block_number = get_block_info 0x14 block_type block_number

-- Nothing stands for `UnexpectedResponse`, the only error.
unfoldable pub parse_block_info : Bytes → Option BlockInfo
unfolding read_str
parse_block_info bytes =
    let load_size = long_at bytes 8 in
    let mc7_size = word_at bytes 34 in
    let footer = drop (load_size - 48) bytes in
    if ltb (length bytes) 84
    then none
    else if not (load_size == length bytes)
    then none
    else if leb load_size (mc7_size + 36)
    then none
    else some (record {
      block_type = get_or bytes 5 0;
      block_number = word_at bytes 6;
      language = get_or bytes 4 0;
      flags = get_or bytes 3 0;
      size = min load_size 0xffff;
      size_ram = word_at bytes 28;
      mc7_size = mc7_size;
      local_data = word_at bytes 32;
      checksum = word_at footer 44;
      version = 0;
      author = read_str (take 8 (drop 20 footer));
      family = read_str (take 8 (drop 28 footer));
      header = read_str (take 8 (drop 36 footer));
    })

unfoldable pub set_session_password : Bytes → Run (Unit {0})
unfolding encrypt_password
set_session_password password = command (0x12 ∷ 0x00 ∷ []) (encrypt_password password) PduType.job

pub record Protection : Type 0 where
  pub scheme_szl : ℕ
  pub scheme_module : ℕ
  pub scheme_bus : ℕ
  pub level : ℕ
  pub password_set : Bool

abbrev upper : ℕ → ℕ
upper c = if leb 0x61 c && leb c 0x7a then c - 32 else c

unfoldable same : Bytes → Bytes → Bool
same [] [] = true
same (a ∷ s) (b ∷ t) = (upper a == upper b) && same s t
same _ _ = false

-- "PASSWORD"
abbrev password_word : Bytes
password_word = 0x50 ∷ 0x41 ∷ 0x53 ∷ 0x53 ∷ 0x57 ∷ 0x4f ∷ 0x52 ∷ 0x44 ∷ []

-- The words behind the list's header, and behind the length of an entry if one is there.
unfoldable pub protection_of : Bytes → Io Protection
unfolding trim same
protection_of payload =
    let b = skip_szl_entry_header (drop 6 payload) in
    let pass_wort = if leb 8 (length (drop 8 b)) then trim (take 8 (drop 8 b)) else [] in
    if ltb (length payload) 14
    then Io.fail unexpected_response
    else if ltb (length b) 8
    then (λ input. ([], crash))
    else Io.return (record {
      scheme_szl = word_at b 0;
      scheme_module = word_at b 2;
      scheme_bus = word_at b 4;
      level = word_at b 6;
      password_set = same pass_wort password_word;
    })

unfoldable pub get_protection : Run Protection
unfolding read_szl_payload protection_of
get_protection = do payload ← read_szl_payload 0x0032 0x0004; run_io (protection_of payload)
