-- ===== src/Plus/Client.antt =====
-- The client of S7CommPlus: crates/snap7-client/src/plus_client.rs and
-- crates/snap7-client/src/plus_connection.rs. An operation gives the connection that it leaves, which
-- it changes before it sends, and its run.
pub mod Addresses
pub mod Asked
pub mod Served
use rs_snap.Prelude.{
  ℕ, ◌+◌, ◌-◌, ◌*◌, ◌%◌, ◌^◌, bit_or, List, [], ◌∷◌, map, length, take, get_or, leb, if◌then◌else◌,
}
use rs_snap.Wire.{Bytes}
use rs_snap.Tpkt.{TpktFrame}
use rs_snap.Tpkt
use rs_snap.Io.{Io, ◌>>=◌, ◌>>◌, return, write_all, read_exact, try, value}
use rs_snap.Plus.DataArea.{DataArea}
use rs_snap.Plus.DataArea
use rs_snap.Plus.Frame.{S7PlusFrame, Version}
use rs_snap.Plus.Frame
use rs_snap.Plus.Session.{CreateObjectResponse, encode_create, decode_create, fc_delete_object}
use rs_snap.Plus.MultiVar.{
  VarSpec, VarResult, SetVarItem, request_area, encode_get, decode_get, encode_set,
}

pub record PlusConnection : Type 0 where
  pub session_id : ℕ
  pub seqnum : ℕ
  pub version : Version

pub record DbVarSpec : Type 0 where
  pub db : ℕ
  pub offset : ℕ
  pub length : ℕ

-- The number of a variable: a data block, and an offset of which 12 bits are kept. `<<` on 32 bits.
unfoldable pub db_lid : (db byte_offset : ℕ) → VarSpec
db_lid db byte_offset = record {
  crc = 0x48;
  lid = bit_or (bit_or 0x84000000 (db * 4096 % 2 ^ 32)) (byte_offset % 4096);
}

unfoldable pub send_plus : Version → Bytes → Io (Unit {0})
send_plus version content = do
  fb ← try (Frame.encode (record { version = version; content = content }))
  tb ← try (Tpkt.encode (record { payload = fb }))
  write_all tb

-- A TPKT length below 4 is taken for 4.
unfoldable pub recv_plus_frame : Io S7PlusFrame
recv_plus_frame = do
  hdr ← read_exact 4
  payload ← read_exact (get_or hdr 2 0 * 256 + get_or hdr 3 0 - 4)
  try (value (Frame.decode payload))

abbrev pub recv_plus_data : Io Bytes
unfolding recv_plus_frame
recv_plus_data = do frame ← recv_plus_frame; return frame.content

-- The sequence number 1 is the request's.
unfoldable pub plus_connect : Io PlusConnection
unfolding send_plus recv_plus_frame
plus_connect = do
  send_plus Version.v1 (encode_create (record { seqnum = 1 }))
  frame ← recv_plus_frame
  resp ← try (value (decode_create frame.content))
  return (record { session_id = resp.session_id; seqnum = 2; version = frame.version })

abbrev pub next_seqnum : PlusConnection → PlusConnection
next_seqnum conn = record conn { seqnum = (conn.seqnum + 1) % 2 ^ 16 }

-- A request, and the data of the response.
unfoldable pub exchange : Version → Bytes → Io Bytes
unfolding send_plus recv_plus_frame
exchange version request = send_plus version request >> recv_plus_data

abbrev pub spec_of : DbVarSpec → VarSpec
spec_of s = db_lid s.db s.offset

abbrev cut : VarResult → ℕ → Bytes
cut item len = if leb len (length item.value) then take len item.value else item.value

-- `zip`, with the values cut to the lengths that were asked for.
unfoldable pub cut_all : List VarResult → List ℕ → List Bytes
cut_all (item ∷ items) (len ∷ lens) = cut item len ∷ cut_all items lens
cut_all _ _ = []

abbrev pub lengths : List DbVarSpec → List ℕ
lengths specs = map (λ (s : DbVarSpec). s.length) specs

abbrev pub get_request : List DbVarSpec → PlusConnection → Bytes
get_request specs conn =
    encode_get
      (record { seqnum = conn.seqnum; session_id = conn.session_id; items = map spec_of specs })

unfoldable pub read_multi_vars : List DbVarSpec → PlusConnection → PlusConnection × Io (List Bytes)
unfolding exchange cut_all
read_multi_vars [] conn = (conn, return [])
read_multi_vars (s ∷ ss) conn =
    let specs : List DbVarSpec = s ∷ ss in
    (
      next_seqnum conn,
      do
        b ← exchange conn.version (get_request specs conn)
        items ← try (value (decode_get (length specs) b))
        return (cut_all items (lengths specs)),
    )

abbrev first_or_empty : List Bytes → Bytes
first_or_empty [] = []
first_or_empty (b ∷ bs) = b

unfoldable pub db_read : (db start length : ℕ) → PlusConnection → PlusConnection × Io Bytes
unfolding read_multi_vars
db_read db start length conn =
    let r = read_multi_vars (record { db = db; offset = start; length = length } ∷ []) conn in
    (r.0, do items ← r.1; return (first_or_empty items))

abbrev set_item : DbVarSpec → Bytes → SetVarItem
set_item s v = record {
  crc = (db_lid s.db s.offset).crc;
  lid = (db_lid s.db s.offset).lid;
  value = v;
}

-- `zip`
unfoldable pub set_items : List DbVarSpec → List Bytes → List SetVarItem
set_items (s ∷ specs) (v ∷ values) = set_item s v ∷ set_items specs values
set_items _ _ = []

abbrev pub set_request : List DbVarSpec → List Bytes → PlusConnection → Bytes
set_request specs values conn =
    encode_set (record {
      seqnum = conn.seqnum;
      session_id = conn.session_id;
      items = set_items specs values;
    })

unfoldable pub write_multi_vars :
    List DbVarSpec → List Bytes → PlusConnection → PlusConnection × Io (Unit {0})
unfolding exchange set_items
write_multi_vars [] values conn = (conn, return tt)
write_multi_vars (s ∷ ss) values conn =
    (next_seqnum conn, do b ← exchange conn.version (set_request (s ∷ ss) values conn); return tt)

unfoldable pub db_write : (db start : ℕ) → Bytes → PlusConnection → PlusConnection × Io (Unit {0})
unfolding write_multi_vars
db_write db start bytes conn =
    write_multi_vars (record { db = db; offset = start; length = length bytes % 2 ^ 16 } ∷ [])
      (bytes ∷ []) conn

unfoldable pub send_keepalive : Io (Unit {0})
unfolding send_plus
send_keepalive = send_plus Version.keep_alive []

unfoldable pub delete_object : PlusConnection → PlusConnection × Io (Unit {0})
unfolding exchange
delete_object conn = (
  next_seqnum conn,
  do
    b ←
        exchange conn.version
          (DataArea.encode (request_area fc_delete_object conn.seqnum conn.session_id []))
    return tt,
)
