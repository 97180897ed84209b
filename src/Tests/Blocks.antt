-- ===== src/Tests/Blocks.antt =====
-- Blocks, their uploads and downloads, and datagrams at concrete values.
use rs_snap.Prelude.{
  ◌-◌, ◌≤◌, ◌≡◌, refl, arith, true, some, none, List, [], ◌∷◌, ◌++◌, length, take, All,
}
use rs_snap.Wire.{Bytes, put_u32, ok}
use rs_snap.Io.{done}
use rs_snap.Io.Frames.{data_frame}
use rs_snap.S7.Codes.{pdu_code, pdu_type_of}
use rs_snap.S7.Header
use rs_snap.Server.Replies.{ack_header}
use rs_snap.Client.Session.{Inner}
use rs_snap.Client.Areas.Served.{next_ref, counted}
use rs_snap.Client.Blocks.{download}
use rs_snap.Client.Blocks.Chunks.{after, concat}
use rs_snap.Client.Blocks.Sent.{download_acks, download_requests, download-Sends}
use rs_snap.Client.BlockData.{BlockData, BlockAttributes, crc32_ieee, set_attributes}
use rs_snap.Client.BlockData.Attributes.{joined, written, version_or, set_attributes-joined}
use rs_snap.Udp.{UdpTransport, Received, datagram, nothing_yet}
use rs_snap.Udp.Stream.{poll_all, stream, poll_all-stream}

-- A PDU with room for two bytes.
abbrev narrow : Inner
narrow = record { pdu_size = 52; pdu_ref = 7; connected = true }

abbrev five : Bytes
five = 1 ∷ 2 ∷ 3 ∷ 4 ∷ 5 ∷ []

abbrev accepted : Bytes
accepted = Header.encode (ack_header (next_ref narrow) 0 6 0 0) ++ (0 ∷ 0 ∷ put_u32 9 ++ [])

decode-accepted :
    Header.decode accepted ≡ ok (ack_header (next_ref narrow) 0 6 0 0, 0 ∷ 0 ∷ put_u32 9 ++ [])
unfolding Header.decode Header.encode pdu_code pdu_type_of
decode-accepted = refl

download-Sends_example :
    (chunks : List Bytes) × (take (narrow.pdu_size - 50) five ++ concat chunks ≡ five)
    × All (λ chunk. length chunk ≤ narrow.pdu_size - 50) chunks
    × ((rest : Bytes)
        → download 0x41 1 five narrow
            (data_frame accepted ++ (download_acks (length chunks) narrow ++ rest))
          ≡ (
            counted (after (length chunks) (counted narrow)),
            (download_requests 0x41 1 five 9 chunks narrow, done (tt, rest)),
          ))
unfolding Header.encode
download-Sends_example =
    download-Sends 0x41 1 five accepted [] 0 0 0 6 9 narrow (omega arith) (omega arith)
      (omega arith) decode-accepted

abbrev block : BlockData
block = record {
  block_type = 0x41;
  block_number = 1;
  format = 0;
  total_length = 22;
  flags = 0;
  crc1 = 0x1234;
  crc2 = 0x5678;
  payload = 0xde ∷ 0xad ∷ [];
}

-- "123456789"
check_value :
    crc32_ieee (0x31 ∷ 0x32 ∷ 0x33 ∷ 0x34 ∷ 0x35 ∷ 0x36 ∷ 0x37 ∷ 0x38 ∷ 0x39 ∷ []) ≡ 0xcbf43926
unfolding crc32_ieee
check_value = refl

-- "abc"
abbrev abc : Bytes
abc = 0x61 ∷ 0x62 ∷ 0x63 ∷ []

abbrev eight : Bytes
eight = 1 ∷ 2 ∷ 3 ∷ 4 ∷ 5 ∷ 6 ∷ 7 ∷ 8 ∷ []

abbrev fifteen : Bytes
fifteen = eight ++ (9 ∷ 10 ∷ 11 ∷ 12 ∷ 13 ∷ 14 ∷ 15 ∷ [])

abbrev with_footer : BlockData
with_footer = record block { payload = five ++ joined eight eight eight eight 16 fifteen }

abbrev by_abc : BlockAttributes
by_abc = record { author = some abc; family = none; name = none; version = some 32; flags = none }

set_attributes-joined_example :
    (set_attributes by_abc with_footer).payload
    ≡ five
      ++ joined eight
          (written (some abc) eight)
          (written none eight)
          (written none eight)
          (version_or (some 32) 16)
          fifteen
set_attributes-joined_example =
    set_attributes-joined by_abc with_footer five eight eight eight eight fifteen 16
      (record {
        reserved_size = refl;
        author_size = refl;
        family_size = refl;
        name_size = refl;
        behind_size = refl;
      })
      refl

abbrev socket : List Received
socket = datagram five ∷ nothing_yet ∷ datagram abc ∷ []

abbrev idle : UdpTransport
idle = record { read_buf = [] }

poll_all-stream_example :
    (poll_all (3 ∷ 8 ∷ 8 ∷ []) idle socket).0
      ++ ((poll_all (3 ∷ 8 ∷ 8 ∷ []) idle socket).1.0.read_buf
          ++ stream (poll_all (3 ∷ 8 ∷ 8 ∷ []) idle socket).1.1)
    ≡ idle.read_buf ++ stream socket
poll_all-stream_example = poll_all-stream (3 ∷ 8 ∷ 8 ∷ []) idle socket
