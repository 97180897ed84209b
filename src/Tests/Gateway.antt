-- ===== src/Tests/Gateway.antt =====
-- The gateway with one tag, and an address space that is the last value that was set.
use rs_snap.Prelude.{ℕ, ◌≡◌, ◌≢◌, refl, ap, arith, get_or, true, some, [], ◌∷◌, ◌==◌, length}
use rs_snap.Wire.{Bytes}
use rs_snap.S7.Codes.{TransportSize, Area, transport_code}
use rs_snap.Io.{send_cotp_data, send_cotp}
use rs_snap.Cotp
use rs_snap.Tpkt
use rs_snap.S7.Header
use rs_snap.S7.WriteVar
use rs_snap.S7.Address.{put_address}
use rs_snap.S7.Sized.{put_sized}
use rs_snap.Client.Session.{Inner, send_s7, recv_s7, next_pdu_ref}
use rs_snap.Client.Areas.{db_write, write_area}
use rs_snap.Gateway.{OpcUa, TagEntry, apply_write}
use rs_snap.Gateway.Values.{
  Variant, uint16, other, bytes_to_variant, variant_to_bytes, transport_size_bytes,
}
use rs_snap.Gateway.Values.{Fits, bytes_to_variant-variant_to_bytes}
use rs_snap.Gateway.Writes.{Written, apply_write-Written}

abbrev one_value : OpcUa
one_value = record {
  NodeId = ℕ;
  Space = Variant;
  named = length;
  same_node = ◌==◌;
  has_variable = λ node_id space. true;
  set_value = λ node_id v space. v;
}

abbrev speed : TagEntry one_value
speed = record {
  node_id = 5;
  address = record {
    area = Area.data_block;
    db_number = 1;
    byte_offset = 4;
    bit_offset = 0;
    transport = TransportSize.word;
    element_count = 1;
  };
  name = [];
  writable = true;
  plc_index = 0;
}

abbrev inner : Inner
inner = record { pdu_size = 480; pdu_ref = 7; connected = true }

-- The version of the TPKT frame that is sent.
first_byte : get_or (apply_write one_value (speed ∷ []) 5 (uint16 300) other inner []).1.1.0 0 0 ≡ 3
unfolding apply_write transport_code db_write write_area next_pdu_ref send_s7 recv_s7 send_cotp_data
    send_cotp Cotp.encode Tpkt.encode Header.encode WriteVar.encode_request put_address
    WriteVar.put_item_data put_sized
first_byte = refl

speed-sends : (apply_write one_value (speed ∷ []) 5 (uint16 300) other inner []).1.1.0 ≢ []
speed-sends e = absurd (omega (arith, first_byte, ap (λ sent. get_or sent 0 0) e))

apply_write-Written_example :
    Written one_value
      (speed ∷ [])
      5
      (uint16 300)
      inner
      []
      (apply_write one_value (speed ∷ []) 5 (uint16 300) other inner []).1.1.0
apply_write-Written_example =
    apply_write-Written one_value (speed ∷ []) 5 (uint16 300) other inner [] speed-sends

bytes_to_variant-variant_to_bytes_example :
    (bytes : Bytes) × (ts : TransportSize) × (variant_to_bytes (uint16 300) ≡ some (bytes, ts))
    × (bytes_to_variant bytes ts ≡ some (uint16 300))
    × (transport_size_bytes ts 1 ≡ some (length bytes))
unfolding Fits
bytes_to_variant-variant_to_bytes_example =
    bytes_to_variant-variant_to_bytes (uint16 300) (omega arith)
