-- ===== src/Client/Areas.antt =====
-- crates/snap7-client/src/client.rs: reads and writes of one area. `db_read` and `db_write` repeat the
-- statements of `read_area` and `write_area` for the bytes of a data block.
pub mod Served
pub mod Written
use rs_snap.Prelude.{ℕ, ◌%◌, ◌^◌, List, [], ◌∷◌, ◌++◌, length, ◌==◌, if◌then◌else◌}
use rs_snap.Wire.{Bytes}
use rs_snap.Io.{Io, done, crash, unexpected_response, plc_error, return, fail, try, value}
use rs_snap.S7.Codes.{Area, TransportSize, PduType}
use rs_snap.S7.Address.{AddressItem}
use rs_snap.S7.ReadVar.{ReadVarRequest, DataItem}
use rs_snap.S7.ReadVar
use rs_snap.S7.WriteVar.{WriteItem, WriteVarRequest}
use rs_snap.S7.WriteVar
use rs_snap.Client.Session.{
  Inner, Run, ◌>>=◌, ◌>>◌, run_io, next_pdu_ref, send_s7, recv_s7, check_plc_error,
}

-- `if body.remaining() >= 2 { body.advance(2) }`
abbrev pub skip_echo : Bytes → Bytes
skip_echo (func ∷ count ∷ rest) = rest
skip_echo body = body

-- `if body.has_remaining() { body.advance(2) }`, which panics at one byte.
abbrev pub skip_echo_write : Bytes → Io Bytes
skip_echo_write [] = return []
skip_echo_write (func ∷ []) = λ input. ([], crash)
skip_echo_write (func ∷ count ∷ rest) = return rest

-- The one item of the response.
abbrev pub first_item : List DataItem → Io Bytes
first_item [] = fail unexpected_response
first_item (item ∷ _) =
    if item.return_code == 0xff then return item.content else fail (plc_error item.return_code)

-- `resp.return_codes[0]`
abbrev pub first_code : List ℕ → Io (Unit {0})
first_code [] = λ input. ([], crash)
first_code (code ∷ _) = if code == 0xff then return tt else fail (plc_error code)

unfoldable pub read_area : Area → (db_number start element_count : ℕ) → TransportSize → Run Bytes
read_area area db_number start element_count transport = do
  pdu_ref ← next_pdu_ref
  send_s7
      (ReadVar.encode_request (record {
        items =
            record {
              area = area;
              db_number = db_number;
              start = start;
              bit_offset = 0;
              length = element_count;
              transport = transport;
            }
            ∷ [];
      }))
      [] pdu_ref PduType.job
  received ← recv_s7
  check_plc_error received.0
  resp ← run_io (try (value (ReadVar.decode_response 1 (skip_echo received.1))))
  run_io (first_item resp.items)

unfoldable pub db_read : (db start length : ℕ) → Run Bytes
unfolding read_area
db_read db start length = read_area Area.data_block db start length TransportSize.byte

unfoldable pub write_area : Area → (db_number start : ℕ) → TransportSize → Bytes → Run (Unit {0})
write_area area db_number start transport content = do
  pdu_ref ← next_pdu_ref
  send_s7
      (WriteVar.encode_request (record {
        items =
            record {
              address = record {
                area = area;
                db_number = db_number;
                start = start;
                bit_offset = 0;
                length = length content % 2 ^ 16;
                transport = transport;
              };
              content = content;
            }
            ∷ [];
      }))
      [] pdu_ref PduType.job
  received ← recv_s7
  check_plc_error received.0
  codes ← run_io (skip_echo_write received.1)
  resp ← run_io (try (value (WriteVar.decode_response 1 codes)))
  run_io (first_code resp.return_codes)

unfoldable pub db_write : (db start : ℕ) → Bytes → Run (Unit {0})
unfolding write_area
db_write db start content = write_area Area.data_block db start TransportSize.byte content
