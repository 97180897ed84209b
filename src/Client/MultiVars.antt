-- ===== src/Client/MultiVars.antt =====
-- crates/snap7-client/src/client.rs: `read_multi_vars` and `write_multi_vars`. A batch depends on the
-- items and the PDU size only, so the batches are cut first and then exchanged one by one.
pub mod Asked
pub mod Sent
pub mod Served
use rs_snap.Prelude.{ℕ, ◌%◌, ◌^◌, List, [], ◌∷◌, ◌++◌, map, length, ◌==◌, if◌then◌else◌}
use rs_snap.Wire.{Bytes}
use rs_snap.Io.{Io, Outcome, Error, done, failed, crash, plc_error, try, value}
use rs_snap.Io
use rs_snap.S7.Codes.{TransportSize, PduType}
use rs_snap.S7.Address.{AddressItem}
use rs_snap.S7.ReadVar.{ReadVarRequest, DataItem}
use rs_snap.S7.ReadVar
use rs_snap.S7.WriteVar.{WriteItem, WriteVarRequest}
use rs_snap.S7.WriteVar
use rs_snap.Client.Session.{
  Run, ◌>>=◌, ◌>>◌, run_io, next_pdu_ref, send_s7, recv_s7, check_plc_error,
}
use rs_snap.Client.Areas.{skip_echo}
use rs_snap.Client.Batch.{MultiReadItem, MultiWriteItem, read_batches, write_batches}

abbrev return : {A : Type 0} → A → Run A
return a = run_io (Io.return a)

-- Byte transport and a count of bytes, whatever the item's transport.
abbrev pub read_address : MultiReadItem → AddressItem
read_address item = record {
  area = item.area;
  db_number = item.db_number;
  start = item.start;
  bit_offset = 0;
  length = item.length;
  transport = TransportSize.byte;
}

-- `results[batch_start + i] = item.data`, up to the first item that failed.
abbrev pub item_contents : List DataItem → Io (List Bytes)
item_contents [] input = ([], done ([], input))
item_contents (item ∷ items) input =
    let rest = item_contents items in
    if item.return_code == 0xff
    then Io.go_on (rest input) (λ contents. Io.return (item.content ∷ contents))
    else ([], failed (plc_error item.return_code))

unfoldable pub read_batch : List MultiReadItem → Run (List Bytes)
read_batch batch = do
  pdu_ref ← next_pdu_ref
  send_s7 (ReadVar.encode_request (record { items = map read_address batch })) [] pdu_ref
      PduType.job
  received ← recv_s7
  check_plc_error received.0
  resp ← run_io (try (value (ReadVar.decode_response (length batch) (skip_echo received.1))))
  run_io (item_contents resp.items)

unfoldable pub read_each : List (List MultiReadItem) → Run (List Bytes)
read_each [] inner input = (inner, ([], done ([], input)))
read_each (batch ∷ rest) inner input =
    (do contents ← read_batch batch; more ← read_each rest; return (contents ++ more)) inner input

unfoldable pub read_multi_vars : List MultiReadItem → Run (List Bytes)
read_multi_vars items inner input = read_each (read_batches inner.pdu_size items) inner input

abbrev pub write_item : MultiWriteItem → WriteItem
write_item item = record {
  address = record {
    area = item.area;
    db_number = item.db_number;
    start = item.start;
    bit_offset = 0;
    length = length item.content % 2 ^ 16;
    transport = TransportSize.byte;
  };
  content = item.content;
}

abbrev pub check_codes : List ℕ → Io (Unit {0})
check_codes [] input = ([], done (tt, input))
check_codes (code ∷ codes) input =
    let rest = check_codes codes input in
    if code == 0xff then rest else ([], failed (plc_error code))

unfoldable pub write_batch : List MultiWriteItem → Run (Unit {0})
write_batch batch = do
  pdu_ref ← next_pdu_ref
  send_s7 (WriteVar.encode_request (record { items = map write_item batch })) [] pdu_ref PduType.job
  received ← recv_s7
  check_plc_error received.0
  resp ← run_io (try (value (WriteVar.decode_response (length batch) (skip_echo received.1))))
  run_io (check_codes resp.return_codes)

unfoldable pub write_each : List (List MultiWriteItem) → Run (Unit {0})
write_each [] inner input = (inner, ([], done (tt, input)))
write_each (batch ∷ rest) inner input = (do write_batch batch; write_each rest) inner input

unfoldable pub write_multi_vars : List MultiWriteItem → Run (Unit {0})
write_multi_vars items inner input = write_each (write_batches inner.pdu_size items) inner input
