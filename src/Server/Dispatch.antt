-- ===== src/Server/Dispatch.antt =====
-- crates/snap7-server/src/dispatch.rs: `dispatch_loop` from the payload of one COTP data PDU to the
-- reply, with the store that the handlers leave. `panic` stands for a read out of bounds.
pub mod Access
pub mod Answers
pub mod Malformed
pub mod Variables
use rs_snap.Prelude.{
  ℕ, ◌+◌, ◌%◌, ◌^◌, Bool, true, false, List, [], ◌∷◌, ◌++◌, length, take, drop, replicate, leb,
  ◌==◌, ◌&&◌, ◌||◌, if◌then◌else◌, get_or, bit_and,
}
use rs_snap.Wire.{Bytes, Result, ok, err, panic}
use rs_snap.S7.Codes.{PduType, area_code}
use rs_snap.S7.Header.{S7Header}
use rs_snap.S7.Header
use rs_snap.S7.Address.{AddressItem}
use rs_snap.S7.ReadVar.{
  ReadVarRequest, DataItem, ReadVarResponse, func_read_var, decode_request, encode_response,
}
use rs_snap.S7.WriteVar.{WriteItem, WriteVarRequest, func_write_var}
use rs_snap.S7.WriteVar
use rs_snap.Server.Replies.{
  simple_ack, error_response, ack_data, control_reply, clock_reply, szl_reply, szl_params,
  szl_id_of,
}
use rs_snap.Server.Reads.{and_then, index, slice}
use rs_snap.Server.Store.{Store, Callbacks, read_area, write_area, get_clock, set_clock}

-- The number of items and the bytes of a handler's answer, and the store.
abbrev pub Handled : Type 0
Handled = Result ((ℕ × Bytes) × Store)

module _ (calls : Callbacks) where
  -- `req.items.iter().map(…).collect()`
  abbrev pub read_items : List AddressItem → Store → List DataItem × Store
  read_items [] s = ([], s)
  read_items (item ∷ items) s =
      let one = read_area calls (area_code item.area) item.db_number item.start item.length s in
      let rest = read_items items one.1 in
      (record { return_code = 0xff; content = one.0 } ∷ rest.0, rest.1)

  -- `for item in &req.items { store.write_area(…) }`
  abbrev pub write_items : List WriteItem → Store → Store
  write_items [] s = s
  write_items (item ∷ items) s = write_items items (
      write_area calls (area_code item.address.area) item.address.db_number item.address.start
        item.content s)

  abbrev pub read_decoded : Result (ReadVarRequest × Bytes) → Store → Handled
  read_decoded (ok (req, rest)) s =
      let read = read_items req.items s in
      ok ((length read.0 % 256, encode_response (record { items = read.0 })), read.1)
  read_decoded (err e) s = err e
  read_decoded panic s = panic

  unfoldable pub handle_read_var : Bytes → Store → Handled
  handle_read_var payload s = read_decoded (decode_request payload) s

  abbrev pub write_decoded : Result (WriteVarRequest × Bytes) → Store → Handled
  write_decoded (ok (req, rest)) s =
      let item_count = length req.items % 256 in
      ok ((item_count, replicate item_count 0xff), write_items req.items s)
  write_decoded (err e) s = err e
  write_decoded panic s = panic

  unfoldable pub handle_write_var : Bytes → Store → Handled
  handle_write_var payload s = write_decoded (WriteVar.decode_request payload) s

  -- What is sent for a handler's answer, `Err(())` included.
  abbrev pub answer : (pdu_ref func : ℕ) → Handled → Store → Result (Bytes × Store)
  answer pdu_ref func (ok (reply, after)) s = ok (ack_data pdu_ref func reply.0 reply.1, after)
  answer pdu_ref func (err e) s = ok (error_response pdu_ref 0x81 0x04, s)
  answer pdu_ref func panic s = panic

  abbrev pub is_control : ℕ → Bool
  is_control func = func == 0x28 || func == 0x29 || func == 0x2a || func == 0x31

  -- The arm of `PduType::Job`, with `func` the first byte of the payload.
  unfoldable pub handle_job : (pdu_ref func : ℕ) → Bytes → Store → Result (Bytes × Store)
  unfolding handle_read_var handle_write_var
  handle_job pdu_ref func payload s =
      if func == func_read_var
      then answer pdu_ref func_read_var (handle_read_var payload s) s
      else if func == func_write_var
      then answer pdu_ref func_write_var (handle_write_var payload s) s
      else if is_control func
      then ok (control_reply pdu_ref func, s)
      else if func == 0x11 || func == 0x12
      then ok (simple_ack pdu_ref, s)
      else ok (error_response pdu_ref 0x81 0x04, s)

  -- `if payload.len() >= i + 1 { payload[i] } else { 0 }`
  unfoldable pub byte_at : Bytes → ℕ → Result ℕ
  unfolding index
  byte_at payload i = if leb (i + 1) (length payload) then index payload i else ok 0

  -- The arm for a new clock, which is in the bytes 12 to 19 of the payload.
  unfoldable pub set_clock_user_data : ℕ → Bytes → Store → Result (Bytes × Store)
  unfolding slice set_clock
  set_clock_user_data pdu_ref payload s =
      if leb 20 (length payload)
      then and_then (slice payload 12 20)
          (λ dt_bytes. ok (simple_ack pdu_ref, set_clock dt_bytes s))
      else ok (simple_ack pdu_ref, s)

  unfoldable pub handle_clock_user_data : ℕ → Bytes → Store → Result (Bytes × Store)
  unfolding get_clock byte_at set_clock_user_data
  handle_clock_user_data pdu_ref payload s = and_then (byte_at payload 6) (λ subfn.
      if subfn == 0x02
      then set_clock_user_data pdu_ref payload s
      else ok (clock_reply pdu_ref (get_clock s), s))

  unfoldable pub handle_szl_user_data : ℕ → Bytes → Store → Result (Bytes × Store)
  unfolding szl_id_of szl_params
  handle_szl_user_data pdu_ref payload s =
      and_then (szl_id_of payload) (λ szl_id.
        and_then (szl_params payload) (λ params. ok (szl_reply pdu_ref params szl_id, s)))

  unfoldable pub handle_user_data : ℕ → Bytes → Store → Result (Bytes × Store)
  unfolding byte_at handle_clock_user_data handle_szl_user_data
  handle_user_data pdu_ref payload s = and_then (byte_at payload 5) (λ tg.
      if bit_and tg 0x0f == 0x07
      then handle_clock_user_data pdu_ref payload s
      else handle_szl_user_data pdu_ref payload s)

  -- `payload.len() >= 5 && payload[4] == 0x11`
  unfoldable pub is_user_request : Bytes → Result Bool
  unfolding index
  is_user_request payload =
      if leb 5 (length payload)
      then and_then (index payload 4) (λ method. ok (method == 0x11))
      else ok false

  unfoldable pub dispatch : PduType → (pdu_ref func : ℕ) → Bytes → Store → Result (Bytes × Store)
  unfolding handle_job is_user_request handle_user_data
  dispatch PduType.job pdu_ref func payload s = handle_job pdu_ref func payload s
  dispatch PduType.user_data pdu_ref func payload s =
      and_then (is_user_request payload) (λ is_request.
        if is_request then handle_user_data pdu_ref payload s else ok (simple_ack pdu_ref, s))
  dispatch PduType.ack pdu_ref func payload s = ok (error_response pdu_ref 0x81 0x04, s)
  dispatch PduType.ack_data pdu_ref func payload s = ok (error_response pdu_ref 0x81 0x04, s)

  abbrev pub respond_decoded : Result (S7Header × Bytes) → Store → Result (Bytes × Store)
  respond_decoded (ok (h, [])) s = ok (error_response h.pdu_ref 0x81 0x04, s)
  respond_decoded (ok (h, func ∷ rest)) s = dispatch h.pdu_type h.pdu_ref func (func ∷ rest) s
  respond_decoded (err e) s = ok (error_response 0 0x81 0x04, s)
  respond_decoded panic s = panic

  -- One turn of the loop after `recv_cotp_data`.
  unfoldable pub respond : Bytes → Store → Result (Bytes × Store)
  unfolding dispatch
  respond payload s = respond_decoded (Header.decode payload) s
