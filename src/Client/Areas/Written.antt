-- ===== src/Client/Areas/Written.antt =====
-- A write of crates/snap7-client/src/client.rs answered by the server's `respond`, and the read after it.
use rs_snap.Prelude.{
  ℕ, ◌%◌, ◌^◌, ◌≤◌, ◌<◌, ◌≡◌, refl, ap, arith, false, [], ◌∷◌, ◌++◌, length, append-nil,
}
use rs_snap.Wire.{Bytes, IsU16, ok, put_all}
use rs_snap.S7.Codes.{Area, area_code, TransportSize, PduType}
use rs_snap.S7.Header.{S7Header}
use rs_snap.S7.Header
use rs_snap.S7.Address.{by_element, put_address}
use rs_snap.S7.Address.Laws.{IsByByte}
use rs_snap.S7.Sized.{put_sized}
use rs_snap.S7.Sized.Laws.{length-put_sized_le}
use rs_snap.S7.WriteVar.{WriteItem, WriteVarRequest, func_write_var}
use rs_snap.S7.WriteVar
use rs_snap.S7.WriteVar.Laws.{IsByByteItem}
use rs_snap.Io.{done}
use rs_snap.Io.Frames.{data_frame}
use rs_snap.Server.Replies.{ack_data}
use rs_snap.Server.Replies.Laws.{decode-ack_data}
use rs_snap.Server.Store.{Store, Callbacks, is_area_locked}
use rs_snap.Server.Store.Access.{IsQuiet}
use rs_snap.Server.Dispatch.{write_items, respond}
use rs_snap.Server.Dispatch.Variables.{respond-write, contents_written}
use rs_snap.Client.Session.{Inner, next_pdu_ref, request_header, request_payload}
use rs_snap.Client.Session.Frames.{send_s7-framed, recv_s7-framed}
use rs_snap.Client.Areas.{read_area, write_area}
use rs_snap.Client.Areas.Served.{
  next_ref, counted, item_of, request_header-IsValid, length-ack_data, read_payload,
  read_area-respond,
}

abbrev pub write_item_of : Area → (db start : ℕ) → TransportSize → Bytes → WriteItem
write_item_of area db start transport content = record {
  address = item_of area db start (length content % 2 ^ 16) transport;
  content = content;
}

abbrev pub write_payload : Inner → WriteItem → Bytes
write_payload inner item =
    request_payload (WriteVar.encode_request (record { items = item ∷ [] })) [] (next_ref inner)
      PduType.job

length-write_payload :
    (inner : Inner) (item : WriteItem)
    → length item.content < 8192
    → length (write_payload inner item) ≤ 65528
unfolding Header.encode WriteVar.encode_request put_all put_address WriteVar.put_item_data
length-write_payload inner item h = omega (
  arith,
  length-put_sized_le item.content,
  ap length (append-nil (put_sized item.content)),
  ap length (append-nil (put_sized item.content ++ [])),
)

abbrev write_reply : ℕ → Bytes
write_reply r = ack_data r func_write_var 1 (0xff ∷ [])

write_area-write_reply :
    (area : Area) (db start : ℕ) (transport : TransportSize) (inner : Inner) (content rest : Bytes)
    → length content < 8192
    → write_area area db start transport content inner
        (data_frame (write_reply (next_ref inner)) ++ rest)
      ≡ (
        counted inner,
        (
          data_frame (write_payload inner (write_item_of area db start transport content)),
          done (tt, rest),
        ),
      )
unfolding write_area next_pdu_ref WriteVar.decode_response WriteVar.get_code
write_area-write_reply area db start transport inner content rest h =
    let reply : Bytes = write_reply (next_ref inner) in
    let item : WriteItem = write_item_of area db start transport content in
    rw (
      send_s7-framed (WriteVar.encode_request (record { items = item ∷ [] })) [] (next_ref inner)
          PduType.job (counted inner) (data_frame reply ++ rest)
          (length-write_payload inner item h),
      recv_s7-framed reply _ rest _ (counted inner)
          (omega (arith, length-ack_data (next_ref inner) func_write_var 1 (0xff ∷ [])))
          (decode-ack_data (next_ref inner) (omega arith) func_write_var 1 (0xff ∷ [])),
      append-nil (data_frame (write_payload inner item)),
    )

respond-write_payload :
    (calls : Callbacks) (inner : Inner) (item : WriteItem) (s : Store)
    → IsByByteItem item
    → respond calls (write_payload inner item) s
      ≡ ok (write_reply (next_ref inner), write_items calls (item ∷ []) s)
respond-write_payload calls inner item s v =
    let body : Bytes = WriteVar.encode_request (record { items = item ∷ [] }) in
    let header : S7Header = request_header (next_ref inner) (length body % 2 ^ 16) 0 PduType.job in
    rw (append-nil body) (
      respond-write calls header
        (request_header-IsValid (next_ref inner) (length body % 2 ^ 16) 0 (omega arith)
          (omega arith) (omega arith))
        refl (record { items = item ∷ [] }) s (v, tt) (omega arith))

module _ (calls : Callbacks) (quiet : IsQuiet calls) where
  -- What a client writes to an area that is not locked, a client reads back: the server's reply to the
  -- write makes `write_area` succeed, and on the server's reply to a read of the same range
  -- `read_area` returns the bytes written. The start is below 2^21, less than 8192 bytes are written,
  -- and the callbacks leave the bytes and the locks alone.
  pub read_area-after-write_area :
      (area : Area) (db start : ℕ) (transport : TransportSize) (content : Bytes)
      (writer reader : Inner) (s : Store) (rest rest' : Bytes)
      → by_element transport ≡ false
      → IsU16 db
      → start < 2 ^ 21
      → length content < 8192
      → is_area_locked (area_code area) s ≡ false
      → (written read : Bytes) × (after last : Store) × (respond calls
            (write_payload writer (write_item_of area db start transport content))
            s
          ≡ ok (written, after))
        × (write_area area db start transport content writer (data_frame written ++ rest) ≡ (
          counted writer,
          (
            data_frame (write_payload writer (write_item_of area db start transport content)),
            done (tt, rest),
          ),
        ))
        × (respond calls
              (read_payload reader (item_of area db start (length content) transport))
              after
            ≡ ok (read, last))
        × (read_area area db start (length content) transport reader (data_frame read ++ rest') ≡ (
          counted reader,
          (
            data_frame (read_payload reader (item_of area db start (length content) transport)),
            done (content, rest'),
          ),
        ))
  read_area-after-write_area area db start transport content writer reader s rest rest' by_byte hdb
        hs hn free =
      let item : WriteItem = write_item_of area db start transport content in
      let small : length content % 2 ^ 16 ≡ length content = omega arith in
      let address : IsByByte item.address = record {
        by_byte = by_byte;
        start_fits = hs;
        bit_fits = omega arith;
        db_number_fits = hdb;
        length_fits = omega arith;
      } in
      let after : Store = write_items calls (item ∷ []) s in
      let (read, last, answered, same, returned) =
        read_area-respond calls quiet area db start (length content) transport reader after rest'
          by_byte hdb hs hn in
      (
        write_reply (next_ref writer),
        read,
        after,
        last,
        respond-write_payload calls writer item s (address, hn),
        write_area-write_reply area db start transport writer content rest hn,
        answered,
        rw (rw small at (contents_written calls quiet item s (address, hn) small free)) at returned,
      )
