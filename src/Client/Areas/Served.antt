-- ===== src/Client/Areas/Served.antt =====
-- The reads and writes of crates/snap7-client/src/client.rs answered by the server's `respond`.
use rs_snap.Prelude.{
  ℕ, ◌+◌, ◌%◌, ◌^◌, ◌≤◌, ◌<◌, ◌≡◌, refl, ap, arith, false, [], ◌∷◌, ◌++◌, length, append-nil,
}
use rs_snap.Wire.{Bytes, IsU16, ok}
use rs_snap.S7.Codes.{Area, area_code, TransportSize, PduType}
use rs_snap.S7.Header.{S7Header}
use rs_snap.S7.Header
use rs_snap.S7.Header.Laws as HeaderLaws
use rs_snap.S7.Address.{AddressItem, by_element, put_address}
use rs_snap.S7.Address.Laws.{IsByByte}
use rs_snap.S7.Sized.{put_sized}
use rs_snap.S7.Sized.Laws.{length-put_sized_le}
use rs_snap.S7.ReadVar.{ReadVarRequest, DataItem, func_read_var}
use rs_snap.S7.ReadVar
use rs_snap.S7.ReadVar.Response.{ReadVarResponse-decode-encode}
use rs_snap.Io.{done}
use rs_snap.Io.Frames.{data_frame}
use rs_snap.Server.Memory.Laws.{length-read_range}
use rs_snap.Server.Replies.{ack_data}
use rs_snap.Server.Replies.Laws.{decode-ack_data}
use rs_snap.Server.Store.{Store, Callbacks, range_len}
use rs_snap.Server.Store.Access.{IsQuiet}
use rs_snap.Server.Dispatch.{read_items, respond}
use rs_snap.Server.Dispatch.Variables.{
  contents, respond-read, read_items-contents, read_items-memory,
}
use rs_snap.Client.Session.{Inner, next_pdu_ref, request_header, request_payload}
use rs_snap.Client.Session.Frames.{send_s7-framed, recv_s7-framed}
use rs_snap.Client.Areas.{read_area}

-- The reference of the next request.
abbrev pub next_ref : Inner → ℕ
next_ref inner = (inner.pdu_ref + 1) % 2 ^ 16

abbrev pub counted : Inner → Inner
counted inner = record inner { pdu_ref = next_ref inner }

abbrev pub item_of : Area → (db start n : ℕ) → TransportSize → AddressItem
item_of area db start n transport = record {
  area = area;
  db_number = db;
  start = start;
  bit_offset = 0;
  length = n;
  transport = transport;
}

pub request_header-IsValid :
    (r p d : ℕ)
    → IsU16 r
    → IsU16 p
    → IsU16 d
    → HeaderLaws.IsValid (request_header r p d PduType.job)
request_header-IsValid r p d hr hp hd = record {
  reserved_fits = omega arith;
  pdu_ref_fits = hr;
  param_len_fits = hp;
  data_len_fits = hd;
  error_fits = tt;
}

pub length-ack_data :
    (r f n : ℕ) (content : Bytes) → length (ack_data r f n content) ≡ 14 + length content
unfolding ack_data Header.encode
length-ack_data r f n content = omega arith

abbrev pub read_payload : Inner → AddressItem → Bytes
read_payload inner item =
    request_payload (ReadVar.encode_request (record { items = item ∷ [] })) [] (next_ref inner)
      PduType.job

length-read_payload :
    (inner : Inner) (item : AddressItem) → length (read_payload inner item) ≤ 65528
unfolding Header.encode ReadVar.encode_request ReadVar.put_addresses put_address
length-read_payload inner item = omega arith

length-one_item :
    (c : ℕ) (content : Bytes)
    → length content < 8192
    → length (
        ReadVar.encode_response
          (record { items = record { return_code = c; content = content } ∷ [] }))
      ≤ 60000
unfolding ReadVar.encode_response ReadVar.encode_items ReadVar.put_item
length-one_item c content h =
    omega (arith, ap length (append-nil (put_sized content)), length-put_sized_le content)

-- The reply that carries these bytes.
abbrev pub read_reply : ℕ → Bytes → Bytes
read_reply r content = ack_data r func_read_var 1 (
    ReadVar.encode_response
      (record { items = record { return_code = 0xff; content = content } ∷ [] }))

length-read_reply :
    (r : ℕ) (content : Bytes) → length content < 8192 → length (read_reply r content) ≤ 65528
length-read_reply r content h = omega (
  arith,
  length-ack_data r func_read_var 1 (
      ReadVar.encode_response
        (record { items = record { return_code = 0xff; content = content } ∷ [] })),
  length-one_item 0xff content h,
)

read_area-read_reply :
    (area : Area) (db start n : ℕ) (transport : TransportSize) (inner : Inner)
    (content rest : Bytes)
    → length content < 8192
    → read_area area db start n transport inner
        (data_frame (read_reply (next_ref inner) content) ++ rest)
      ≡ (
        counted inner,
        (data_frame (read_payload inner (item_of area db start n transport)), done (content, rest)),
      )
unfolding read_area next_pdu_ref
read_area-read_reply area db start n transport inner content rest h =
    let reply : Bytes = read_reply (next_ref inner) content in
    let item : AddressItem = item_of area db start n transport in
    rw (
      send_s7-framed (ReadVar.encode_request (record { items = item ∷ [] })) [] (next_ref inner)
          PduType.job (counted inner) (data_frame reply ++ rest) (length-read_payload inner item),
      recv_s7-framed reply _ rest _ (counted inner) (length-read_reply (next_ref inner) content h)
          (decode-ack_data (next_ref inner) (omega arith) func_read_var 1 _),
      rw append-nil at (
          ReadVarResponse-decode-encode
            (record { items = record { return_code = 0xff; content = content } ∷ [] }) [] (h, tt)),
      append-nil (data_frame (read_payload inner item)),
    )

respond-read_payload :
    (calls : Callbacks) (quiet : IsQuiet calls) (inner : Inner) (item : AddressItem) (s : Store)
    → IsByByte item
    → (after : Store) × (respond calls (read_payload inner item) s
        ≡ ok (read_reply (next_ref inner) (contents s.memory item), after))
      × (after.memory ≡ s.memory)
respond-read_payload calls quiet inner item s v =
    let body : Bytes = ReadVar.encode_request (record { items = item ∷ [] }) in
    let header : S7Header = request_header (next_ref inner) (length body % 2 ^ 16) 0 PduType.job in
    (
      (read_items calls (item ∷ []) s).1,
      rw (append-nil {A = ℕ}) (
          rw (read_items-contents calls quiet (item ∷ []) s) at (
            respond-read calls header
              (request_header-IsValid (next_ref inner) (length body % 2 ^ 16) 0 (omega arith)
                (omega arith) (omega arith))
              refl (record { items = item ∷ [] }) s (v, tt) (omega arith))),
      read_items-memory calls quiet (item ∷ []) s,
    )

module _ (calls : Callbacks) (quiet : IsQuiet calls) where
  -- A client that reads an area by byte gets from the server just what the store holds there: the
  -- request that it sends is answered with a reply on which the read returns the bytes of the store,
  -- and the read leaves the reply used up, the connection up and the reference of its request. The
  -- start is below 2^21, less than 8192 bytes are read, and the callbacks leave the bytes alone.
  pub read_area-respond :
      (area : Area) (db start n : ℕ) (transport : TransportSize) (inner : Inner) (s : Store)
      (rest : Bytes)
      → by_element transport ≡ false
      → IsU16 db
      → start < 2 ^ 21
      → n < 8192
      → (reply : Bytes) × (after : Store) × (respond calls
            (read_payload inner (item_of area db start n transport))
            s
          ≡ ok (reply, after))
        × (after.memory ≡ s.memory)
        × (read_area area db start n transport inner (data_frame reply ++ rest) ≡ (
          counted inner,
          (
            data_frame (read_payload inner (item_of area db start n transport)),
            done (contents s.memory (item_of area db start n transport), rest),
          ),
        ))
  read_area-respond area db start n transport inner s rest by_byte hdb hs hn =
      let item : AddressItem = item_of area db start n transport in
      let ok_item : IsByByte item = record {
        by_byte = by_byte;
        start_fits = hs;
        bit_fits = omega arith;
        db_number_fits = hdb;
        length_fits = omega arith;
      } in
      let short : length (contents s.memory item) < 8192 =
        omega (arith, length-read_range s.memory (area_code area) db start (range_len start n)) in
      let (after, answered, same) = respond-read_payload calls quiet inner item s ok_item in
      (
        _,
        after,
        answered,
        same,
        read_area-read_reply area db start n transport inner (contents s.memory item) rest short,
      )
