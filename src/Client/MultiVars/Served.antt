-- ===== src/Client/MultiVars/Served.antt =====
-- One batch of `read_multi_vars` of crates/snap7-client/src/client.rs answered by the server's `respond`.
use rs_snap.Prelude.{
  ℕ, ◌%◌, ◌^◌, ◌≤◌, ◌<◌, ◌≡◌, refl, ◌∙◌, arith, List, [], ◌∷◌, ◌++◌, map, length, All, append-nil,
  length-map,
}
use rs_snap.Wire.{Bytes, IsU16, ok}
use rs_snap.S7.Codes.{PduType, area_code}
use rs_snap.S7.Address.{AddressItem, by_element}
use rs_snap.S7.Address.Laws.{IsByByte}
use rs_snap.S7.ReadVar.{ReadVarRequest, DataItem, func_read_var}
use rs_snap.S7.ReadVar
use rs_snap.S7.ReadVar.Response.{Fits, ReadVarResponse-decode-encode}
use rs_snap.Io.{done}
use rs_snap.Io.Frames.{data_frame}
use rs_snap.Server.Memory.{Memory}
use rs_snap.Server.Memory.Laws.{length-read_range}
use rs_snap.Server.Store.{Store, Callbacks, range_len}
use rs_snap.Server.Store.Access.{IsQuiet}
use rs_snap.Server.Dispatch.{read_items, respond}
use rs_snap.Server.Replies.{ack_data}
use rs_snap.Server.Replies.Laws.{decode-ack_data}
use rs_snap.Server.Dispatch.Variables.{
  contents, read_result, respond-read, read_items-contents, read_items-memory,
}
use rs_snap.Client.Session.{Inner, next_pdu_ref, request_payload, request_header}
use rs_snap.Client.Session.Frames.{send_s7-framed, recv_s7-framed}
use rs_snap.Client.Areas.Served.{next_ref, counted, request_header-IsValid}
use rs_snap.Client.Batch.{MultiReadItem}
use rs_snap.Client.MultiVars.{read_address, item_contents, read_batch}

item_contents-read_result :
    (m : Memory) (items : List AddressItem) (input : Bytes)
    → item_contents (map (read_result m) items) input ≡ ([], done (map (contents m) items, input))
item_contents-read_result m [] input = refl
item_contents-read_result m (item ∷ items) input = rw (item_contents-read_result m items input)

abbrev pub batch_payload : Inner → List MultiReadItem → Bytes
batch_payload inner batch =
    request_payload (ReadVar.encode_request (record { items = map read_address batch })) []
      (next_ref inner) PduType.job

abbrev pub batch_reply : ℕ → Memory → List AddressItem → Bytes
batch_reply r m items =
    ack_data r func_read_var (length items)
      (ReadVar.encode_response (record { items = map (read_result m) items }))

pub read_batch-batch_reply :
    (batch : List MultiReadItem) (inner : Inner) (m : Memory) (rest : Bytes)
    → All Fits (map (read_result m) (map read_address batch))
    → length (batch_payload inner batch) ≤ 65528
    → length (batch_reply (next_ref inner) m (map read_address batch)) ≤ 65528
    → read_batch batch inner
        (data_frame (batch_reply (next_ref inner) m (map read_address batch)) ++ rest)
      ≡ (
        counted inner,
        (
          data_frame (batch_payload inner batch),
          done (map (contents m) (map read_address batch), rest),
        ),
      )
unfolding read_batch next_pdu_ref
read_batch-batch_reply batch inner m rest fits h k =
    let items : List AddressItem = map read_address batch in
    let results : List DataItem = map (read_result m) items in
    let n : length results ≡ length batch =
      length-map (read_result m) items ∙ length-map read_address batch in
    let reply : Bytes = batch_reply (next_ref inner) m items in
    rw (
      send_s7-framed (ReadVar.encode_request (record { items = items })) [] (next_ref inner)
          PduType.job (counted inner) (data_frame reply ++ rest) h,
      recv_s7-framed reply _ rest _ (counted inner) k
          (decode-ack_data (next_ref inner) (omega arith) func_read_var (length items) _),
      rw (append-nil, n) at (ReadVarResponse-decode-encode (record { items = results }) [] fits),
      item_contents-read_result m items rest,
      append-nil (data_frame (batch_payload inner batch)),
    )

-- An item that a request carries as it is.
abbrev pub IsShort : MultiReadItem → Type 0
IsShort item = (item.start < 2 ^ 21) × IsU16 item.db_number × (item.length < 8192)

addresses-IsByByte :
    (batch : List MultiReadItem) → All IsShort batch → All IsByByte (map read_address batch)
unfolding by_element
addresses-IsByByte [] h = tt
addresses-IsByByte (item ∷ batch) ((start, db, short), h) = (
  record {
    by_byte = refl;
    start_fits = start;
    bit_fits = omega arith;
    db_number_fits = db;
    length_fits = omega arith;
  },
  addresses-IsByByte batch h,
)

results-Fits :
    (m : Memory) (batch : List MultiReadItem)
    → All IsShort batch
    → All Fits (map (read_result m) (map read_address batch))
results-Fits m [] h = tt
results-Fits m (item ∷ batch) ((start, db, short), h) = (
  omega (
    arith,
    length-read_range m (area_code item.area) item.db_number item.start
        (range_len item.start item.length),
  ),
  results-Fits m batch h,
)

-- A batch of fewer than 256 reads, of starts below 2^21 and of less than 8192 bytes each, returns what
-- the store of the server holds of each, in their order, if the request and the reply fit a frame and
-- the callbacks leave the bytes alone; the reads do not change them.
pub read_batch-respond :
    (calls : Callbacks) (quiet : IsQuiet calls) (batch : List MultiReadItem) (inner : Inner)
    (s : Store) (rest : Bytes)
    → All IsShort batch
    → length batch < 256
    → length (batch_payload inner batch) ≤ 65528
    → length (batch_reply (next_ref inner) s.memory (map read_address batch)) ≤ 65528
    → (after : Store) × (respond calls (batch_payload inner batch) s
        ≡ ok (batch_reply (next_ref inner) s.memory (map read_address batch), after))
      × (after.memory ≡ s.memory)
      × (read_batch batch inner
            (data_frame (batch_reply (next_ref inner) s.memory (map read_address batch)) ++ rest)
          ≡ (
            counted inner,
            (
              data_frame (batch_payload inner batch),
              done (map (contents s.memory) (map read_address batch), rest),
            ),
          ))
read_batch-respond calls quiet batch inner s rest short few h k =
    let items : List AddressItem = map read_address batch in
    let body : Bytes = ReadVar.encode_request (record { items = items }) in
    let n : length (map (read_result s.memory) items) ≡ length batch =
      length-map (read_result s.memory) items ∙ length-map read_address batch in
    let m : length items ≡ length batch = length-map read_address batch in
    let small : length batch % 256 ≡ length batch = omega arith in
    (
      (read_items calls items s).1,
      rw (append-nil body, m)
          (rw (read_items-contents calls quiet items s, n, small) at
            (respond-read calls
              (request_header (next_ref inner) (length body % 2 ^ 16) 0 PduType.job)
              (request_header-IsValid (next_ref inner) (length body % 2 ^ 16) 0 (omega arith)
                (omega arith) (omega arith))
              refl (record { items = items }) s (addresses-IsByByte batch short)
              (omega (arith, m)))),
      read_items-memory calls quiet items s,
      read_batch-batch_reply batch inner s.memory rest (results-Fits s.memory batch short) h k,
    )
