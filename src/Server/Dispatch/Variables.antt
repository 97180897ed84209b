-- ===== src/Server/Dispatch/Variables.antt =====
-- Reads and writes of variables from a client's request to the reply it decodes.
use rs_snap.Prelude.{
  ℕ, ◌%◌, ◌^◌, ◌<◌, ◌≡◌, refl, ◌∙◌, ap, arith, true, false, List, [], ◌∷◌, ◌++◌, map, length, All,
  replicate, append-nil, length-map,
}
use rs_snap.Wire.{Bytes, ok}
use rs_snap.S7.Codes.{PduType, area_code}
use rs_snap.S7.Header.{S7Header, encode, decode}
use rs_snap.S7.Header.Laws.{IsValid, S7Header-decode-encode}
use rs_snap.S7.Address.{AddressItem}
use rs_snap.S7.Address.Laws.{IsByByte}
use rs_snap.S7.ReadVar.{
  ReadVarRequest, DataItem, func_read_var, encode_request, encode_response, decode_response,
}
use rs_snap.S7.ReadVar.Request.{ReadVarRequest-decode-encode}
use rs_snap.S7.ReadVar.Response.{Fits, ReadVarResponse-decode-encode}
use rs_snap.S7.WriteVar.{WriteItem, WriteVarRequest, func_write_var}
use rs_snap.S7.WriteVar
use rs_snap.S7.WriteVar.Laws.{IsByByteItem, WriteVarRequest-decode-encode}
use rs_snap.Server.Memory.{Memory, read_range}
use rs_snap.Server.Memory.Laws as MemoryLaws
use rs_snap.Server.Replies.{ack_data}
use rs_snap.Server.Replies.Laws.{decode-ack_data}
use rs_snap.Server.Store.{Store, Callbacks, range_len, read_area, is_area_locked}
use rs_snap.Server.Store.Access.{IsQuiet, read_area_quiet, read_area-write_area, write_area_locked}
use rs_snap.Server.Dispatch.{
  read_items, write_items, handle_read_var, handle_write_var, handle_job, answer, read_decoded,
  write_decoded, dispatch, respond,
}

-- The bytes of one variable, as the store holds them.
abbrev pub contents : Memory → AddressItem → Bytes
contents m item =
    read_range m (area_code item.area) item.db_number item.start (range_len item.start item.length)

abbrev pub read_result : Memory → AddressItem → DataItem
read_result m item = record { return_code = 0xff; content = contents m item }

module _ (calls : Callbacks) (h : S7Header) (v : IsValid h) (job : h.pdu_type ≡ PduType.job) where
  -- A read request is answered from the store, item by item.
  pub respond-read :
      (req : ReadVarRequest) (s : Store)
      → All IsByByte req.items
      → length req.items < 256
      → respond calls (encode h ++ encode_request req) s
        ≡ ok (
          ack_data h.pdu_ref func_read_var
              (length (read_items calls req.items s).0 % 256)
              (encode_response (record { items = (read_items calls req.items s).0 })),
          (read_items calls req.items s).1,
        )
  unfolding respond dispatch handle_job handle_read_var encode_request
  respond-read req s items few =
      rw (S7Header-decode-encode h (encode_request req) v, job)
        (ap (λ r. answer calls h.pdu_ref func_read_var (read_decoded calls r s) s)
          (rw append-nil at (ReadVarRequest-decode-encode req [] items few)))

  pub respond-write :
      (req : WriteVarRequest) (s : Store)
      → All IsByByteItem req.items
      → length req.items < 256
      → respond calls (encode h ++ WriteVar.encode_request req) s
        ≡ ok (
          ack_data h.pdu_ref func_write_var
              (length req.items % 256)
              (replicate (length req.items % 256) 0xff),
          write_items calls req.items s,
        )
  unfolding respond dispatch handle_job handle_write_var WriteVar.encode_request
  respond-write req s items few =
      rw (S7Header-decode-encode h (WriteVar.encode_request req) v, job)
        (ap (λ r. answer calls h.pdu_ref func_write_var (write_decoded calls r s) s)
          (rw append-nil at (WriteVarRequest-decode-encode req [] items few)))

-- A write to a locked area is acknowledged with the return code of success, although the store is
-- left as it was; the request writes one variable, by byte and of at most 8191 bytes.
pub respond-write_locked :
    (calls : Callbacks) (h : S7Header) (item : WriteItem) (s : Store)
    → IsValid h
    → h.pdu_type ≡ PduType.job
    → IsByByteItem item
    → is_area_locked (area_code item.address.area) s ≡ true
    → respond calls (encode h ++ WriteVar.encode_request (record { items = item ∷ [] })) s
      ≡ ok (ack_data h.pdu_ref func_write_var 1 (0xff ∷ []), s)
respond-write_locked calls h item s v job fits locked =
    rw
      (write_area_locked calls (area_code item.address.area) item.address.db_number
        item.address.start item.content s locked)
      at (respond-write calls h v job (record { items = item ∷ [] }) s (fits, tt) (omega arith))

pub read_items-contents :
    (calls : Callbacks) (quiet : IsQuiet calls) (items : List AddressItem) (s : Store)
    → (read_items calls items s).0 ≡ map (read_result s.memory) items
unfolding read_area
read_items-contents calls quiet [] s = refl
read_items-contents calls quiet (item ∷ items) s = ap (◌∷◌ (read_result s.memory item)) (
    read_items-contents calls quiet items _
    ∙ ap (λ (m : Memory). map (read_result m) items)
        (read_area_quiet calls quiet (area_code item.area) item.db_number item.start item.length
          s).0)

pub read_items-memory :
    (calls : Callbacks) (quiet : IsQuiet calls) (items : List AddressItem) (s : Store)
    → (read_items calls items s).1.memory ≡ s.memory
read_items-memory calls quiet [] s = refl
read_items-memory calls quiet (item ∷ items) s =
    read_items-memory calls quiet items _
    ∙ (read_area_quiet calls quiet (area_code item.area) item.db_number item.start item.length s).0

All-Fits :
    (m : Memory) (items : List AddressItem)
    → All (λ item. item.length < 8192) items
    → All Fits (map (read_result m) items)
All-Fits m [] h = tt
All-Fits m (item ∷ items) (l, h) = (
  omega (
    arith,
    MemoryLaws.length-read_range m (area_code item.area) item.db_number item.start
        (range_len item.start item.length),
  ),
  All-Fits m items h,
)

-- The client's view of a reply to a request of `n` variables: the header and the items.
abbrev pub Received : Bytes → (pdu_ref n : ℕ) → List DataItem → Type 0
Received reply pdu_ref n items =
    (reply_header : S7Header) × (body : Bytes) × (decode reply
      ≡ ok (reply_header, func_read_var ∷ n ∷ body))
    × (reply_header.pdu_ref ≡ pdu_ref)
    × (decode_response n body ≡ ok (record { items = items }, []))

module _ (calls : Callbacks) (quiet : IsQuiet calls) where
  -- A read request of up to 255 variables, each addressed by byte, from below 2^21 and of less than
  -- 8192 bytes, is
  -- answered with what the store holds of each, in the order of the request and with the return
  -- code of success, and the client decodes just that; the callbacks leave the bytes alone.
  pub respond-read-Received :
      (h : S7Header) (req : ReadVarRequest) (s : Store)
      → IsValid h
      → h.pdu_type ≡ PduType.job
      → All IsByByte req.items
      → All (λ item. item.length < 8192) req.items
      → length req.items < 256
      → (reply : Bytes) × (after : Store) × (respond calls (encode h ++ encode_request req) s
          ≡ ok (reply, after))
        × Received reply h.pdu_ref (length req.items) (map (read_result s.memory) req.items)
        × (after.memory ≡ s.memory)
  respond-read-Received h req s v job items short few =
      let results : List DataItem = map (read_result s.memory) req.items in
      let n : length results ≡ length req.items = length-map (read_result s.memory) req.items in
      let small : length req.items % 256 ≡ length req.items = omega arith in
      let content : Bytes = encode_response (record { items = results }) in
      (
        ack_data h.pdu_ref func_read_var (length req.items) content,
        (read_items calls req.items s).1,
        rw (read_items-contents calls quiet req.items s, n, small) at
            (respond-read calls h v job req s items few),
        (
          _,
          content,
          decode-ack_data h.pdu_ref v.pdu_ref_fits func_read_var (length req.items) content,
          refl,
          rw (n, append-nil) at
              (ReadVarResponse-decode-encode (record { items = results }) []
                (All-Fits s.memory req.items short)),
        ),
        read_items-memory calls quiet req.items s,
      )

  pub contents_written :
      (item : WriteItem) (s : Store)
      → IsByByteItem item
      → item.address.length ≡ length item.content
      → is_area_locked (area_code item.address.area) s ≡ false
      → contents (write_items calls (item ∷ []) s).memory item.address ≡ item.content
  unfolding read_area
  contents_written item s (address, short) len free =
      let bound : item.address.start < 2 ^ 21 = address.start_fits in
      rw len (
        read_area-write_area calls quiet (area_code item.address.area) item.address.db_number
          item.address.start item.content s free (omega arith))

  -- What a client writes to an area that is not locked it reads back: a request that writes one
  -- variable is acknowledged with the return code of success, and a read of the same bytes that
  -- follows is answered with the data written. The variable is addressed by byte, starts below 2^21
  -- and has less than 8192 bytes, and the callbacks leave the bytes and the locks alone.
  pub write_then_read :
      (h h' : S7Header) (item : WriteItem) (s : Store)
      → IsValid h
      → IsValid h'
      → h.pdu_type ≡ PduType.job
      → h'.pdu_type ≡ PduType.job
      → IsByByteItem item
      → item.address.length ≡ length item.content
      → is_area_locked (area_code item.address.area) s ≡ false
      → (after last : Store) × (reply : Bytes) × (respond calls
            (encode h ++ WriteVar.encode_request (record { items = item ∷ [] }))
            s
          ≡ ok (ack_data h.pdu_ref func_write_var 1 (0xff ∷ []), after))
        × (respond calls (encode h' ++ encode_request (record { items = item.address ∷ [] })) after
            ≡ ok (reply, last))
        × Received reply h'.pdu_ref 1 (record { return_code = 0xff; content = item.content } ∷ [])
  write_then_read h h' item s v v' job job' ok_item len free =
      let after : Store = write_items calls (item ∷ []) s in
      let (reply, last, answered, received, same) =
        respond-read-Received h' (record { items = item.address ∷ [] }) after v' job'
          (ok_item.0, tt) (rw len ok_item.1, tt) (omega arith) in
      (
        after,
        last,
        reply,
        respond-write calls h v job (record { items = item ∷ [] }) s (ok_item, tt) (omega arith),
        answered,
        rw (contents_written item s ok_item len free) at received,
      )
