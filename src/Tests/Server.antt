-- ===== src/Tests/Server.antt =====
-- The server at concrete stores and requests.
use rs_snap.Prelude.{
  ◌≡◌, ◌≢◌, ◌≤◌, refl, arith, true, false, none, some, [], ◌∷◌, ◌++◌, map, length,
}
use rs_snap.Wire.{Bytes, ok}
use rs_snap.S7.Codes.{PduType, Area, TransportSize, area_code}
use rs_snap.S7.Header.{S7Header, encode}
use rs_snap.S7.Header
use rs_snap.S7.Header.Laws as HeaderLaws
use rs_snap.S7.Address.{AddressItem, by_element}
use rs_snap.S7.Address.Laws.{IsByByte}
use rs_snap.S7.ReadVar.{ReadVarRequest, encode_request}
use rs_snap.S7.WriteVar.{WriteItem, WriteVarRequest, func_write_var}
use rs_snap.S7.WriteVar
use rs_snap.Server.Store.{
  EventInfo, Store, Callbacks, new_store, lock_area, is_area_locked, read_area, write_area,
  enqueue_event,
}
use rs_snap.Server.Store
use rs_snap.Server.Store.Access.{IsQuiet}
use rs_snap.Server.Store.Queue.{newest}
use rs_snap.Server.Replies.{ack_data, error_response}
use rs_snap.Server.Dispatch.{respond}
use rs_snap.Server.Dispatch.Malformed.{short, respond-IsMalformed}
use rs_snap.Server.Replies.Laws.{Answers}
use rs_snap.Server.Dispatch.Access.{After, SameArea, respond-SameArea}
use rs_snap.Server.Dispatch.Variables.{
  Received, read_result, respond-read-Received, write_then_read, respond-write_locked,
}
use rs_snap.Server.Serve.{serve}
use rs_snap.Server.Serve.Exchange.{
  IsReplied, serve-IsReplied, Exchange, finished, next, frames, serve-Exchange, Exchange-SameArea,
}
use rs_snap.Io.{done}

-- Callbacks that do nothing.
abbrev silent : Callbacks
silent = record { on_access = λ cb info s. s; on_cpu = λ cb event s. s }

silent-IsQuiet : IsQuiet silent
silent-IsQuiet = record { keeps_memory = λ cb info s. refl; keeps_locks = λ cb info s. refl }

abbrev hello : Bytes
hello = 0x68 ∷ 0x69 ∷ []

new_store-unlocked : is_area_locked 0x84 new_store ≡ false
unfolding is_area_locked new_store
new_store-unlocked = refl

abbrev db_locked : Store
db_locked = lock_area 0x84 new_store

db_locked-locked : is_area_locked 0x84 db_locked ≡ true
unfolding is_area_locked lock_area
db_locked-locked = refl

abbrev info : EventInfo
info = record { event = Store.write; area = 0x84; db_number = 1; start = 4; length = 2 }

new_store-empty : new_store.events ≡ newest []
unfolding new_store
new_store-empty = refl

abbrev job : S7Header
job = record {
  pdu_type = PduType.job;
  reserved = 0;
  pdu_ref = 7;
  param_len = 14;
  data_len = 0;
  error_class = none;
  error_code = none;
}

job-IsValid : HeaderLaws.IsValid job
job-IsValid = record {
  reserved_fits = omega arith;
  pdu_ref_fits = omega arith;
  param_len_fits = omega arith;
  data_len_fits = omega arith;
  error_fits = tt;
}

short_job : length (encode job ++ hello) ≤ 65528
unfolding encode
short_job = omega arith

serve-IsReplied_example :
    (reply : Bytes) × (after : Store) × Answers 7 reply
    × IsReplied silent 3 (encode job ++ hello) hello new_store reply after
serve-IsReplied_example = serve-IsReplied silent 3 job hello hello new_store job-IsValid short_job

hello-no_write :
    (h : S7Header) (body : Bytes)
    → Header.decode hello ≡ ok (h, func_write_var ∷ body)
    → h.pdu_type ≢ PduType.job
unfolding Header.decode
hello-no_write h body e = absurd (ground arith)

-- DB 1, bytes 4 and 5.
abbrev word_of_db : AddressItem
word_of_db = record {
  area = Area.data_block;
  db_number = 1;
  start = 4;
  bit_offset = 0;
  length = 2;
  transport = TransportSize.byte;
}

word_of_db-IsByByte : IsByByte word_of_db
unfolding by_element
word_of_db-IsByByte = record {
  by_byte = refl;
  start_fits = omega arith;
  bit_fits = omega arith;
  db_number_fits = omega arith;
  length_fits = omega arith;
}

abbrev read_word : ReadVarRequest
read_word = record { items = word_of_db ∷ [] }

respond-read-Received_example :
    (reply : Bytes) × (after : Store) × (respond silent
        (encode job ++ encode_request read_word)
        new_store
      ≡ ok (reply, after))
    × Received reply 7 1 (map (read_result new_store.memory) (word_of_db ∷ []))
    × (after.memory ≡ new_store.memory)
respond-read-Received_example =
    respond-read-Received silent silent-IsQuiet job read_word new_store job-IsValid refl
      (word_of_db-IsByByte, tt) (omega arith, tt) (omega arith)

abbrev write_word : WriteItem
write_word = record { address = word_of_db; content = hello }

write_then_read_example :
    (after last : Store) × (reply : Bytes) × (respond silent
        (encode job ++ WriteVar.encode_request (record { items = write_word ∷ [] }))
        new_store
      ≡ ok (ack_data 7 func_write_var 1 (0xff ∷ []), after))
    × (respond silent (encode job ++ encode_request (record { items = word_of_db ∷ [] })) after
        ≡ ok (reply, last))
    × Received reply 7 1 (record { return_code = 0xff; content = hello } ∷ [])
unfolding area_code
write_then_read_example =
    write_then_read silent silent-IsQuiet job job write_word new_store job-IsValid job-IsValid refl
      refl (word_of_db-IsByByte, omega arith) refl new_store-unlocked

respond-write_locked_example :
    respond silent
      (encode job ++ WriteVar.encode_request (record { items = write_word ∷ [] }))
      db_locked
    ≡ ok (ack_data 7 func_write_var 1 (0xff ∷ []), db_locked)
unfolding area_code
respond-write_locked_example =
    respond-write_locked silent job write_word db_locked job-IsValid refl
      (word_of_db-IsByByte, omega arith) db_locked-locked

respond-SameArea_example : After (SameArea 0x84 db_locked) (
    respond silent
      (encode job ++ WriteVar.encode_request (record { items = write_word ∷ [] }))
      db_locked)
respond-SameArea_example =
    respond-SameArea silent silent-IsQuiet 0x84
      (encode job ++ WriteVar.encode_request (record { items = write_word ∷ [] })) db_locked
      db_locked-locked

-- One request that is no S7 PDU, and the error that answers it.
length-error_reply : length (error_response 0 0x81 0x04) ≤ 65528
unfolding error_response encode
length-error_reply = omega arith

exchanged : (s : Store) → Exchange silent s (hello ∷ []) (error_response 0 0x81 0x04 ∷ []) s
exchanged s =
    next (omega arith) length-error_reply
      (respond-IsMalformed silent hello 0 s (short (omega arith))) finished

serve-Exchange_example :
    serve silent 2 new_store (frames (hello ∷ []))
    ≡ some (frames (error_response 0 0x81 0x04 ∷ []), done new_store)
serve-Exchange_example =
    serve-Exchange silent 2 new_store new_store (hello ∷ []) (error_response 0 0x81 0x04 ∷ [])
      (exchanged new_store) (omega arith)

Exchange-SameArea_example : SameArea 0x84 db_locked db_locked
Exchange-SameArea_example =
    Exchange-SameArea silent silent-IsQuiet 0x84 db_locked db_locked (hello ∷ [])
      (error_response 0 0x81 0x04 ∷ []) (exchanged db_locked) db_locked-locked
