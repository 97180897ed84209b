-- ===== src/Tests/Client.antt =====
-- The client against the server at concrete requests.
use rs_snap.Prelude.{List, ◌≤◌, ◌≡◌, refl, arith, true, false, min, [], ◌∷◌, ◌++◌, length, All, map}
use rs_snap.Wire.{Bytes, ok}
use rs_snap.Io.{done}
use rs_snap.Io.Frames.{data_frame}
use rs_snap.S7.Codes.{Area, TransportSize, area_code}
use rs_snap.S7.Address.{by_element, put_address}
use rs_snap.S7.Header
use rs_snap.S7.ReadVar
use rs_snap.S7.Sized.{put_sized}
use rs_snap.Server.Memory.{read_range}
use rs_snap.Server.Replies.{ack_data}
use rs_snap.Server.Store.{Store, Callbacks, new_store, is_area_locked}
use rs_snap.Server.Store.Access.{IsQuiet}
use rs_snap.Server.Dispatch.{respond}
use rs_snap.Server.Dispatch.Variables.{contents}
use rs_snap.Server.Handshake.{server_handshake}
use rs_snap.Client.Connection.{ConnectParams, connect}
use rs_snap.Client.Connection.Agreement.{from_client, from_server, connect-server_handshake}
use rs_snap.Client.Session.{Inner}
use rs_snap.Client.Areas.{read_area, write_area}
use rs_snap.Client.MultiVars.{read_address, read_batch}
use rs_snap.Client.MultiVars.Served.{batch_payload, batch_reply, read_batch-respond}
use rs_snap.Client.Areas.Served.{next_ref, counted, item_of, read_payload, read_area-respond}
use rs_snap.Client.Areas.Written.{write_item_of, write_payload, read_area-after-write_area}
use rs_snap.Client.Batch.{MultiReadItem, MultiWriteItem, batches, cut, read_batches}
use rs_snap.Client.Batch.Laws.{concat}
use rs_snap.Client.MultiVars.{read_multi_vars}
use rs_snap.Client.MultiVars.Asked.{IsReadBatch, Asked, read_multi_vars-Asked}

abbrev silent : Callbacks
silent = record { on_access = λ cb info s. s; on_cpu = λ cb event s. s }

silent-IsQuiet : IsQuiet silent
silent-IsQuiet = record { keeps_memory = λ cb info s. refl; keeps_locks = λ cb info s. refl }

abbrev hello : Bytes
hello = 0x68 ∷ 0x69 ∷ []

abbrev params : ConnectParams
params = record { rack = 0; slot = 2; pdu_size = 960 }

connect-server_handshake_example :
    (server_handshake (from_client params ++ hello)
      ≡ (from_server params, done (min 960 480, hello)))
    × (connect params (from_server params ++ []) ≡ (from_client params, done (min 960 480, [])))
connect-server_handshake_example =
    connect-server_handshake params hello []
      (record { rack_fits = omega arith; slot_fits = omega arith; pdu_size_fits = omega arith })

abbrev inner : Inner
inner = record { pdu_size = 480; pdu_ref = 65535; connected = true }

byte-by_byte : by_element TransportSize.byte ≡ false
unfolding by_element
byte-by_byte = refl

db-unlocked : is_area_locked (area_code Area.data_block) new_store ≡ false
unfolding is_area_locked area_code new_store
db-unlocked = refl

read_area-respond_example :
    (reply : Bytes) × (after : Store) × (respond silent
        (read_payload inner (item_of Area.data_block 1 4 2 TransportSize.byte))
        new_store
      ≡ ok (reply, after))
    × (after.memory ≡ new_store.memory)
    × (read_area Area.data_block 1 4 2 TransportSize.byte inner (data_frame reply ++ []) ≡ (
      counted inner,
      (
        data_frame (read_payload inner (item_of Area.data_block 1 4 2 TransportSize.byte)),
        done (contents new_store.memory (item_of Area.data_block 1 4 2 TransportSize.byte), []),
      ),
    ))
read_area-respond_example =
    read_area-respond silent silent-IsQuiet Area.data_block 1 4 2 TransportSize.byte inner new_store
      [] byte-by_byte (omega arith) (omega arith) (omega arith)

read_area-after-write_area_example :
    (written read : Bytes) × (after last : Store) × (respond silent
        (write_payload inner (write_item_of Area.data_block 1 4 TransportSize.byte hello))
        new_store
      ≡ ok (written, after))
    × (write_area Area.data_block 1 4 TransportSize.byte hello inner (data_frame written ++ []) ≡ (
      counted inner,
      (
        data_frame
            (write_payload inner (write_item_of Area.data_block 1 4 TransportSize.byte hello)),
        done (tt, []),
      ),
    ))
    × (respond silent (read_payload inner (item_of Area.data_block 1 4 2 TransportSize.byte)) after
        ≡ ok (read, last))
    × (read_area Area.data_block 1 4 2 TransportSize.byte inner (data_frame read ++ []) ≡ (
      counted inner,
      (
        data_frame (read_payload inner (item_of Area.data_block 1 4 2 TransportSize.byte)),
        done (hello, []),
      ),
    ))
read_area-after-write_area_example =
    read_area-after-write_area silent silent-IsQuiet Area.data_block 1 4 TransportSize.byte hello
      inner inner new_store [] [] byte-by_byte (omega arith) (omega arith) (omega arith) db-unlocked

abbrev large : MultiReadItem
large = record {
  area = Area.data_block;
  db_number = 1;
  start = 0;
  length = 400;
  transport = TransportSize.byte;
}

abbrev connected : Inner
connected = record { pdu_size = 480; pdu_ref = 0; connected = true }

read_multi_vars-Asked_example :
    (batches : List (List MultiReadItem)) × (concat batches ≡ large ∷ large ∷ [])
    × All (IsReadBatch 480) batches
    × Asked connected batches (read_multi_vars (large ∷ large ∷ []) connected hello)
read_multi_vars-Asked_example = read_multi_vars-Asked (large ∷ large ∷ []) connected hello

-- The two do not fit one response.
large_apart : read_batches 480 (large ∷ large ∷ []) ≡ (large ∷ []) ∷ (large ∷ []) ∷ []
unfolding read_batches batches cut
large_apart = refl

abbrev small : MultiWriteItem
small = record { area = Area.marker; db_number = 0; start = 8; content = hello }

abbrev two_words : List MultiReadItem
two_words =
    record {
      area = Area.data_block;
      db_number = 1;
      start = 4;
      length = 2;
      transport = TransportSize.word;
    }
    ∷ record {
      area = Area.marker;
      db_number = 0;
      start = 8;
      length = 1;
      transport = TransportSize.byte;
    }
    ∷ []

two_words-request_fits : length (batch_payload inner two_words) ≤ 65528
unfolding Header.encode ReadVar.encode_request ReadVar.put_addresses put_address
two_words-request_fits = omega arith

two_words-reply_fits :
    length (batch_reply (next_ref inner) new_store.memory (map read_address two_words)) ≤ 65528
unfolding ack_data Header.encode ReadVar.encode_response ReadVar.encode_items ReadVar.put_item
    put_sized read_range new_store
two_words-reply_fits = omega arith

read_batch-respond_example :
    (after : Store) × (respond silent (batch_payload inner two_words) new_store
      ≡ ok (batch_reply (next_ref inner) new_store.memory (map read_address two_words), after))
    × (after.memory ≡ new_store.memory)
    × (read_batch two_words inner (
          data_frame (batch_reply (next_ref inner) new_store.memory (map read_address two_words))
          ++ [])
        ≡ (
          counted inner,
          (
            data_frame (batch_payload inner two_words),
            done (map (contents new_store.memory) (map read_address two_words), []),
          ),
        ))
read_batch-respond_example =
    read_batch-respond silent silent-IsQuiet two_words inner new_store []
      ((omega arith, omega arith, omega arith), ((omega arith, omega arith, omega arith), tt))
      (omega arith) two_words-request_fits two_words-reply_fits
