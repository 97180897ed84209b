-- ===== src/Tests/Queries.antt =====
-- The queries and the commands of the client at concrete requests.
use rs_snap.Prelude.{◌*◌, ◌≡◌, refl, arith, true, false, [], ◌∷◌, ◌++◌}
use rs_snap.Wire.{Bytes, ok}
use rs_snap.S7.Codes.{Area, TransportSize, area_code}
use rs_snap.S7.Clock.{PlcDateTime}
use rs_snap.S7.Clock
use rs_snap.Io.{done}
use rs_snap.Io.Frames.{data_frame}
use rs_snap.Server.Replies.{build_szl_response}
use rs_snap.Server.Store.{Store, Callbacks, new_store, is_area_locked}
use rs_snap.Server.Store.Access.{IsQuiet}
use rs_snap.Server.Dispatch.{respond}
use rs_snap.Client.Session.{Inner}
use rs_snap.Client.Areas.{read_area}
use rs_snap.Client.Areas.Served.{counted, item_of, read_payload}
use rs_snap.Client.Areas.Written.{write_item_of, write_payload}
use rs_snap.Client.Wrappers.{force_byte}
use rs_snap.Client.Wrappers.Forced.{force_byte-address}
use rs_snap.Client.Queries.{read_szl_payload, set_clock, read_clock}
use rs_snap.Client.Queries.Served.{szl_request, read_szl_payload-respond}
use rs_snap.Client.Queries.Clocks.{clock_request, read_clock-after-set_clock}
use rs_snap.Client.Calendar.{date_of}
use rs_snap.Client.Calendar.Gregorian.{IsDate, seconds_until}
use rs_snap.Client.Calendar.Laws.{seconds_until-date_of}
use rs_snap.Client.Blocks.{delete_block, full_upload}
use rs_snap.Client.Blocks.Requests.{full_upload-delete_block}

abbrev silent : Callbacks
silent = record { on_access = λ cb info s. s; on_cpu = λ cb event s. s }

silent-IsQuiet : IsQuiet silent
silent-IsQuiet = record { keeps_memory = λ cb info s. refl; keeps_locks = λ cb info s. refl }

abbrev inner : Inner
inner = record { pdu_size = 480; pdu_ref = 65535; connected = true }

marker-unlocked : is_area_locked (area_code Area.marker) new_store ≡ false
unfolding is_area_locked area_code new_store
marker-unlocked = refl

read_szl_payload-respond_example :
    (reply : Bytes) × (respond silent (szl_request 0x001c 0 inner) new_store
      ≡ ok (reply, new_store))
    × (read_szl_payload 0x001c 0 inner (data_frame reply ++ []) ≡ (
      counted inner,
      (data_frame (szl_request 0x001c 0 inner), done (build_szl_response 0x001c, [])),
    ))
read_szl_payload-respond_example =
    read_szl_payload-respond silent 0x001c 0 inner new_store [] (omega arith)

abbrev noon : PlcDateTime
noon = record {
  year = 2024;
  month = 2;
  day = 29;
  hour = 12;
  minute = 30;
  second = 15;
  millisecond = 128;
  weekday = 5;
}

read_clock-after-set_clock_example :
    (set read : Bytes) × (after : Store) × (respond silent
        (clock_request 2 (0xff ∷ 0x09 ∷ 0x00 ∷ 0x08 ∷ Clock.encode noon) inner)
        new_store
      ≡ ok (set, after))
    × (set_clock noon inner (data_frame set ++ []) ≡ (
      counted inner,
      (
        data_frame (clock_request 2 (0xff ∷ 0x09 ∷ 0x00 ∷ 0x08 ∷ Clock.encode noon) inner),
        done (tt, []),
      ),
    ))
    × (respond silent (clock_request 1 [] inner) after ≡ ok (read, after))
    × (read_clock inner (data_frame read ++ [])
        ≡ (counted inner, (data_frame (clock_request 1 [] inner), done (noon, []))))
read_clock-after-set_clock_example =
    read_clock-after-set_clock silent noon inner inner new_store [] [] (record {
      from_1990 = omega arith;
      to_2089 = omega arith;
      month_fits = omega arith;
      day_fits = omega arith;
      hour_fits = omega arith;
      minute_fits = omega arith;
      second_fits = omega arith;
      millisecond_fits = omega arith;
      weekday_fits = omega arith;
    })

-- The 29th of February 2024.
seconds_until-date_of_example :
    IsDate (date_of 1709164800) × (seconds_until (date_of 1709164800) ≡ 1709164800)
seconds_until-date_of_example = seconds_until-date_of 1709164800 (omega arith)

force_byte-address_example :
    (written read : Bytes) × (after last : Store) × (respond silent
        (write_payload inner (write_item_of Area.marker 0 (8 * 3) TransportSize.byte (7 ∷ [])))
        new_store
      ≡ ok (written, after))
    × (force_byte Area.marker 3 7 inner (data_frame written ++ []) ≡ (
      counted inner,
      (
        data_frame
            (write_payload inner (write_item_of Area.marker 0 (8 * 3) TransportSize.byte (7 ∷ []))),
        done (tt, []),
      ),
    ))
    × (respond silent
          (read_payload inner (item_of Area.marker 0 (8 * 3) 1 TransportSize.byte))
          after
        ≡ ok (read, last))
    × (read_area Area.marker 0 (8 * 3) 1 TransportSize.byte inner (data_frame read ++ []) ≡ (
      counted inner,
      (
        data_frame (read_payload inner (item_of Area.marker 0 (8 * 3) 1 TransportSize.byte)),
        done (7 ∷ [], []),
      ),
    ))
force_byte-address_example =
    force_byte-address silent silent-IsQuiet Area.marker 3 7 inner inner new_store [] []
      (omega arith) marker-unlocked

full_upload-delete_block_example :
    (more : Bytes) × ((full_upload 0x41 5 inner []).1.0
      ≡ (delete_block 0x41 5 inner []).1.0 ++ more)
full_upload-delete_block_example = full_upload-delete_block 0x41 5 inner []
