-- ===== src/Client/Wrappers/Forced.antt =====
-- Where the force commands of crates/snap7-client/src/client.rs write, with the server at the other end.
use rs_snap.Prelude.{ℕ, ◌*◌, ◌%◌, ◌^◌, ◌<◌, ◌≡◌, refl, arith, false, [], ◌∷◌, ◌++◌}
use rs_snap.Wire.{Bytes, ok}
use rs_snap.S7.Codes.{Area, area_code, TransportSize}
use rs_snap.S7.Address.{by_element}
use rs_snap.Io.{done}
use rs_snap.Io.Frames.{data_frame}
use rs_snap.Server.Store.{Store, Callbacks, is_area_locked}
use rs_snap.Server.Store.Access.{IsQuiet}
use rs_snap.Server.Dispatch.{respond}
use rs_snap.Client.Session.{Inner}
use rs_snap.Client.Areas.{read_area}
use rs_snap.Client.Areas.Served.{counted, item_of, read_payload}
use rs_snap.Client.Areas.Written.{write_item_of, write_payload, read_area-after-write_area}
use rs_snap.Client.Wrappers.{force_byte}

-- A byte that is forced at the byte address `addr` of an area that is not locked is, with the server
-- at the other end, the byte that a read finds at the byte address `8 * addr`. The address is below
-- 2^18, and the callbacks leave the bytes and the locks alone.
pub force_byte-address :
    (calls : Callbacks) (quiet : IsQuiet calls) (area : Area) (addr value : ℕ)
    (writer reader : Inner) (s : Store) (rest rest' : Bytes)
    → addr < 2 ^ 18
    → is_area_locked (area_code area) s ≡ false
    → (written read : Bytes) × (after last : Store) × (respond calls
          (write_payload writer (write_item_of area 0 (8 * addr) TransportSize.byte (value ∷ [])))
          s
        ≡ ok (written, after))
      × (force_byte area addr value writer (data_frame written ++ rest) ≡ (
        counted writer,
        (
          data_frame (
              write_payload writer
                (write_item_of area 0 (8 * addr) TransportSize.byte (value ∷ []))),
          done (tt, rest),
        ),
      ))
      × (respond calls (read_payload reader (item_of area 0 (8 * addr) 1 TransportSize.byte)) after
          ≡ ok (read, last))
      × (read_area area 0 (8 * addr) 1 TransportSize.byte reader (data_frame read ++ rest') ≡ (
        counted reader,
        (
          data_frame (read_payload reader (item_of area 0 (8 * addr) 1 TransportSize.byte)),
          done (value ∷ [], rest'),
        ),
      ))
unfolding force_byte by_element
force_byte-address calls quiet area addr value writer reader s rest rest' h free = rw same_start (
    read_area-after-write_area calls quiet area 0 (8 * addr) TransportSize.byte (value ∷ []) writer
      reader s rest rest' refl (omega arith) (omega arith) (omega arith) free)
  where
    same_start : addr * 8 % 2 ^ 32 ≡ 8 * addr
    same_start = omega arith
