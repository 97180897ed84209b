-- ===== src/Client/Queries/Clocks.antt =====
-- The clock of a server, set and read by clients (crates/snap7-client/src/client.rs).
use rs_snap.Prelude.{ℕ, ◌≤◌, ◌≡◌, refl, arith, [], ◌∷◌, ◌++◌, length, append-nil, take-append-drop}
use rs_snap.Wire.{Bytes, IsU16, ok}
use rs_snap.S7.Codes.{PduType}
use rs_snap.S7.Header.{S7Header}
use rs_snap.S7.Header
use rs_snap.S7.Header.Laws as HeaderLaws
use rs_snap.S7.Clock.{PlcDateTime}
use rs_snap.S7.Clock
use rs_snap.S7.Clock.Laws as ClockLaws
use rs_snap.Io.{done}
use rs_snap.Io.Frames.{data_frame}
use rs_snap.Server.Replies.{simple_ack, clock_reply}
use rs_snap.Server.Replies.Laws.{decode-simple_ack}
use rs_snap.Server.Store.{Store, Callbacks, get_clock, set_clock as store_clock}
use rs_snap.Server.Dispatch.{
  respond, dispatch, is_user_request, handle_user_data, handle_clock_user_data, set_clock_user_data,
  byte_at,
}
use rs_snap.Server.Reads.{index, slice}
use rs_snap.Client.Session.{Inner, request_header, request_payload}
use rs_snap.Client.Areas.Served.{next_ref, counted}
use rs_snap.Client.Queries.{user_params, read_clock, clock_body, set_clock}
use rs_snap.Client.Queries.Served.{request-reply, decode-request}

unfoldable pub clock_request : ℕ → Bytes → Inner → Bytes
clock_request subfn content inner =
    request_payload (user_params 0x47 subfn) content (next_ref inner) PduType.user_data

respond-clock_write :
    (calls : Callbacks) (dt : PlcDateTime) (inner : Inner) (s : Store)
    → respond calls (clock_request 2 (0xff ∷ 0x09 ∷ 0x00 ∷ 0x08 ∷ Clock.encode dt) inner) s
      ≡ ok (simple_ack (next_ref inner), store_clock (Clock.encode dt) s)
unfolding respond dispatch is_user_request handle_user_data handle_clock_user_data
    set_clock_user_data byte_at index slice clock_request Clock.encode
respond-clock_write calls dt inner s =
    rw
      (decode-request (user_params 0x47 0x02) (0xff ∷ 0x09 ∷ 0x00 ∷ 0x08 ∷ Clock.encode dt)
        (next_ref inner) PduType.user_data (omega arith) tt)
      refl

respond-clock_read :
    (calls : Callbacks) (inner : Inner) (s : Store)
    → respond calls (clock_request 1 [] inner) s
      ≡ ok (clock_reply (next_ref inner) (get_clock s), s)
unfolding respond dispatch is_user_request handle_user_data handle_clock_user_data byte_at index
    clock_request
respond-clock_read calls inner s =
    rw
      (decode-request (user_params 0x47 0x01) [] (next_ref inner) PduType.user_data (omega arith)
        tt)
      refl

length-clock_write :
    (dt : PlcDateTime) (inner : Inner)
    → length (clock_request 2 (0xff ∷ 0x09 ∷ 0x00 ∷ 0x08 ∷ Clock.encode dt) inner) ≤ 65528
unfolding clock_request Header.encode Clock.encode
length-clock_write dt inner = omega arith

length-simple_ack : (r : ℕ) → length (simple_ack r) ≤ 65528
unfolding simple_ack Header.encode
length-simple_ack r = omega arith

set_clock-reply :
    (dt : PlcDateTime) (inner : Inner) (rest : Bytes)
    → set_clock dt inner (data_frame (simple_ack (next_ref inner)) ++ rest) ≡ (
      counted inner,
      (
        data_frame (clock_request 2 (0xff ∷ 0x09 ∷ 0x00 ∷ 0x08 ∷ Clock.encode dt) inner),
        done (tt, rest),
      ),
    )
unfolding set_clock clock_request
set_clock-reply dt inner rest = rw (
  request-reply (user_params 0x47 0x02) (0xff ∷ 0x09 ∷ 0x00 ∷ 0x08 ∷ Clock.encode dt)
      (simple_ack (next_ref inner)) _ rest PduType.user_data _ inner (length-clock_write dt inner)
      (length-simple_ack (next_ref inner)) (decode-simple_ack (next_ref inner) (omega arith)),
  append-nil (data_frame (clock_request 2 (0xff ∷ 0x09 ∷ 0x00 ∷ 0x08 ∷ Clock.encode dt) inner)),
)

-- The reply to a read of the clock, with the 8 bytes on both sides of the border between the parameters
-- and the data.
decode-clock_reply :
    (r : ℕ) (clock : Bytes)
    → IsU16 r
    → Header.decode (clock_reply r clock)
      ≡ ok (
        record (request_header r 12 4 PduType.user_data) { pdu_ref = r },
        (0x00 ∷ 0x01 ∷ 0x12 ∷ 0x08 ∷ 0x12 ∷ 0x87 ∷ 0x01 ∷ 0x00 ∷ []) ++ clock,
      )
unfolding clock_reply
decode-clock_reply r clock hr = rw (take-append-drop 4 clock) (
    HeaderLaws.S7Header-decode-encode _ _ (record {
      reserved_fits = omega arith;
      pdu_ref_fits = hr;
      param_len_fits = omega arith;
      data_len_fits = omega arith;
      error_fits = tt;
    }))

length-clock_read : (inner : Inner) → length (clock_request 1 [] inner) ≤ 65528
unfolding clock_request Header.encode
length-clock_read inner = omega arith

length-clock_reply : (r : ℕ) (dt : PlcDateTime) → length (clock_reply r (Clock.encode dt)) ≤ 65528
unfolding clock_reply Header.encode Clock.encode
length-clock_reply r dt = omega arith

length-encode : (dt : PlcDateTime) → length (Clock.encode dt) ≡ 8
unfolding Clock.encode
length-encode dt = refl

clock_body-reply :
    (dt : PlcDateTime) (h : S7Header) (input : Bytes)
    → h.param_len ≡ 12
    → h.data_len ≡ 4
    → ClockLaws.IsValid dt
    → clock_body (h, 0x00 ∷ 0x01 ∷ 0x12 ∷ 0x08 ∷ 0x12 ∷ 0x87 ∷ 0x01 ∷ 0x00 ∷ Clock.encode dt) input
      ≡ ([], done (dt, input))
clock_body-reply dt h input e e' v =
    rw (e, e', length-encode dt, rw append-nil at (ClockLaws.PlcDateTime-decode-encode dt [] v))
      refl

read_clock-reply :
    (dt : PlcDateTime) (inner : Inner) (rest : Bytes)
    → ClockLaws.IsValid dt
    → read_clock inner (data_frame (clock_reply (next_ref inner) (Clock.encode dt)) ++ rest)
      ≡ (counted inner, (data_frame (clock_request 1 [] inner), done (dt, rest)))
unfolding read_clock clock_request
read_clock-reply dt inner rest v =
    rw
      (request-reply (user_params 0x47 0x01) [] (clock_reply (next_ref inner) (Clock.encode dt)) _
        rest PduType.user_data _ inner (length-clock_read inner)
        (length-clock_reply (next_ref inner) dt)
        (decode-clock_reply (next_ref inner) (Clock.encode dt) (omega arith)))
      (rw
        (
          clock_body-reply dt
              (record (request_header (next_ref inner) 12 4 PduType.user_data) {
                pdu_ref = next_ref inner;
              })
              rest refl refl v,
          append-nil (data_frame (clock_request 1 [] inner)),
        )
        refl)

-- What one client sets the server's clock to, another one reads: the reply to the first request makes
-- `set_clock` succeed, and on the reply to the second, from the store that the first one left,
-- `read_clock` returns the same date and time. The date is from 1990 to 2089 and its fields fit their
-- digits.
pub read_clock-after-set_clock :
    (calls : Callbacks) (dt : PlcDateTime) (setter reader : Inner) (s : Store) (rest rest' : Bytes)
    → ClockLaws.IsValid dt
    → (set read : Bytes) × (after : Store) × (respond calls
          (clock_request 2 (0xff ∷ 0x09 ∷ 0x00 ∷ 0x08 ∷ Clock.encode dt) setter)
          s
        ≡ ok (set, after))
      × (set_clock dt setter (data_frame set ++ rest) ≡ (
        counted setter,
        (
          data_frame (clock_request 2 (0xff ∷ 0x09 ∷ 0x00 ∷ 0x08 ∷ Clock.encode dt) setter),
          done (tt, rest),
        ),
      ))
      × (respond calls (clock_request 1 [] reader) after ≡ ok (read, after))
      × (read_clock reader (data_frame read ++ rest')
          ≡ (counted reader, (data_frame (clock_request 1 [] reader), done (dt, rest'))))
unfolding get_clock store_clock
read_clock-after-set_clock calls dt setter reader s rest rest' v = (
  simple_ack (next_ref setter),
  clock_reply (next_ref reader) (Clock.encode dt),
  store_clock (Clock.encode dt) s,
  respond-clock_write calls dt setter s,
  set_clock-reply dt setter rest,
  respond-clock_read calls reader (store_clock (Clock.encode dt) s),
  read_clock-reply dt reader rest' v,
)
