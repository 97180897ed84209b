-- ===== src/Client/Connection/Agreement.antt =====
-- `connect` of the client against `server_handshake` of the server.
use rs_snap.Prelude.{ℕ, ◌<◌, ◌≡◌, refl, arith, min, [], ◌++◌, length, append_assoc, append-nil}
use rs_snap.Wire.{Bytes, IsU16}
use rs_snap.Cotp.{CotpPdu, connect_request, connect_confirm, dt}
use rs_snap.Cotp
use rs_snap.S7.Header.{S7Header}
use rs_snap.S7.Header
use rs_snap.S7.Header.Laws as HeaderLaws
use rs_snap.S7.Header.Laws.{S7Header-decode-encode}
use rs_snap.S7.Negotiate.{Negotiate, Negotiate-decode-encode}
use rs_snap.S7.Negotiate
use rs_snap.Io.{done}
use rs_snap.Io.Frames.{framed, data_frame, send_cotp-framed, send_cotp_data-framed}
use rs_snap.Server.Replies.{ack_header}
use rs_snap.Server.Replies.Laws.{decode-ack_header}
use rs_snap.Server.Handshake.{server_handshake, negotiated, read_request}
use rs_snap.Server.Handshake.Frames as ServerFrames
use rs_snap.Client.Connection.{
  ConnectParams, negotiate_header, negotiate_request, connect, read_response,
}
use rs_snap.Client.Connection.Frames as ClientFrames

-- What each side sends.
abbrev request_payload : ConnectParams → Bytes
request_payload params =
    Header.encode negotiate_header ++ Negotiate.encode (negotiate_request params)

abbrev response_payload : ConnectParams → Bytes
response_payload params =
    Header.encode (ack_header 1 8 0 0 0) ++ Negotiate.encode (negotiated (negotiate_request params))

abbrev pub from_client : ConnectParams → Bytes
from_client params =
    framed (Cotp.encode (connect_request 0 1 params.rack params.slot))
    ++ data_frame (request_payload params)

abbrev pub from_server : ConnectParams → Bytes
from_server params =
    framed (Cotp.encode (connect_confirm 1 1)) ++ data_frame (response_payload params)

pub record IsValid (params : ConnectParams) : Type 0 where
  pub rack_fits : params.rack < 8
  pub slot_fits : params.slot < 32
  pub pdu_size_fits : IsU16 params.pdu_size

negotiate_header-IsValid : HeaderLaws.IsValid negotiate_header
negotiate_header-IsValid = record {
  reserved_fits = omega arith;
  pdu_ref_fits = omega arith;
  param_len_fits = omega arith;
  data_len_fits = omega arith;
  error_fits = tt;
}

fits :
    (n : ℕ)
    → IsU16 n
    → Negotiate.IsValid (record { max_amq_calling = 1; max_amq_called = 1; pdu_length = n })
fits n h = record { calling_fits = omega arith; called_fits = omega arith; pdu_length_fits = h }

module _ (params : ConnectParams) (v : IsValid params) where
  read_request-sent :
      (input : Bytes)
      → read_request (request_payload params) input
        ≡ ([], done ((negotiate_header, negotiate_request params), input))
  read_request-sent input =
      let n : Negotiate = negotiate_request params in
      rw (
        S7Header-decode-encode negotiate_header (Negotiate.encode n) negotiate_header-IsValid,
        rw append-nil at (Negotiate-decode-encode n [] (fits params.pdu_size v.pdu_size_fits)),
      )

  read_response-sent :
      (input : Bytes)
      → read_response (response_payload params) input ≡ ([], done (min params.pdu_size 480, input))
  read_response-sent input =
      let n : Negotiate = negotiated (negotiate_request params) in
      rw (
        decode-ack_header 1 (omega arith) 8 0 0 0 (Negotiate.encode n) (omega arith) (omega arith)
            (omega arith) (omega arith),
        rw append-nil at
            (Negotiate-decode-encode n [] (fits (min params.pdu_size 480) (omega arith))),
      )

  length-request_payload : length (request_payload params) ≡ 18
  unfolding Header.encode Negotiate.encode
  length-request_payload = refl

  length-response_payload : length (response_payload params) ≡ 20
  unfolding Header.encode Negotiate.encode
  length-response_payload = refl

  server_agrees :
      (rest : Bytes)
      → server_handshake (from_client params ++ rest)
        ≡ (from_server params, done (min params.pdu_size 480, rest))
  unfolding server_handshake
  server_agrees rest = rw (
    append_assoc (framed (Cotp.encode (connect_request 0 1 params.rack params.slot)))
        (data_frame (request_payload params)) rest,
    ServerFrames.recv_tpkt_cotp-framed (connect_request 0 1 params.rack params.slot)
        (data_frame (request_payload params) ++ rest)
        (omega arith, omega arith, v.rack_fits, v.slot_fits) (unfold Cotp.encode in omega arith),
    send_cotp-framed (connect_confirm 1 1) (data_frame (request_payload params) ++ rest)
        (unfold Cotp.encode in omega arith),
    ServerFrames.recv_cotp_data-framed (request_payload params) rest
        (omega (arith, length-request_payload)),
    read_request-sent rest,
    send_cotp_data-framed (response_payload params) rest (omega (arith, length-response_payload)),
    append-nil,
  )

  client_agrees :
      (rest : Bytes)
      → connect params (from_server params ++ rest)
        ≡ (from_client params, done (min params.pdu_size 480, rest))
  unfolding connect
  client_agrees rest = rw (
    append_assoc (framed (Cotp.encode (connect_confirm 1 1))) (data_frame (response_payload params))
        rest,
    send_cotp-framed (connect_request 0 1 params.rack params.slot)
        (framed (Cotp.encode (connect_confirm 1 1))
          ++ (data_frame (response_payload params) ++ rest))
        (unfold Cotp.encode in omega arith),
    ClientFrames.recv_cotp-framed (connect_confirm 1 1)
        (data_frame (response_payload params) ++ rest) (omega arith, omega arith)
        (unfold Cotp.encode in omega arith),
    send_cotp_data-framed (request_payload params) (data_frame (response_payload params) ++ rest)
        (omega (arith, length-request_payload)),
    ClientFrames.recv_cotp_data-framed (response_payload params) rest
        (omega (arith, length-response_payload)),
    read_response-sent rest,
    append-nil,
  )

-- The client's bytes and the server's bytes fit each other: a server that receives what the client
-- sends answers with just what the client needs, and both sides come away with the same PDU size, the
-- smaller of the client's wish and 480. Rack, slot and the wish fit their 3, 5 and 16 bits. What either side
-- receives after the set-up is left unread.
pub connect-server_handshake :
    (params : ConnectParams) (to_server to_client : Bytes)
    → IsValid params
    → (server_handshake (from_client params ++ to_server)
        ≡ (from_server params, done (min params.pdu_size 480, to_server)))
      × (connect params (from_server params ++ to_client)
          ≡ (from_client params, done (min params.pdu_size 480, to_client)))
connect-server_handshake params to_server to_client v =
    (server_agrees params v to_server, client_agrees params v to_client)
