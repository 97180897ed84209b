-- ===== src/Client/Queries/Served.antt =====
-- The queries of crates/snap7-client/src/client.rs answered by the server's `respond`.
use rs_snap.Prelude.{
  ℕ, ◌+◌, ◌*◌, ◌/◌, ◌%◌, ◌^◌, ◌≤◌, ◌≡◌, refl, arith, [], ◌∷◌, ◌++◌, length, none, either,
  append-nil, ◌==◌, take, get_or,
}
use rs_snap.Wire.{Bytes, IsU16, ok, put_u16}
use rs_snap.S7.Codes.{PduType}
use rs_snap.S7.Header.{S7Header}
use rs_snap.S7.Header
use rs_snap.S7.Header.Laws as HeaderLaws
use rs_snap.S7.Szl.{SzlRequest}
use rs_snap.S7.Szl
use rs_snap.Io.{done}
use rs_snap.Io.Frames.{data_frame}
use rs_snap.Server.Replies.{ack_header, szl_reply, szl_id_of, szl_params, build_szl_response}
use rs_snap.Server.Replies.Laws.{decode-ack_header}
use rs_snap.Server.Store.{Store, Callbacks}
use rs_snap.Server.Dispatch.{
  respond, dispatch, is_user_request, handle_user_data, handle_szl_user_data, byte_at,
}
use rs_snap.Server.Reads.{index, slice}
use rs_snap.Client.Session.{Inner, next_pdu_ref, request_header, request_payload}
use rs_snap.Client.Session.Frames.{send_s7-framed, recv_s7-framed}
use rs_snap.Client.Areas.Served.{next_ref, counted}
use rs_snap.Client.Queries.{
  request, read_szl_payload, szl_body, status_of, get_plc_status, PlcStatus,
}

-- A request whose reply has come whole.
pub request-reply :
    (param_buf data_buf reply body rest : Bytes) (t : PduType) (h : S7Header) (inner : Inner)
    → length (request_payload param_buf data_buf (next_ref inner) t) ≤ 65528
    → length reply ≤ 65528
    → Header.decode reply ≡ ok (h, body)
    → request param_buf data_buf t inner (data_frame reply ++ rest) ≡ (
      counted inner,
      (data_frame (request_payload param_buf data_buf (next_ref inner) t), done ((h, body), rest)),
    )
unfolding next_pdu_ref
request-reply param_buf data_buf reply body rest t h inner fits fits' d =
    rw
      (
        send_s7-framed param_buf data_buf (next_ref inner) t (counted inner)
            (data_frame reply ++ rest) fits,
        recv_s7-framed reply body rest h (counted inner) fits' d,
        append-nil (data_frame (request_payload param_buf data_buf (next_ref inner) t)),
      )
      refl

-- The header of a request without an error, behind which the server finds the payload.
pub decode-request :
    (param_buf data_buf : Bytes) (r : ℕ) (t : PduType)
    → IsU16 r
    → HeaderLaws.ErrorFits t none none
    → Header.decode (request_payload param_buf data_buf r t)
      ≡ ok (
        request_header r (length param_buf % 2 ^ 16) (length data_buf % 2 ^ 16) t,
        param_buf ++ data_buf,
      )
decode-request param_buf data_buf r t hr e =
    HeaderLaws.S7Header-decode-encode _ (param_buf ++ data_buf) (record {
      reserved_fits = omega arith;
      pdu_ref_fits = hr;
      param_len_fits = omega arith;
      data_len_fits = omega arith;
      error_fits = e;
    })

-- The request for a list, and its reply.
abbrev pub szl_request : (szl_id szl_index : ℕ) → Inner → Bytes
szl_request szl_id szl_index inner =
    let req : SzlRequest = record { szl_id = szl_id; szl_index = szl_index } in
    request_payload (Szl.encode_params req) (Szl.encode_data req) (next_ref inner) PduType.user_data

length-szl_request :
    (szl_id szl_index : ℕ) (inner : Inner) → length (szl_request szl_id szl_index inner) ≤ 65528
unfolding Header.encode Szl.encode_params Szl.encode_data
length-szl_request szl_id szl_index inner = omega arith

-- The reply to a request: its first twelve bytes, and the list that its bytes 12 and 13 name.
abbrev served_szl : ℕ → SzlRequest → Bytes
served_szl r req =
    szl_reply r (take 12 (Szl.encode req))
      (get_or (Szl.encode req) 12 0 * 256 + get_or (Szl.encode req) 13 0)

respond-szl_request :
    (calls : Callbacks) (szl_id szl_index : ℕ) (inner : Inner) (s : Store)
    → respond calls (szl_request szl_id szl_index inner) s
      ≡ ok (served_szl (next_ref inner) (record { szl_id = szl_id; szl_index = szl_index }), s)
unfolding respond dispatch is_user_request handle_user_data handle_szl_user_data byte_at index slice
    szl_id_of szl_params Szl.encode Szl.encode_params Szl.encode_data
respond-szl_request calls szl_id szl_index inner s =
    rw
      (decode-request (Szl.encode_params (record { szl_id = szl_id; szl_index = szl_index }))
        (Szl.encode_data (record { szl_id = szl_id; szl_index = szl_index })) (next_ref inner)
        PduType.user_data (omega arith) tt)
      refl

length-build_szl_response : (szl_id : ℕ) → length (build_szl_response szl_id) ≤ 300
unfolding build_szl_response
length-build_szl_response szl_id =
    let P = λ (b : Bytes). length b ≤ 300 in
    either P (szl_id == 0x0011) (omega arith) (
      either P (szl_id == 0x0032) (omega arith) (
        either P (szl_id == 0x001c) (omega arith) (
          either P (szl_id == 0x0131) (omega arith)
            (either P (szl_id == 0x0424) (omega arith) (omega arith)))))

length-szl_reply : (r : ℕ) (req : SzlRequest) → length (served_szl r req) ≤ 65528
unfolding szl_reply Header.encode Szl.encode
length-szl_reply r req =
    omega (arith, length-build_szl_response (req.szl_id / 256 * 256 + req.szl_id % 256))

-- The list is in the reply behind the parameters and the envelope.
decode-szl_reply :
    (szl_id szl_index r : ℕ)
    → IsU16 szl_id
    → IsU16 r
    → Header.decode (served_szl r (record { szl_id = szl_id; szl_index = szl_index }))
      ≡ ok (
        ack_header r 12 (length (build_szl_response szl_id) % 2 ^ 16) 0 0,
        Szl.encode_params (record { szl_id = szl_id; szl_index = szl_index })
            ++ ((0xff ∷ 0x09 ∷ 0x00 ∷ 0x04 ∷ [])
                ++ (0xff ∷ 0x04 ∷ put_u16 (length (build_szl_response szl_id) % 2 ^ 16)
                    ++ build_szl_response szl_id)),
      )
unfolding szl_reply Szl.encode Szl.encode_params Szl.encode_data
decode-szl_reply szl_id szl_index r hid hr = rw (same_id) (
    decode-ack_header r hr 12 (length (build_szl_response szl_id) % 2 ^ 16) 0 0 _ (omega arith)
      (omega arith) (omega arith) (omega arith))
  where
    same_id : szl_id / 256 * 256 + szl_id % 256 ≡ szl_id
    same_id = omega arith

szl_body-reply :
    (szl_id szl_index r : ℕ) (h : S7Header) (input : Bytes) (block : Bytes)
    → h.param_len ≡ 12
    → szl_body
        (
          h,
          Szl.encode_params (record { szl_id = szl_id; szl_index = szl_index })
              ++ ((0xff ∷ 0x09 ∷ 0x00 ∷ 0x04 ∷ []) ++ (0xff ∷ 0x04 ∷ r / 256 ∷ r % 256 ∷ block)),
        )
        input
      ≡ ([], done (block, input))
unfolding Szl.encode_params
szl_body-reply szl_id szl_index r h input block e = rw e (ground arith)

-- A client that asks the server for a system status list gets the list that the server has for the
-- number, with none of the parameters or the envelope around it, and the server's store stays as it
-- was.
pub read_szl_payload-respond :
    (calls : Callbacks) (szl_id szl_index : ℕ) (inner : Inner) (s : Store) (rest : Bytes)
    → IsU16 szl_id
    → (reply : Bytes) × (respond calls (szl_request szl_id szl_index inner) s ≡ ok (reply, s))
      × (read_szl_payload szl_id szl_index inner (data_frame reply ++ rest) ≡ (
        counted inner,
        (data_frame (szl_request szl_id szl_index inner), done (build_szl_response szl_id, rest)),
      ))
unfolding read_szl_payload
read_szl_payload-respond calls szl_id szl_index inner s rest hid =
    let req : SzlRequest = record { szl_id = szl_id; szl_index = szl_index } in
    (
      served_szl (next_ref inner) req,
      respond-szl_request calls szl_id szl_index inner s,
      rw (
        request-reply (Szl.encode_params req) (Szl.encode_data req)
            (served_szl (next_ref inner) req) _ rest PduType.user_data _ inner
            (length-szl_request szl_id szl_index inner) (length-szl_reply (next_ref inner) req)
            (decode-szl_reply szl_id szl_index (next_ref inner) hid (omega arith)),
        szl_body-reply szl_id szl_index (length (build_szl_response szl_id) % 2 ^ 16)
            (ack_header (next_ref inner) 12 (length (build_szl_response szl_id) % 2 ^ 16) 0 0) rest
            (build_szl_response szl_id) refl,
        append-nil (data_frame (szl_request szl_id szl_index inner)),
      ),
    )

-- What a client makes of the server's list of the CPU's state: it runs, whatever was sent before.
get_plc_status-respond :
    (calls : Callbacks) (inner : Inner) (s : Store) (rest : Bytes)
    → (reply : Bytes) × (respond calls (szl_request 0x0424 0 inner) s ≡ ok (reply, s))
      × (get_plc_status inner (data_frame reply ++ rest)
          ≡ (counted inner, (data_frame (szl_request 0x0424 0 inner), done (PlcStatus.run, rest))))
unfolding get_plc_status status_of build_szl_response
get_plc_status-respond calls inner s rest =
    let (reply, answered, returned) =
      read_szl_payload-respond calls 0x0424 0 inner s rest (omega arith) in
    (reply, answered, rw (returned, append-nil (data_frame (szl_request 0x0424 0 inner))))
