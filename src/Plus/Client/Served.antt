-- ===== src/Plus/Client/Served.antt =====
-- The requests of crates/snap7-client/src/plus_client.rs to a peer that answers them.
use rs_snap.Prelude.{
  ℕ, ◌<◌, map, ◌+◌, ◌-◌, ◌*◌, ◌/◌, ◌%◌, ◌≤◌, ◌≡◌, refl, sym, ap, ◌∙◌, arith, List, [], ◌∷◌, ◌++◌,
  length, All, length-append, take-append, drop-append, append-nil,
}
use rs_snap.Wire.{Bytes, ok, put_all, IsU16, IsU32}
use rs_snap.Tpkt
use rs_snap.Io.{done, read_exact, try, value}
use rs_snap.Io.Frames.{framed}
use rs_snap.Plus.DataArea.{DataArea}
use rs_snap.Plus.DataArea
use rs_snap.Plus.Frame.{S7PlusFrame, Version, put_fence}
use rs_snap.Plus.Frame
use rs_snap.Plus.Frame.Laws.{S7PlusFrame-decode-encode}
use rs_snap.Plus.Session.{encode_create, decode_create-encode}
use rs_snap.Plus.MultiVar.{VarResult}
use rs_snap.Plus.MultiVar.Laws.{put_result, ResultFits, decode_get-put_all}
use rs_snap.Plus.Client.{
  PlusConnection, DbVarSpec, send_plus, recv_plus_frame, exchange, plus_connect, get_request,
  read_multi_vars, spec_of,
}
use rs_snap.Plus.Client.Asked.{
  AsksFor, prefixes, get_request-AsksFor, length-get_request, cut_all-prefixes,
}

-- The frame of a content, and the TPKT frame that it travels in.
abbrev pub fenced : Version → Bytes → Bytes
fenced version content =
    put_fence version (length content % 65536)
    ++ (content ++ put_fence version (length content % 65536))

abbrev pub plus_frame : Version → Bytes → Bytes
plus_frame version content = framed (fenced version content)

read_exact-append : (xs rest : Bytes) → read_exact (length xs) (xs ++ rest) ≡ ([], done (xs, rest))
read_exact-append xs rest =
    ground (arith, length-append xs rest, take-append xs rest, drop-append xs rest)

encode-fenced :
    (version : Version) (content : Bytes)
    → length content ≤ 65523
    → Frame.encode (record { version = version; content = content }) ≡ ok (fenced version content)
unfolding Frame.encode
encode-fenced version content h = ground arith

length-fenced :
    (version : Version) (content : Bytes) → length (fenced version content) ≡ 8 + length content
length-fenced version content =
    omega (arith, length-append content (put_fence version (length content % 65536)))

send_plus-framed :
    (version : Version) (content input : Bytes)
    → length content ≤ 65523
    → send_plus version content input ≡ (plus_frame version content, done (tt, input))
unfolding send_plus Tpkt.encode
send_plus-framed version content input h =
    rw (encode-fenced version content h) (ground (arith, length-fenced version content))

recv_plus_frame-body :
    (body rest : Bytes)
    → length body ≤ 65531
    → recv_plus_frame (framed body ++ rest) ≡ try (value (Frame.decode body)) rest
unfolding recv_plus_frame
recv_plus_frame-body body rest h =
    rw
      (
        header 3 0 ((4 + length body) / 256) ((4 + length body) % 256) (body ++ rest),
        size,
        read_exact-append body rest,
      )
      refl
  where
    header :
        (a b c d : ℕ) (more : Bytes)
        → read_exact 4 (a ∷ b ∷ c ∷ d ∷ more) ≡ ([], done (a ∷ b ∷ c ∷ d ∷ [], more))
    header a b c d more = ground arith

    size : (4 + length body) / 256 * 256 + (4 + length body) % 256 - 4 ≡ length body
    size = omega arith

decode-fenced :
    (version : Version) (content : Bytes)
    → length content ≤ 65523
    → Frame.decode (fenced version content)
      ≡ ok (record { version = version; content = content }, [])
decode-fenced version content h =
    ap Frame.decode (sym (append-nil (fenced version content)))
    ∙ S7PlusFrame-decode-encode (record { version = version; content = content }) []
        (encode-fenced version content h)

recv_plus_frame-framed :
    (version : Version) (content rest : Bytes)
    → length content ≤ 65523
    → recv_plus_frame (plus_frame version content ++ rest)
      ≡ ([], done (record { version = version; content = content }, rest))
recv_plus_frame-framed version content rest h =
    recv_plus_frame-body (fenced version content) rest
      (omega (arith, length-fenced version content))
    ∙ ap (λ r. try (value r) rest) (decode-fenced version content h)

exchange-framed :
    (version answering : Version) (request content rest : Bytes)
    → length request ≤ 65523
    → length content ≤ 65523
    → exchange version request (plus_frame answering content ++ rest)
      ≡ (plus_frame version request, done (content, rest))
unfolding exchange
exchange-framed version answering request content rest h h' =
    rw
      (
        send_plus-framed version request (plus_frame answering content ++ rest) h,
        recv_plus_frame-framed answering content rest h',
        append-nil (plus_frame version request),
      )
      refl

-- A client of at most 255 variables with a peer whose response has a result for each of them, in a frame: the
-- client sends one frame, in which the peer finds a read with the number and the session of the connection and
-- the numbers of the variables in order, and it returns of each value, in order, the first bytes, as many
-- as were asked for, or all of a shorter one. The fields of the connection and of the response are in range.
pub read_multi_vars-served :
    (s : DbVarSpec) (ss : List DbVarSpec) (conn : PlusConnection) (answering : Version)
    (a : DataArea) (results : List VarResult) (more rest : Bytes)
    → IsU16 conn.seqnum
    → IsU32 conn.session_id
    → length (s ∷ ss) < 256
    → DataArea.IsValid a
    → All ResultFits results
    → length results ≡ length (s ∷ ss)
    → a.payload ≡ put_all put_result results ++ more
    → length (DataArea.encode a) ≤ 65523
    → (request : Bytes) × AsksFor conn.seqnum conn.session_id (map spec_of (s ∷ ss)) request
      × ((read_multi_vars (s ∷ ss) conn).1 (plus_frame answering (DataArea.encode a) ++ rest)
          ≡ (plus_frame conn.version request, done (prefixes results (s ∷ ss), rest)))
unfolding read_multi_vars
read_multi_vars-served s ss conn answering a results more rest hs hid few v fits same e h =
    let specs : List DbVarSpec = s ∷ ss in
    (
      get_request specs conn,
      get_request-AsksFor specs conn hs hid few,
      rw
          (
            exchange-framed conn.version answering (get_request specs conn) (DataArea.encode a) rest
                (length-get_request specs conn few) h,
            sym same,
            decode_get-put_all a results more v fits e,
            append-nil (plus_frame conn.version (get_request specs conn)),
            sym (cut_all-prefixes results specs),
          )
          refl,
    )

create_length : length (encode_create (record { seqnum = 1 })) ≤ 65523
unfolding encode_create DataArea.encode
create_length = omega arith

-- A peer's answer to the CreateObject of a client: the connection has the answer's session and version,
-- and its next request has the number 2.
plus_connect-served :
    (answering : Version) (a : DataArea) (rest : Bytes)
    → DataArea.IsValid a
    → length (DataArea.encode a) ≤ 65523
    → plus_connect (plus_frame answering (DataArea.encode a) ++ rest) ≡ (
      plus_frame Version.v1 (encode_create (record { seqnum = 1 })),
      done (record { session_id = a.session_id; seqnum = 2; version = answering }, rest),
    )
unfolding plus_connect
plus_connect-served answering a rest v h =
    rw
      (
        send_plus-framed Version.v1 (encode_create (record { seqnum = 1 }))
            (plus_frame answering (DataArea.encode a) ++ rest) create_length,
        recv_plus_frame-framed answering (DataArea.encode a) rest h,
        decode_create-encode a v,
        append-nil (plus_frame Version.v1 (encode_create (record { seqnum = 1 }))),
      )
      refl
