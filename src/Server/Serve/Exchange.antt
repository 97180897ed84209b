-- ===== src/Server/Serve/Exchange.antt =====
-- A conversation of requests and replies, and the loop of crates/snap7-server/src/dispatch.rs on it.
use rs_snap.Prelude.{
  ℕ, zero, suc, ◌≤◌, ◌<◌, ◌≡◌, refl, ◌∙◌, ap, arith, ◌⊎◌, Bool, Bool-cases, inl, inr, leb, leb→le,
  true, some, List, [], ◌∷◌, ◌++◌, length,
}
use rs_snap.Wire.{Bytes, ok, encoding_failed, frame_too_large}
use rs_snap.S7.Header.{S7Header, encode}
use rs_snap.S7.Header.Laws.{IsValid}
use rs_snap.Server.Replies.Laws.{Answers}
use rs_snap.Server.Dispatch.Answers.{respond-IsAnswered}
use rs_snap.Io.{done, failed, proto}
use rs_snap.Io.Frames.{data_frame, send_cotp_data-framed, send_cotp_data-refused}
use rs_snap.Server.Store.{Store, Callbacks, is_area_locked}
use rs_snap.Server.Store.Access.{IsQuiet}
use rs_snap.Server.Dispatch.{respond}
use rs_snap.Server.Dispatch.Access.{SameArea, respond-SameArea}
use rs_snap.Server.Handshake.{recv_cotp_data}
use rs_snap.Server.Handshake.Frames.{recv_cotp_data-framed}
use rs_snap.Server.Serve.{prepend, serve}

-- The frames of a list of payloads.
abbrev pub frames : List Bytes → Bytes
frames [] = []
frames (payload ∷ payloads) = data_frame payload ++ frames payloads

module _ (calls : Callbacks) where
  -- Requests answered one after the other, each by the store that those before it left.
  pub data Exchange : Store → (requests replies : List Bytes) → Store → Type 0 where
    finished : {s : Store} → Exchange s [] [] s
    next :
        {s after last : Store} {request reply : Bytes} {requests replies : List Bytes}
        → length request ≤ 65528
        → length reply ≤ 65528
        → respond calls request s ≡ ok (reply, after)
        → Exchange after requests replies last
        → Exchange s (request ∷ requests) (reply ∷ replies) last

  serve-next :
      (n : ℕ) (request reply rest : Bytes) (s after : Store)
      → length request ≤ 65528
      → length reply ≤ 65528
      → respond calls request s ≡ ok (reply, after)
      → serve calls (suc n) s (data_frame request ++ rest)
        ≡ prepend (data_frame reply) (serve calls n after rest)
  unfolding serve
  serve-next n request reply rest s after h k r =
      rw (recv_cotp_data-framed request rest h, r, send_cotp_data-framed reply rest k)

  serve-refused :
      (n : ℕ) (request reply rest : Bytes) (s after : Store)
      → length request ≤ 65528
      → 65528 < length reply
      → respond calls request s ≡ ok (reply, after)
      → serve calls (suc n) s (data_frame request ++ rest)
        ≡ some ([], failed (proto (encoding_failed frame_too_large)))
  unfolding serve
  serve-refused n request reply rest s after h k r =
      rw (recv_cotp_data-framed request rest h, r, send_cotp_data-refused reply rest k)

  -- What the loop does with a request whose reply is computed: it sends the reply alone and goes on with the
  -- store after the request, or the reply fits no frame and the connection ends with nothing sent.
  abbrev pub IsReplied : ℕ → (request rest : Bytes) → Store → (reply : Bytes) → Store → Type 0
  IsReplied n request rest s reply after =
      ((length reply ≤ 65528)
        × (serve calls (suc n) s (data_frame request ++ rest)
            ≡ prepend (data_frame reply) (serve calls n after rest)))
      ⊎ ((65528 < length reply)
          × (serve calls (suc n) s (data_frame request ++ rest)
              ≡ some ([], failed (proto (encoding_failed frame_too_large)))))

  serve-reply :
      (n : ℕ) (request reply rest : Bytes) (s after : Store)
      → length request ≤ 65528
      → respond calls request s ≡ ok (reply, after)
      → IsReplied n request rest s reply after
  serve-reply n request reply rest s after h r = elim (Bool-cases (leb (length reply) 65528)) [
    | inl e ↦
        let k = leb→le (length reply) 65528 e in
        inl (k, serve-next n request reply rest s after h k r)
    | inr e ↦
        let k : 65528 < length reply = ground arith in
        inr (k, serve-refused n request reply rest s after h k r)
  ]

  -- A request with a well-formed header that fits a frame, whatever its type, its function and its body, and
  -- whatever the store holds: the server computes one reply, whose header the client decodes and which has the
  -- reference number of the request. If the reply fits a frame, the loop sends it and nothing else for the
  -- request and goes on with what follows; if it does not, nothing is sent and the connection ends
  -- with the error of the frame.
  pub serve-IsReplied :
      (n : ℕ) (h : S7Header) (body rest : Bytes) (s : Store)
      → IsValid h
      → length (encode h ++ body) ≤ 65528
      → (reply : Bytes) × (after : Store) × Answers h.pdu_ref reply
        × IsReplied n (encode h ++ body) rest s reply after
  serve-IsReplied n h body rest s v fits =
      let (reply, after, e, answers) = respond-IsAnswered calls h body s v in
      (reply, after, answers, serve-reply n (encode h ++ body) reply rest s after fits e)

  serve-finished : (n : ℕ) (s : Store) → serve calls (suc n) s [] ≡ some ([], done s)
  unfolding serve recv_cotp_data
  serve-finished n s = refl

  -- A client that sends its requests at once gets the replies in the order of its requests, each
  -- computed on the store that the requests before it left, and the connection ends with the store
  -- of the last; requests and replies fit a frame, and one unit of fuel more than requests is enough.
  pub serve-Exchange :
      (fuel : ℕ) (s last : Store) (requests replies : List Bytes)
      → Exchange s requests replies last
      → length requests < fuel
      → serve calls fuel s (frames requests) ≡ some (frames replies, done last)
  serve-Exchange zero s last requests replies e enough = elim enough [ ]
  serve-Exchange (suc n) s last [] [] finished enough = serve-finished n s
  serve-Exchange (suc n) s last [] (reply ∷ replies) e enough = elim e [ ]
  serve-Exchange (suc n) s last (request ∷ requests) [] e enough = elim e [ ]
  serve-Exchange (suc n) s last (request ∷ requests) (reply ∷ replies)
        (next {after = after} h k r more) enough =
      serve-next n request reply (frames requests) s after h k r
      ∙ ap (prepend (data_frame reply))
          (serve-Exchange n after last requests replies more (omega arith))

  -- No conversation changes a byte of a locked area or unlocks it; the callbacks leave both alone.
  pub Exchange-SameArea :
      (quiet : IsQuiet calls) (area : ℕ) (s last : Store) (requests replies : List Bytes)
      → Exchange s requests replies last
      → is_area_locked area s ≡ true
      → SameArea area s last
  unfolding is_area_locked
  Exchange-SameArea quiet area s last [] [] finished locked = ((λ d o. refl), refl)
  Exchange-SameArea quiet area s last [] (reply ∷ replies) e locked = elim e [ ]
  Exchange-SameArea quiet area s last (request ∷ requests) [] e locked = elim e [ ]
  Exchange-SameArea quiet area s last (request ∷ requests) (reply ∷ replies)
        (next {after = after} h k r more) locked =
      let one : SameArea area s after =
        rw r at (respond-SameArea calls quiet area request s locked) in
      let rest =
        Exchange-SameArea quiet area after last requests replies more
          (ap (λ (l : ℕ → Bool). l area) one.1 ∙ locked) in
      ((λ d o. rest.0 d o ∙ one.0 d o), rest.1 ∙ one.1)
