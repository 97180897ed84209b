-- ===== src/Client/Blocks/Chunks.antt =====
-- The chunks of a download (crates/snap7-client/src/client.rs), to a peer that accepts each of them.
use rs_snap.Prelude.{
  ℕ, zero, suc, ◌≤◌, ◌<◌, ◌≡◌, refl, ap, ◌∙◌, arith, All, List, [], ◌∷◌, ◌++◌, length, take, drop,
  append_assoc, append-nil, length-take, length-append, length-drop, take-append-drop,
}
use rs_snap.Wire.{Bytes}
use rs_snap.Io.{done}
use rs_snap.Io.Frames.{data_frame}
use rs_snap.S7.Codes.{PduType}
use rs_snap.S7.Header.{S7Header}
use rs_snap.S7.Header
use rs_snap.Server.Replies.{ack_header, simple_ack}
use rs_snap.Server.Replies.Laws.{decode-simple_ack}
use rs_snap.Client.Session.{Inner, request_payload}
use rs_snap.Client.Areas.Served.{next_ref, counted}
use rs_snap.Client.Queries.Served.{request-reply}
use rs_snap.Client.Blocks.{job, id_params, download_chunks}

-- The client after `n` requests.
unfoldable pub after : ℕ → Inner → Inner
after zero inner = inner
after (suc n) inner = after n (counted inner)

-- The request that carries a chunk.
abbrev pub chunk_request : (download_id : ℕ) → Bytes → Inner → Bytes
chunk_request download_id chunk inner =
    data_frame
      (request_payload (id_params 0x1e 0x01 download_id) chunk (next_ref inner) PduType.job)

unfoldable pub chunk_requests : (download_id : ℕ) → List Bytes → Inner → Bytes
chunk_requests download_id [] inner = []
chunk_requests download_id (chunk ∷ chunks) inner =
    chunk_request download_id chunk inner ++ chunk_requests download_id chunks (counted inner)

-- Acknowledgements for `n` requests, in their order.
unfoldable pub acks : ℕ → Inner → Bytes
acks zero inner = []
acks (suc n) inner = data_frame (simple_ack (next_ref inner)) ++ acks n (counted inner)

unfoldable pub concat : List Bytes → Bytes
concat [] = []
concat (b ∷ bs) = b ++ concat bs

pub job-acked :
    (param_buf data_buf rest : Bytes) (inner : Inner)
    → length param_buf ≤ 10
    → length data_buf ≤ 65485
    → job param_buf data_buf inner (data_frame (simple_ack (next_ref inner)) ++ rest) ≡ (
      counted inner,
      (
        data_frame (request_payload param_buf data_buf (next_ref inner) PduType.job),
        done ([], rest),
      ),
    )
unfolding simple_ack Header.encode
job-acked param_buf data_buf rest inner hp hd =
    rw
      (
        request-reply param_buf data_buf (simple_ack (next_ref inner)) [] rest PduType.job
            (ack_header (next_ref inner) 0 0 0 0) inner
            (omega (arith, length-append param_buf data_buf)) (omega arith)
            (decode-simple_ack (next_ref inner) (omega arith)),
        append-nil (data_frame (request_payload param_buf data_buf (next_ref inner) PduType.job)),
      )
      refl

-- That the loop sends the data in these chunks, when each is acknowledged.
abbrev pub Sends : (avail download_id : ℕ) → (bytes : Bytes) → List Bytes → Type 0
Sends avail download_id bytes chunks =
    (rounds : ℕ) (inner : Inner) (rest : Bytes)
    → length chunks ≤ rounds
    → download_chunks rounds avail download_id bytes inner (acks (length chunks) inner ++ rest)
      ≡ (after (length chunks) inner, (chunk_requests download_id chunks inner, done (tt, rest)))

no_chunks-Sends : (avail download_id : ℕ) → Sends avail download_id [] []
unfolding download_chunks acks after chunk_requests
no_chunks-Sends avail download_id zero inner rest h = refl
no_chunks-Sends avail download_id (suc rounds) inner rest h = refl

chunk-Sends :
    (avail download_id : ℕ) (x : ℕ) (xs : Bytes) (chunks : List Bytes)
    → avail ≤ 65485
    → Sends avail download_id (drop avail (x ∷ xs)) chunks
    → Sends avail download_id (x ∷ xs) (take avail (x ∷ xs) ∷ chunks)
unfolding download_chunks acks after chunk_requests
chunk-Sends avail download_id x xs chunks small run zero inner rest h = absurd (omega arith)
chunk-Sends avail download_id x xs chunks small run (suc rounds) inner rest h =
    rw
      (
        append_assoc (data_frame (simple_ack (next_ref inner)))
            (acks (length chunks) (counted inner)) rest,
        job-acked (id_params 0x1e 0x01 download_id) (take avail (x ∷ xs))
            (acks (length chunks) (counted inner) ++ rest) inner (omega arith)
            (omega (arith, length-take avail (x ∷ xs))),
        run rounds (counted inner) rest (omega arith),
      )
      refl

-- The chunks of the data.
pub download_chunks-Sends :
    (fuel avail download_id : ℕ) (bytes : Bytes)
    → 0 < avail
    → avail ≤ 65485
    → length bytes ≤ fuel
    → (chunks : List Bytes) × (concat chunks ≡ bytes)
      × All (λ chunk. length chunk ≤ avail) chunks
      × Sends avail download_id bytes chunks
unfolding concat
download_chunks-Sends fuel avail download_id [] pos small enough =
    ([], refl, tt, no_chunks-Sends avail download_id)
download_chunks-Sends zero avail download_id (x ∷ xs) pos small enough = absurd (omega arith)
download_chunks-Sends (suc fuel) avail download_id (x ∷ xs) pos small enough =
    let (chunks, whole, fit, run) =
      download_chunks-Sends fuel avail download_id (drop avail (x ∷ xs)) pos small
        (omega (arith, length-drop avail (x ∷ xs))) in
    (
      take avail (x ∷ xs) ∷ chunks,
      ap (λ b. take avail (x ∷ xs) ++ b) whole ∙ take-append-drop avail (x ∷ xs),
      (omega (arith, length-take avail (x ∷ xs)), fit),
      chunk-Sends avail download_id x xs chunks small run,
    )
