-- ===== src/Client/Blocks/Sent.antt =====
-- The requests of a download (crates/snap7-client/src/client.rs), to a peer that accepts each of them.
use rs_snap.Prelude.{
  ℕ, zero, suc, ◌+◌, ◌-◌, ◌*◌, ◌/◌, ◌%◌, ◌^◌, ◌≤◌, ◌<◌, ◌≡◌, refl, ap, ◌∙◌, arith, false, All, ltb,
  List, [], ◌∷◌, ◌++◌, length, take, drop, append_assoc, append-nil, length-take, length-append,
  length-drop, take-append-drop,
}
use rs_snap.Wire.{Bytes, put_u32, ok}
use rs_snap.Io.{done}
use rs_snap.Io.Frames.{data_frame}
use rs_snap.S7.Codes.{PduType}
use rs_snap.S7.Header.{S7Header}
use rs_snap.S7.Header
use rs_snap.Server.Replies.{ack_header, simple_ack}
use rs_snap.Client.Session.{Inner, request_payload}
use rs_snap.Client.Areas.Served.{next_ref, counted}
use rs_snap.Client.Queries.Served.{request-reply}
use rs_snap.Client.Blocks.{job, skip_two, id_params, download_params, download}
use rs_snap.Client.Blocks.Chunks.{
  after, chunk_requests, acks, concat, job-acked, Sends, download_chunks-Sends,
}

length-acks : (n : ℕ) (inner : Inner) → n ≤ length (acks n inner)
unfolding acks
length-acks zero inner = omega arith
length-acks (suc n) inner = omega (
  arith,
  length-acks n (counted inner),
  length-append (data_frame (simple_ack (next_ref inner))) (acks n (counted inner)),
)

-- A response without an error, of which the caller gets the body.
job-replied :
    (param_buf data_buf reply body rest : Bytes) (p d : ℕ) (inner : Inner)
    → length param_buf ≤ 12
    → length data_buf ≤ 65485
    → length reply ≤ 65528
    → Header.decode reply ≡ ok (ack_header (next_ref inner) p d 0 0, body)
    → job param_buf data_buf inner (data_frame reply ++ rest) ≡ (
      counted inner,
      (
        data_frame (request_payload param_buf data_buf (next_ref inner) PduType.job),
        done (body, rest),
      ),
    )
unfolding Header.encode
job-replied param_buf data_buf reply body rest p d inner hp hd hr e =
    rw
      (
        request-reply param_buf data_buf reply body rest PduType.job
            (ack_header (next_ref inner) p d 0 0) inner
            (omega (arith, length-append param_buf data_buf)) hr e,
        append-nil (data_frame (request_payload param_buf data_buf (next_ref inner) PduType.job)),
      )
      refl

-- The requests of a download whose data goes in the first request and in chunks.
abbrev pub download_requests :
    (block_type block_number : ℕ) (bytes : Bytes) (id : ℕ) → List Bytes → Inner → Bytes
download_requests block_type block_number bytes id chunks inner =
    data_frame (
      request_payload (download_params block_type block_number (length bytes % 2 ^ 32))
        (take (inner.pdu_size - 50) bytes) (next_ref inner) PduType.job)
    ++ (chunk_requests id chunks (counted inner)
        ++ data_frame (
            request_payload (id_params 0x1e 0x02 id) []
              (next_ref (after (length chunks) (counted inner))) PduType.job))

-- The replies to them behind the first one.
abbrev pub download_acks : ℕ → Inner → Bytes
download_acks n inner =
    acks n (counted inner) ++ data_frame (simple_ack (next_ref (after n (counted inner))))

-- `u32::from_be_bytes` on the number of a download.
same_id :
    (id : ℕ)
    → ((id / 16777216 * 256 + id / 65536 % 256) * 256 + id / 256 % 256) * 256 + id % 256 ≡ id
same_id id = omega arith

has_id :
    (a b id : ℕ) (more : Bytes) → ltb (length (skip_two (a ∷ b ∷ put_u32 id ++ more))) 4 ≡ false
has_id a b id more = ground arith

download-replied :
    (block_type block_number : ℕ) (bytes reply more rest : Bytes) (a b p d id : ℕ) (inner : Inner)
    (chunks : List Bytes)
    → inner.pdu_size ≤ 65535
    → length reply ≤ 65528
    → Header.decode reply ≡ ok (ack_header (next_ref inner) p d 0 0, a ∷ b ∷ put_u32 id ++ more)
    → Sends (inner.pdu_size - 50) id (drop (inner.pdu_size - 50) bytes) chunks
    → download block_type block_number bytes inner
        (data_frame reply ++ (download_acks (length chunks) inner ++ rest))
      ≡ (
        counted (after (length chunks) (counted inner)),
        (download_requests block_type block_number bytes id chunks inner, done (tt, rest)),
      )
unfolding download
download-replied block_type block_number bytes reply more rest a b p d id inner chunks small short e
      run =
    let avail = inner.pdu_size - 50 in
    let n = length chunks in
    let last = after n (counted inner) in
    let tail = data_frame (simple_ack (next_ref last)) ++ rest in
    rw
      (
        append_assoc (acks n (counted inner)) (data_frame (simple_ack (next_ref last))) rest,
        job-replied (download_params block_type block_number (length bytes % 2 ^ 32))
            (take avail bytes) reply (a ∷ b ∷ put_u32 id ++ more) (acks n (counted inner) ++ tail) p
            d inner (omega arith) (omega (arith, length-take avail bytes)) short e,
        has_id a b id more,
        same_id id,
        run (suc (length (acks n (counted inner) ++ tail))) (counted inner) tail (
            omega
              (arith, length-acks n (counted inner), length-append (acks n (counted inner)) tail)),
        job-acked (id_params 0x1e 0x02 id) [] rest last (omega arith) (omega arith),
        append-nil
            (data_frame (request_payload (id_params 0x1e 0x02 id) [] (next_ref last) PduType.job)),
      )
      refl

-- Against a peer that accepts the download with a number, and acknowledges every request after that,
-- `download` sends the whole data, in order and in chunks of at most the room that a PDU has, of which the
-- first is in its first request, then the end of the download, and succeeds. The PDU size is above 50.
pub download-Sends :
    (block_type block_number : ℕ) (bytes reply more : Bytes) (a b p d id : ℕ) (inner : Inner)
    → 50 < inner.pdu_size
    → inner.pdu_size ≤ 65535
    → length reply ≤ 65528
    → Header.decode reply ≡ ok (ack_header (next_ref inner) p d 0 0, a ∷ b ∷ put_u32 id ++ more)
    → (chunks : List Bytes) × (take (inner.pdu_size - 50) bytes ++ concat chunks ≡ bytes)
      × All (λ chunk. length chunk ≤ inner.pdu_size - 50) chunks
      × ((rest : Bytes)
          → download block_type block_number bytes inner
              (data_frame reply ++ (download_acks (length chunks) inner ++ rest))
            ≡ (
              counted (after (length chunks) (counted inner)),
              (download_requests block_type block_number bytes id chunks inner, done (tt, rest)),
            ))
download-Sends block_type block_number bytes reply more a b p d id inner room small short e =
    let avail = inner.pdu_size - 50 in
    let (chunks, whole, fit, run) =
      download_chunks-Sends (length bytes) avail id (drop avail bytes) (omega arith) (omega arith)
        (omega (arith, length-drop avail bytes)) in
    (
      chunks,
      ap (λ x. take avail bytes ++ x) whole ∙ take-append-drop avail bytes,
      fit,
      λ rest.
          download-replied block_type block_number bytes reply more rest a b p d id inner chunks
            small short e run,
    )
