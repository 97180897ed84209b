-- ===== src/Client/Blocks.antt =====
-- crates/snap7-client/src/client.rs: the lists of blocks, and their upload, download and deletion. The
-- length of a loop that the peer ends is bounded by its input, off which each round takes a response.
-- An arithmetic underflow is a panic.
pub mod Chunks
pub mod Lists
pub mod Requests
pub mod Sent
use rs_snap.Prelude.{
  ℕ, zero, suc, ◌+◌, ◌-◌, ◌*◌, ◌/◌, ◌%◌, ◌^◌, min, Bool, true, false, ◌&&◌, ◌||◌, not, List, [],
  ◌∷◌, ◌++◌, length, take, drop, get_or, ltb, leb, ◌==◌, if◌then◌else◌,
}
use rs_snap.Wire.{Bytes, put_u16, put_u32}
use rs_snap.Io.{Io, done, crash, unexpected_response, plc_error}
use rs_snap.Io
use rs_snap.S7.Codes.{PduType}
use rs_snap.S7.Header.{S7Header}
use rs_snap.Client.Session.{Inner, Run, ◌>>=◌, ◌>>◌, run_io, check_plc_error}
use rs_snap.Client.Queries.{request, command, user_params}

abbrev pub return : {A : Type 0} → A → Run A
return a = run_io (Io.return a)

abbrev pub fail_with : {A : Type 0} → Io.Error → Run A
fail_with e = run_io (Io.fail e)

abbrev pub stuck : {A : Type 0} → Run A
stuck = run_io (λ input. ([], crash))

-- A bound on the rounds of a loop.
abbrev pub input_left : Run ℕ
input_left = run_io (λ input. ([], done (length input, input)))

abbrev pub pdu_size_of : Run ℕ
pdu_size_of inner input = (inner, ([], done (inner.pdu_size, input)))

-- A request whose response has no error: the body of the response.
abbrev pub job : (param_buf data_buf : Bytes) → Run Bytes
job param_buf data_buf = do
  received ← request param_buf data_buf PduType.job
  check_plc_error received.0
  return received.1

abbrev pub skip_two : Bytes → Bytes
skip_two (a ∷ b ∷ rest) = rest
skip_two body = body

-- The parameters of the first request of an upload, and of a deletion.
abbrev pub block_params : (func block_type block_number : ℕ) → Bytes
block_params func block_type block_number = func ∷ 0x00 ∷ block_type ∷ 0x00 ∷ put_u16 block_number

abbrev pub id_params : (func sub id : ℕ) → Bytes
id_params func sub id = func ∷ sub ∷ put_u32 id

unfoldable pub delete_block : (block_type block_number : ℕ) → Run (Unit {0})
delete_block block_type block_number =
    command (block_params 0x1f block_type block_number) [] PduType.job

-- The upload's number behind the echo. A body of 8 or 9 bytes passes the test and is read past its end.
abbrev upload_id_of : Bytes → Io ℕ
upload_id_of body =
    if ltb (length body) 8
    then Io.fail unexpected_response
    else if ltb (length body) 10
    then (λ input. ([], crash))
    else Io.return (
        ((get_or body 2 0 * 256 + get_or body 3 0) * 256 + get_or body 4 0) * 256 + get_or body 5 0)

-- The header in front of the data of the first response.
abbrev pub skip_data_header : Bool → Bytes → Bytes
skip_data_header first dbody =
    if first && leb 4 (length dbody) && ((get_or dbody 0 0 == 0xff) || (get_or dbody 0 0 == 0x00))
    then drop 4 dbody
    else dbody

abbrev pub is_empty : Bytes → Bool
is_empty [] = true
is_empty (x ∷ xs) = false

-- The end of a round: on to the next one, or done, by the length of the chunk.
abbrev after_chunk : (pdu_size : ℕ) → (chunk block_data : Bytes) → Run Bytes → Run Bytes
after_chunk pdu_size chunk block_data next =
    if ltb pdu_size 50
    then stuck
    else if ltb (length chunk) (pdu_size - 50)
    then return block_data
    else if ltb 4194304 (length block_data)
    then fail_with unexpected_response
    else next

-- The loop of both uploads, by their function code.
unfoldable pub upload_chunks : (rounds func upload_id : ℕ) → Bytes → Run Bytes
upload_chunks zero func upload_id block_data = stuck
upload_chunks (suc rounds) func upload_id block_data = do
  body ← job (id_params func 0x01 upload_id) []
  pdu_size ← pdu_size_of
  let dbody = skip_two body
  let chunk = skip_data_header (is_empty block_data) dbody
  let next = upload_chunks rounds func upload_id (block_data ++ chunk)
  if is_empty dbody
      then return block_data
      else after_chunk pdu_size chunk (block_data ++ chunk) next

-- Behind the response to the first request of an upload.
abbrev pub upload_rest : (func : ℕ) → Bytes → Run Bytes
upload_rest func body = do
  upload_id ← run_io (upload_id_of body)
  rounds ← input_left
  block_data ← upload_chunks (suc rounds) func upload_id []
  job (id_params func 0x02 upload_id) []
  return block_data

unfoldable pub upload_with : (func block_type block_number : ℕ) → Run Bytes
upload_with func block_type block_number =
    job (block_params func block_type block_number) [] >>= upload_rest func

unfoldable pub upload : (block_type block_number : ℕ) → Run Bytes
unfolding upload_with
upload block_type block_number = upload_with 0x1d block_type block_number

unfoldable pub full_upload : (block_type block_number : ℕ) → Run Bytes
unfolding upload_with
full_upload block_type block_number = upload_with 0x1f block_type block_number

unfoldable pub db_get : ℕ → Run Bytes
unfolding upload
db_get db_number = upload 0x41 db_number

abbrev pub download_params : (block_type block_number total_len : ℕ) → Bytes
download_params block_type block_number total_len =
    0x1e ∷ 0x00 ∷ block_type ∷ 0x00 ∷ put_u16 block_number ++ put_u32 total_len

abbrev pub download_id_of : Bytes → Io ℕ
download_id_of body =
    if ltb (length (skip_two body)) 4
    then Io.fail unexpected_response
    else Io.return (
        ((get_or (skip_two body) 0 0 * 256 + get_or (skip_two body) 1 0) * 256
            + get_or (skip_two body) 2 0)
          * 256
        + get_or (skip_two body) 3 0)

-- The data from `offset` on, in chunks of what a PDU has room for. With no room, a round sends nothing
-- of the data.
unfoldable pub download_chunks : (rounds pdu_avail download_id : ℕ) → Bytes → Run (Unit {0})
download_chunks rounds pdu_avail download_id [] = return tt
download_chunks zero pdu_avail download_id (x ∷ xs) = stuck
download_chunks (suc rounds) pdu_avail download_id (x ∷ xs) = do
  job (id_params 0x1e 0x01 download_id) (take pdu_avail (x ∷ xs))
  download_chunks rounds pdu_avail download_id (drop pdu_avail (x ∷ xs))

unfoldable pub download : (block_type block_number : ℕ) → Bytes → Run (Unit {0})
download block_type block_number bytes = do
  pdu_size ← pdu_size_of
  let pdu_avail = pdu_size - 50
  body ←
      job (download_params block_type block_number (length bytes % 2 ^ 32)) (take pdu_avail bytes)
  download_id ← run_io (download_id_of body)
  rounds ← input_left
  download_chunks (suc rounds) pdu_avail download_id (drop pdu_avail bytes)
  job (id_params 0x1e 0x02 download_id) []
  return tt

unfoldable pub clear_session_password : Run (Unit {0})
clear_session_password = command (0x11 ∷ 0x00 ∷ []) [] PduType.job
