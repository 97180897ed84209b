-- ===== src/Client/Blocks/Lists.antt =====
-- crates/snap7-client/src/client.rs: the lists of blocks. The loop over the responses is bounded by the
-- input, off which each round takes a response.
use rs_snap.Prelude.{
  ℕ, zero, suc, ◌+◌, ◌-◌, ◌*◌, ◌/◌, ◌%◌, ◌^◌, Bool, true, false, ◌&&◌, ◌||◌, not, List, [], ◌∷◌,
  ◌++◌, length, take, drop, get_or, ltb, leb, ◌==◌, if◌then◌else◌,
}
use rs_snap.Wire.{Bytes}
use rs_snap.Io.{Io, done, crash, unexpected_response, plc_error}
use rs_snap.Io
use rs_snap.S7.Codes.{PduType}
use rs_snap.S7.Header.{S7Header}
use rs_snap.Client.Session.{Run, ◌>>=◌, run_io}
use rs_snap.Client.Queries.{request, user_params}
use rs_snap.Client.Blocks.{return, stuck, input_left}

-- Entries of a type and a count.
pub record BlockListEntry : Type 0 where
  pub block_type : ℕ
  pub count : ℕ

pub record BlockList : Type 0 where
  pub total_count : ℕ
  pub entries : List BlockListEntry

abbrev no_blocks : BlockList
no_blocks = record { total_count = 0; entries = [] }

abbrev entry_at : Bytes → BlockListEntry
entry_at body = record {
  block_type = get_or body 1 0;
  count = get_or body 2 0 * 256 + get_or body 3 0;
}

-- The loop of seven rounds, with the sum of the counts in 32 bits.
unfoldable pub block_entries : ℕ → Bytes → BlockList
block_entries zero body = no_blocks
block_entries (suc n) body =
    let rest = block_entries n (drop 4 body) in
    record {
      total_count = ((entry_at body).count + rest.total_count) % 2 ^ 32;
      entries = entry_at body ∷ rest.entries;
    }

unfoldable pub block_list_of : Bytes → BlockList
unfolding block_entries
block_list_of (ret_val ∷ tr_size ∷ hi ∷ lo ∷ body) =
    if ltb (hi * 256 + lo) 28 || ltb (length body) 28 then no_blocks else block_entries 7 body
block_list_of _ = no_blocks

-- The parameters that the response repeats, and what follows them.
abbrev behind_params : S7Header × Bytes → Io (Bytes × Bytes)
behind_params (header, body) =
    if ltb (length body) header.param_len
    then Io.fail unexpected_response
    else Io.return (take header.param_len body, drop header.param_len body)

unfoldable pub list_blocks : Run BlockList
unfolding block_list_of
list_blocks = do
  received ← request (user_params 0x43 0x01) (0x0a ∷ 0x00 ∷ 0x00 ∷ 0x00 ∷ []) PduType.user_data
  parts ← run_io (behind_params received)
  return (block_list_of parts.1)

-- The numbers of the items, of 4 bytes each.
unfoldable pub block_numbers : ℕ → Bytes → List ℕ
block_numbers (suc n) (hi ∷ lo ∷ unknown ∷ lang ∷ rest) = (hi * 256 + lo) ∷ block_numbers n rest
block_numbers _ _ = []

-- The numbers of one response; none if its envelope ends the loop.
unfoldable pub numbers_of : Bytes → List ℕ × Bool
unfolding block_numbers
numbers_of (ret_val ∷ tr_size ∷ hi ∷ lo ∷ body) =
    let data_len = hi * 256 + lo in
    if not (ret_val == 0xff) || ltb data_len 4 || ltb (length body) data_len
    then ([], true)
    else (block_numbers ((data_len - 4) / 4 + 1) body, false)
numbers_of _ = ([], true)

abbrev list_request : (first : Bool) → (block_type seq : ℕ) → Bytes × Bytes
list_request true block_type seq =
    (user_params 0x43 0x02, 0xff ∷ 0x09 ∷ 0x00 ∷ 0x02 ∷ 0x30 ∷ block_type ∷ [])
list_request false block_type seq = (
  0x00 ∷ 0x01 ∷ 0x12 ∷ 0x08 ∷ 0x12 ∷ 0x43 ∷ 0x02 ∷ seq ∷ 0x00 ∷ 0x00 ∷ 0x00 ∷ 0x00 ∷ [],
  0x0a ∷ 0x00 ∷ 0x00 ∷ 0x00 ∷ [],
)

-- The loop over the responses: the numbers in the order of their arrival.
unfoldable pub list_rounds : (rounds : ℕ) → Bool → (block_type seq : ℕ) → List ℕ → Run (List ℕ)
list_rounds zero first block_type seq numbers = stuck
list_rounds (suc rounds) first block_type seq numbers = do
  let req = list_request first block_type seq
  received ← request req.0 req.1 PduType.user_data
  parts ← run_io (behind_params received)
  let is_done = leb 10 (length parts.0) && (get_or parts.0 8 0 == 0x00)
  let found = numbers_of parts.1
  let next = list_rounds rounds false block_type (get_or parts.0 7 0) (numbers ++ found.0)
  if found.1 || is_done then return (numbers ++ found.0) else next

-- `sort_unstable`
unfoldable pub insert : ℕ → List ℕ → List ℕ
insert n [] = n ∷ []
insert n (m ∷ ms) = if leb n m then n ∷ m ∷ ms else m ∷ insert n ms

unfoldable pub sort : List ℕ → List ℕ
sort [] = []
sort (n ∷ ns) = insert n (sort ns)

unfoldable pub list_blocks_of_type : ℕ → Run (List ℕ)
list_blocks_of_type block_type = do
  rounds ← input_left
  numbers ← list_rounds (suc rounds) true block_type 0x00 []
  return (sort numbers)
