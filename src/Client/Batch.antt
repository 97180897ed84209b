-- ===== src/Client/Batch.antt =====
-- crates/snap7-client/src/client.rs: how `read_multi_vars` and `write_multi_vars` cut their items into
-- batches. The two loops differ in what they add up, so a tally and its limit are parameters here.
pub mod Laws
use rs_snap.Prelude.{
  ℕ, zero, suc, ◌+◌, ◌-◌, ◌%◌, Bool, true, false, ◌&&◌, ◌||◌, not, List, [], ◌∷◌, ◌++◌, length, ltb,
  if◌then◌else◌,
}
use rs_snap.Wire.{Bytes}
use rs_snap.S7.Codes.{Area, TransportSize}

pub record MultiReadItem : Type 0 where
  pub area : Area
  pub db_number : ℕ
  pub start : ℕ
  pub length : ℕ
  pub transport : TransportSize

pub record MultiWriteItem : Type 0 where
  pub area : Area
  pub db_number : ℕ
  pub start : ℕ
  pub content : Bytes

abbrev pub s7_header : ℕ
s7_header = 10

abbrev pub param_overhead : ℕ
param_overhead = 2

abbrev pub addr_item_size : ℕ
addr_item_size = 12

abbrev pub data_item_overhead : ℕ
data_item_overhead = 4

abbrev pub max_items_per_pdu : ℕ
max_items_per_pdu = 20

-- `pdu_size.saturating_sub(S7_HEADER + PARAM_OVERHEAD)`
abbrev pub max_payload : ℕ → ℕ
max_payload pdu_size = pdu_size - (s7_header + param_overhead)

module _ {S A : Type 0} (over : S → A → Bool) (add : S → A → S) where
  -- The inner `while`: the batch, and the items left; `count` is `batch_end - batch_start`.
  unfoldable pub cut : (count : ℕ) → S → List A → List A × List A
  cut count used [] = ([], [])
  cut count used (item ∷ items) =
      let more = cut (suc count) (add used item) items in
      if ltb count max_items_per_pdu && not (ltb 0 count && over used item)
      then (item ∷ more.0, more.1)
      else ([], item ∷ items)

  -- The outer `while`, on fuel: the number of items is enough.
  unfoldable pub batches : ℕ → S → List A → List (List A)
  unfolding cut
  batches fuel start [] = []
  batches zero start (item ∷ items) = []
  batches (suc fuel) start (item ∷ items) =
      let one = cut 0 start (item ∷ items) in let more = batches fuel start one.1 in one.0 ∷ more

-- `req_bytes_used` and `resp_bytes_used`
abbrev pub read_size : MultiReadItem → ℕ
read_size item = data_item_overhead + item.length + item.length % 2

abbrev pub add_read : ℕ × ℕ → MultiReadItem → ℕ × ℕ
add_read used item = (used.0 + addr_item_size, used.1 + read_size item)

abbrev pub over_read : ℕ → ℕ × ℕ → MultiReadItem → Bool
over_read pdu_size used item =
    ltb (max_payload pdu_size) (used.0 + addr_item_size)
    || ltb (max_payload pdu_size) (used.1 + read_size item)

unfoldable pub read_batches : ℕ → List MultiReadItem → List (List MultiReadItem)
unfolding batches
read_batches pdu_size items = batches (over_read pdu_size) add_read (length items) (0, 0) items

-- `bytes_used`
abbrev pub write_size : MultiWriteItem → ℕ
write_size item =
    addr_item_size + data_item_overhead + length item.content + length item.content % 2

abbrev pub add_write : ℕ → MultiWriteItem → ℕ
add_write used item = used + write_size item

abbrev pub over_write : ℕ → ℕ → MultiWriteItem → Bool
over_write pdu_size used item = ltb (max_payload pdu_size) (used + write_size item)

unfoldable pub write_batches : ℕ → List MultiWriteItem → List (List MultiWriteItem)
unfolding batches
write_batches pdu_size items = batches (over_write pdu_size) add_write (length items) 0 items
