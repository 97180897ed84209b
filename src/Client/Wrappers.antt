-- ===== src/Client/Wrappers.antt =====
-- crates/snap7-client/src/client.rs: reads and writes of one area through those of several variables,
-- and the commands that force outputs and inputs.
pub mod Forced
use rs_snap.Prelude.{
  ℕ, ◌-◌, ◌*◌, ◌%◌, ◌^◌, Bool, List, [], ◌∷◌, get_or, if◌then◌else◌, bit_and, bit_or,
}
use rs_snap.Wire.{Bytes}
use rs_snap.Io.{Io, crash, return}
use rs_snap.S7.Codes.{Area, TransportSize}
use rs_snap.Client.Session.{Run, ◌>>=◌, ◌>>◌, run_io}
use rs_snap.Client.Batch.{MultiReadItem, MultiWriteItem}
use rs_snap.Client.MultiVars.{read_multi_vars, write_multi_vars}
use rs_snap.Client.Areas.{read_area, write_area}

-- `results.swap_remove(0)`
abbrev pub first_result : List Bytes → Io Bytes
first_result [] = λ input. ([], crash)
first_result (content ∷ _) = return content

abbrev pub read_one : Area → (db_number start length : ℕ) → TransportSize → Run Bytes
read_one area db_number start length transport = do
  results ← read_multi_vars (
      record {
        area = area;
        db_number = db_number;
        start = start;
        length = length;
        transport = transport;
      }
      ∷ [])
  run_io (first_result results)

abbrev pub write_one : Area → (db_number start : ℕ) → Bytes → Run (Unit {0})
write_one area db_number start content =
    write_multi_vars
      (record { area = area; db_number = db_number; start = start; content = content } ∷ [])

unfoldable pub ab_read : Area → (db_number start length : ℕ) → Run Bytes
ab_read area db_number start length = read_one area db_number start length TransportSize.byte

unfoldable pub ab_write : Area → (db_number start : ℕ) → Bytes → Run (Unit {0})
ab_write area db_number start content = write_one area db_number start content

unfoldable pub mb_read : (start length : ℕ) → Run Bytes
unfolding ab_read
mb_read start length = ab_read Area.marker 0 start length

unfoldable pub mb_write : ℕ → Bytes → Run (Unit {0})
unfolding ab_write
mb_write start content = ab_write Area.marker 0 start content

unfoldable pub eb_read : (start length : ℕ) → Run Bytes
unfolding ab_read
eb_read start length = ab_read Area.process_input 0 start length

unfoldable pub eb_write : ℕ → Bytes → Run (Unit {0})
unfolding ab_write
eb_write start content = ab_write Area.process_input 0 start content

unfoldable pub ib_read : (start length : ℕ) → Run Bytes
unfolding ab_read
ib_read start length = ab_read Area.process_output 0 start length

unfoldable pub ib_write : ℕ → Bytes → Run (Unit {0})
unfolding ab_write
ib_write start content = ab_write Area.process_output 0 start content

unfoldable pub tm_read : (start amount : ℕ) → Run Bytes
tm_read start amount = read_one Area.timer 0 start amount TransportSize.timer

unfoldable pub tm_write : ℕ → Bytes → Run (Unit {0})
tm_write start content = write_one Area.timer 0 start content

unfoldable pub ct_read : (start amount : ℕ) → Run Bytes
ct_read start amount = read_one Area.counter 0 start amount TransportSize.counter

unfoldable pub ct_write : ℕ → Bytes → Run (Unit {0})
ct_write start content = write_one Area.counter 0 start content

-- The byte with a bit of it set or cleared; `bit` is below 8.
unfoldable pub with_bit : (current bit : ℕ) → Bool → ℕ
with_bit current bit value =
    if value then bit_or current (2 ^ bit) else bit_and current (255 - 2 ^ bit)

-- `byte_addr * 8` in 32 bits.
unfoldable pub force_byte : Area → (byte_addr value : ℕ) → Run (Unit {0})
force_byte area byte_addr value =
    write_area area 0 (byte_addr * 8 % 2 ^ 32) TransportSize.byte (value ∷ [])

unfoldable pub force_cancel_byte : Area → ℕ → Run (Unit {0})
force_cancel_byte area byte_addr =
    write_area area 0 (byte_addr * 8 % 2 ^ 32) TransportSize.byte (0x00 ∷ [])

-- An empty answer is read as 0.
unfoldable pub force_bit : Area → (byte_addr bit : ℕ) → Bool → Run (Unit {0})
force_bit area byte_addr bit value = do
  current ← read_area area 0 (byte_addr * 8 % 2 ^ 32) 1 TransportSize.byte
  write_area area 0 (byte_addr * 8 % 2 ^ 32) TransportSize.byte
      (with_bit (get_or current 0 0) (bit_and bit 0x07) value ∷ [])
