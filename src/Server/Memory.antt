-- ===== src/Server/Memory.antt =====
-- The bytes of crates/snap7-server/src/store.rs: `HashMap<(u8, u16, u32), u8>`, as the function that
-- looks a key up, and the two loops that read and write a range of it.
pub mod Laws
use rs_snap.Prelude.{
  ℕ, zero, suc, ◌+◌, ◌%◌, ◌^◌, Option, none, some, List, [], ◌∷◌, ltb, ◌==◌, ◌&&◌, if◌then◌else◌,
}
use rs_snap.Wire.{Bytes}

abbrev pub Memory : Type 0
Memory = (area db offset : ℕ) → Option ℕ

abbrev pub empty : Memory
empty area db offset = none

-- `data.insert((area, db, offset), byte)`
abbrev pub insert : Memory → (area db offset byte : ℕ) → Memory
insert m area db offset byte a d o =
    if a == area && d == db && o == offset then some byte else m a d o

-- `data.retain(|k, _| k.0 != area_code)`
abbrev pub purge : Memory → ℕ → Memory
purge m area a d o = if a == area then none else m a d o

-- `*data.get(&key).unwrap_or(&0)`
abbrev pub byte_or_zero : Option ℕ → ℕ
byte_or_zero none = 0
byte_or_zero (some byte) = byte

-- `(start..end).map(…).collect()`, over the number of offsets in the range.
unfoldable pub read_range : Memory → (area db start count : ℕ) → Bytes
read_range m area db start zero = []
read_range m area db start (suc n) =
    byte_or_zero (m area db start) ∷ read_range m area db (suc start) n

-- `if let Some(offset) = start.checked_add(i as u32) { … }`
unfoldable pub write_byte : Memory → (area db offset byte : ℕ) → Memory
write_byte m area db offset byte = if ltb offset (2 ^ 32) then insert m area db offset byte else m

-- `for (i, &byte) in data.iter().enumerate()`
unfoldable pub write_loop : Memory → (area db start i : ℕ) → Bytes → Memory
unfolding write_byte
write_loop m area db start i [] = m
write_loop m area db start i (byte ∷ bytes) =
    write_loop (write_byte m area db (start + i % 2 ^ 32) byte) area db start (suc i) bytes
