-- ===== src/Server/Memory/Laws.antt =====
-- What a range reads after a write, inside and outside the range written.
use rs_snap.Prelude.{
  ℕ, zero, suc, ◌+◌, ◌%◌, ◌^◌, ◌≤◌, ◌<◌, ◌≡◌, ◌≢◌, refl, ◌∙◌, ap, arith, ◌⊎◌, [], ◌∷◌, length,
  replicate,
}
use mathlib.Core.Path.{ap₂}
use native.Mathlib.Nat.{add-zero}
use rs_snap.Wire.{Bytes}
use rs_snap.Server.Memory.{Memory, empty, purge, byte_or_zero, read_range, write_byte, write_loop}

pub length-read_range :
    (m : Memory) (area db start n : ℕ) → length (read_range m area db start n) ≡ n
unfolding read_range
length-read_range m area db start zero = refl
length-read_range m area db start (suc n) = ap suc (length-read_range m area db (suc start) n)

-- Two memories that agree on a range read the same there.
pub read_range-agree :
    (m m' : Memory) (area db start n : ℕ)
    → ((o : ℕ) → start ≤ o → o < start + n → m area db o ≡ m' area db o)
    → read_range m area db start n ≡ read_range m' area db start n
unfolding read_range
read_range-agree m m' area db start zero h = refl
read_range-agree m m' area db start (suc n) h =
    ap₂ ◌∷◌ (ap byte_or_zero (h start (omega arith) (omega arith)))
      (read_range-agree m m' area db (suc start) n (λ o lo hi. h o (omega arith) (omega arith)))

-- A key that a write does not reach.
abbrev pub Outside : (area db start n a d o : ℕ) → Type 0
Outside area db start n a d o = (a ≢ area) ⊎ ((d ≢ db) ⊎ ((o < start) ⊎ (start + n ≤ o)))

pub write_loop-Outside :
    (m : Memory) (area db start i : ℕ) (bytes : Bytes) (a d o : ℕ)
    → i + length bytes ≤ 2 ^ 32
    → Outside area db (start + i) (length bytes) a d o
    → write_loop m area db start i bytes a d o ≡ m a d o
unfolding write_loop
write_loop-Outside m area db start i [] a d o fits h = refl
write_loop-Outside m area db start i (byte ∷ bytes) a d o fits h = ground (
  arith,
  write_loop-Outside (write_byte m area db (start + i % 2 ^ 32) byte) area db start (suc i) bytes a
      d o,
)

pub write_loop-other_area :
    (m : Memory) (area db start i : ℕ) (bytes : Bytes) (a d o : ℕ)
    → a ≢ area
    → write_loop m area db start i bytes a d o ≡ m a d o
unfolding write_loop
write_loop-other_area m area db start i [] a d o h = refl
write_loop-other_area m area db start i (byte ∷ bytes) a d o h = ground (
  arith,
  write_loop-other_area (write_byte m area db (start + i % 2 ^ 32) byte) area db start (suc i) bytes
      a d o,
)

-- The range written reads the bytes written.
pub read_range-write_loop :
    (m : Memory) (area db start i : ℕ) (bytes : Bytes)
    → start + i + length bytes ≤ 2 ^ 32
    → read_range (write_loop m area db start i bytes) area db (start + i) (length bytes) ≡ bytes
unfolding read_range write_loop
read_range-write_loop m area db start i [] fits = refl
read_range-write_loop m area db start i (byte ∷ bytes) fits =
    let next : Memory = write_byte m area db (start + i % 2 ^ 32) byte in
    ap₂ ◌∷◌
      (ground (arith, write_loop-Outside next area db start (suc i) bytes area db (start + i)))
      (ap
          (λ (o : ℕ).
            read_range (write_loop next area db start (suc i) bytes) area db o (length bytes))
          (omega arith)
        ∙ read_range-write_loop next area db start (suc i) bytes (omega arith))

pub read_range_written :
    (m : Memory) (area db start : ℕ) (bytes : Bytes)
    → start + length bytes ≤ 2 ^ 32
    → read_range (write_loop m area db start 0 bytes) area db start (length bytes) ≡ bytes
read_range_written m area db start bytes fits =
    rw add-zero at (read_range-write_loop m area db start 0 bytes (omega arith))

-- A range that a write does not touch reads as before.
pub read_range-untouched :
    (m : Memory) (area db start : ℕ) (bytes : Bytes) (a d from n : ℕ)
    → length bytes ≤ 2 ^ 32
    → (a ≢ area) ⊎ ((d ≢ db) ⊎ ((from + n ≤ start) ⊎ (start + length bytes ≤ from)))
    → read_range (write_loop m area db start 0 bytes) a d from n ≡ read_range m a d from n
read_range-untouched m area db start bytes a d from n fits h =
    read_range-agree (write_loop m area db start 0 bytes) m a d from n
      (λ o lo hi. write_loop-Outside m area db start 0 bytes a d o (omega arith) (omega arith))

pub read_range-empty : (area db start n : ℕ) → read_range empty area db start n ≡ replicate n 0
unfolding read_range
read_range-empty area db start zero = refl
read_range-empty area db start (suc n) = ap (◌∷◌ 0) (read_range-empty area db (suc start) n)

-- A purged area reads as zeros, and the others as before.
pub read_range-purge :
    (m : Memory) (area db start n : ℕ) → read_range (purge m area) area db start n ≡ replicate n 0
unfolding read_range
read_range-purge m area db start zero = refl
read_range-purge m area db start (suc n) =
    ap₂ ◌∷◌ (ground arith) (read_range-purge m area db (suc start) n)

pub read_range-purge_other :
    (m : Memory) (area a db start n : ℕ)
    → a ≢ area
    → read_range (purge m area) a db start n ≡ read_range m a db start n
read_range-purge_other m area a db start n h =
    read_range-agree (purge m area) m a db start n (λ o lo hi. ground arith)
