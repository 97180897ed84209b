-- ===== src/Server/Store/Access.antt =====
-- Reads and writes of areas through the store, with their locks and callbacks.
use rs_snap.Prelude.{
  ℕ, ◌+◌, ◌-◌, ◌≤◌, ◌^◌, ◌≡◌, ◌≢◌, refl, ◌∙◌, arith, Bool-cases, ◌⊎◌, inl, inr, true, false, List,
  [], ◌∷◌, length, min, if◌then◌else◌,
}
use rs_snap.Wire.{Bytes}
use rs_snap.Server.Memory.{write_loop}
use rs_snap.Server.Memory.Laws as Memory
use rs_snap.Server.Store.{
  EventInfo, Store, Callbacks, fire_read, read_area, write_area, is_area_locked, run_each,
  range_len,
}

module _ (calls : Callbacks) where
  -- Whatever the callbacks do, the list of read callbacks is afterwards what it was: one that a
  -- callback registers is lost.
  pub fire_read_drops :
      (info : EventInfo) (s : Store) → (fire_read calls info s).read_callbacks ≡ s.read_callbacks
  unfolding fire_read
  fire_read_drops info s = refl

  -- A locked area stays as it is, and no callback is told of the write.
  pub write_area_locked :
      (area db start : ℕ) (bytes : Bytes) (s : Store)
      → is_area_locked area s ≡ true
      → write_area calls area db start bytes s ≡ s
  unfolding write_area is_area_locked
  write_area_locked area db start bytes s h = rw h

-- Callbacks that leave the bytes and the locks alone.
pub record IsQuiet (calls : Callbacks) : Type 0 where
  pub keeps_memory :
      (cb : ℕ) (info : EventInfo) (s : Store) → (calls.on_access cb info s).memory ≡ s.memory
  pub keeps_locks :
      (cb : ℕ) (info : EventInfo) (s : Store)
      → (calls.on_access cb info s).locked_areas ≡ s.locked_areas

module _ (calls : Callbacks) (quiet : IsQuiet calls) where
  each_quiet :
      (info : EventInfo) (cbs : List ℕ) (s : Store)
      → ((run_each (λ cb. calls.on_access cb info) cbs s).memory ≡ s.memory)
        × ((run_each (λ cb. calls.on_access cb info) cbs s).locked_areas ≡ s.locked_areas)
  each_quiet info [] s = (refl, refl)
  each_quiet info (cb ∷ cbs) s =
      let (m, l) = each_quiet info cbs (calls.on_access cb info s) in
      (m ∙ quiet.keeps_memory cb info s, l ∙ quiet.keeps_locks cb info s)

  pub read_area_quiet :
      (area db start count : ℕ) (s : Store)
      → ((read_area calls area db start count s).1.memory ≡ s.memory)
        × ((read_area calls area db start count s).1.locked_areas ≡ s.locked_areas)
  unfolding read_area
  read_area_quiet area db start count s = each_quiet _ s.read_callbacks _

  pub write_area_quiet :
      (area db start : ℕ) (bytes : Bytes) (s : Store)
      → ((write_area calls area db start bytes s).memory
          ≡ (if s.locked_areas area then s.memory else write_loop s.memory area db start 0 bytes))
        × ((write_area calls area db start bytes s).locked_areas ≡ s.locked_areas)
  unfolding write_area
  write_area_quiet area db start bytes s = elim (Bool-cases (s.locked_areas area)) [
    | inl locked ↦ (rw locked, rw locked)
    | inr free ↦
        (rw free (each_quiet _ s.write_callbacks _).0, rw free (each_quiet _ s.write_callbacks _).1)
  ]

  -- A range written in an area that is not locked reads back as the bytes written, if it ends at
  -- offset 2^32 - 2 at the latest and the callbacks leave the bytes and the locks alone.
  pub read_area-write_area :
      (area db start : ℕ) (bytes : Bytes) (s : Store)
      → is_area_locked area s ≡ false
      → start + length bytes ≤ 4294967295
      → (read_area calls area db start (length bytes) (write_area calls area db start bytes s)).0
        ≡ bytes
  unfolding read_area is_area_locked
  read_area-write_area area db start bytes s free fits =
      let n : range_len start (length bytes) ≡ length bytes = omega arith in
      rw (n, (write_area_quiet area db start bytes s).0, free)
        (Memory.read_range_written s.memory area db start bytes (omega arith))

  -- A range that a write of at most 2^32 bytes does not touch, as it is of another area, another DB or
  -- other offsets, reads as it did before the write; the callbacks leave the bytes and the locks alone.
  read_area-untouched :
      (area db start : ℕ) (bytes : Bytes) (a d from count : ℕ) (s : Store)
      → length bytes ≤ 2 ^ 32
      → (a ≢ area) ⊎ ((d ≢ db) ⊎ ((from + count ≤ start) ⊎ (start + length bytes ≤ from)))
      → (read_area calls a d from count (write_area calls area db start bytes s)).0
        ≡ (read_area calls a d from count s).0
  unfolding read_area
  read_area-untouched area db start bytes a d from count s fits apart =
      elim (Bool-cases (s.locked_areas area)) [
        | inl locked ↦ rw ((write_area_quiet area db start bytes s).0, locked)
        | inr free ↦
            rw ((write_area_quiet area db start bytes s).0, free)
              (Memory.read_range-untouched s.memory area db start bytes a d from
                (range_len from count) fits (omega arith))
      ]

-- A read returns as many bytes as were asked for, or those that are left below the last offset.
length-read_area :
    (calls : Callbacks) (area db start count : ℕ) (s : Store)
    → length (read_area calls area db start count s).0 ≡ min count (4294967295 - start)
unfolding read_area
length-read_area calls area db start count s =
    ground (arith, Memory.length-read_range s.memory area db start (range_len start count))
