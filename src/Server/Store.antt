-- ===== src/Server/Store.antt =====
-- crates/snap7-server/src/store.rs: `DataStore`. The mutex is held within each method but for the
-- callbacks, so a method is a function on the inner state; `calls` is the code of the callbacks, which
-- may itself use the store.
pub mod Access
pub mod Queue
use rs_snap.Prelude.{
  ℕ, zero, suc, ◌+◌, ◌-◌, ◌%◌, ◌^◌, Option, none, some, Bool, true, false, List, [], ◌∷◌, ◌++◌,
  length, ltb, leb, ◌==◌, if◌then◌else◌, bit_and, min, replicate, get_or,
}
use rs_snap.Wire.{Bytes}
use rs_snap.Server.Memory.{Memory, empty, purge, read_range, write_loop}

pub data CpuState : Type 0 where
  run stop : CpuState

pub data EventKind : Type 0 where
  read write cpu_stop cpu_start : EventKind

pub record EventInfo : Type 0 where
  pub event : EventKind
  pub area : ℕ
  pub db_number : ℕ
  pub start : ℕ
  pub length : ℕ

-- `StoreInner`. A callback is a handle; `locked_areas` keeps `true` for its keys, so it is a set.
pub record Store : Type 0 where
  pub memory : Memory
  pub cpu_state : CpuState
  pub clock : Bytes
  pub registered_areas : ℕ → Option ℕ
  pub locked_areas : ℕ → Bool
  pub events : List EventInfo
  pub event_mask : ℕ
  pub client_count : ℕ
  pub read_callbacks : List ℕ
  pub write_callbacks : List ℕ
  pub event_callbacks : List ℕ

-- `DataStore::default`
unfoldable pub new_store : Store
new_store = record {
  memory = empty;
  cpu_state = stop;
  clock = replicate 8 0;
  registered_areas = λ a. none;
  locked_areas = λ a. false;
  events = [];
  event_mask = 0xffff_ffff;
  client_count = 0;
  read_callbacks = [];
  write_callbacks = [];
  event_callbacks = [];
}

unfoldable pub register_area : ℕ → ℕ → Store → Store
register_area area size s = record s {
  registered_areas = λ a. if a == area then some size else s.registered_areas a;
}

unfoldable pub unregister_area : ℕ → Store → Store
unregister_area area s = record s {
  registered_areas = λ a. if a == area then none else s.registered_areas a;
  memory = purge s.memory area;
}

unfoldable pub is_area_registered : ℕ → Store → Bool
is_area_registered area s = elim (s.registered_areas area) [ none ↦ false | some size ↦ true ]

unfoldable pub lock_area : ℕ → Store → Store
lock_area area s = record s { locked_areas = λ a. if a == area then true else s.locked_areas a }

unfoldable pub unlock_area : ℕ → Store → Store
unlock_area area s = record s { locked_areas = λ a. if a == area then false else s.locked_areas a }

unfoldable pub is_area_locked : ℕ → Store → Bool
is_area_locked area s = s.locked_areas area

pub record ServerStatus : Type 0 where
  pub server_running : Bool
  pub cpu_state : CpuState
  pub clients_count : ℕ

unfoldable pub get_status : Store → ServerStatus
get_status s = record {
  server_running = true;
  cpu_state = s.cpu_state;
  clients_count = s.client_count;
}

unfoldable pub client_connected : Store → Store
client_connected s = record s { client_count = s.client_count + 1 }

-- `saturating_sub(1)`
unfoldable pub client_disconnected : Store → Store
client_disconnected s = record s { client_count = s.client_count - 1 }

unfoldable pub set_mask : ℕ → Store → Store
set_mask mask s = record s { event_mask = mask }

unfoldable pub clear_events : Store → Store
clear_events s = record s { events = [] }

-- `pop_front`
abbrev pub pop_front : List EventInfo → Option EventInfo × List EventInfo
pop_front [] = (none, [])
pop_front (e ∷ es) = (some e, es)

unfoldable pub pick_event : Store → Option EventInfo × Store
pick_event s = let (e, rest) = pop_front s.events in (e, record s { events = rest })

-- Dropped unless the mask has its bit; the oldest event goes when 1024 are there.
unfoldable pub enqueue_event : EventInfo → ℕ → Store → Store
enqueue_event info kind_bit s = if bit_and s.event_mask kind_bit == 0 then s else record s {
  events = (if leb 1024 (length s.events) then (pop_front s.events).1 else s.events) ++ (info ∷ []);
}

unfoldable pub get_clock : Store → Bytes
get_clock s = s.clock

unfoldable pub set_clock : Bytes → Store → Store
set_clock bytes s = record s { clock = bytes }

unfoldable pub on_read : ℕ → Store → Store
on_read cb s = record s { read_callbacks = s.read_callbacks ++ (cb ∷ []) }

unfoldable pub on_write : ℕ → Store → Store
on_write cb s = record s { write_callbacks = s.write_callbacks ++ (cb ∷ []) }

unfoldable pub on_event : ℕ → Store → Store
on_event cb s = record s { event_callbacks = s.event_callbacks ++ (cb ∷ []) }

-- The code behind the handles: what a call does to the store that the callback may hold.
pub record Callbacks : Type 0 where
  pub on_access : (cb : ℕ) → EventInfo → Store → Store
  pub on_cpu : (cb : ℕ) → EventKind → Store → Store

abbrev run_each : (ℕ → Store → Store) → List ℕ → Store → Store
run_each call [] s = s
run_each call (cb ∷ cbs) s = run_each call cbs (call cb s)

-- The offsets from `start` up to `start.saturating_add(count)`.
abbrev pub range_len : ℕ → ℕ → ℕ
range_len start count = min (start + count) 4294967295 - start

module _ (calls : Callbacks) where
  -- Take the list, call each, and put the list back.
  unfoldable pub fire_read : EventInfo → Store → Store
  fire_read info s =
      let called =
        run_each (λ cb. calls.on_access cb info) s.read_callbacks
          (record s { read_callbacks = [] }) in
      record called { read_callbacks = s.read_callbacks }

  unfoldable pub fire_write : EventInfo → Store → Store
  fire_write info s =
      let called =
        run_each (λ cb. calls.on_access cb info) s.write_callbacks
          (record s { write_callbacks = [] }) in
      record called { write_callbacks = s.write_callbacks }

  unfoldable pub fire_event : EventKind → Store → Store
  fire_event event s =
      let called =
        run_each (λ cb. calls.on_cpu cb event) s.event_callbacks
          (record s { event_callbacks = [] }) in
      record called { event_callbacks = s.event_callbacks }

  unfoldable pub set_cpu_state : CpuState → Store → Store
  set_cpu_state CpuState.run s = fire_event cpu_start (record s { cpu_state = CpuState.run })
  set_cpu_state CpuState.stop s = fire_event cpu_stop (record s { cpu_state = CpuState.stop })

  unfoldable pub read_area : (area db start count : ℕ) → Store → Bytes × Store
  unfolding fire_read
  read_area area db start count s = (
    read_range s.memory area db start (range_len start count),
    fire_read (record { event = read; area = area; db_number = db; start = start; length = count })
        s,
  )

  unfoldable pub write_area : (area db start : ℕ) → Bytes → Store → Store
  unfolding fire_write
  write_area area db start bytes s =
      if s.locked_areas area
      then s
      else fire_write
          (record {
            event = write;
            area = area;
            db_number = db;
            start = start;
            length = length bytes % 2 ^ 32;
          })
          (record s { memory = write_loop s.memory area db start 0 bytes })

  unfoldable pub write_bytes : (db start : ℕ) → Bytes → Store → Store
  unfolding write_area
  write_bytes = write_area 0x84

-- `read_bytes`, which fires no callback.
unfoldable pub read_bytes : (db start count : ℕ) → Store → Bytes
read_bytes db start count s = read_range s.memory 0x84 db start (range_len start count)
