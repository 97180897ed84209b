-- ===== src/Pool.antt =====
-- crates/snap7-client/src/pool.rs: the pool of connections, as the tasks that call it see it. A
-- connection is a number; a task holds the lock only within one step, so that the steps of the tasks
-- come in any order.
pub mod Bounds
pub mod Sharing
pub mod Settling
use rs_snap.Prelude.{ℕ, zero, suc, ◌≡◌, List, [], ◌∷◌, ◌++◌}

-- The configuration; `connect_timeout` in milliseconds.
pub record PoolConfig : Type 0 where
  pub max_size : ℕ
  pub connect_timeout : ℕ

abbrev pub default_config : PoolConfig
default_config = record { max_size = 4; connect_timeout = 5000 }

-- The permits left in the semaphore, the idle connections, and the number of those opened so far.
pub record S7Pool : Type 0 where
  pub permits : ℕ
  pub idle : List ℕ
  pub opened : ℕ

unfoldable pub new : PoolConfig → S7Pool
new cfg = record { permits = cfg.max_size; idle = []; opened = 0 }

-- Where a task is: in `acquire` before the permit, before the look at the idle connections, and in the
-- connect; with its guard; in the drop of the guard, behind its body; behind all of it.
pub data Phase : Type 0 where
  waiting permitted connecting : Phase
  holding : ℕ → Phase
  dropping finished : Phase

abbrev pub release : S7Pool → S7Pool
release s = record s { permits = suc s.permits }

-- One step of a task on the pool. An error of the connect, or its timeout, gives the permit back. The
-- fields of a guard are dropped after the body of its `drop`, the permit with them.
pub data Act : S7Pool → Phase → S7Pool → Phase → Type 0 where
  acquire :
      {s : S7Pool} (n : ℕ) → s.permits ≡ suc n → Act s waiting (record s { permits = n }) permitted
  pop_front :
      {s : S7Pool} (c : ℕ) (rest : List ℕ)
      → s.idle ≡ c ∷ rest
      → Act s permitted (record s { idle = rest }) (holding c)
  none_idle : {s : S7Pool} → s.idle ≡ [] → Act s permitted s connecting
  connected :
      {s : S7Pool} → Act s connecting (record s { opened = suc s.opened }) (holding s.opened)
  not_connected : {s : S7Pool} → Act s connecting (release s) finished
  push_back :
      {s : S7Pool} (c : ℕ) → Act s (holding c) (record s { idle = s.idle ++ (c ∷ []) }) dropping
  drop_permit : {s : S7Pool} → Act s dropping (release s) finished

-- One of the tasks makes a step.
pub data Step : S7Pool → List Phase → S7Pool → List Phase → Type 0 where
  here :
      {s s' : S7Pool} {a b : Phase} (ts : List Phase) → Act s a s' b → Step s (a ∷ ts) s' (b ∷ ts)
  there :
      {s s' : S7Pool} {ts ts' : List Phase} (a : Phase)
      → Step s ts s' ts'
      → Step s (a ∷ ts) s' (a ∷ ts')

-- What a new pool comes to by calls of `acquire` and steps of the tasks.
pub data Reach (cfg : PoolConfig) : S7Pool → List Phase → Type 0 where
  start : Reach cfg (new cfg) []
  call : {s : S7Pool} {ts : List Phase} → Reach cfg s ts → Reach cfg s (waiting ∷ ts)
  step :
      {s s' : S7Pool} {ts ts' : List Phase} → Reach cfg s ts → Step s ts s' ts' → Reach cfg s' ts'
