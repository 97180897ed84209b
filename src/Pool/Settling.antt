-- ===== src/Pool/Settling.antt =====
-- How the tasks of the pool (crates/snap7-client/src/pool.rs) come to their end.
use rs_snap.Prelude.{
  ℕ, zero, suc, ◌+◌, ◌≤◌, ◌<◌, ◌≡◌, ◌⊎◌, inl, inr, refl, ap, arith, List, [], ◌∷◌, All,
}
use rs_snap.Pool.{
  PoolConfig, S7Pool, Phase, waiting, permitted, connecting, holding, dropping, finished, Act, Step,
  Reach, here, there, step, acquire, pop_front, none_idle, connected, not_connected, push_back,
  drop_permit,
}
use rs_snap.Pool.Bounds.{permits_of, total, IsBounded, Reach-IsBounded}

-- How many steps a task has before it at most.
unfoldable pub rank : Phase → ℕ
rank waiting = 5
rank permitted = 4
rank connecting = 3
rank (holding c) = 2
rank dropping = 1
rank finished = 0

-- A number of steps, with no call between them.
pub data Steps : S7Pool → List Phase → ℕ → S7Pool → List Phase → Type 0 where
  stop : {s : S7Pool} {ts : List Phase} → Steps s ts 0 s ts
  next :
      {s s' s'' : S7Pool} {ts ts' ts'' : List Phase} {n : ℕ}
      → Step s ts s' ts'
      → Steps s' ts' n s'' ts''
      → Steps s ts (suc n) s'' ts''

Act-rank : {s s' : S7Pool} {a b : Phase} → Act s a s' b → rank b < rank a
unfolding rank
Act-rank (acquire m e) = omega arith
Act-rank (pop_front c rest e) = omega arith
Act-rank (none_idle e) = omega arith
Act-rank connected = omega arith
Act-rank not_connected = omega arith
Act-rank (push_back c) = omega arith
Act-rank drop_permit = omega arith

Step-rank :
    {s s' : S7Pool} {ts ts' : List Phase} → Step s ts s' ts' → total rank ts' < total rank ts
unfolding total
Step-rank (here ts act) = omega (arith, Act-rank act)
Step-rank (there a st) = omega (arith, Step-rank st)

Steps-rank :
    {s s' : S7Pool} {ts ts' : List Phase} {n : ℕ}
    → Steps s ts n s' ts'
    → n + total rank ts' ≤ total rank ts
Steps-rank stop = omega arith
Steps-rank (next st rest) = omega (arith, Step-rank st, Steps-rank rest)

-- A state that another one follows.
CanStep : S7Pool → List Phase → Type 0
CanStep s ts = (s' : S7Pool) × (ts' : List Phase) × Step s ts s' ts'

-- A task with a permit has a step to make, whatever the pool is.
permitted_step :
    (s : S7Pool) (idle : List ℕ)
    → s.idle ≡ idle
    → (s' : S7Pool) × (b : Phase) × Act s permitted s' b
permitted_step s [] e = (s, connecting, none_idle e)
permitted_step s (c ∷ rest) e = (record s { idle = rest }, holding c, pop_front c rest e)

behind : (a : Phase) (s : S7Pool) (ts : List Phase) → CanStep s ts → CanStep s (a ∷ ts)
unfolding CanStep
behind a s ts (s', ts', st) = (s', a ∷ ts', there a st)

busy_step : (s : S7Pool) (ts : List Phase) → 1 ≤ total permits_of ts → CanStep s ts
unfolding total permits_of CanStep
busy_step s [] h = absurd (omega arith)
busy_step s (waiting ∷ ts) h = behind waiting s ts (busy_step s ts (omega arith))
busy_step s (finished ∷ ts) h = behind finished s ts (busy_step s ts (omega arith))
busy_step s (permitted ∷ ts) h =
    let (s', b, act) = permitted_step s s.idle refl in (s', b ∷ ts, here ts act)
busy_step s (connecting ∷ ts) h = (_, _, here ts connected)
busy_step s (holding c ∷ ts) h = (_, _, here ts (push_back c))
busy_step s (dropping ∷ ts) h = (_, _, here ts drop_permit)

-- With a permit left, each task that is not finished has one.
free_step :
    (s : S7Pool) (ts : List Phase) (n : ℕ)
    → s.permits ≡ suc n
    → All (λ t. t ≡ finished) ts ⊎ CanStep s ts
unfolding CanStep
free_step s [] n e = inl tt
free_step s (waiting ∷ ts) n e = inr (_, _, here ts (acquire n e))
free_step s (permitted ∷ ts) n e =
    let (s', b, act) = permitted_step s s.idle refl in inr (s', b ∷ ts, here ts act)
free_step s (connecting ∷ ts) n e = inr (_, _, here ts connected)
free_step s (holding c ∷ ts) n e = inr (_, _, here ts (push_back c))
free_step s (dropping ∷ ts) n e = inr (_, _, here ts drop_permit)
free_step s (finished ∷ ts) n e = elim (free_step s ts n e) [
  | inl h ↦ inl (refl, h)
  | inr c ↦ inr (behind finished s ts c)
]

progress :
    (s : S7Pool) (ts : List Phase) (permits : ℕ)
    → s.permits ≡ permits
    → 1 ≤ s.permits + total permits_of ts
    → All (λ t. t ≡ finished) ts ⊎ CanStep s ts
progress s ts zero e h = inr (busy_step s ts (omega arith))
progress s ts (suc n) e h = free_step s ts n e

finished_permits : (ts : List Phase) → All (λ t. t ≡ finished) ts → total permits_of ts ≡ 0
unfolding total permits_of
finished_permits [] _ = refl
finished_permits (t ∷ ts) (e, h) = omega (arith, ap permits_of e, finished_permits ts h)

-- A sequence of steps to where all tasks are finished and all permits are back.
Finishes : PoolConfig → S7Pool → List Phase → Type 0
Finishes cfg s ts =
    (n : ℕ) × (s' : S7Pool) × (ts' : List Phase) × Steps s ts n s' ts'
    × All (λ t. t ≡ finished) ts'
    × (s'.permits ≡ cfg.max_size)

moves_first :
    (cfg : PoolConfig) (s s' : S7Pool) (ts ts' : List Phase)
    → Step s ts s' ts'
    → Finishes cfg s' ts'
    → Finishes cfg s ts
unfolding Finishes
moves_first cfg s s' ts ts' st (n, s'', ts'', steps, done, full) =
    (suc n, s'', ts'', next st steps, done, full)

finish :
    (fuel : ℕ) (cfg : PoolConfig) (s : S7Pool) (ts : List Phase)
    → 1 ≤ cfg.max_size
    → Reach cfg s ts
    → total rank ts < fuel
    → Finishes cfg s ts
unfolding Finishes CanStep IsBounded
finish zero cfg s ts pos r h = absurd (omega arith)
finish (suc fuel) cfg s ts pos r h =
    let (permits, connections) = Reach-IsBounded cfg r in
    elim (progress s ts s.permits refl (omega (arith, permits))) [
      | inl done ↦ (0, s, ts, stop, done, omega (arith, permits, finished_permits ts done))
      | inr (s', ts', st) ↦
          moves_first cfg s s' ts ts' st
            (finish fuel cfg s' ts' pos (step r st) (omega (arith, Step-rank st)))
    ]

pub Settles : PoolConfig → S7Pool → List Phase → Type 0
Settles cfg s ts =
    ((n : ℕ) (s' : S7Pool) (ts' : List Phase)
      → Steps s ts n s' ts'
      → n + total rank ts' ≤ total rank ts)
    × Finishes cfg s ts

-- From every state that a pool with a permit or more reaches, the tasks come to their end: there is a
-- sequence of steps after which all of them are finished, with a connection used or a connect failed,
-- and all permits are back in the semaphore; and no sequence of steps without a new call is longer
-- than the sum of the steps that each task has before it at most.
pub Reach-Settles :
    (cfg : PoolConfig) {s : S7Pool} {ts : List Phase}
    → 1 ≤ cfg.max_size
    → Reach cfg s ts
    → Settles cfg s ts
unfolding Settles
Reach-Settles cfg {s = s} {ts = ts} pos r =
    (λ n s' ts' steps. Steps-rank steps, finish (suc (total rank ts)) cfg s ts pos r (omega arith))
