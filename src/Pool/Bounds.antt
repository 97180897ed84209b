-- ===== src/Pool/Bounds.antt =====
-- The permits and the connections of the pool (crates/snap7-client/src/pool.rs).
use rs_snap.Prelude.{ℕ, ◌+◌, ◌≤◌, ◌≡◌, ap, arith, List, [], ◌∷◌, length, length-append}
use rs_snap.Pool.{
  PoolConfig, S7Pool, new, Phase, waiting, permitted, connecting, holding, dropping, finished, Act,
  Step, Reach, here, there, start, call, step, acquire, pop_front, none_idle, connected,
  not_connected, push_back, drop_permit,
}

-- The permits that a task has.
unfoldable pub permits_of : Phase → ℕ
permits_of waiting = 0
permits_of finished = 0
permits_of permitted = 1
permits_of connecting = 1
permits_of (holding c) = 1
permits_of dropping = 1

-- The connections that a task has, or is opening.
unfoldable pub connections_of : Phase → ℕ
connections_of connecting = 1
connections_of (holding c) = 1
connections_of waiting = 0
connections_of permitted = 0
connections_of dropping = 0
connections_of finished = 0

unfoldable pub total : (Phase → ℕ) → List Phase → ℕ
total f [] = 0
total f (t ∷ ts) = f t + total f ts

connections_of-le : (t : Phase) → connections_of t ≤ permits_of t
unfolding connections_of permits_of
connections_of-le (holding c) = omega arith
connections_of-le _ = omega arith

le-permits : (ts : List Phase) → total connections_of ts ≤ total permits_of ts
unfolding total
le-permits [] = omega arith
le-permits (t ∷ ts) = omega (arith, connections_of-le t, le-permits ts)

-- Every permit of the configuration is in the semaphore or with a task, and no more connections are
-- open, or being opened, than there are permits.
unfoldable pub IsBounded : PoolConfig → S7Pool → List Phase → Type 0
IsBounded cfg s ts =
    (s.permits + total permits_of ts ≡ cfg.max_size)
    × (length s.idle + total connections_of ts ≤ cfg.max_size)

-- A step of one task, `n` permits and `k` connections being with the others.
Act-IsBounded :
    {s s' : S7Pool} {a b : Phase} (max n k : ℕ)
    → k ≤ n
    → Act s a s' b
    → (s.permits + (permits_of a + n) ≡ max) × (length s.idle + (connections_of a + k) ≤ max)
    → (s'.permits + (permits_of b + n) ≡ max) × (length s'.idle + (connections_of b + k) ≤ max)
unfolding permits_of connections_of
Act-IsBounded max n k le (acquire m e) (p, c) = (omega (arith, e), c)
Act-IsBounded max n k le (pop_front c rest e) (p, q) = (p, omega (arith, ap length e))
Act-IsBounded max n k le (none_idle e) (p, q) = (p, omega (arith, ap length e))
Act-IsBounded max n k le connected (p, q) = (p, q)
Act-IsBounded max n k le not_connected (p, q) = (omega arith, omega arith)
Act-IsBounded {s = s} max n k le (push_back c) (p, q) =
    (p, omega (arith, length-append s.idle (c ∷ [])))
Act-IsBounded max n k le drop_permit (p, q) = (omega arith, omega arith)

-- The same, whichever task it is.
Step-IsBounded :
    {s s' : S7Pool} {ts ts' : List Phase} (max n k : ℕ)
    → k ≤ n
    → Step s ts s' ts'
    → (s.permits + (total permits_of ts + n) ≡ max)
      × (length s.idle + (total connections_of ts + k) ≤ max)
    → (s'.permits + (total permits_of ts' + n) ≡ max)
      × (length s'.idle + (total connections_of ts' + k) ≤ max)
unfolding total
Step-IsBounded max n k le (here {a = a} {b = b} ts act) (p, q) =
    let (p', q') =
      Act-IsBounded max (total permits_of ts + n) (total connections_of ts + k)
        (omega (arith, le-permits ts)) act (omega arith, omega arith) in
    (omega arith, omega arith)
Step-IsBounded max n k le (there a st) (p, q) =
    let (p', q') =
      Step-IsBounded max (permits_of a + n) (connections_of a + k)
        (omega (arith, connections_of-le a)) st (omega arith, omega arith) in
    (omega arith, omega arith)

-- In every state that a pool reaches, the permits in the semaphore and those of the tasks are
-- `max_size` together, and the idle connections, those in use and those being opened are at most
-- `max_size` together, however the tasks' steps are ordered and whichever connects fail.
pub Reach-IsBounded :
    (cfg : PoolConfig) {s : S7Pool} {ts : List Phase} → Reach cfg s ts → IsBounded cfg s ts
unfolding IsBounded total new permits_of connections_of
Reach-IsBounded cfg start = (omega arith, omega arith)
Reach-IsBounded cfg (call r) = let (p, q) = Reach-IsBounded cfg r in (omega arith, omega arith)
Reach-IsBounded cfg (step r st) =
    let (p, q) = Reach-IsBounded cfg r in
    let (p', q') = Step-IsBounded cfg.max_size 0 0 (omega arith) st (omega arith, omega arith) in
    (omega arith, omega arith)
