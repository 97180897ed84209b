-- ===== src/Pool/Sharing.antt =====
-- Who has a connection of the pool (crates/snap7-client/src/pool.rs).
use rs_snap.Prelude.{ℕ, ◌+◌, ◌≤◌, ◌≡◌, ap, arith, List, [], ◌∷◌, ◌++◌, ◌==◌, if◌then◌else◌}
use mathlib.Core.Path.{subst}
use rs_snap.Pool.{
  PoolConfig, S7Pool, new, Phase, waiting, permitted, connecting, holding, dropping, finished, Act,
  Step, Reach, here, there, start, call, step, acquire, pop_front, none_idle, connected,
  not_connected, push_back, drop_permit,
}
use rs_snap.Pool.Bounds.{total}

-- How often a connection stands among the idle ones, and with a task.
abbrev pub one_if : ℕ → ℕ → ℕ
one_if c d = if c == d then 1 else 0

unfoldable pub count : ℕ → List ℕ → ℕ
count c [] = 0
count c (d ∷ ds) = one_if c d + count c ds

unfoldable pub held : ℕ → Phase → ℕ
held c (holding d) = one_if c d
held c waiting = 0
held c permitted = 0
held c connecting = 0
held c dropping = 0
held c finished = 0

count-append : (c : ℕ) (ds : List ℕ) (d : ℕ) → count c (ds ++ (d ∷ [])) ≡ count c ds + one_if c d
unfolding count
count-append c [] d = omega arith
count-append c (e ∷ ds) d = omega (arith, count-append c ds d)

-- A connection has one place, and one that is not opened yet has none.
unfoldable pub IsPlaced : ℕ → S7Pool → ℕ → Type 0
IsPlaced c s n = (count c s.idle + n ≤ 1) × (s.opened ≤ c → count c s.idle + n ≡ 0)

unfoldable pub IsExclusive : S7Pool → List Phase → Type 0
IsExclusive s ts = (c : ℕ) → IsPlaced c s (total (held c) ts)

Act-IsPlaced :
    {s s' : S7Pool} {a b : Phase} (c n : ℕ)
    → Act s a s' b
    → IsPlaced c s (held c a + n)
    → IsPlaced c s' (held c b + n)
unfolding IsPlaced held count
Act-IsPlaced c n (acquire m e) h = h
Act-IsPlaced c n (pop_front d rest e) (p, q) =
    (omega (arith, ap (count c) e), λ k. omega (arith, ap (count c) e, q k))
Act-IsPlaced c n (none_idle e) h = h
Act-IsPlaced {s = s} c n connected (p, q) = (ground arith, λ k. ground arith)
Act-IsPlaced c n not_connected h = h
Act-IsPlaced {s = s} c n (push_back d) (p, q) =
    (omega (arith, count-append c s.idle d), λ k. omega (arith, count-append c s.idle d, q k))
Act-IsPlaced c n drop_permit h = h

Step-IsPlaced :
    {s s' : S7Pool} {ts ts' : List Phase} (c n : ℕ)
    → Step s ts s' ts'
    → IsPlaced c s (total (held c) ts + n)
    → IsPlaced c s' (total (held c) ts' + n)
unfolding total
Step-IsPlaced {s = s} {s' = s'} c n (here {a = a} {b = b} ts act) h =
    subst (IsPlaced c s') (omega arith)
      (Act-IsPlaced c (total (held c) ts + n) act (subst (IsPlaced c s) (omega arith) h))
Step-IsPlaced {s = s} {s' = s'} c n (there a st) h =
    subst (IsPlaced c s') (omega arith)
      (Step-IsPlaced c (held c a + n) st (subst (IsPlaced c s) (omega arith) h))

-- In every state that a pool reaches, a connection is among the idle ones once, or with one task, or
-- nowhere: no two tasks share a connection, and none in use is handed out.
pub Reach-IsExclusive :
    (cfg : PoolConfig) {s : S7Pool} {ts : List Phase} → Reach cfg s ts → IsExclusive s ts
unfolding IsExclusive IsPlaced total count new held
Reach-IsExclusive cfg start c = (omega arith, λ k. omega arith)
Reach-IsExclusive cfg (call {s = s} {ts = ts} r) c =
    subst (IsPlaced c s) {x = total (held c) ts} (omega arith) (Reach-IsExclusive cfg r c)
Reach-IsExclusive cfg (step {s = s} {s' = s'} {ts = ts} {ts' = ts'} r st) c =
    subst (IsPlaced c s') {x = total (held c) ts' + 0} (omega arith) (
      Step-IsPlaced c 0 st
        (subst (IsPlaced c s) {x = total (held c) ts} (omega arith) (Reach-IsExclusive cfg r c)))
