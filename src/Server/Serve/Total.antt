-- ===== src/Server/Serve/Total.antt =====
-- The loop of crates/snap7-server/src/dispatch.rs on any input.
use rs_snap.Prelude.{ℕ, ◌≤◌, ◌<◌, ◌≡◌, ◌≢◌, some, length}
use rs_snap.Wire.{Bytes}
use rs_snap.Cotp
use rs_snap.Tpkt
use rs_snap.Io.{Outcome, done, failed, crash}
use rs_snap.Server.Store.{Store}
use rs_snap.Server.Serve.{Served}

-- A step of the receiving side does not panic, and leaves no more input than it had.
abbrev IsCalm : {A : Type 0} → ℕ → Outcome (A × Bytes) → Type 0
IsCalm n (done (a, rest)) = length rest ≤ n
IsCalm n (failed e) = Unit {0}
IsCalm n crash = ⊥

-- The same for a step that takes input.
abbrev IsShorter : {A : Type 0} → ℕ → Outcome (A × Bytes) → Type 0
IsShorter n (done (a, rest)) = length rest < n
IsShorter n (failed e) = Unit {0}
IsShorter n crash = ⊥

-- What the loop comes to: an end that is no panic.
abbrev pub Ends : Served → Type 0
Ends r = (sent : Bytes) × (o : Outcome Store) × (r ≡ some (sent, o)) × (o ≢ crash)
