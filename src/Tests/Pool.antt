-- ===== src/Tests/Pool.antt =====
-- A run of the pool, and its theorems on it.
use rs_snap.Prelude.{refl, arith, [], ◌∷◌}
use rs_snap.Pool.{
  PoolConfig, S7Pool, waiting, holding, Reach, start, call, step, here, acquire, none_idle,
  connected, new,
}
use rs_snap.Pool.Bounds.{IsBounded, Reach-IsBounded}
use rs_snap.Pool.Sharing.{IsExclusive, Reach-IsExclusive}
use rs_snap.Pool.Settling.{Settles, Reach-Settles}

abbrev one : PoolConfig
one = record { max_size = 1; connect_timeout = 100 }

abbrev busy : S7Pool
busy = record { permits = 0; idle = []; opened = 1 }

-- One task has the only permit and a connection; another one waits.
busy-Reach : Reach one busy (waiting ∷ holding 0 ∷ [])
unfolding new
busy-Reach = call (
    step (step (step (call start) (here [] (acquire 0 refl))) (here [] (none_idle refl)))
      (here [] connected))

Reach-IsBounded_example : IsBounded one busy (waiting ∷ holding 0 ∷ [])
Reach-IsBounded_example = Reach-IsBounded one busy-Reach

Reach-IsExclusive_example : IsExclusive busy (waiting ∷ holding 0 ∷ [])
Reach-IsExclusive_example = Reach-IsExclusive one busy-Reach

Reach-Settles_example : Settles one busy (waiting ∷ holding 0 ∷ [])
Reach-Settles_example = Reach-Settles one (omega arith) busy-Reach
