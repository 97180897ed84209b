-- ===== src/Server/Reads.antt =====
-- Indexing and slicing of the payload in crates/snap7-server/src/dispatch.rs: out of range, they panic.
use rs_snap.Prelude.{
  ℕ, ◌-◌, ◌<◌, ◌≡◌, arith, length, take, drop, get_or, ltb, leb, ◌&&◌, if◌then◌else◌,
}
use rs_snap.Wire.{Bytes, Result, ok, err, panic}

-- `let a = r?; f(a)`, with a panic passed on too.
abbrev pub and_then : {A B : Type 0} → Result A → (A → Result B) → Result B
and_then (ok a) f = f a
and_then (err e) f = err e
and_then panic f = panic

-- `bytes[i]`
unfoldable pub index : Bytes → ℕ → Result ℕ
index bytes i = if ltb i (length bytes) then ok (get_or bytes i 0) else panic

-- `&bytes[lo..hi]`
unfoldable pub slice : Bytes → (lo hi : ℕ) → Result Bytes
slice bytes lo hi =
    if leb lo hi && leb hi (length bytes) then ok (take (hi - lo) (drop lo bytes)) else panic

pub index_in_range :
    (bytes : Bytes) (i : ℕ) → i < length bytes → index bytes i ≡ ok (get_or bytes i 0)
unfolding index
index_in_range bytes i h = ground arith
