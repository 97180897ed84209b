-- ===== src/Client/BlockData/RoundTrip.antt =====
-- The format of blocks, there and back (crates/snap7-client/src/types.rs).
use rs_snap.Prelude.{◌≡◌, arith, some}
use rs_snap.Wire.{IsU32}
use rs_snap.Client.BlockData.{BlockData, from_bytes, to_bytes}

-- A block is read back from its bytes, if its total length fits 32 bits.
from_bytes-to_bytes : (b : BlockData) → IsU32 b.total_length → from_bytes (to_bytes b) ≡ some b
unfolding from_bytes to_bytes
from_bytes-to_bytes b fits = ground arith
