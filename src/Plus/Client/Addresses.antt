-- ===== src/Plus/Client/Addresses.antt =====
-- Which variables crates/snap7-client/src/plus_client.rs tells apart.
use rs_snap.Prelude.{ℕ, ◌+◌, ◌*◌, ◌%◌, ◌≡◌, refl, arith}
use rs_snap.Plus.Client.{PlusConnection, db_lid, db_read, read_multi_vars}

-- With any connection and any input, a read at an offset that is larger by a multiple of 4096 is the
-- read at the smaller offset: it sends the same request and returns the same bytes.
pub db_read-start :
    (db start length k : ℕ) (conn : PlusConnection)
    → db_read db (start + 4096 * k) length conn ≡ db_read db start length conn
unfolding db_read read_multi_vars db_lid
db_read-start db start length k conn = rw same_rest refl
  where
    same_rest : (start + 4096 * k) % 4096 ≡ start % 4096
    same_rest = omega arith
