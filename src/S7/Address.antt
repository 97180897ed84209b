-- ===== src/S7/Address.antt =====
-- The 12-byte address item of crates/snap7-client/src/proto/s7/read_var.rs and write_var.rs, which
-- both files read and write by the same statements.
pub mod Laws
use rs_snap.Prelude.{
  ℕ, ◌+◌, ◌*◌, ◌/◌, ◌%◌, ◌^◌, Bool, true, false, List, [], ◌∷◌, ◌++◌, length, ltb, ◌==◌, not,
  if◌then◌else◌, bit_and, bit_or,
}
use rs_snap.Wire.{
  Bytes, Result, ok, err, panic, invalid_magic, Reader, ◌>>=◌, ◌>>◌, need, refuse, pure, lift,
  get_u8, get_u16, put_u8, put_u16,
}
use rs_snap.S7.Codes.{Area, area_code, area_of, TransportSize, transport_code, transport_size_of}

abbrev pub item_spec : ℕ
item_spec = 0x12

abbrev pub item_len : ℕ
item_len = 0x0a

abbrev pub addr_any : ℕ
addr_any = 0x10

pub record AddressItem : Type 0 where
  pub area : Area
  pub db_number : ℕ
  pub start : ℕ
  pub bit_offset : ℕ
  pub length : ℕ
  pub transport : TransportSize

-- Timers and counters are addressed by element.
unfoldable pub by_element : TransportSize → Bool
by_element TransportSize.timer = true
by_element TransportSize.counter = true
by_element _ = false

-- `match item.transport { Timer | Counter => start, _ => (start * 8) | bit_offset }`, a u32.
unfoldable pub addr_bits : AddressItem → ℕ
addr_bits item =
    if by_element item.transport
    then item.start
    else bit_or (item.start * 8 % 2 ^ 32) item.bit_offset

-- `((addr_bits >> 16) & 0xFF) as u8` and the two below it.
abbrev pub put_u24 : ℕ → Bytes
put_u24 n =
    put_u8 (bit_and (n / 65536) 0xff)
    ++ (put_u8 (bit_and (n / 256) 0xff) ++ put_u8 (bit_and n 0xff))

unfoldable pub put_address : AddressItem → Bytes
put_address item =
    put_u8 item_spec
    ++ (put_u8 item_len
        ++ (put_u8 addr_any
            ++ (put_u8 (transport_code item.transport)
                ++ (put_u16 item.length
                    ++ (put_u16 item.db_number
                        ++ (put_u8 (area_code item.area) ++ put_u24 (addr_bits item)))))))

-- `(b0 << 16) | (b1 << 8) | b2`
unfoldable pub join_u24 : ℕ → ℕ → ℕ → ℕ
join_u24 b0 b1 b2 = bit_or (bit_or (b0 * 65536) (b1 * 256)) b2

unfoldable pub get_address : Reader AddressItem
get_address = do
  need 12
  spec ← get_u8
  refuse (not (spec == item_spec)) (invalid_magic item_spec spec)
  get_u8
  addr_type ← get_u8
  refuse (not (addr_type == addr_any)) (invalid_magic addr_any addr_type)
  t ← get_u8
  transport ← lift (transport_size_of t)
  length ← get_u16
  db_number ← get_u16
  a ← get_u8
  area ← lift (area_of a)
  b0 ← get_u8
  b1 ← get_u8
  b2 ← get_u8
  pure (record {
    area = area;
    db_number = db_number;
    start = join_u24 b0 b1 b2 / 8;
    bit_offset = bit_and (join_u24 b0 b1 b2) 0x07;
    length = length;
    transport = transport;
  })
