-- ===== src/S7/Clock.antt =====
-- crates/snap7-client/src/proto/s7/clock.rs: the PLC's date and time in BCD.
pub mod Laws
use rs_snap.Prelude.{
  ℕ, ◌+◌, ◌*◌, ◌/◌, ◌%◌, List, [], ◌∷◌, ◌++◌, length, leb, if◌then◌else◌, bit_and, bit_or,
}
use rs_snap.Wire.{Bytes, Result, ok, err, panic, Reader, ◌>>=◌, ◌>>◌, need, pure, get_u8, put_u8}

pub record PlcDateTime : Type 0 where
  pub year : ℕ
  pub month : ℕ
  pub day : ℕ
  pub hour : ℕ
  pub minute : ℕ
  pub second : ℕ
  pub millisecond : ℕ
  pub weekday : ℕ

-- `((v / 10) << 4) | (v % 10)`, a byte.
unfoldable pub to_bcd : ℕ → ℕ
to_bcd v = bit_or (v / 10 * 16 % 256) (v % 10)

-- `((v >> 4) * 10) + (v & 0x0F)`; at most 165, so it does not overflow.
unfoldable pub from_bcd : ℕ → ℕ
from_bcd v = v / 16 * 10 + bit_and v 0x0f

-- `(ms_lo_nibble << 4) | (self.weekday & 0x0F)`
unfoldable pub last_byte : ℕ → ℕ → ℕ
last_byte nibble weekday = bit_or (nibble * 16 % 256) (bit_and weekday 0x0f)

unfoldable pub encode : PlcDateTime → Bytes
encode d =
    put_u8 (to_bcd (d.year % 100))
    ++ (put_u8 (to_bcd d.month)
        ++ (put_u8 (to_bcd d.day)
            ++ (put_u8 (to_bcd d.hour)
                ++ (put_u8 (to_bcd d.minute)
                    ++ (put_u8 (to_bcd d.second)
                        ++ (put_u8 (to_bcd (d.millisecond / 10 % 256))
                            ++ put_u8 (last_byte (d.millisecond % 10) d.weekday)))))))

-- `if y >= 90 { 1900 + y } else { 2000 + y }`
unfoldable pub full_year : ℕ → ℕ
full_year y = if leb 90 y then 1900 + y else 2000 + y

unfoldable pub decode : Reader PlcDateTime
decode = do
  need 8
  y ← get_u8
  month ← get_u8
  day ← get_u8
  hour ← get_u8
  minute ← get_u8
  second ← get_u8
  ms_byte1 ← get_u8
  ms_byte2 ← get_u8
  pure (record {
    year = full_year (from_bcd y);
    month = from_bcd month;
    day = from_bcd day;
    hour = from_bcd hour;
    minute = from_bcd minute;
    second = from_bcd second;
    millisecond = from_bcd ms_byte1 * 10 + ms_byte2 / 16;
    weekday = bit_and ms_byte2 0x0f;
  })
