-- ===== src/S7/Clock/Laws.antt =====
-- BCD digits, and `PlcDateTime::decode` on what `PlcDateTime::encode` wrote.
use rs_snap.Prelude.{ℕ, ◌+◌, ◌*◌, ◌/◌, ◌%◌, ◌≤◌, ◌<◌, ◌≡◌, ◌≢◌, arith, ◌∷◌, ◌++◌, bit_and}
use rs_snap.Prelude.Bits.{and_0f, or_4}
use rs_snap.Wire.{Bytes, ok, panic}
use rs_snap.S7.Clock.{PlcDateTime, to_bcd, from_bcd, last_byte, full_year, encode, decode}

to_bcd-digits : (v : ℕ) → v < 160 → to_bcd v ≡ v / 10 * 16 + v % 10
unfolding to_bcd
to_bcd-digits v h = ground (arith, or_4 (v / 10) (v % 10))

-- Two decimal digits are read back, and no byte but those above 0x99 comes of them.
pub from_bcd-to_bcd : (v : ℕ) → v < 160 → from_bcd (to_bcd v) ≡ v
unfolding from_bcd
from_bcd-to_bcd v h = ground (arith, to_bcd-digits v, and_0f (to_bcd v))

last_byte-nibbles : (n w : ℕ) → n < 10 → w < 16 → last_byte n w ≡ n * 16 + w
unfolding last_byte
last_byte-nibbles n w hn hw = ground (arith, and_0f w, or_4 n w)

-- A date that the format can hold: the years that two digits stand for, and two-digit fields.
pub record IsValid (d : PlcDateTime) : Type 0 where
  pub from_1990 : 1990 ≤ d.year
  pub to_2089 : d.year < 2090
  pub month_fits : d.month < 100
  pub day_fits : d.day < 100
  pub hour_fits : d.hour < 100
  pub minute_fits : d.minute < 100
  pub second_fits : d.second < 100
  pub millisecond_fits : d.millisecond < 1000
  pub weekday_fits : d.weekday < 16

full_year-mod : (y : ℕ) → 1990 ≤ y → y < 2090 → full_year (y % 100) ≡ y
unfolding full_year
full_year-mod y lo hi = ground arith

weekday-last_byte :
    (n w : ℕ) → n < 10 → w < 16 → (bit_and (last_byte n w) 0x0f ≡ w) × (last_byte n w / 16 ≡ n)
weekday-last_byte n w hn hw = ground (arith, last_byte-nibbles n w, and_0f (last_byte n w))

-- A date from 1990 to 2089 whose fields fit their digits is read back whole, and what follows it is
-- left in the buffer.
pub PlcDateTime-decode-encode :
    (d : PlcDateTime) (rest : Bytes) → IsValid d → decode (encode d ++ rest) ≡ ok (d, rest)
unfolding encode decode
PlcDateTime-decode-encode d rest v = ground (
  arith,
  from_bcd-to_bcd (d.year % 100),
  full_year-mod d.year,
  from_bcd-to_bcd d.month,
  from_bcd-to_bcd d.day,
  from_bcd-to_bcd d.hour,
  from_bcd-to_bcd d.minute,
  from_bcd-to_bcd d.second,
  from_bcd-to_bcd (d.millisecond / 10),
  weekday-last_byte (d.millisecond % 10) d.weekday,
)

-- No input makes `PlcDateTime::decode` panic.
pub decode-ne-panic : (buf : Bytes) → decode buf ≢ panic
unfolding decode
decode-ne-panic (a ∷ b ∷ c ∷ d ∷ e ∷ f ∷ g ∷ h ∷ rest) = ground arith
decode-ne-panic _ = ground arith
