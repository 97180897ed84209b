-- ===== src/Prelude/Bits.antt =====
-- `&` and `|` of the source as arithmetic: masks of low bits, and `|` of numbers with no common
-- bit.
use Prim.Native.Nat.{
  ℕ, zero, suc, ◌+◌, ◌*◌, ◌/◌, ◌%◌, ◌^◌, ◌≤◌, ◌<◌, min, max, bit_and, bit_or, digits,
  bit_and-bitwise, bit_or-bitwise,
}
use mathlib.Core.Path.{◌≡◌, refl, ap}
use native.Mathlib.Nat.{pow-suc}
use native.Mathlib.Omega.{arith}

-- Both operations recur on a count of digits; every count from the first number on gives the
-- same result.
module _ (last : ℕ → ℕ) (op : ℕ → ℕ → ℕ) where
  count_free : (x y n m : ℕ) → x ≤ n → x ≤ m → digits last op n x y ≡ digits last op m x y
  count_free zero y zero zero hn hm = refl
  count_free zero y zero (suc m) hn hm = refl
  count_free zero y (suc n) zero hn hm = refl
  count_free zero y (suc n) (suc m) hn hm = refl
  count_free (suc x) y zero m hn hm = absurd (omega arith)
  count_free (suc x) y (suc n) zero hn hm = absurd (omega arith)
  count_free (suc x) y (suc n) (suc m) hn hm =
      rw (count_free (suc x / 2) (y / 2) n m (omega arith) (omega arith))

-- The lowest digit apart from the others.
or_digit : (x y : ℕ) → bit_or x y ≡ bit_or (x / 2) (y / 2) * 2 + max (x % 2) (y % 2)
or_digit zero y = omega (arith, bit_or-bitwise 0 y, bit_or-bitwise 0 (y / 2))
or_digit (suc x) y = omega (
  arith,
  bit_or-bitwise (suc x) y,
  bit_or-bitwise (suc x / 2) (y / 2),
  count_free (λ b. b) max (suc x / 2) (y / 2) x (suc x / 2) (omega arith) (omega arith),
)

and_digit : (x y : ℕ) → bit_and x y ≡ bit_and (x / 2) (y / 2) * 2 + min (x % 2) (y % 2)
and_digit zero y = omega (arith, bit_and-bitwise 0 y, bit_and-bitwise 0 (y / 2))
and_digit (suc x) y = omega (
  arith,
  bit_and-bitwise (suc x) y,
  bit_and-bitwise (suc x / 2) (y / 2),
  count_free (λ b. 0) min (suc x / 2) (y / 2) x (suc x / 2) (omega arith) (omega arith),
)

or_none : (n x : ℕ) → x ≤ n → bit_or x 0 ≡ x
or_none n zero h = refl
or_none zero (suc x) h = absurd (omega arith)
or_none (suc n) (suc x) h = omega (arith, or_digit (suc x) 0, or_none n (suc x / 2) (omega arith))

pub or_zero : (x : ℕ) → bit_or x 0 ≡ x
or_zero x = or_none x x (omega arith)

and_none : (n x : ℕ) → x ≤ n → bit_and x 0 ≡ 0
and_none n zero h = refl
and_none zero (suc x) h = absurd (omega arith)
and_none (suc n) (suc x) h =
    omega (arith, and_digit (suc x) 0, and_none n (suc x / 2) (omega arith))

-- A multiple of a power of two and a number below that power share no bit: `|` adds them.
pub or_apart : (k x y : ℕ) → y < 2 ^ k → bit_or (x * 2 ^ k) y ≡ x * 2 ^ k + y
or_apart zero x y h = ground (arith, or_none x x)
or_apart (suc k) x y h = ground (
  arith,
  or_digit (x * 2 ^ suc k) y,
  ap (λ (t : ℕ). x * t) (pow-suc 2 k),
  pow-suc 2 k,
  or_apart k x (y / 2),
)

-- The lowest bit.
and_one : (x : ℕ) → bit_and x 1 ≡ x % 2
and_one x = omega (arith, and_digit x 1, and_none (x / 2) (x / 2) (omega arith))

-- A bit above the number is added.
or_above : (k x : ℕ) → x < 2 ^ k → bit_or x (2 ^ k) ≡ x + 2 ^ k
or_above zero zero h = refl
or_above zero (suc x) h = absurd (omega arith)
or_above (suc k) x h = ground (arith, or_digit x (2 ^ suc k), pow-suc 2 k, or_above k (x / 2))

pub bit_or_80 : (b : ℕ) → b < 128 → bit_or b 0x80 ≡ b + 128
bit_or_80 b h = or_above 7 b h

-- One bit alone.
and_2 : (x : ℕ) → bit_and x 2 ≡ x / 2 % 2 * 2
and_2 x = omega (arith, and_digit x 2, and_one (x / 2))

and_4 : (x : ℕ) → bit_and x 4 ≡ x / 4 % 2 * 4
and_4 x = omega (arith, and_digit x 4, and_2 (x / 2))

and_8 : (x : ℕ) → bit_and x 8 ≡ x / 8 % 2 * 8
and_8 x = omega (arith, and_digit x 8, and_4 (x / 2))

and_16 : (x : ℕ) → bit_and x 16 ≡ x / 16 % 2 * 16
and_16 x = omega (arith, and_digit x 16, and_8 (x / 2))

and_32 : (x : ℕ) → bit_and x 32 ≡ x / 32 % 2 * 32
and_32 x = omega (arith, and_digit x 32, and_16 (x / 2))

and_64 : (x : ℕ) → bit_and x 64 ≡ x / 64 % 2 * 64
and_64 x = omega (arith, and_digit x 64, and_32 (x / 2))

and_128 : (x : ℕ) → bit_and x 128 ≡ x / 128 % 2 * 128
and_128 x = omega (arith, and_digit x 128, and_64 (x / 2))

pub bit_and_80 : (b : ℕ) → b < 256 → bit_and b 0x80 ≡ b / 128 * 128
bit_and_80 b h = omega (arith, and_128 b)

-- Masks of low bits, on a number of any size.
and_3 : (x : ℕ) → bit_and x 3 ≡ x % 4
and_3 x = omega (arith, and_digit x 3, and_one (x / 2))

pub and_7 : (x : ℕ) → bit_and x 7 ≡ x % 8
and_7 x = omega (arith, and_digit x 7, and_3 (x / 2))

pub and_0f : (x : ℕ) → bit_and x 0x0f ≡ x % 16
and_0f x = omega (arith, and_digit x 15, and_7 (x / 2))

pub and_1f : (x : ℕ) → bit_and x 0x1f ≡ x % 32
and_1f x = omega (arith, and_digit x 31, and_0f (x / 2))

and_3f : (x : ℕ) → bit_and x 0x3f ≡ x % 64
and_3f x = omega (arith, and_digit x 63, and_1f (x / 2))

pub and_7f : (x : ℕ) → bit_and x 0x7f ≡ x % 128
and_7f x = omega (arith, and_digit x 127, and_3f (x / 2))

pub and_ff : (x : ℕ) → bit_and x 0xff ≡ x % 256
and_ff x = omega (arith, and_digit x 255, and_7f (x / 2))

-- `|` of fields at the shifts of the source.
pub or_3 : (x y : ℕ) → y < 8 → bit_or (x * 8) y ≡ x * 8 + y
or_3 x y h = or_apart 3 x y h

pub or_4 : (x y : ℕ) → y < 16 → bit_or (x * 16) y ≡ x * 16 + y
or_4 x y h = or_apart 4 x y h

pub or_5 : (x y : ℕ) → y < 32 → bit_or (x * 32) y ≡ x * 32 + y
or_5 x y h = or_apart 5 x y h

pub or_8 : (x y : ℕ) → y < 256 → bit_or (x * 256) y ≡ x * 256 + y
or_8 x y h = or_apart 8 x y h

pub or_7 : (x y : ℕ) → y < 128 → bit_or (x * 128) y ≡ x * 128 + y
or_7 x y h = or_apart 7 x y h

pub or_16 : (x y : ℕ) → y < 65536 → bit_or (x * 65536) y ≡ x * 65536 + y
or_16 x y h = or_apart 16 x y h

-- `|` of two numbers of `k` bits has no more bits.
pub or_bound : (k x y : ℕ) → x < 2 ^ k → y < 2 ^ k → bit_or x y < 2 ^ k
or_bound zero zero zero h h' = omega arith
or_bound zero zero (suc y) h h' = absurd (omega arith)
or_bound zero (suc x) y h h' = absurd (omega arith)
or_bound (suc k) x y h h' = omega (
  arith,
  or_digit x y,
  pow-suc 2 k,
  or_bound k (x / 2) (y / 2) (omega (arith, pow-suc 2 k)) (omega (arith, pow-suc 2 k)),
)
