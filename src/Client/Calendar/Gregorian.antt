-- ===== src/Client/Calendar/Gregorian.antt =====
-- The Gregorian calendar, and the years and months that crates/snap7-client/src/client.rs counts.
use rs_snap.Prelude.{
  ℕ, zero, suc, ◌+◌, ◌-◌, ◌*◌, ◌/◌, ◌%◌, ◌≤◌, ◌<◌, ◌≡◌, refl, ◌∙◌, ap, arith, List, [], ◌∷◌, length,
  take, get_or, leb, ◌==◌, if◌then◌else◌,
}
use rs_snap.S7.Clock.{PlcDateTime}
use rs_snap.Client.Calendar.{days_in_year, days_per_month}

-- The days of the `n` years from `year` on.
unfoldable pub days_of_years : (n year : ℕ) → ℕ
days_of_years zero year = 0
days_of_years (suc n) year = days_in_year year + days_of_years n (year + 1)

unfoldable pub sum : List ℕ → ℕ
sum [] = 0
sum (x ∷ xs) = x + sum xs

-- The Gregorian calendar, apart from the code's tables: the days before a year, counted from the year 1, and
-- those before a month of a common year, from which the 29th of February and its rule follow.
pub days_before_year : ℕ → ℕ
days_before_year year = let p = year - 1 in p * 365 + p / 4 - p / 100 + p / 400

pub leap_days : ℕ → ℕ
leap_days year = days_before_year (year + 1) - days_before_year year - 365

pub days_before_month : (year month : ℕ) → ℕ
days_before_month year month =
    get_or (0 ∷ 31 ∷ 59 ∷ 90 ∷ 120 ∷ 151 ∷ 181 ∷ 212 ∷ 243 ∷ 273 ∷ 304 ∷ 334 ∷ 365 ∷ []) (month - 1)
      0
    + (if leb 3 month then leap_days year else 0)

-- The seconds from the start of 1970 to a date and time.
unfoldable pub seconds_until : PlcDateTime → ℕ
seconds_until d =
    let days =
      days_before_year d.year
      - days_before_year 1970
      + days_before_month d.year d.month
      + (d.day - 1) in
    ((days * 24 + d.hour) * 60 + d.minute) * 60 + d.second

-- A month of the year and a day of the month.
unfoldable pub IsDate : PlcDateTime → Type 0
IsDate d =
    (1 ≤ d.month)
    × (d.month ≤ 12)
    × (1 ≤ d.day)
    × (d.day ≤ days_before_month d.year (d.month + 1) - days_before_month d.year d.month)
    × (d.hour < 24)
    × (d.minute < 60)
    × (d.second < 60)

-- A division rounds down to one more where the number is a multiple.
step_4 : (p : ℕ) → (p + 1) / 4 ≡ p / 4 + (if (p + 1) % 4 == 0 then 1 else 0)
step_4 p = ground arith

step_100 : (p : ℕ) → (p + 1) / 100 ≡ p / 100 + (if (p + 1) % 100 == 0 then 1 else 0)
step_100 p = ground arith

step_400 : (p : ℕ) → (p + 1) / 400 ≡ p / 400 + (if (p + 1) % 400 == 0 then 1 else 0)
step_400 p = ground arith

days_in_year-before :
    (p : ℕ) → days_before_year (p + 1) + days_in_year (p + 1) ≡ days_before_year (p + 2)
unfolding days_before_year days_in_year
days_in_year-before p = ground (arith, step_4 p, step_100 p, step_400 p)

plus_zero_right : (n : ℕ) → n ≡ n + 0
plus_zero_right n = omega arith

one_more : (p : ℕ) → p + 2 ≡ p + 1 + 1
one_more p = omega arith

behind_one : (k : ℕ) → k ≡ 1 + k - 1
behind_one k = omega arith

shifted : (k : ℕ) → 1 + suc k ≡ 1 + k + 1
shifted k = omega arith

abbrev starts : ℕ → ℕ
starts k = get_or (0 ∷ 31 ∷ 59 ∷ 90 ∷ 120 ∷ 151 ∷ 181 ∷ 212 ∷ 243 ∷ 273 ∷ 304 ∷ 334 ∷ 365 ∷ []) k 0

pub twelve : (year : ℕ) → length (days_per_month year) ≡ 12
unfolding days_per_month
twelve year = refl

pub plus_suc : (n k : ℕ) → n + suc k ≡ n + 1 + k
plus_suc n k = omega arith

pub days_of_years-before :
    (n p : ℕ) → days_before_year (p + 1) + days_of_years n (p + 1) ≡ days_before_year (p + 1 + n)
unfolding days_of_years
days_of_years-before zero p = omega (arith, ap days_before_year (plus_zero_right (p + 1)))
days_of_years-before (suc n) p = omega (
  arith,
  days_in_year-before p,
  days_of_years-before n (p + 1),
  ap days_before_year (one_more p),
  ap days_before_year (plus_suc (p + 1) n),
)

-- The leap days of a year are those that the code gives it.
leap_days-days_in_year : (p : ℕ) → leap_days (p + 1) ≡ days_in_year (p + 1) - 365
unfolding leap_days
leap_days-days_in_year p = omega (arith, days_in_year-before p, ap days_before_year (one_more p))

-- The sums of the first numbers of a list, above a start.
sums_from : ℕ → List ℕ → List ℕ
sums_from n [] = n ∷ []
sums_from n (x ∷ xs) = n ∷ sums_from (n + x) xs

sums_from-take :
    (n : ℕ) (xs : List ℕ) (k : ℕ)
    → k ≤ length xs
    → n + sum (take k xs) ≡ get_or (sums_from n xs) k 0
unfolding sum sums_from
sums_from-take n [] zero h = omega arith
sums_from-take n [] (suc k) h = absurd (omega arith)
sums_from-take n (x ∷ xs) zero h = omega arith
sums_from-take n (x ∷ xs) (suc k) h = omega (arith, sums_from-take (n + x) xs k (omega arith))

month_starts :
    (year k : ℕ)
    → k ≤ 12
    → sum (take k (days_per_month year))
      ≡ starts k + (if leb 2 k then days_in_year year - 365 else 0)
unfolding sum days_per_month days_in_year sums_from
month_starts year zero h = refl
month_starts year (suc zero) h = refl
month_starts year (suc (suc k)) h = ground (
  arith,
  sums_from-take 59 (31 ∷ 30 ∷ 31 ∷ 30 ∷ 31 ∷ 31 ∷ 30 ∷ 31 ∷ 30 ∷ 31 ∷ []) k (omega arith),
)

-- The days before a month are the sum of the months that the code lists before it.
pub sum-days_before_month :
    (p k : ℕ) → k ≤ 12 → sum (take k (days_per_month (p + 1))) ≡ days_before_month (p + 1) (1 + k)
unfolding days_before_month
sum-days_before_month p k h =
    month_starts (p + 1) k h
    ∙ ap (λ n. starts k + n) (ground (arith, leap_days-days_in_year p))
    ∙ ap (λ i. starts i + (if leb 3 (1 + k) then leap_days (p + 1) else 0)) (behind_one k)

sum-take-suc :
    (xs : List ℕ) (k : ℕ) → k < length xs → sum (take (suc k) xs) ≡ sum (take k xs) + get_or xs k 0
unfolding sum
sum-take-suc [] k h = absurd (omega arith)
sum-take-suc (x ∷ xs) zero h = omega arith
sum-take-suc (x ∷ xs) (suc k) h = omega (arith, sum-take-suc xs k (omega arith))

month_length :
    (p k : ℕ)
    → k < 12
    → get_or (days_per_month (p + 1)) k 0
      ≡ days_before_month (p + 1) (1 + k + 1) - days_before_month (p + 1) (1 + k)
month_length p k h = omega (
  arith,
  sum-days_before_month p k (omega arith),
  sum-days_before_month p (suc k) (omega arith),
  sum-take-suc (days_per_month (p + 1)) k (omega (arith, twelve (p + 1))),
  ap (days_before_month (p + 1)) (shifted k),
)

pub month_of_length :
    (year m month : ℕ)
    → 1 ≤ year
    → month ≡ 1 + m
    → m < 12
    → get_or (days_per_month year) m 0
      ≡ days_before_month year (month + 1) - days_before_month year month
month_of_length year m month h e lm = rw (e, same_year) (month_length (year - 1) m lm)
  where
    same_year : year ≡ year - 1 + 1
    same_year = omega arith
