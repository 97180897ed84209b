-- ===== src/Client/Calendar/Laws.antt =====
-- The date that `set_clock_to_now` makes of a number of seconds (crates/snap7-client/src/client.rs).
use rs_snap.Prelude.{
  ℕ, zero, suc, ◌+◌, ◌-◌, ◌*◌, ◌/◌, ◌%◌, ◌≤◌, ◌<◌, ◌≡◌, refl, sym, ◌∙◌, ap, arith, Bool-cases, inl,
  inr, either, List, [], ◌∷◌, length, take, get_or, All, ltb, ltb→lt,
}
use rs_snap.S7.Clock.{PlcDateTime}
use rs_snap.Client.Calendar.{is_leap, days_in_year, year_of, days_per_month, month_of, date_of}
use rs_snap.Client.Calendar.Gregorian.{
  days_of_years, sum, days_before_year, days_before_month, seconds_until, IsDate,
  days_of_years-before, twelve, month_of_length, sum-days_before_month, plus_suc,
}

le-days_in_year : (year : ℕ) → 365 ≤ days_in_year year
unfolding days_in_year
le-days_in_year year = either (λ n. 365 ≤ n) (is_leap year) (omega arith) (omega arith)

days_in_year-le : (year : ℕ) → days_in_year year ≤ 366
unfolding days_in_year
days_in_year-le year = either (λ n. n ≤ 366) (is_leap year) (omega arith) (omega arith)

plus_zero : (n : ℕ) → n + 0 ≡ n
plus_zero n = omega arith

-- The loop has counted `k` whole years and stands inside of the next one.
abbrev Counted : ℕ → ℕ → ℕ → ℕ × ℕ → Type 0
Counted k year d r =
    (r.0 ≡ year + k) × (days_of_years k year + r.1 ≡ d) × (r.1 < days_in_year (year + k))

year_of-Counted :
    (fuel year d : ℕ)
    → d < fuel * 365
    → year + fuel ≤ 65536
    → (k : ℕ) × (k < fuel) × Counted k year d (year_of fuel year d)
unfolding year_of days_of_years
year_of-Counted zero year d h le = absurd (omega arith)
year_of-Counted (suc fuel) year d h le = elim (Bool-cases (ltb d (days_in_year year))) [
  | inl e ↦ rw e (
    zero,
    omega arith,
    (
      omega arith,
      omega arith,
      omega (arith, ltb→lt d (days_in_year year) e, ap days_in_year (plus_zero year)),
    ),
  )
  | inr e ↦
      let over : days_in_year year ≤ d = ground arith in
      let long = le-days_in_year year in
      let next : (year + 1) % 65536 ≡ year + 1 = omega arith in
      let (k, lt, (e0, e1, e2)) =
        year_of-Counted fuel (year + 1) (d - days_in_year year) (omega arith) (omega arith) in
      rw (e, next)
        (
          suc k,
          omega arith,
          (
            omega (arith, e0),
            omega (arith, e1),
            omega (arith, e2, ap days_in_year (plus_suc year k)),
          ),
        )
]

month_of-days :
    (dpms : List ℕ) (month d : ℕ)
    → d < sum dpms
    → (k : ℕ) × (k < length dpms)
      × ((month_of dpms month d).0 ≡ month + k)
      × (sum (take k dpms) + (month_of dpms month d).1 ≡ d)
      × ((month_of dpms month d).1 < get_or dpms k 0)
unfolding month_of sum
month_of-days [] month d h = absurd (omega arith)
month_of-days (dpm ∷ dpms) month d h = elim (Bool-cases (ltb d dpm)) [
  | inl e ↦ rw e (zero, omega arith, omega arith, omega arith, ltb→lt d dpm e)
  | inr e ↦
      let over : dpm ≤ d = ground arith in
      let (k, lt, e0, e1, e2) = month_of-days dpms (month + 1) (d - dpm) (omega arith) in
      rw e (suc k, omega arith, omega (arith, e0), omega (arith, e1), e2)
]

sum-days_per_month : (year : ℕ) → sum (days_per_month year) ≡ days_in_year year
unfolding sum days_per_month days_in_year
sum-days_per_month year = ground arith

get_or-All : (xs : List ℕ) (k : ℕ) → All (λ x. x ≤ 31) xs → get_or xs k 0 ≤ 31
get_or-All [] k h = omega arith
get_or-All (x ∷ xs) zero (p, h) = p
get_or-All (x ∷ xs) (suc k) (p, h) = get_or-All xs k h

days_per_month-le : (year k : ℕ) → get_or (days_per_month year) k 0 ≤ 31
unfolding days_per_month
days_per_month-le year k = get_or-All (days_per_month year) k (
  omega arith,
  (
    either (λ n. n ≤ 31) (is_leap year) (omega arith) (omega arith),
    (
      omega arith,
      (
        omega arith,
        (
          omega arith,
          (
            omega arith,
            (
              omega arith,
              (omega arith, (omega arith, (omega arith, (omega arith, (omega arith, tt))))),
            ),
          ),
        ),
      ),
    ),
  ),
)

time_split :
    (secs : ℕ)
    → ((secs / 86400 * 24 + secs / 3600 % 24) * 60 + secs / 60 % 60) * 60 + secs % 60 ≡ secs
time_split secs = omega arith

-- The seconds until a date whose year and month have been counted.
counted_seconds :
    (secs k m yd md : ℕ) (d : PlcDateTime)
    → d.year ≡ 1970 + k
    → d.month ≡ 1 + m
    → d.day ≡ md + 1
    → d.hour ≡ secs / 3600 % 24
    → d.minute ≡ secs / 60 % 60
    → d.second ≡ secs % 60
    → days_of_years k 1970 + yd ≡ secs / 86400
    → sum (take m (days_per_month d.year)) + md ≡ yd
    → m ≤ 12
    → seconds_until d ≡ secs
unfolding seconds_until
counted_seconds secs k m yd md d ey em ed eh emi es e1 f1 lm =
    rw (eh, emi, es, whole_days) (time_split secs)
  where
    years : days_before_year d.year - days_before_year 1970 ≡ days_of_years k 1970
    years = omega (arith, days_of_years-before k 1969, ap days_before_year ey)

    same_year : d.year ≡ d.year - 1 + 1
    same_year = omega arith

    months : sum (take m (days_per_month d.year)) ≡ days_before_month d.year d.month
    months =
        ap (λ y. sum (take m (days_per_month y))) same_year
        ∙ sum-days_before_month (d.year - 1) m lm
        ∙ ap (λ y. days_before_month y (1 + m)) (sym same_year)
        ∙ ap (days_before_month d.year) (sym em)

    whole_days :
        days_before_year d.year
          - days_before_year 1970
          + days_before_month d.year d.month
          + (d.day - 1)
        ≡ secs / 86400
    whole_days = omega (arith, years, months)

-- For every number of seconds below 1987200000000, which is in the year 64942, the date is one of the
-- Gregorian calendar, which is described apart from the code by the days before each year and month, and is
-- exactly that many seconds after the start of 1970.
pub seconds_until-date_of :
    (secs : ℕ)
    → secs < 1987200000000
    → IsDate (date_of secs) × (seconds_until (date_of secs) ≡ secs)
unfolding date_of IsDate seconds_until
seconds_until-date_of secs h =
    let days = secs / 86400 in
    let (k, lt, (e0, e1, e2)) =
      year_of-Counted (days / 365 + 1) 1970 days (omega arith) (omega arith) in
    let year = year_of (days / 365 + 1) 1970 days in
    let month = month_of (days_per_month year.0) 1 year.1 in
    let (m, ltm, f0, f1, f2) =
      month_of-days (days_per_month year.0) 1 year.1
        (omega (arith, sum-days_per_month year.0, e2, ap days_in_year e0)) in
    let small : month.1 < 31 = omega (arith, f2, days_per_month-le year.0 m) in
    let long =
      month_of_length year.0 m month.0 (omega (arith, e0)) f0 (omega (arith, twelve year.0)) in
    (
      (
        omega arith,
        omega (arith, twelve year.0),
        omega arith,
        omega (arith, f2, long),
        omega arith,
        omega arith,
        omega arith,
      ),
      counted_seconds secs k m year.1 month.1 (date_of secs) e0 f0 (omega arith) refl refl refl e1
          f1 (omega (arith, twelve year.0)),
    )
