-- ===== src/Client/Calendar.antt =====
-- crates/snap7-client/src/client.rs: `set_clock_to_now`, from the seconds since 1970 that the host's
-- clock shows.
pub mod Gregorian
pub mod Laws
use rs_snap.Prelude.{
  ℕ, zero, suc, ◌+◌, ◌-◌, ◌*◌, ◌/◌, ◌%◌, Bool, ◌&&◌, ◌||◌, not, List, [], ◌∷◌, ltb, ◌==◌,
  if◌then◌else◌,
}
use rs_snap.S7.Clock.{PlcDateTime}
use rs_snap.Client.Session.{Run}
use rs_snap.Client.Queries.{set_clock}

abbrev pub is_leap : ℕ → Bool
is_leap year = ((year % 4 == 0) && not (year % 100 == 0)) || (year % 400 == 0)

unfoldable pub days_in_year : ℕ → ℕ
days_in_year year = if is_leap year then 366 else 365

-- The loop over the years, on fuel; a 16-bit year. A round takes 365 days or more.
unfoldable pub year_of : (fuel year days : ℕ) → ℕ × ℕ
year_of zero year d = (year, d)
year_of (suc fuel) year d =
    let rest = year_of fuel ((year + 1) % 65536) (d - days_in_year year) in
    if ltb d (days_in_year year) then (year, d) else rest

unfoldable pub days_per_month : ℕ → List ℕ
days_per_month year =
    31 ∷ (if is_leap year then 29 else 28) ∷ 31 ∷ 30 ∷ 31 ∷ 30 ∷ 31 ∷ 31 ∷ 30 ∷ 31 ∷ 30 ∷ 31 ∷ []

-- The loop over the months.
unfoldable pub month_of : List ℕ → (month days : ℕ) → ℕ × ℕ
month_of [] month d = (month, d)
month_of (dpm ∷ dpms) month d =
    let rest = month_of dpms (month + 1) (d - dpm) in if ltb d dpm then (month, d) else rest

unfoldable pub date_of : ℕ → PlcDateTime
date_of secs =
    let days = secs / 86400 in
    let year = year_of (days / 365 + 1) 1970 days in
    let month = month_of (days_per_month year.0) 1 year.1 in
    record {
      year = year.0;
      month = month.0;
      day = (month.1 + 1) % 256;
      hour = secs / 3600 % 24;
      minute = secs / 60 % 60;
      second = secs % 60;
      millisecond = 0;
      weekday = 0;
    }

unfoldable pub set_clock_to_now : ℕ → Run (Unit {0})
set_clock_to_now secs = set_clock (date_of secs)
