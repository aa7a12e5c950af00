-- ===== src/Dates.antt =====
-- Python's `datetime.date`, as far as the sources use it: comparison, `date + timedelta(days=n)`,
-- `(a - b).days`, `weekday()`. Years are not bounded by 9999 here.
pub mod Order
pub mod Iso
use sanhita.Prelude.{
  ℕ, zero, suc, ◌+◌, ◌-◌, ◌*◌, ◌/◌, ◌%◌, ◌≤◌, ◌<◌, ◌≡◌, Bool, true, false, not, ◌&&◌, ◌||◌, ltb,
  leb, ◌==◌, if◌then◌else◌,
}
use sanhita.Prelude.Int.{ℤ, sub_ℕ}

pub record Date : Type 0 where
  pub year : ℕ
  pub month : ℕ
  pub day : ℕ

abbrev pub is_leap : ℕ → Bool
is_leap y = (y % 4 == 0) && (not (y % 100 == 0) || (y % 400 == 0))

unfoldable pub days_in_month : ℕ → ℕ → ℕ
days_in_month y m =
    if (m == 4) || ((m == 6) || ((m == 9) || (m == 11)))
    then 30
    else if m == 2
    then (if is_leap y then 29 else 28)
    else 31

-- What the constructor of `date` accepts.
pub record IsValid (d : Date) : Type 0 where
  pub year_pos : 1 ≤ d.year
  pub month_pos : 1 ≤ d.month
  pub month_le : d.month ≤ 12
  pub day_pos : 1 ≤ d.day
  pub day_le : d.day ≤ days_in_month d.year d.month

unfoldable pub next_day : Date → Date
next_day d =
    if ltb d.day (days_in_month d.year d.month)
    then record d { day = d.day + 1 }
    else if ltb d.month 12
    then record { year = d.year; month = d.month + 1; day = 1 }
    else record { year = d.year + 1; month = 1; day = 1 }

unfoldable pub prev_day : Date → Date
prev_day d =
    if ltb 1 d.day
    then record d { day = d.day - 1 }
    else if ltb 1 d.month
    then record { year = d.year; month = d.month - 1; day = days_in_month d.year (d.month - 1) }
    else record { year = d.year - 1; month = 12; day = 31 }

-- `d + timedelta(days=n)`
unfoldable pub add_days : Date → ℕ → Date
add_days d zero = d
add_days d (suc n) = next_day (add_days d n)

-- `d - timedelta(days=n)`
unfoldable pub sub_days : Date → ℕ → Date
sub_days d zero = d
sub_days d (suc n) = prev_day (sub_days d n)

-- The days of the year before a month.
unfoldable pub days_before_month : ℕ → ℕ → ℕ
days_before_month y m =
    let leap = if ltb 2 m && is_leap y then 1 else 0 in
    (if m == 1
      then 0
      else if m == 2
      then 31
      else if m == 3
      then 59
      else if m == 4
      then 90
      else if m == 5
      then 120
      else if m == 6
      then 151
      else if m == 7
      then 181
      else if m == 8
      then 212
      else if m == 9
      then 243
      else if m == 10
      then 273
      else if m == 11
      then 304
      else 334)
    + leap

-- `date.toordinal()`
unfoldable pub ordinal : Date → ℕ
ordinal d =
    let y = d.year - 1 in
    y * 365 + y / 4 - y / 100 + y / 400 + days_before_month d.year d.month + d.day

-- Monday is 0.
unfoldable pub weekday : Date → ℕ
weekday d = (ordinal d + 6) % 7

-- `(a - b).days`
abbrev pub days_between : Date → Date → ℤ
days_between a b = sub_ℕ (ordinal a) (ordinal b)

abbrev pub date_lt : Date → Date → Bool
date_lt a b =
    ltb a.year b.year
    || ((a.year == b.year) && (ltb a.month b.month || ((a.month == b.month) && ltb a.day b.day)))

abbrev pub date_le : Date → Date → Bool
date_le a b = not (date_lt b a)

abbrev pub date_eq : Date → Date → Bool
date_eq a b = (a.year == b.year) && ((a.month == b.month) && (a.day == b.day))
