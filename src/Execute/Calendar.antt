-- ===== src/Execute/Calendar.antt =====
-- execute/calendar.py: working days, months and the close of a named period.
use Prim.Native.Char.{Char, code}
use Prim.Native.String.{char_at}
use sanhita.Prelude.{
  ℕ, zero, suc, ◌+◌, ◌-◌, ◌*◌, ◌/◌, ◌%◌, String, Bool, true, false, not, ◌&&◌, ◌||◌, List, [], ◌∷◌,
  Option, none, some, Result, ok, err, any, if◌then◌else◌, leb, ltb, ◌==◌, str_eq, min,
}
use sanhita.Prelude.Int.{ℤ, pos, negsuc}
use sanhita.Prelude.Text.{strip}
use sanhita.Dates.{Date, ordinal, weekday, next_day, prev_day, add_days, date_lt, date_le, date_eq}
pub mod Working

pub data CalendarError : Type 0 where
  negative_offset unknown_period overflow : CalendarError

-- The two sets are held as lists.
pub record TradingCalendar : Type 0 where
  pub name : String
  pub holidays : List Date
  pub weekend : List ℕ

abbrev pub weekends_only : TradingCalendar
weekends_only = record {
  name = "weekends only, no exchange holiday list loaded";
  holidays = [];
  weekend = 5 ∷ 6 ∷ [];
}

unfoldable pub is_working_day : TradingCalendar → Date → Bool
is_working_day c d =
    let w = weekday d in
    not (any (λ n. w == n) c.weekend) && not (any (λ h. date_eq d h) c.holidays)

-- `min(holidays)` and `max(holidays)`, of a first date and the rest.
unfoldable pub earliest : Date → List Date → Date
earliest d [] = d
earliest d (h ∷ hs) = earliest (if date_lt h d then h else d) hs

unfoldable pub latest : Date → List Date → Date
latest d [] = d
latest d (h ∷ hs) = latest (if date_lt d h then h else d) hs

unfoldable pub covers : TradingCalendar → Option (Date × Date)
unfolding earliest latest
covers c = elim c.holidays [ [] ↦ none | h ∷ hs ↦ some (earliest h hs, latest h hs) ]

unfoldable pub covers_date : TradingCalendar → Date → Bool
unfolding covers
covers_date c d = elim (covers c) [ none ↦ false | some (a, b) ↦ date_le a d && date_le d b ]

-- `date.max.toordinal()`: a step past it is an `OverflowError`.
abbrev pub max_ordinal : ℕ
max_ordinal = 3652059

-- The `while remaining > 0` loop, with a round for each day that is left.
unfoldable pub working_loop : TradingCalendar → ℕ → Date → ℕ → Result CalendarError Date
working_loop c rounds day zero = ok day
working_loop c zero day (suc remaining) = err overflow
working_loop c (suc rounds) day (suc remaining) = elim (is_working_day c (next_day day)) [
  | true ↦ working_loop c rounds (next_day day) remaining
  | false ↦ working_loop c rounds (next_day day) (suc remaining)
]

unfoldable pub add_working_days : TradingCalendar → Date → ℤ → Result CalendarError Date
unfolding working_loop
add_working_days c start (negsuc n) = err negative_offset
add_working_days c start (pos n) = working_loop c (max_ordinal - ordinal start) start n

unfoldable pub add_calendar_days : Date → ℤ → Result CalendarError Date
add_calendar_days start (negsuc n) = err negative_offset
add_calendar_days start (pos n) = ok (add_days start n)

-- `_month_length`
unfoldable pub month_length : ℕ → ℕ → ℕ
unfolding prev_day
month_length year month =
    if month == 12 then 31 else (prev_day (record { year = year; month = month + 1; day = 1 })).day

unfoldable pub add_months : Date → ℕ → Date
unfolding month_length
add_months start months =
    let total = start.month - 1 + months in
    let year = start.year + total / 12 in
    let month = total % 12 + 1 in
    record { year = year; month = month; day = min start.day (month_length year month) }

abbrev pub last_of_month : ℕ → ℕ → Date
last_of_month year month = record { year = year; month = month; day = month_length year month }

pub data Period : Type 0 where
  day week month quarter half_year year : Period

unfoldable pub upper_char : Char → Char
upper_char c =
    let n = code c in
    if leb b'a' n && leb n b'z' then char_at "ABCDEFGHIJKLMNOPQRSTUVWXYZ" (n - b'a') else c

-- `str.upper`, on the letters that a period's name has.
unfoldable pub upper : String → String
unfolding upper_char
upper String.[] = String.[]
upper (String.◌∷◌ c s) = String.◌∷◌ (upper_char c) (upper s)

unfoldable pub read_period : String → Option Period
unfolding upper strip
read_period text =
    let name = upper (strip text) in
    if str_eq name "DAY"
    then some day
    else if str_eq name "WEEK"
    then some week
    else if str_eq name "MONTH"
    then some month
    else if str_eq name "QUARTER"
    then some quarter
    else if str_eq name "HALF_YEAR"
    then some half_year
    else if str_eq name "YEAR"
    then some year
    else none

unfoldable pub close_of : Date → Period → Date
unfolding month_length
close_of start day = start
close_of start week = add_days start (6 - weekday start)
close_of start month = last_of_month start.year start.month
close_of start quarter = last_of_month start.year (((start.month - 1) / 3 + 1) * 3)
close_of start half_year = last_of_month start.year (if leb start.month 6 then 6 else 12)
close_of start year = record { year = start.year; month = 12; day = 31 }

unfoldable pub end_of_period : Date → String → Result CalendarError Date
unfolding close_of read_period
end_of_period start text = elim (read_period text) [
  | none ↦ err unknown_period
  | some p ↦ ok (close_of start p)
]
