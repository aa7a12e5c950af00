-- ===== src/Dates/Order.antt =====
-- The order on dates is the order of their ordinals, and a step of one day is a step of one.
use sanhita.Prelude.{ℕ, zero, suc, ◌+◌, ◌-◌, ◌*◌, ◌/◌, ◌≤◌, ◌<◌, ◌≡◌, refl, true, false, arith, ltb}
use sanhita.Dates.{
  Date, IsValid, days_in_month, next_day, add_days, days_before_month, ordinal, date_lt,
}

pub days_in_month_pos : (y m : ℕ) → 28 ≤ days_in_month y m
unfolding days_in_month
days_in_month_pos y m = ground arith

pub next_day-IsValid : (d : Date) → IsValid d → IsValid (next_day d)
unfolding next_day
next_day-IsValid d v =
    ground (arith, days_in_month_pos d.year (d.month + 1), days_in_month_pos (d.year + 1) 1)

month_step :
    (y m : ℕ)
    → 1 ≤ m
    → m < 12
    → days_before_month y (m + 1) ≡ days_before_month y m + days_in_month y m
unfolding days_before_month days_in_month
month_step y m h k = ground arith

year_step :
    (y : ℕ)
    → 1 ≤ y
    → y * 365 + y / 4 - y / 100 + y / 400
      ≡ (y - 1) * 365 + (y - 1) / 4 - (y - 1) / 100 + (y - 1) / 400 + days_before_month y 12 + 31
unfolding days_before_month
year_step y h = ground arith

days_before_month_1 : (y : ℕ) → days_before_month y 1 ≡ 0
unfolding days_before_month
days_before_month_1 y = ground arith

month_12 : (m : ℕ) → m ≤ 12 → ltb m 12 ≡ false → m ≡ 12
month_12 m h k = ground arith

december : (y : ℕ) → days_in_month y 12 ≡ 31
unfolding days_in_month
december y = refl

pub ordinal-next_day : (d : Date) → IsValid d → ordinal (next_day d) ≡ ordinal d + 1
unfolding ordinal next_day
ordinal-next_day d v = ground (
  arith,
  month_step d.year d.month,
  year_step d.year,
  days_before_month_1 (d.year + 1),
  month_12 d.month,
  december d.year,
)

pub add_days-IsValid : (d : Date) (n : ℕ) → IsValid d → IsValid (add_days d n)
unfolding add_days
add_days-IsValid d zero v = v
add_days-IsValid d (suc n) v = next_day-IsValid (add_days d n) (add_days-IsValid d n v)

-- `(d + timedelta(days=n)).toordinal() == d.toordinal() + n`
pub ordinal-add_days : (d : Date) (n : ℕ) → IsValid d → ordinal (add_days d n) ≡ ordinal d + n
unfolding add_days
ordinal-add_days d zero v = omega arith
ordinal-add_days d (suc n) v =
    omega (arith, ordinal-next_day (add_days d n) (add_days-IsValid d n v), ordinal-add_days d n v)

-- The ordinals of a year lie above those of the years before it.
in_year :
    (d : Date)
    → IsValid d
    → days_before_month d.year d.month + d.day ≤ days_before_month d.year 12 + 31
unfolding days_before_month days_in_month
in_year d v = ground arith

in_month :
    (y m n : ℕ)
    → 1 ≤ m
    → m < n
    → n ≤ 12
    → days_before_month y m + days_in_month y m ≤ days_before_month y n
unfolding days_before_month days_in_month
in_month y m n h k l = ground arith

year_base : ℕ → ℕ
year_base y = (y - 1) * 365 + (y - 1) / 4 - (y - 1) / 100 + (y - 1) / 400

year_mono : (y k : ℕ) → 1 ≤ y → year_base y + days_before_month y 12 + 31 ≤ year_base (y + 1 + k)
unfolding year_base days_before_month
year_mono y k h = ground arith

pub ordinal-lt : (a b : Date) → IsValid a → IsValid b → date_lt a b ≡ true → ordinal a < ordinal b
unfolding ordinal year_base
ordinal-lt a b va vb h =
    ground
      (arith, in_year a va, in_month a.year a.month b.month, year_mono a.year (b.year - a.year - 1))
