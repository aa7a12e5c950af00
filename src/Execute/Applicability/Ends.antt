-- ===== src/Execute/Applicability/Ends.antt =====
-- execute/applicability.py, `_period_ends`: the loop ends.
use sanhita.Prelude.{
  ℕ, zero, suc, ◌+◌, ◌-◌, ◌≤◌, ◌<◌, ◌≡◌, inl, inr, refl, Bool, true, false, ◌&&◌, List, [], ◌∷◌,
  ◌++◌, Option, some, arith, is_some, if◌then◌else◌, Bool-cases,
}
use sanhita.Dates.{Date, IsValid, ordinal, weekday, next_day, date_le, date_lt}
use sanhita.Dates.Order.{
  next_day-IsValid, ordinal-next_day, add_days-IsValid, ordinal-add_days, ordinal-lt,
}
use sanhita.Execute.Calendar.{Period}
use sanhita.Execute.Applicability.{month_end, period_close, closes_here, admits, period_loop}

month_end-IsValid :
    (d : Date) → IsValid d → IsValid (month_end d) × (ordinal d ≤ ordinal (month_end d))
unfolding month_end ordinal
month_end-IsValid d v = (
  record {
    year_pos = v.year_pos;
    month_pos = v.month_pos;
    month_le = v.month_le;
    day_pos = omega (arith, v.day_pos, v.day_le);
    day_le = omega arith;
  },
  omega (arith, v.day_le),
)

period_close-IsValid :
    (p : Period) (d : Date)
    → IsValid d
    → IsValid (period_close p d) × (ordinal d ≤ ordinal (period_close p d))
unfolding period_close
period_close-IsValid Period.day d v = (v, omega arith)
period_close-IsValid Period.week d v =
    (add_days-IsValid d (6 - weekday d) v, omega (arith, ordinal-add_days d (6 - weekday d) v))
period_close-IsValid Period.month d v = month_end-IsValid d v
period_close-IsValid Period.quarter d v = month_end-IsValid d v
period_close-IsValid Period.half_year d v = month_end-IsValid d v
period_close-IsValid Period.year d v = month_end-IsValid d v

neither_earlier :
    (a b : Date)
    → date_le a b ≡ true
    → date_lt a b ≡ false
    → (a.year ≡ b.year) × (a.month ≡ b.month) × (a.day ≡ b.day)
neither_earlier a b h k = (ground arith, ground arith, ground arith)

ordinal-same :
    (a b : Date) → a.year ≡ b.year → a.month ≡ b.month → a.day ≡ b.day → ordinal a ≡ ordinal b
unfolding ordinal
ordinal-same a b y m d = cc

date_le-ordinal : (a b : Date) → IsValid a → IsValid b → date_le a b ≡ true → ordinal a ≤ ordinal b
date_le-ordinal a b v w h = elim (Bool-cases (date_lt a b)) [
  | inl earlier ↦ omega (arith, ordinal-lt a b v w earlier)
  | inr not_earlier ↦
      let (y, m, d) = neither_earlier a b h not_earlier in omega (arith, ordinal-same a b y m d)
]

ends_either :
    (b : Bool) (rest : Option (List Date)) (out : List Date)
    → is_some rest ≡ true
    → is_some (if b then rest else some out) ≡ true
ends_either true rest out h = h
ends_either false rest out h = refl

-- Fuel for the days that are left is enough.
enough_fuel :
    (p : Period) (start end : Date) (fuel : ℕ) (day : Date) (out : List Date)
    → IsValid day
    → IsValid end
    → ordinal end < ordinal day + fuel
    → is_some (period_loop p start end fuel day out) ≡ true
unfolding period_loop
enough_fuel p start end zero day out v w h = ground (arith, date_le-ordinal day end v w)
enough_fuel p start end (suc fuel) day out v w h =
    let (u, later) = period_close-IsValid p day v in
    let closes = period_close p day in
    let out2 =
      if closes_here p day && admits p start end closes out then out ++ closes ∷ [] else out in
    ends_either (date_le day end) (period_loop p start end fuel (next_day closes) out2) out (
      enough_fuel p start end fuel (next_day closes) out2 (next_day-IsValid closes u) w
        (omega (arith, h, later, ordinal-next_day closes u)))

-- The fuel that `_period_ends` gives its loop is enough: from a window's start to its end, the loop
-- over the closes of a period ends with a list.
pub period_loop_total :
    (p : Period) (start end : Date)
    → IsValid start
    → IsValid end
    → is_some (period_loop p start end (suc (ordinal end) - ordinal start) start []) ≡ true
period_loop_total p start end v w =
    enough_fuel p start end (suc (ordinal end) - ordinal start) start [] v w (omega arith)
