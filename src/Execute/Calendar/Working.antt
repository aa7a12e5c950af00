-- ===== src/Execute/Calendar/Working.antt =====
-- execute/calendar.py, `add_working_days`: what the loop counts.
use sanhita.Prelude.{
  ℕ, zero, suc, ◌-◌, ◌≤◌, ◌≡◌, ◌⊎◌, inl, inr, refl, sym, ap, ◌∙◌, Bool-cases, true, false, ok,
  arith, if◌then◌else◌,
}
use sanhita.Prelude.Int.{pos}
use sanhita.Dates.{Date, next_day, add_days, ordinal}
use sanhita.Execute.Calendar.{
  TradingCalendar, is_working_day, working_loop, add_working_days, max_ordinal,
}

-- The working days among the `n` days after a day.
unfoldable pub working_after : TradingCalendar → Date → ℕ → ℕ
unfolding is_working_day
working_after c d zero = 0
working_after c d (suc n) =
    let rest = working_after c (next_day d) n in
    if is_working_day c (next_day d) then suc rest else rest

-- The day that `n` days of steps lead to.
next_days : Date → ℕ → Date
next_days d zero = d
next_days d (suc n) = next_days (next_day d) n

next_days-add_days : (d : Date) (n : ℕ) → next_days (next_day d) n ≡ next_day (next_days d n)
unfolding next_days
next_days-add_days d zero = refl
next_days-add_days d (suc n) = next_days-add_days (next_day d) n

next_days_lem : (d : Date) (n : ℕ) → next_days d n ≡ add_days d n
unfolding next_days add_days
next_days_lem d zero = refl
next_days_lem d (suc n) = grind (arith, next_days-add_days, next_days_lem d n)

loop_on :
    (c : TradingCalendar) (rounds : ℕ) (d : Date) (remaining : ℕ)
    → is_working_day c (next_day d) ≡ true
    → (working_loop c (suc rounds) d (suc remaining) ≡ working_loop c rounds (next_day d) remaining)
      × ((n : ℕ) → working_after c d (suc n) ≡ suc (working_after c (next_day d) n))
unfolding working_loop working_after
loop_on c rounds d remaining h = (ground arith, λ n. ground arith)

loop_off :
    (c : TradingCalendar) (rounds : ℕ) (d : Date) (remaining : ℕ)
    → is_working_day c (next_day d) ≡ false
    → (working_loop c (suc rounds) d (suc remaining)
        ≡ working_loop c rounds (next_day d) (suc remaining))
      × ((n : ℕ) → working_after c d (suc n) ≡ working_after c (next_day d) n)
unfolding working_loop working_after
loop_off c rounds d remaining h = (ground arith, λ n. ground arith)

-- The loop ends on a day after which as many working days have passed as were asked for, and that
-- day is the start or a working day.
Reaches : TradingCalendar → ℕ → Date → ℕ → Date → Type 0
Reaches c rounds d remaining due =
    (n : ℕ) × (n ≤ rounds)
    × (due ≡ next_days d n)
    × (working_after c d n ≡ remaining)
    × ((n ≡ 0) ⊎ (is_working_day c due ≡ true))

none_passed :
    (c : TradingCalendar) (d : Date) (n : ℕ) {remaining : ℕ} {P : Type 0}
    → n ≡ 0
    → working_after c d n ≡ suc remaining
    → P
unfolding working_after
none_passed c d zero h passed = ground arith
none_passed c d (suc n) h passed = ground arith

landed : (n : ℕ) (d : Date) {due : Date} → due ≡ next_days d n → n ≡ 0 → due ≡ d
unfolding next_days
landed zero d reached h = reached
landed (suc n) d reached h = ground arith

working_loop_lem :
    (c : TradingCalendar) (rounds : ℕ) (d : Date) (remaining : ℕ) {due : Date}
    → working_loop c rounds d remaining ≡ ok due
    → Reaches c rounds d remaining due
unfolding working_loop next_days working_after Reaches
working_loop_lem c rounds d zero h = (0, omega arith, ground arith, refl, inl refl)
working_loop_lem c zero d (suc remaining) h = ground arith
working_loop_lem c (suc rounds) d (suc remaining) {due} h =
    elim (Bool-cases (is_working_day c (next_day d))) [
      | inl on ↦
          let (step, counted) = loop_on c rounds d remaining on in
          let (n, bound, reached, passed, last) =
            working_loop_lem c rounds (next_day d) remaining (sym step ∙ h) in
          (
            suc n,
            omega arith,
            reached,
            counted n ∙ ap suc passed,
            inr (elim last [
              | inl none_after ↦
                  ap (is_working_day c) (landed n (next_day d) reached none_after) ∙ on
              | inr works ↦ works
            ]),
          )
      | inr off ↦
          let (step, counted) = loop_off c rounds d remaining off in
          let (n, bound, reached, passed, last) =
            working_loop_lem c rounds (next_day d) (suc remaining) (sym step ∙ h) in
          (
            suc n,
            omega arith,
            reached,
            counted n ∙ passed,
            elim last [
              | inl none_after ↦ none_passed c (next_day d) n none_after passed
              | inr works ↦ inr works
            ],
          )
    ]

working_loop-ok :
    (c : TradingCalendar) (rounds : ℕ) (d : Date) (remaining : ℕ)
    → remaining ≤ working_after c d rounds
    → (due : Date) × (working_loop c rounds d remaining ≡ ok due)
unfolding working_loop working_after
working_loop-ok c rounds d zero h = (d, ground arith)
working_loop-ok c zero d (suc remaining) h = ground arith
working_loop-ok c (suc rounds) d (suc remaining) h =
    elim (Bool-cases (is_working_day c (next_day d))) [
      | inl on ↦
          let (step, counted) = loop_on c rounds d remaining on in
          let (due, e) =
            working_loop-ok c rounds (next_day d) remaining (omega (arith, h, counted rounds)) in
          (due, step ∙ e)
      | inr off ↦
          let (step, counted) = loop_off c rounds d remaining off in
          let (due, e) =
            working_loop-ok c rounds (next_day d) (suc remaining)
              (omega (arith, h, counted rounds)) in
          (due, step ∙ e)
    ]

nothing_after : (c : TradingCalendar) (d : Date) (n : ℕ) → n ≡ 0 → working_after c d n ≡ 0
unfolding working_after
nothing_after c d zero h = refl
nothing_after c d (suc n) h = ground arith

-- Where `add_working_days` gives a day, the day is some number of days after the start, the days
-- after the start up to it hold exactly as many working days as were asked for, and it is a working
-- day unless none was asked for.
pub add_working_days_lem :
    (c : TradingCalendar) (start : Date) (days : ℕ) {due : Date}
    → add_working_days c start (pos days) ≡ ok due
    → (n : ℕ) × (due ≡ add_days start n)
      × (working_after c start n ≡ days)
      × ((days ≡ 0) ⊎ (is_working_day c due ≡ true))
unfolding add_working_days Reaches
add_working_days_lem c start days h =
    let (n, bound, reached, passed, last) =
      working_loop_lem c (max_ordinal - ordinal start) start days h in
    (
      n,
      reached ∙ next_days_lem start n,
      passed,
      elim last [
        | inl none_after ↦ inl (sym passed ∙ nothing_after c start n none_after)
        | inr works ↦ inr works
      ],
    )

-- The loop does end with a day, and not with an overflow, where the days up to the last date that
-- there is hold as many working days as were asked for.
pub add_working_days-ok :
    (c : TradingCalendar) (start : Date) (days : ℕ)
    → days ≤ working_after c start (max_ordinal - ordinal start)
    → (due : Date) × (add_working_days c start (pos days) ≡ ok due)
unfolding add_working_days
add_working_days-ok c start days h = working_loop-ok c (max_ordinal - ordinal start) start days h
