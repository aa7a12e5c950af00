-- ===== src/Execute/Applicability.antt =====
-- execute/applicability.py: whether a rule was owed in a window, before any evidence is read.
use sanhita.Prelude.{
  ℕ, zero, suc, ◌+◌, ◌-◌, ◌%◌, String, Bool, true, false, not, ◌&&◌, ◌||◌, List, [], ◌∷◌, ◌++◌,
  Option, none, some, length, any, if◌then◌else◌, ltb, leb, ◌==◌, or_else,
}
use sanhita.Prelude.Text.{non_empty}
use sanhita.Dates.{Date, days_in_month, ordinal, weekday, next_day, add_days, date_le, date_eq}
use sanhita.Ir.Enums.{Modality, DeadlineKind, RuleStatus, is_certified}
use sanhita.Ir.Schema.{Deadline, Obligation}
use sanhita.Execute.Calendar.{Period, read_period}
use sanhita.Execute.Report.{Reason, Verdict, Applicability}
pub mod Ends

-- `date(day.year, day.month, monthrange(day.year, day.month)[1])`
unfoldable pub month_end : Date → Date
month_end d = record d { day = days_in_month d.year d.month }

-- The close that a round of the loop looks at, which is the last day it covers.
unfoldable pub period_close : Period → Date → Date
unfolding month_end
period_close Period.day day = day
period_close Period.week day = add_days day (6 - weekday day)
period_close _ day = month_end day

-- Whether that day closes the period.
unfoldable pub closes_here : Period → Date → Bool
closes_here Period.day day = ltb (weekday day) 5
closes_here Period.week day = true
closes_here Period.month day = true
closes_here Period.quarter day = day.month % 3 == 0
closes_here Period.half_year day = (day.month == 6) || (day.month == 12)
closes_here Period.year day = day.month == 12

-- `start <= closes <= end and closes not in out`; a trading day is appended without the tests.
unfoldable pub admits : Period → Date → Date → Date → List Date → Bool
admits Period.day start end closes out = true
admits _ start end closes out =
    date_le start closes && (date_le closes end && not (any (λ d. date_eq closes d) out))

-- The `while day <= end` loop on fuel; `none` is a loop that has not ended.
unfoldable pub period_loop : Period → Date → Date → ℕ → Date → List Date → Option (List Date)
unfolding period_close closes_here admits
period_loop p start end zero day out = if date_le day end then none else some out
period_loop p start end (suc fuel) day out =
    let closes = period_close p day in
    let out2 =
      if closes_here p day && admits p start end closes out then out ++ closes ∷ [] else out in
    let rest = period_loop p start end fuel (next_day closes) out2 in
    if date_le day end then rest else some out

-- Each round moves on by a day at least.
unfoldable pub period_ends : String → Date → Date → List Date
unfolding read_period period_loop
period_ends period start end = elim (read_period period) [
  | none ↦ []
  | some p ↦ or_else (period_loop p start end (suc (ordinal end) - ordinal start) start []) []
]

-- `deadline.period`, with the empty text as no period.
abbrev pub named_period : Deadline → Option String
named_period d = elim d.period [ none ↦ none | some s ↦ if non_empty s then some s else none ]

abbrev pub is_end_of_period : DeadlineKind → Bool
is_end_of_period DeadlineKind.end_of_period = true
is_end_of_period _ = false

abbrev pub is_on_demand : DeadlineKind → Bool
is_on_demand DeadlineKind.on_demand = true
is_on_demand _ = false

unfoldable pub expected_occasions : Obligation → Date → Date → List Date
unfolding period_ends
expected_occasions o start end = elim o.deadline [
  | none ↦ []
  | some d ↦
      if is_end_of_period d.kind
      then elim (named_period d) [ none ↦ [] | some p ↦ period_ends p start end ]
      else []
]

unfoldable pub assess_deadline : Obligation → Date → Date → Deadline → Verdict × ℕ × Reason
unfolding expected_occasions
assess_deadline o start end d =
    if is_on_demand d.kind
    then (Verdict.undetermined, 0, Reason.on_demand)
    else if is_end_of_period d.kind
    then elim (named_period d) [
      | none ↦ (Verdict.undetermined, 0, Reason.fires_on_event o.trigger.kind)
      | some p ↦
          let n = length (expected_occasions o start end) in
          if n == 0
          then (Verdict.not_applicable, 0, Reason.no_period_closed p)
          else (Verdict.expected, n, Reason.recurs p n start end)
    ]
    else (Verdict.undetermined, 0, Reason.fires_on_event o.trigger.kind)

unfoldable pub assess : Obligation → Date → Date → Verdict × ℕ × Reason
unfolding assess_deadline
assess o start end =
    if not (is_certified o.status)
    then (Verdict.not_applicable, 0, Reason.not_certified)
    else elim o.modality [
      | Modality.must_not ↦ (Verdict.not_applicable, 0, Reason.forbids)
      | Modality.may ↦ (Verdict.not_applicable, 0, Reason.permits)
      | _ ↦ elim o.evidence [
        | [] ↦ (Verdict.not_applicable, 0, Reason.nothing_to_retain)
        | _ ∷ _ ↦ elim o.deadline [
          | none ↦ (Verdict.undetermined, 0, Reason.standing)
          | some d ↦ assess_deadline o start end d
        ]
      ]
    ]

unfoldable pub assess_applicability : Obligation → Date → Date → Applicability
unfolding assess
assess_applicability o start end =
    let (verdict, occasions, reason) = assess o start end in
    record {
      obligation_id = o.id;
      clause_id = o.source.clause_id;
      verdict = verdict;
      occasions = occasions;
      reason = reason;
    }
