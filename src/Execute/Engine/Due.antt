-- ===== src/Execute/Engine/Due.antt =====
-- execute/engine.py: what `_why_not` rules out for `due_date`, and what a finding on an event says.
use sanhita.Prelude.{◌≡◌, ◌⊎◌, refl, true, false, ◌&&◌, none, some, Result, ok, err, arith}
use sanhita.Dates.{Date, date_lt, date_le, days_between}
use sanhita.Ir.Enums.{is_unspecified}
use sanhita.Ir.Schema.{Deadline, Obligation}
use sanhita.Execute.Calendar.{CalendarError, TradingCalendar}
use sanhita.Execute.Evidence.{ComplianceEvent}
use sanhita.Execute.Report.{Outcome, Finding}
use sanhita.Execute.Applicability.{is_on_demand}
use sanhita.Execute.Engine.{
  DueError, from_calendar, has_offset_days, offset, due_date, why_not, cite, Check, check_due,
  check_computed, check,
}

-- What `_why_not` leaves to go wrong: an absolute deadline without its date, and the calendar.
CanFail : DueError → Type 0
CanFail e =
    (e ≡ DueError.no_absolute_date) ⊎ ((x : CalendarError) × (e ≡ DueError.calendar_error x))

from_calendar-err :
    (m : Result CalendarError Date) {e : DueError}
    → from_calendar m ≡ err e
    → (x : CalendarError) × (e ≡ DueError.calendar_error x)
from_calendar-err (ok d) h = ground arith
from_calendar-err (err x) h = (x, ground arith)

gates :
    (o : Obligation) (d : Deadline)
    → why_not o ≡ none
    → o.deadline ≡ some d
    → (is_on_demand d.kind ≡ false)
      × ((is_unspecified d.business_days && has_offset_days d) ≡ false)
unfolding why_not
gates o d h e = grind arith

offset-err :
    (start : Date) (d : Deadline) (c : TradingCalendar) {e : DueError}
    → (is_unspecified d.business_days && has_offset_days d) ≡ false
    → offset start d c ≡ err e
    → (x : CalendarError) × (e ≡ DueError.calendar_error x)
unfolding offset
offset-err start d c h failed = grind (arith, from_calendar-err)

due_date-err :
    (d : Deadline) (occurred_on : Date) (c : TradingCalendar) {e : DueError}
    → is_on_demand d.kind ≡ false
    → (is_unspecified d.business_days && has_offset_days d) ≡ false
    → due_date d occurred_on c ≡ err e
    → CanFail e
unfolding due_date CanFail
due_date-err d occurred_on c on_demand h failed = grind (arith, from_calendar-err, offset-err)

-- For a rule that `_why_not` lets through, `due_date` raises neither for an unanswered day count
-- nor for a deadline that has no computable date: what is left to go wrong is an absolute deadline
-- without its date, and the calendar's own errors.
pub why_not-due_date :
    (o : Obligation) (d : Deadline) (occurred_on : Date) (c : TradingCalendar) {e : DueError}
    → why_not o ≡ none
    → o.deadline ≡ some d
    → due_date d occurred_on c ≡ err e
    → (e ≡ DueError.no_absolute_date) ⊎ ((x : CalendarError) × (e ≡ DueError.calendar_error x))
unfolding CanFail
why_not-due_date o d occurred_on c h same failed =
    let (on_demand, answered) = gates o d h same in
    due_date-err d occurred_on c on_demand answered failed

computed_of :
    (c : TradingCalendar) (o : Obligation) (d : Deadline) (e : ComplianceEvent) (today : Date)
    (m : Result DueError Date) {f : Finding}
    → check_computed c o d e today m ≡ ok (Check.found f)
    → (due : Date) × (m ≡ ok due) × (check_due c o d e today due ≡ ok (Check.found f))
unfolding check_computed
computed_of c o d e today (ok due) h = (due, refl, h)
computed_of c o d e today (err (DueError.calendar_error x)) h = ground arith
computed_of c o d e today (err DueError.no_absolute_date) h = ground arith
computed_of c o d e today (err DueError.day_count_unresolved) h = ground arith
computed_of c o d e today (err DueError.not_computable) h = ground arith

dated_of :
    (c : TradingCalendar) (o : Obligation) (e : ComplianceEvent) (today : Date) {f : Finding}
    → check c o e today ≡ ok (Check.found f)
    → (d : Deadline) × (o.deadline ≡ some d)
      × (check_computed c o d e today (due_date d e.occurred_on c) ≡ ok (Check.found f))
unfolding check
dated_of c o e today h = grind arith

-- What a finding on an event says, where the artifact was due on a day.
Explains : Obligation → ComplianceEvent → Date → Date → Finding → Type 0
Explains o e today due f =
    (f.due_on ≡ due)
    × (cite o ≡ ok f.citation)
    × (((f.outcome ≡ Outcome.missing) × (e.filed_on ≡ none) × (date_le due today ≡ true))
        ⊎ ((f.outcome ≡ Outcome.late)
            × ((filed : Date) × (e.filed_on ≡ some filed)
                × (date_lt due filed ≡ true)
                × (f.days_late ≡ some (days_between filed due)))))

check_due-Explains :
    (c : TradingCalendar) (o : Obligation) (d : Deadline) (e : ComplianceEvent) (today due : Date)
    {f : Finding}
    → check_due c o d e today due ≡ ok (Check.found f)
    → Explains o e today due f
unfolding check_due Explains
check_due-Explains c o d e today due h = grind arith

-- A finding on an event: the due date is the rule's, the citation is the rule's, and either nothing
-- was filed and the day is not before the due date, or what was filed came after it.
pub check-found :
    (c : TradingCalendar) (o : Obligation) (e : ComplianceEvent) (today : Date) {f : Finding}
    → check c o e today ≡ ok (Check.found f)
    → (d : Deadline) × (o.deadline ≡ some d)
      × ((due : Date) × (due_date d e.occurred_on c ≡ ok due)
          × (f.due_on ≡ due)
          × (cite o ≡ ok f.citation)
          × (((f.outcome ≡ Outcome.missing) × (e.filed_on ≡ none) × (date_le due today ≡ true))
              ⊎ ((f.outcome ≡ Outcome.late)
                  × ((filed : Date) × (e.filed_on ≡ some filed)
                      × (date_lt due filed ≡ true)
                      × (f.days_late ≡ some (days_between filed due))))))
unfolding Explains
check-found c o e today h =
    let (d, same, dated) = dated_of c o e today h in
    let (due, computed, rest) = computed_of c o d e today (due_date d e.occurred_on c) dated in
    let (on, cited, explained) = check_due-Explains c o d e today due rest in
    (d, same, (due, computed, on, cited, explained))
