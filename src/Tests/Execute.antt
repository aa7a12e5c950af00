-- ===== src/Tests/Execute.antt =====
-- A sample run: a monthly report, one occasion of it on file and late.
use sanhita.Prelude.{
  if◌then◌else◌, ℕ, ◌≡◌, ◌⊎◌, refl, true, false, List, [], ◌∷◌, none, some, Result, ok, err, arith,
  ◌+◌, ◌-◌, ◌≤◌, ◌++◌, length, any, count, find, is_some, suc,
}
use sanhita.Prelude.Int.{pos}
use sanhita.Prelude.Sort.{sort, insert}
use sanhita.Prelude.Text.{strip}
use sanhita.Dates.{
  Date, IsValid, days_in_month, days_before_month, next_day, prev_day, add_days, sub_days, ordinal,
  weekday, date_lt, date_le, days_between,
}
use sanhita.Ir.Enums.{DeadlineKind, is_certified}
use sanhita.Ir.Schema.{Deadline, Obligation}
use sanhita.Execute.Calendar.{
  CalendarError, weekends_only, Period, is_working_day, covers, covers_date, working_loop,
  add_working_days, add_calendar_days, add_months, month_length, upper, read_period, close_of,
  end_of_period, max_ordinal, earliest, latest,
}
use sanhita.Execute.Calendar.Working.{working_after, add_working_days_lem, add_working_days-ok}
use sanhita.Execute.Evidence.{
  ComplianceEvent, EvidenceStore, same_occasion, supersede, supersede_in, for_obligation,
}
use sanhita.Execute.Evidence.Occasions.{IsSingle, replaced, supersede_lem}
use sanhita.Execute.Report.{Outcome, Finding, Citation, GapReport, breaches, unverified}
use sanhita.Execute.Applicability.{period_loop}
use sanhita.Execute.Applicability.Ends.{period_loop_total}
use sanhita.Execute.Engine.{
  DueError, EngineError, Check, offset, due_date, why_not, requirement, cite, check, check_due,
  check_computed,
}
use sanhita.Execute.Engine.Due.{why_not-due_date, check-found}
use sanhita.Execute.Run.{
  run, evaluate_all, evaluate, evaluate_events, check_unless, check_events, add_evaluated,
  new_report,
}
use sanhita.Execute.Run.Accounts.{run-accounts}
use sanhita.Execute.Run.Citations.{AreCited, run-AreCited}
use sanhita.Tests.Samples.{duty, signed, monthly}

abbrev pub on : ℕ → ℕ → ℕ → Date
on y m d = record { year = y; month = m; day = d }

-- Due on 2 July 2026.
abbrev pub event : ComplianceEvent
event = record {
  id = "E-1";
  obligation_id = "SB-40.1.8-a";
  entity = "A Firm";
  occurred_on = on 2026 6 10;
  artifact_type = "REPORT_FILING";
  filed_on = some (on 2026 7 6);
  reference = none;
  source_document = "";
  source_page = none;
  source_row = none;
  source_excerpt = "";
  mapped_by = "";
  mapped_at = none;
}

abbrev pub store : EvidenceStore
store = record { label = "register"; events = event ∷ [] }

-- What the tests of the engine compute with.
program : Unit {0}
unfolding run evaluate_all evaluate evaluate_events check_unless check_events check check_due
    check_computed due_date offset why_not requirement cite covers_date covers earliest latest
    add_working_days working_loop add_calendar_days add_months month_length is_working_day
    read_period upper strip close_of end_of_period for_obligation sort insert supersede supersede_in
    days_in_month days_before_month next_day prev_day add_days sub_days ordinal weekday
    working_after IsSingle
program = tt

abbrev citation_of : Result EngineError Citation → Citation
citation_of (ok c) = c
citation_of (err e) = record {
  obligation_id = "";
  clause_id = "";
  section = "";
  page = 0;
  verbatim = "";
  requirement = "";
  certified_by = "";
  certified_at = 0;
  signature = "";
}

abbrev late_finding : Finding
late_finding = record {
  outcome = Outcome.late;
  event_id = "E-1";
  entity = "A Firm";
  occurred_on = on 2026 6 10;
  due_on = on 2026 7 2;
  filed_on = some (on 2026 7 6);
  days_late = some (pos 4);
  due_date_is_approximate = false;
  citation = citation_of (cite signed);
}

event_is_late : check weekends_only signed event (on 2026 7 31) ≡ ok (Check.found late_finding)
unfolding program
event_is_late = refl

check-found_example :
    (d : Deadline) × (some monthly ≡ some d)
    × ((due : Date) × (due_date d (on 2026 6 10) weekends_only ≡ ok due)
        × (on 2026 7 2 ≡ due)
        × (cite signed ≡ ok late_finding.citation)
        × (((Outcome.late ≡ Outcome.missing)
              × (some (on 2026 7 6) ≡ none)
              × (date_le due (on 2026 7 31) ≡ true))
            ⊎ ((Outcome.late ≡ Outcome.late)
                × ((filed : Date) × (some (on 2026 7 6) ≡ some filed)
                    × (date_lt due filed ≡ true)
                    × (some (pos 4) ≡ some (days_between filed due))))))
check-found_example = check-found weekends_only signed event (on 2026 7 31) event_is_late

abbrev rules : List Obligation
rules = duty ∷ signed ∷ []

abbrev report : GapReport
report = record (add_evaluated (new_report weekends_only store 50 1)) {
  events_checked = 1;
  findings = late_finding ∷ [];
}

run_reports : run weekends_only rules store 50 (on 2026 7 31) 365 ≡ ok report
unfolding program
run_reports = refl

run-accounts_example :
    (count (λ (o : Obligation). is_certified o.status) rules
      ≡ report.rules_evaluated
        + length report.unevaluable
        + report.not_applicable
        + length report.undetermined)
    × (report.certified_rules ≡ count (λ (o : Obligation). is_certified o.status) rules)
    × (report.events_checked ≡ report.satisfied + breaches report)
    × (length report.findings ≡ breaches report + unverified report)
run-accounts_example = run-accounts weekends_only rules store 50 (on 2026 7 31) 365 run_reports

run-AreCited_example : AreCited rules (late_finding ∷ [])
run-AreCited_example = run-AreCited weekends_only rules store 50 (on 2026 7 31) 365 run_reports

-- An absolute deadline without its date.
abbrev undated : Deadline
undated = record monthly { kind = DeadlineKind.absolute }

nothing_against : why_not (record signed { deadline = some undated }) ≡ none
unfolding program
nothing_against = refl

undated_fails : due_date undated (on 2026 6 10) weekends_only ≡ err DueError.no_absolute_date
unfolding program
undated_fails = refl

why_not-due_date_example :
    (DueError.no_absolute_date ≡ DueError.no_absolute_date)
    ⊎ ((x : CalendarError) × (DueError.no_absolute_date ≡ DueError.calendar_error x))
why_not-due_date_example =
    why_not-due_date (record signed { deadline = some undated }) undated (on 2026 6 10)
      weekends_only nothing_against refl undated_fails

friday_and_two : add_working_days weekends_only (on 2026 7 3) (pos 2) ≡ ok (on 2026 7 7)
unfolding program
friday_and_two = refl

add_working_days_lem_example :
    (n : ℕ) × (on 2026 7 7 ≡ add_days (on 2026 7 3) n)
    × (working_after weekends_only (on 2026 7 3) n ≡ 2)
    × ((◌≡◌ {A = ℕ} 2 0) ⊎ (is_working_day weekends_only (on 2026 7 7) ≡ true))
add_working_days_lem_example = add_working_days_lem weekends_only (on 2026 7 3) 2 friday_and_two

-- The last Thursday that there is, and the Friday after it.
one_left : 1 ≤ working_after weekends_only (on 9999 12 30) (max_ordinal - ordinal (on 9999 12 30))
unfolding program
one_left = omega arith

add_working_days-ok_example :
    (due : Date) × (add_working_days weekends_only (on 9999 12 30) (pos 1) ≡ ok due)
add_working_days-ok_example = add_working_days-ok weekends_only (on 9999 12 30) 1 one_left

single : IsSingle store.events
unfolding program
single = (refl, tt)

supersede_lem_example :
    IsSingle (supersede store event).0.events
    × ((supersede store event).0.events ≡ (
        if any (λ x. same_occasion x event) store.events
        then replaced event store.events
        else store.events ++ event ∷ []))
    × (find (λ x. same_occasion x event) (supersede store event).0.events ≡ some event)
    × ((supersede store event).1 ≡ find (λ x. same_occasion x event) store.events)
    × ((supersede store event).0.label ≡ store.label)
supersede_lem_example = supersede_lem store event single

first_day : IsValid (on 2026 1 1)
unfolding program
first_day = record {
  year_pos = omega arith;
  month_pos = omega arith;
  month_le = omega arith;
  day_pos = omega arith;
  day_le = omega arith;
}

last_day : IsValid (on 2026 7 31)
unfolding program
last_day = record {
  year_pos = omega arith;
  month_pos = omega arith;
  month_le = omega arith;
  day_pos = omega arith;
  day_le = omega arith;
}

period_loop_total_example :
    is_some (
      period_loop Period.quarter
        (on 2026 1 1)
        (on 2026 7 31)
        (suc (ordinal (on 2026 7 31)) - ordinal (on 2026 1 1))
        (on 2026 1 1)
        [])
    ≡ true
period_loop_total_example =
    period_loop_total Period.quarter (on 2026 1 1) (on 2026 7 31) first_day last_day
