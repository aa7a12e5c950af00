-- ===== src/Execute/Engine.antt =====
-- execute/engine.py: due dates, the check of one event, and the run over every certified rule.
-- The calls that raise return a result; `run` lets two exceptions through.
use Prim.Native.String.{◌++◌}
use sanhita.Prelude.{
  ℕ, suc, ◌+◌, ◌/◌, String, Bool, true, false, not, ◌&&◌, ◌||◌, List, [], ◌∷◌, Option, none, some,
  Result, ok, err, ◌>>=◌, get_last?, length, select, or_else, if◌then◌else◌, ltb,
}
use sanhita.Prelude.Int.{ℤ, pos, is_nonzero}
use sanhita.Prelude.Text.{non_empty, or_text, ◌⧺◌, text_le}
use sanhita.Prelude.Sort.{sort}
use sanhita.Dates.{Date, sub_days, days_between, date_lt}
use sanhita.Ir.Enums.{Modality, DeadlineKind, DayCount, is_certified, is_unspecified, is_business}
use sanhita.Ir.Schema.{Deadline, Obligation}
use sanhita.Execute.Calendar.{
  CalendarError, TradingCalendar, covers_date, add_working_days, add_calendar_days, add_months,
  end_of_period,
}
use sanhita.Execute.Evidence.{ComplianceEvent, EvidenceStore, for_obligation}
use sanhita.Execute.Report.{Outcome, Citation, Finding, Reason, Unevaluable, Verdict, GapReport}
use sanhita.Execute.Applicability.{is_on_demand, expected_occasions, assess_applicability}
pub mod Due

-- What `due_date` raises; an overflow is an exception of the calendar.
pub data DueError : Type 0 where
  no_absolute_date day_count_unresolved not_computable : DueError
  calendar_error : CalendarError → DueError

abbrev pub from_calendar : Result CalendarError Date → Result DueError Date
from_calendar (ok d) = ok d
from_calendar (err e) = err (calendar_error e)

-- `if deadline.offset_days`
abbrev pub has_offset_days : Deadline → Bool
has_offset_days d = elim d.offset_days [ none ↦ false | some n ↦ is_nonzero n ]

unfoldable pub offset : Date → Deadline → TradingCalendar → Result DueError Date
offset start d c = elim d.offset_months [
  | some m ↦ ok (add_months start m)
  | none ↦ elim d.offset_hours [
    | some h ↦ from_calendar (add_calendar_days start (pos (h / 24)))
    | none ↦
        let days = or_else d.offset_days (pos 0) in
        if not (is_nonzero days) then ok start else elim d.business_days [
          | DayCount.unspecified ↦ err day_count_unresolved
          | DayCount.business ↦ from_calendar (add_working_days c start days)
          | DayCount.calendar ↦ from_calendar (add_calendar_days start days)
        ]
  ]
]

unfoldable pub due_date : Deadline → Date → TradingCalendar → Result DueError Date
unfolding offset
due_date d occurred_on c = elim d.kind [
  | DeadlineKind.absolute ↦ elim d.absolute_date [ none ↦ err no_absolute_date | some day ↦ ok day ]
  | DeadlineKind.end_of_period ↦
      from_calendar (end_of_period occurred_on (or_text (or_else d.period "") "DAY")) >>= λ end.
      if has_offset_days d then offset end d c else ok end
  | DeadlineKind.relative ↦ offset occurred_on d c
  | DeadlineKind.on_demand ↦ err not_computable
]

-- `_ENFORCEABLE`
abbrev pub enforceable : Modality → Bool
enforceable Modality.must = true
enforceable Modality.should = true
enforceable _ = false

unfoldable pub why_not : Obligation → Option Reason
why_not o =
    if not (enforceable o.modality)
    then some (Reason.not_enforceable o.modality)
    else elim o.deadline [
      | none ↦ some Reason.no_deadline
      | some d ↦
          if is_on_demand d.kind
          then some Reason.demand_not_recorded
          else if is_unspecified d.business_days && has_offset_days d
          then some Reason.day_count_unanswered
          else elim o.evidence [ [] ↦ some Reason.no_artifact_named | _ ∷ _ ↦ none ]
    ]

-- The exceptions that leave `run`: a rule without its certificate, and a date past the last one.
pub data EngineError : Type 0 where
  uncertified : String → EngineError
  overflow : EngineError

-- `modality.value.lower()`
abbrev pub modality_word : Modality → String
modality_word Modality.must = "must"
modality_word Modality.must_not = "must_not"
modality_word Modality.may = "may"
modality_word Modality.should = "should"

unfoldable pub requirement : Obligation → String
requirement o =
    let text = modality_word o.modality ⧺ " " ⧺ o.action.verb ⧺ " " ⧺ o.action.object in
    let recipient = or_else o.action.recipient "" in
    if non_empty recipient then text ⧺ " to " ⧺ recipient else text

-- `_cite`
unfoldable pub cite : Obligation → Result EngineError Citation
unfolding requirement
cite o = elim o.certification [
  | none ↦ err (uncertified o.id)
  | some c ↦ ok (record {
    obligation_id = o.id;
    clause_id = o.source.clause_id;
    section = o.source.section;
    page = o.source.page;
    verbatim = o.source.verbatim_text;
    requirement = requirement o;
    certified_by = c.certified_by;
    certified_at = c.certified_at;
    signature = c.signature;
  })
]

-- What `_check` returns: None, True, or a finding.
pub data Check : Type 0 where
  not_yet_due passed : Check
  found : Finding → Check

-- The finding about one event.
abbrev pub event_finding : Outcome → ComplianceEvent → Date → Option ℤ → Bool → Citation → Finding
event_finding outcome e due days_late approximate citation = record {
  outcome = outcome;
  event_id = e.id;
  entity = e.entity;
  occurred_on = e.occurred_on;
  due_on = due;
  filed_on = e.filed_on;
  days_late = days_late;
  due_date_is_approximate = approximate;
  citation = citation;
}

-- `_check`, once the due date is known.
unfoldable pub check_due :
    TradingCalendar
    → Obligation
    → Deadline
    → ComplianceEvent
    → Date
    → Date
    → Result EngineError Check
unfolding cite
check_due c o d e today due =
    let approximate = is_business d.business_days && not (covers_date c due) in
    elim e.filed_on [
      | none ↦
          if date_lt today due
          then ok not_yet_due
          else cite o >>= λ citation.
              ok (found (event_finding Outcome.missing e due none approximate citation))
      | some filed ↦ cite o >>= λ citation. ok (
          if date_lt due filed
          then found (
              event_finding Outcome.late e due (some (days_between filed due)) approximate citation)
          else passed)
    ]

-- The except clause takes every error of `due_date` but the overflow.
unfoldable pub check_computed :
    TradingCalendar
    → Obligation
    → Deadline
    → ComplianceEvent
    → Date
    → Result DueError Date
    → Result EngineError Check
unfolding check_due
check_computed c o d e today (ok due) = check_due c o d e today due
check_computed c o d e today (err (calendar_error CalendarError.overflow)) = err overflow
check_computed c o d e today (err _) = ok not_yet_due

-- The assertion on the deadline holds for a rule that `_why_not` lets through; without a deadline
-- nothing is checked.
unfoldable pub check :
    TradingCalendar → Obligation → ComplianceEvent → Date → Result EngineError Check
unfolding check_computed due_date
check c o e today = elim o.deadline [
  | none ↦ ok not_yet_due
  | some d ↦ check_computed c o d e today (due_date d e.occurred_on c)
]
