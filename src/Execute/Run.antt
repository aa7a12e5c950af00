-- ===== src/Execute/Run.antt =====
-- execute/engine.py, `RuleEngine.run`: every certified rule, with its events or without any.
use sanhita.Prelude.{
  ℕ, suc, ◌+◌, String, Bool, true, false, List, [], ◌∷◌, ◌++◌, Option, none, some, Result, ok, err,
  ◌>>=◌, get_last?, length, select, or_else, if◌then◌else◌,
}
use sanhita.Prelude.Text.{or_text, ◌⧺◌, text_le}
use sanhita.Prelude.Sort.{sort}
use sanhita.Dates.{Date, sub_days}
use sanhita.Ir.Enums.{is_certified}
use sanhita.Ir.Schema.{Obligation}
use sanhita.Execute.Calendar.{TradingCalendar}
use sanhita.Execute.Evidence.{ComplianceEvent, EvidenceStore, for_obligation}
use sanhita.Execute.Report.{
  Outcome, Citation, Finding, Reason, Unevaluable, Verdict, Applicability, GapReport,
}
use sanhita.Execute.Applicability.{expected_occasions, assess_applicability}
use sanhita.Execute.Engine.{EngineError, Check, check, cite, why_not}
pub mod Balance
pub mod Accounts
pub mod Citations

abbrev pub unevaluable_rule : Obligation → Reason → Unevaluable
unevaluable_rule o reason = record {
  obligation_id = o.id;
  clause_id = o.source.clause_id;
  page = o.source.page;
  reason = reason;
}

abbrev pub add_unevaluable : Obligation → Reason → GapReport → GapReport
add_unevaluable o reason r = record r {
  unevaluable = r.unevaluable ++ unevaluable_rule o reason ∷ [];
}

abbrev pub add_evaluated : GapReport → GapReport
add_evaluated r = record r { rules_evaluated = r.rules_evaluated + 1 }

abbrev pub get_head? : List Date → Option Date
get_head? [] = none
get_head? (d ∷ ds) = some d

unfoldable pub unevidenced_finding : Obligation → String → Date → Date → Citation → Finding
unevidenced_finding o label window_start today citation =
    let occasions = expected_occasions o window_start today in
    record {
      outcome = Outcome.no_evidence;
      event_id = "none:" ⧺ o.id;
      entity = or_text label "this firm";
      occurred_on = or_else (get_head? occasions) window_start;
      due_on = or_else (get_last? occasions) today;
      filed_on = none;
      days_late = none;
      due_date_is_approximate = false;
      citation = citation;
    }

abbrev pub add_unevidenced : ℕ → Finding → GapReport → GapReport
add_unevidenced occasions f r = record r {
  rules_evaluated = r.rules_evaluated + 1;
  occasions_unevidenced = r.occasions_unevidenced + occasions;
  findings = r.findings ++ f ∷ [];
}

-- `_no_evidence` for a rule that was owed.
unfoldable pub owed : Obligation → ℕ → Date → Date → GapReport → Result EngineError GapReport
unfolding why_not cite unevidenced_finding
owed o occasions window_start today r = elim (why_not o) [
  | some problem ↦ ok (add_unevaluable o problem r)
  | none ↦ cite o >>= λ citation. ok (
      add_unevidenced occasions (unevidenced_finding o r.evidence_label window_start today citation)
        r)
]

abbrev pub add_applicability : Applicability → GapReport → GapReport
add_applicability a r = record r { applicability = r.applicability ++ a ∷ [] }

abbrev pub add_not_applicable : GapReport → GapReport
add_not_applicable r = record r { not_applicable = r.not_applicable + 1 }

abbrev pub add_undetermined : Obligation → Reason → GapReport → GapReport
add_undetermined o reason r = record r {
  undetermined = r.undetermined ++ unevaluable_rule o reason ∷ [];
}

-- `_no_evidence`
unfoldable pub no_evidence : Obligation → Date → Date → GapReport → Result EngineError GapReport
unfolding owed assess_applicability
no_evidence o window_start today r0 =
    let a = assess_applicability o window_start today in
    let r = add_applicability a r0 in
    elim a.verdict [
      | Verdict.not_applicable ↦ ok (add_not_applicable r)
      | Verdict.undetermined ↦ ok (add_undetermined o a.reason r)
      | Verdict.expected ↦ owed o a.occasions window_start today r
    ]

abbrev pub record_check : Check → GapReport → GapReport
record_check Check.not_yet_due r = r
record_check Check.passed r = record r {
  events_checked = r.events_checked + 1;
  satisfied = r.satisfied + 1;
}
record_check (Check.found f) r = record r {
  events_checked = r.events_checked + 1;
  findings = r.findings ++ f ∷ [];
}

-- The loop over a rule's events.
unfoldable pub check_events :
    TradingCalendar
    → Obligation
    → Date
    → List ComplianceEvent
    → GapReport
    → Result EngineError GapReport
unfolding check
check_events c o today [] r = ok r
check_events c o today (e ∷ es) r =
    check c o e today >>= λ outcome. check_events c o today es (record_check outcome r)

-- The events are checked unless there is a reason not to.
unfoldable pub check_unless :
    Option Reason
    → TradingCalendar
    → Obligation
    → Date
    → List ComplianceEvent
    → GapReport
    → Result EngineError GapReport
unfolding check_events
check_unless (some problem) c o today es r = ok (add_unevaluable o problem r)
check_unless none c o today es r = check_events c o today es (add_evaluated r)

-- One round of the loop over the rules, given the rule's events.
unfoldable pub evaluate_events :
    TradingCalendar
    → Date
    → Date
    → Obligation
    → List ComplianceEvent
    → GapReport
    → Result EngineError GapReport
unfolding no_evidence why_not check_unless
evaluate_events c window_start today o [] r = no_evidence o window_start today r
evaluate_events c window_start today o (e ∷ es) r = check_unless (why_not o) c o today (e ∷ es) r

unfoldable pub evaluate :
    TradingCalendar
    → EvidenceStore
    → Date
    → Date
    → Obligation
    → GapReport
    → Result EngineError GapReport
unfolding evaluate_events for_obligation
evaluate c evidence window_start today o r =
    evaluate_events c window_start today o (for_obligation evidence o.id) r

unfoldable pub evaluate_all :
    TradingCalendar
    → EvidenceStore
    → Date
    → Date
    → List Obligation
    → GapReport
    → Result EngineError GapReport
unfolding evaluate
evaluate_all c evidence window_start today [] r = ok r
evaluate_all c evidence window_start today (o ∷ os) r =
    evaluate c evidence window_start today o r >>= λ r2.
    evaluate_all c evidence window_start today os r2

abbrev pub certified_only : List Obligation → List Obligation
certified_only os = select (λ (o : Obligation). is_certified o.status) os

abbrev pub by_id : Obligation → Obligation → Bool
by_id a b = text_le a.id b.id

-- A fresh report, with the count of certified rules.
abbrev pub new_report : TradingCalendar → EvidenceStore → ℕ → ℕ → GapReport
new_report c evidence now certified = record {
  evidence_label = evidence.label;
  calendar_name = c.name;
  run_at = now;
  certified_rules = certified;
  rules_evaluated = 0;
  events_checked = 0;
  occasions_unevidenced = 0;
  satisfied = 0;
  findings = [];
  unevaluable = [];
  not_applicable = 0;
  undetermined = [];
  applicability = [];
}

-- `now` and `today` are the clock's; `today` is `as_of` where the caller gives one.
unfoldable pub run :
    TradingCalendar → List Obligation → EvidenceStore → ℕ → Date → ℕ → Result EngineError GapReport
unfolding evaluate_all sort
run c obligations evidence now today window_days =
    let certified = certified_only obligations in
    evaluate_all c evidence (sub_days today window_days) today (sort by_id certified)
      (new_report c evidence now (length certified))
