-- ===== src/Remediate/Service.antt =====
-- remediate/service.py: the engine decides whether a gap is closed.
pub mod Concludes
pub mod Sound
use sanhita.Prelude.{
  ℕ, ◌+◌, String, Bool, true, false, not, ◌&&◌, ◌||◌, List, [], ◌∷◌, Option, none, some, Result, ok,
  err, ◌>>=◌, ◌>>◌, raise_if, or_else, select, length, str_eq, if◌then◌else◌, ◌==◌,
}
use sanhita.Prelude.Dict.{Dict}
use sanhita.Prelude.Text.{show, ◌⧺◌}
use sanhita.Dates.{Date, add_days}
use sanhita.Dates.Iso.{isoformat}
use sanhita.Ir.Enums.{Modality, is_certified}
use sanhita.Ir.Schema.{Obligation}
use sanhita.Execute.Calendar.{TradingCalendar, weekends_only}
use sanhita.Execute.Evidence.{EvidenceStore}
use sanhita.Execute.Report.{Outcome, Finding, Reason, Unevaluable, GapReport}
use sanhita.Execute.Engine.{EngineError}
use sanhita.Execute.Run.{run}
use sanhita.Remediate.Log.{Transition, Detail, EntryPayload, Draft}
use sanhita.Remediate.Task.{status_value, RemediationTask}
use sanhita.Remediate.Store.{RemediationStore, RemediationError, require, log_entry, task_draft}
use sanhita.Remediate.Store.Recheck.{recheck}

-- `_DAYS_BY_PRIORITY.get(priority.upper(), 21)`, of the priority in capitals.
abbrev pub days_by_priority : String → ℕ
days_by_priority p =
    if str_eq p "HIGH"
    then 7
    else if str_eq p "MEDIUM"
    then 21
    else if str_eq p "LOW"
    then 45
    else 21

unfoldable pub suggested_due_date : String → Date → Date
suggested_due_date priority today = add_days today (days_by_priority priority)

-- `Outcome.value.lower()`
abbrev pub outcome_word : Outcome → String
outcome_word Outcome.satisfied = "satisfied"
outcome_word Outcome.missing = "missing"
outcome_word Outcome.late = "late"
outcome_word Outcome.no_evidence = "no_evidence"

abbrev pub modality_value : Modality → String
modality_value Modality.must = "MUST"
modality_value Modality.must_not = "MUST_NOT"
modality_value Modality.may = "MAY"
modality_value Modality.should = "SHOULD"

-- The sentences of `_why_not`, which are the only ones that the list of rules not evaluated has.
unfoldable pub why_not_text : Reason → String
why_not_text (Reason.not_enforceable m) =
    "modality is "
    ⧺ modality_value m
    ⧺ ". This engine checks whether a required artifact was produced on time, and a "
    ⧺ modality_value m
    ⧺ " does not require one."
why_not_text Reason.no_deadline =
    "the clause sets no deadline, so there is no date against which a filing could be early or late"
why_not_text Reason.demand_not_recorded =
    "the deadline runs from a demand by the regulator or the client. "
    ⧺ "Until that demand is itself recorded as an event there is no clock to measure against."
why_not_text Reason.day_count_unanswered =
    "the working-versus-calendar day question was never answered for this deadline, so no due date can be "
    ⧺ "computed without inventing an interpretation"
why_not_text Reason.no_artifact_named =
    "the clause names no artifact to retain, so there is nothing for the engine to look for in the evidence store"
why_not_text _ = ""

pub record RecheckResult : Type 0 where
  pub task : RemediationTask
  pub still_failing : Bool
  pub findings : List Finding
  pub detail : String
  pub evaluated : Bool

-- The property `closed`
abbrev pub closes : RecheckResult → Bool
closes r = not r.still_failing && r.evaluated

pub data ServiceError : Type 0 where
  unknown_task nothing_to_rerun : ServiceError
  engine_failed : EngineError → ServiceError

-- The certified rules with the task's id.
unfoldable pub subject : RemediationTask → List Obligation → List Obligation
subject t os = select (λ (o : Obligation). str_eq o.id t.obligation_id && is_certified o.status) os

abbrev pub no_rules : List Obligation → Bool
no_rules [] = true
no_rules (o ∷ os) = false

-- What the report says of the task's rule: it was not evaluated, with the note, the result's text and
-- the entry's detail, or it was, with the findings and the text.
pub data Answer : Type 0 where
  declined : String → String → Dict Detail → Answer
  evaluated : List Finding → String → Answer

unfoldable pub unevaluable_of : RemediationTask → GapReport → List Unevaluable
unevaluable_of t r =
    select (λ (u : Unevaluable). str_eq u.obligation_id t.obligation_id) r.unevaluable

abbrev pub is_satisfied : Outcome → Bool
is_satisfied Outcome.satisfied = true
is_satisfied _ = false

unfoldable pub findings_of : RemediationTask → GapReport → List Finding
findings_of t r =
    select
      (λ (f : Finding).
        str_eq f.citation.obligation_id t.obligation_id && not (is_satisfied f.outcome))
      r.findings

abbrev pub nothing_evaluated : String
nothing_evaluated =
    "the engine did not evaluate this rule in the re-check, so there is nothing to conclude from the "
    ⧺ "absence of findings"

unfoldable pub findings_text : GapReport → List Finding → String
unfolding isoformat show
findings_text r [] =
    "the rule ran against " ⧺ show r.events_checked ⧺ " occasion(s) and found no breach"
findings_text r (worst ∷ fs) =
    show (length (worst ∷ fs))
    ⧺ " finding(s) remain, worst is "
    ⧺ outcome_word worst.outcome
    ⧺ " on "
    ⧺ isoformat worst.due_on

-- The report is asked for refused rules first, then for the count of evaluated ones.
unfoldable pub answer_of : RemediationTask → GapReport → Answer
unfolding unevaluable_of findings_of findings_text why_not_text
answer_of t r = elim (unevaluable_of t r) [
  | u ∷ _ ↦
      declined ("the engine would not evaluate this rule: " ⧺ why_not_text u.reason)
        ("not evaluated: " ⧺ why_not_text u.reason) (("evaluated", Detail.flag false) ∷ [])
  | [] ↦
      if r.rules_evaluated == 0
      then declined nothing_evaluated nothing_evaluated (
          ("evaluated", Detail.flag false)
          ∷ ("not_applicable", Detail.number r.not_applicable)
          ∷ [])
      else evaluated (findings_of t r) (findings_text r (findings_of t r))
]

abbrev pub any_finding : List Finding → Bool
any_finding [] = false
any_finding (f ∷ fs) = true

abbrev pub from_store : {A : Type 0} → Result RemediationError A → Result ServiceError A
from_store (ok a) = ok a
from_store (err e) = err unknown_task

abbrev pub from_engine : {A : Type 0} → Result EngineError A → Result ServiceError A
from_engine (ok a) = ok a
from_engine (err e) = err (engine_failed e)

abbrev pub Concluded : Type 0
Concluded = Result ServiceError (RemediationStore × RecheckResult)

module _ (sha256_hex : EntryPayload → String) where
  -- An entry that leaves the task as it is.
  abbrev pub declined_draft : String → RemediationTask → String → String → Dict Detail → Draft
  declined_draft id t by note detail =
      record (task_draft sha256_hex id Transition.rechecked by (some t.status) t.status note) {
        detail = detail;
      }

  unfoldable pub conclude :
      RemediationStore → String → RemediationTask → String → ℕ → Answer → Concluded
  unfolding recheck log_entry
  conclude s id t by now (declined note text detail) = ok (
    log_entry sha256_hex s (declined_draft id t by note detail) now,
    record { task = t; still_failing = true; findings = []; detail = text; evaluated = false },
  )
  conclude s id t by now (evaluated fs text) =
      from_store (recheck sha256_hex s id (any_finding fs) by text none now) >>= λ r. ok (
        r.0,
        record {
          task = r.1;
          still_failing = any_finding fs;
          findings = fs;
          detail = text;
          evaluated = true;
        },
      )

  -- `today` is `as_of`, or the clock's date.
  unfoldable pub recheck_task :
      RemediationStore
      → String
      → List Obligation
      → EvidenceStore
      → String
      → Date
      → Option TradingCalendar
      → ℕ
      → Concluded
  unfolding conclude answer_of subject run
  recheck_task s id os evidence by today calendar now = do
    t ← from_store (require s id)
    raise_if (no_rules (subject t os)) nothing_to_rerun
    report ←
        from_engine (run (or_else calendar weekends_only) (subject t os) evidence now today 365)
    conclude s id t by now (answer_of t report)
