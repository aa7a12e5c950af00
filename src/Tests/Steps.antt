-- ===== src/Tests/Steps.antt =====
-- A task that an amendment opens and a fact closes, and a re-check that the engine answers.
use sanhita.Prelude.{
  ◌≡◌, refl, true, false, not, ◌&&◌, [], ◌∷◌, none, some, Result, ok, err, any, or_else, str_eq,
  if◌then◌else◌,
}
use sanhita.Prelude.Dict.{get, put, values}
use sanhita.Prelude.Sort.{sort, insert}
use sanhita.Prelude.Text.{strip, show, take_text, join, ◌⧺◌}
use sanhita.Dates.{
  days_in_month, days_before_month, next_day, prev_day, add_days, sub_days, ordinal, weekday,
}
use sanhita.Execute.Calendar.{
  weekends_only, is_working_day, covers, covers_date, working_loop, add_working_days,
  add_calendar_days, add_months, month_length, upper, read_period, close_of, end_of_period,
  earliest, latest,
}
use sanhita.Execute.Evidence.{for_obligation}
use sanhita.Execute.Report.{GapReport}
use sanhita.Execute.Engine.{
  EngineError, offset, due_date, why_not, requirement, cite, check, check_due, check_computed,
}
use sanhita.Execute.Run.{
  run, evaluate_all, evaluate, evaluate_events, check_unless, check_events, new_report,
}
use sanhita.Amend.Plan.{ActionKind, RequiredAction}
use sanhita.Amend.Plan.Words.{describe}
use sanhita.Remediate.Log.{append, make_entry}
use sanhita.Remediate.Task.{reopened, closed, RemediationTask}
use sanhita.Remediate.Store.{
  RemediationStore, empty, drop_spaces, next_id, set_task, open_task, new_task, log_entry,
  open_for_gap,
}
use sanhita.Remediate.Store.Writes.{status_of}
use sanhita.Remediate.Store.Trace.{IsSound}
use sanhita.Remediate.Store.Closing.{is_finished}
use sanhita.Remediate.Service.{
  RecheckResult, closes, subject, no_rules, unevaluable_of, recheck_task,
}
use sanhita.Remediate.Service.Concludes.{was_evaluated, is_breach_of, recheck_task_lem}
use sanhita.Remediate.Amendment.{
  Amendment, action_gap_id, action_request, change_open, open_for_action,
}
use sanhita.Remediate.Amendment.Verdict.{
  clause_sha, current_rule, judge_withdraw, decided, judge_new, judge_rule, verdict,
}
use sanhita.Remediate.Amendment.Recheck.{recheck_amendment_task}
use sanhita.Remediate.Steps.{
  Library, opened_for_action, amendment_rechecked, Reaches, start, then_step, IsJustified,
}
use sanhita.Remediate.Steps.Justified.{reached-IsSound, finished-IsJustified}
use sanhita.Tests.Samples.{signed}
use sanhita.Tests.Execute.{on, store}
use sanhita.Tests.Remediate.{request}

abbrev lib : Library
lib = record {
  sha256_hex = λ p. p.task_id ⧺ p.previous_hash;
  sha256_text = λ s. s;
  day_text = λ n. show n;
}

abbrev action : RequiredAction
action = record {
  kind = ActionKind.withdraw;
  obligation_id = "SB-41-a";
  clause_id = "41";
  requirement = "report margin";
  was_certified = true;
  certified_by = some "officer";
  now_at = none;
  via = none;
  hops = none;
  process = "";
  function = "desk";
  system = "";
  control_ref = "";
}

abbrev amendment : Amendment
amendment = record {
  company = "A Firm";
  by = "officer";
  before_fingerprint = "b";
  after_fingerprint = "a";
  priority = none;
  due_date = none;
  source_rule_version = "1.0.0";
  at = none;
}

-- What the tests compute with.
program : Unit {0}
unfolding get put values sort insert strip show take_text join describe append make_entry
    drop_spaces next_id set_task open_task new_task log_entry open_for_gap status_of action_gap_id
    action_request change_open open_for_action clause_sha current_rule judge_withdraw decided
    judge_new judge_rule verdict recheck_amendment_task
program = tt

abbrev opened : RemediationStore
opened = (open_for_action lib.sha256_hex lib.sha256_text empty action amendment 5).0

-- The rule has left the store, so that the re-check closes the task.
abbrev withdrawn : RemediationStore
withdrawn =
    elim (recheck_amendment_task lib.sha256_hex lib.day_text opened "REM-41-001" [] none "officer"
      none 9) [ ok (s, r) ↦ s | err e ↦ empty ]

withdrawn-Reaches : Reaches lib withdrawn
unfolding program
withdrawn-Reaches =
    then_step (then_step start (opened_for_action action amendment 5))
      (amendment_rechecked "REM-41-001" [] none "officer" none 9 refl)

withdrawn_is_closed : is_finished (status_of withdrawn "REM-41-001") ≡ true
unfolding program
withdrawn_is_closed = refl

reached-IsSound_example : IsSound lib.sha256_hex withdrawn
reached-IsSound_example = reached-IsSound lib withdrawn-Reaches

finished-IsJustified_example : IsJustified lib "REM-41-001" withdrawn-Reaches
finished-IsJustified_example =
    finished-IsJustified lib "REM-41-001" withdrawn-Reaches withdrawn_is_closed

-- The engine's answer: the sample occasion was filed late.
abbrev gap : RemediationStore × RemediationTask
gap = open_for_gap lib.sha256_hex empty request 10

abbrev ran : Result EngineError GapReport
ran = run (or_else none weekends_only) (subject gap.1 (signed ∷ [])) store 9 (on 2026 7 31) 365

abbrev report : GapReport
report = elim ran [ ok r ↦ r | err e ↦ new_report weekends_only store 0 0 ]

engine : Unit {0}
unfolding run evaluate_all evaluate evaluate_events check_unless check_events check check_due
    check_computed due_date offset why_not requirement cite covers_date covers earliest latest
    add_working_days working_loop add_calendar_days add_months month_length is_working_day
    read_period upper strip close_of end_of_period for_obligation sort insert days_in_month
    days_before_month next_day prev_day add_days sub_days ordinal weekday subject get put values
    next_id drop_spaces set_task open_task new_task log_entry open_for_gap append make_entry
    unevaluable_of show
engine = tt

gap_is_there : get "REM-40.18-001" gap.0.tasks ≡ some gap.1
unfolding engine
gap_is_there = refl

gap_has_a_rule : no_rules (subject gap.1 (signed ∷ [])) ≡ false
unfolding engine
gap_has_a_rule = refl

ran_to_a_report : ran ≡ ok report
unfolding engine
ran_to_a_report = refl

still_late : (was_evaluated gap.1 report && any (is_breach_of gap.1) report.findings) ≡ true
unfolding engine
still_late = refl

recheck_task_lem_example :
    (s' : RemediationStore) × (r : RecheckResult) × (recheck_task lib.sha256_hex gap.0
        "REM-40.18-001"
        (signed ∷ [])
        store
        "engine"
        (on 2026 7 31)
        none
        9
      ≡ ok (s', r))
    × (r.evaluated ≡ was_evaluated gap.1 report)
    × (closes r ≡ (was_evaluated gap.1 report && not (any (is_breach_of gap.1) report.findings)))
    × (status_of s' "REM-40.18-001" ≡ (
        if str_eq "REM-40.18-001" "REM-40.18-001"
        then some (
            if was_evaluated gap.1 report
            then if any (is_breach_of gap.1) report.findings then reopened else closed
            else gap.1.status)
        else status_of gap.0 "REM-40.18-001"))
recheck_task_lem_example =
    recheck_task_lem lib.sha256_hex gap.0 "REM-40.18-001" (signed ∷ []) store "engine"
      (on 2026 7 31) none 9 gap.1 report "REM-40.18-001" gap_is_there gap_has_a_rule ran_to_a_report
