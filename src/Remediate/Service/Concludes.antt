-- ===== src/Remediate/Service/Concludes.antt =====
-- remediate/service.py: what a re-check concludes from the engine's report, and what it writes.
use sanhita.Prelude.{
  ℕ, ◌≡◌, refl, sym, ap, ◌∙◌, String, Bool, true, false, not, ◌&&◌, ◌||◌, List, [], ◌∷◌, Option,
  none, some, ok, or_else, any, select, str_eq, eq_iff, if◌then◌else◌, ◌==◌, arith,
}
use sanhita.Prelude.Dict.{get}
use sanhita.Dates.{Date}
use sanhita.Ir.Schema.{Obligation}
use sanhita.Execute.Calendar.{TradingCalendar, weekends_only}
use sanhita.Execute.Evidence.{EvidenceStore}
use sanhita.Execute.Report.{Finding, GapReport}
use sanhita.Execute.Run.{run}
use sanhita.Remediate.Log.{EntryPayload}
use sanhita.Remediate.Task.{TaskStatus, reopened, closed, RemediationTask}
use sanhita.Remediate.Store.{RemediationStore, log_entry}
use sanhita.Remediate.Store.Recheck.{recheck, rechecked_task}
use sanhita.Remediate.Store.Writes.{status_of}
use sanhita.Remediate.Store.Outcomes.{recheck-eq-ok, concluded}
use sanhita.Remediate.Store.Closing.{concluded_status}
use sanhita.Remediate.Service.{
  RecheckResult, closes, subject, no_rules, Answer, declined, evaluated, unevaluable_of,
  findings_of, answer_of, any_finding, is_satisfied, conclude, recheck_task,
}

-- The report evaluated the task's rule.
abbrev pub was_evaluated : RemediationTask → GapReport → Bool
was_evaluated t r = elim (unevaluable_of t r) [ [] ↦ not (r.rules_evaluated == 0) | _ ∷ _ ↦ false ]

-- A breach of the task's rule.
abbrev pub is_breach_of : RemediationTask → Finding → Bool
is_breach_of t f = str_eq f.citation.obligation_id t.obligation_id && not (is_satisfied f.outcome)

any_finding-select : (p : Finding → Bool) (fs : List Finding) → any_finding (select p fs) ≡ any p fs
any_finding-select p [] = refl
any_finding-select p (f ∷ fs) = ground (arith, any_finding-select p fs)

-- The status that an answer leaves the task in.
abbrev status_by : Answer → TaskStatus → TaskStatus
status_by (declined _ _ _) st = st
status_by (evaluated fs _) st = if any_finding fs then reopened else closed

abbrev is_evaluated : Answer → Bool
is_evaluated (declined _ _ _) = false
is_evaluated (evaluated _ _) = true

abbrev fails : Answer → Bool
fails (declined _ _ _) = true
fails (evaluated fs _) = any_finding fs

module _ (sha256_hex : EntryPayload → String) where
  pub recheck-some :
      (s : RemediationStore) (id : String) (t : RemediationTask) (still_failing : Bool)
      (by detail : String) (now : ℕ)
      → get id s.tasks ≡ some t
      → (s' : RemediationStore) × (v : RemediationTask) × (recheck sha256_hex s id still_failing by
            detail none now
          ≡ ok (s', v))
  unfolding recheck
  recheck-some s id t still_failing by detail now found =
      let w =
        concluded sha256_hex s id (rechecked_task sha256_hex t still_failing detail now)
          still_failing by now in
      (w.0, w.1, ground arith)

  recheck_task-conclude :
      (s : RemediationStore) (id : String) (os : List Obligation) (evidence : EvidenceStore)
      (by : String) (today : Date) (calendar : Option TradingCalendar) (now : ℕ)
      (t : RemediationTask) (report : GapReport)
      → get id s.tasks ≡ some t
      → no_rules (subject t os) ≡ false
      → run (or_else calendar weekends_only) (subject t os) evidence now today 365 ≡ ok report
      → recheck_task sha256_hex s id os evidence by today calendar now
        ≡ conclude sha256_hex s id t by now (answer_of t report)
  unfolding recheck_task
  recheck_task-conclude s id os evidence by today calendar now t report found rules ran =
      ground arith

  pub recheck_task-eq-ok :
      (s : RemediationStore) (id : String) (os : List Obligation) (evidence : EvidenceStore)
      (by : String) (today : Date) (calendar : Option TradingCalendar) (now : ℕ)
      {x : RemediationStore × RecheckResult}
      → recheck_task sha256_hex s id os evidence by today calendar now ≡ ok x
      → (t : RemediationTask) × (report : GapReport) × (get id s.tasks ≡ some t)
        × (run (or_else calendar weekends_only) (subject t os) evidence now today 365 ≡ ok report)
        × (conclude sha256_hex s id t by now (answer_of t report) ≡ ok x)
  unfolding recheck_task
  recheck_task-eq-ok s id os evidence by today calendar now h = ground arith

  answer_of_lem :
      (t : RemediationTask) (r : GapReport)
      → (is_evaluated (answer_of t r) ≡ was_evaluated t r)
        × (fails (answer_of t r) ≡ (not (was_evaluated t r) || any (is_breach_of t) r.findings))
        × ((st : TaskStatus)
            → status_by (answer_of t r) st ≡ (
                if was_evaluated t r
                then if any (is_breach_of t) r.findings then reopened else closed
                else st))
  unfolding answer_of findings_of
  answer_of_lem t r = (
    ground (arith, any_finding-select (is_breach_of t) r.findings),
    ground (arith, any_finding-select (is_breach_of t) r.findings),
    λ st. ground (arith, any_finding-select (is_breach_of t) r.findings),
  )

  conclude_lem :
      (s : RemediationStore) (id : String) (t : RemediationTask) (by : String) (now : ℕ)
      (a : Answer) (j : String)
      → get id s.tasks ≡ some t
      → (s' : RemediationStore) × (r : RecheckResult) × (conclude sha256_hex s id t by now a
          ≡ ok (s', r))
        × (r.evaluated ≡ is_evaluated a)
        × (r.still_failing ≡ fails a)
        × (status_of s' j ≡ (if str_eq id j then some (status_by a t.status) else status_of s j))
  unfolding conclude log_entry status_of
  conclude_lem s id t by now (declined note text detail) j found =
      (_, _, refl, refl, refl, ground (arith, eq_iff id j))
  conclude_lem s id t by now (evaluated fs text) j found =
      let (s', v, e) = recheck-some s id t (any_finding fs) by text now found in
      let (b, _, w) = recheck-eq-ok sha256_hex s id (any_finding fs) by text none now e in
      (
        s',
        record {
          task = v;
          still_failing = any_finding fs;
          findings = fs;
          detail = text;
          evaluated = true;
        },
        rw e refl,
        refl,
        refl,
        ap (λ (x : RemediationStore × RemediationTask). status_of x.0 j) (sym w)
            ∙ concluded_status sha256_hex s id _ (any_finding fs) by now j,
      )

  -- A re-check of a task that is there, of a rule that is certified, whose run raises nothing, gives a
  -- result. It is evaluated exactly where the report lists no refusal of the rule and counts a rule
  -- as evaluated; it closes exactly where, besides, the report has no breach of the rule. The task is
  -- closed then, reopened where the evaluated rule has a breach, and else in the status it was in, and
  -- every other task keeps its own.
  pub recheck_task_lem :
      (s : RemediationStore) (id : String) (os : List Obligation) (evidence : EvidenceStore)
      (by : String) (today : Date) (calendar : Option TradingCalendar) (now : ℕ)
      (t : RemediationTask) (report : GapReport) (j : String)
      → get id s.tasks ≡ some t
      → no_rules (subject t os) ≡ false
      → run (or_else calendar weekends_only) (subject t os) evidence now today 365 ≡ ok report
      → (s' : RemediationStore) × (r : RecheckResult) × (recheck_task sha256_hex s id os evidence by
            today calendar now
          ≡ ok (s', r))
        × (r.evaluated ≡ was_evaluated t report)
        × (closes r ≡ (was_evaluated t report && not (any (is_breach_of t) report.findings)))
        × (status_of s' j ≡ (
            if str_eq id j
            then some (
                if was_evaluated t report
                then if any (is_breach_of t) report.findings then reopened else closed
                else t.status)
            else status_of s j))
  recheck_task_lem s id os evidence by today calendar now t report j found rules ran =
      let (s', r, e, ev, fl, st) = conclude_lem s id t by now (answer_of t report) j found in
      let (is_ev, failing, status) = answer_of_lem t report in
      (
        s',
        r,
        recheck_task-conclude s id os evidence by today calendar now t report found rules ran ∙ e,
        ev ∙ is_ev,
        ground arith,
        ground (arith, status t.status),
      )

  -- What a result was made from, and the statuses that it leaves.
  pub recheck_task_status :
      (s : RemediationStore) (id : String) (os : List Obligation) (evidence : EvidenceStore)
      (by : String) (today : Date) (calendar : Option TradingCalendar) (now : ℕ) (j : String)
      {s' : RemediationStore} {r : RecheckResult}
      → recheck_task sha256_hex s id os evidence by today calendar now ≡ ok (s', r)
      → (t : RemediationTask) × (report : GapReport) × (get id s.tasks ≡ some t)
        × (run (or_else calendar weekends_only) (subject t os) evidence now today 365 ≡ ok report)
        × (status_of s' j ≡ (
            if str_eq id j
            then some (
                if was_evaluated t report
                then if any (is_breach_of t) report.findings then reopened else closed
                else t.status)
            else status_of s j))
  recheck_task_status s id os evidence by today calendar now j {s' = s'} h =
      let (t, report, found, ran, e) =
        recheck_task-eq-ok s id os evidence by today calendar now h in
      let (s1, r1, e1, _, _, st) = conclude_lem s id t by now (answer_of t report) j found in
      let (_, _, status) = answer_of_lem t report in
      let same : s1 ≡ s' = ground arith in
      (
        t,
        report,
        found,
        ran,
        ap (λ x. status_of x j) (sym same)
            ∙ st
            ∙ ap (λ (u : TaskStatus). if str_eq id j then some u else status_of s j)
                (status t.status),
      )
