-- ===== src/Remediate/Store/Recheck.antt =====
-- remediate/tasks.py, `recheck`: the outcome of a re-check, which alone verifies and closes a task.
use Prim.Native.String.{String}
use sanhita.Prelude.{ℕ, ◌+◌, Bool, [], ◌∷◌, Option, some, ok, ◌>>=◌, or_else, if◌then◌else◌}
use sanhita.Prelude.Text.{or_text}
use sanhita.Remediate.Log.{Transition, Detail, EntryPayload, Draft}
use sanhita.Remediate.Task.{verified, closed, reopened, RemediationTask}
use sanhita.Remediate.Store.{RemediationStore, Outcome, require, set_task, log_entry, task_draft}

module _ (sha256_hex : EntryPayload → String) where
  -- What a re-check records before its outcome is acted on.
  abbrev pub rechecked_task : RemediationTask → Bool → String → ℕ → RemediationTask
  rechecked_task t still_failing detail moment = record t {
    recheck_count = t.recheck_count + 1;
    last_recheck_at = some moment;
    last_recheck_result =
        or_text detail (if still_failing then "the rule still finds a breach" else "no finding");
  }

  abbrev pub rechecked_draft : String → RemediationTask → Bool → String → ℕ → Draft
  rechecked_draft id t still_failing by moment =
      record (task_draft sha256_hex id Transition.rechecked by (some t.status) t.status
        t.last_recheck_result) {
          detail =
              ("still_failing", Detail.flag still_failing)
              ∷ ("run", Detail.number t.recheck_count)
              ∷ [];
          at = some moment;
        }

  -- The rule still finds a breach.
  abbrev pub fail_recheck :
      RemediationStore → String → RemediationTask → String → ℕ → RemediationStore × RemediationTask
  fail_recheck s id t by moment =
      let t' = record t { status = reopened } in
      (
        log_entry sha256_hex (set_task s id t')
            (record (task_draft sha256_hex id Transition.reopened by (some t.status) reopened
              "the rule was run again and still finds a breach") { at = some moment })
            moment,
        t',
      )

  abbrev pub verified_task : RemediationTask → String → ℕ → RemediationTask
  verified_task t by moment = record t {
    status = verified;
    verified_by = or_text by "the engine";
    verified_at = some moment;
  }

  -- No finding: the task is verified, and then closed.
  abbrev pub pass_recheck :
      RemediationStore → String → RemediationTask → String → ℕ → RemediationStore × RemediationTask
  pass_recheck s id t by moment =
      let t' = verified_task t by moment in
      let s' =
        log_entry sha256_hex (set_task s id t')
          (record (task_draft sha256_hex id Transition.verified by (some t.status) verified
            "the certified rule was run again and returned no finding") { at = some moment })
          moment in
      let t'' = record t' { status = closed; closed_at = some moment } in
      (
        log_entry sha256_hex (set_task s' id t'')
            (record (task_draft sha256_hex id Transition.closed by (some verified) closed
              "closed on a verified re-check") { at = some moment })
            moment,
        t'',
      )

  unfoldable pub recheck :
      RemediationStore → String → Bool → String → String → Option ℕ → ℕ → Outcome
  recheck s id still_failing by detail at now = do
    before ← require s id
    let moment = or_else at now
    let t = rechecked_task before still_failing detail moment
    let s' =
        log_entry sha256_hex (set_task s id t) (rechecked_draft id t still_failing by moment) moment
    ok (if still_failing then fail_recheck s' id t by moment else pass_recheck s' id t by moment)
