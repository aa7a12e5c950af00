-- ===== src/Remediate/Amendment/Recheck.antt =====
-- remediate/amendment.py: a re-check of an amendment's task, which only a fact closes.
pub mod Facts
pub mod Recorded
use Prim.Native.String.{String}
use sanhita.Prelude.{
  ℕ, zero, suc, ◌+◌, Bool, true, false, not, ◌&&◌, ◌||◌, List, [], ◌∷◌, map, Option, none, some,
  Result, ok, err, ◌>>=◌, ◌>>◌, raise_if, or_else, select, find, length, str_eq, is_some,
  if◌then◌else◌, ltb,
}
use sanhita.Prelude.Dict.{Dict, get}
use sanhita.Prelude.Sort.{sorted_set}
use sanhita.Prelude.Text.{show, join, take_text, ◌⧺◌, non_empty, or_text}
use sanhita.Dates.{Date}
use sanhita.Ir.Enums.{RuleStatus, is_certified}
use sanhita.Ir.Schema.{Certification, Obligation}
use sanhita.Amend.Clauses.{ClauseNode, ClauseTree, find_node}
use sanhita.Amend.Impact.{is_inert}
use sanhita.Amend.Plan.{ActionKind, kind_value, kind_label, RequiredAction}
use sanhita.Amend.Plan.Words.{describe}
use sanhita.Remediate.Log.{Transition, Detail, EntryPayload, Draft}
use sanhita.Remediate.Task.{TaskStatus, verified, closed, Priority, high, medium, RemediationTask}
use sanhita.Remediate.Store.{
  RemediationStore, RemediationError, GapRequest, require, set_task, log_entry, task_draft,
  open_for_gap,
}
use sanhita.Remediate.Amendment.Verdict.{AmendmentRecheck, closes, AmendmentError, verdict}

abbrev pub from_store : {A : Type 0} → Result RemediationError A → Result AmendmentError A
from_store (ok a) = ok a
from_store (err e) = err AmendmentError.unknown_task

abbrev pub noted_task : RemediationTask → String → ℕ → RemediationTask
noted_task t detail moment = record t {
  recheck_count = t.recheck_count + 1;
  last_recheck_at = some moment;
  last_recheck_result = detail;
}

abbrev pub verified_task : RemediationTask → String → ℕ → RemediationTask
verified_task t by moment = record t {
  status = verified;
  verified_by = or_text by "the store";
  verified_at = some moment;
}

abbrev pub Rechecked : Type 0
Rechecked = Result AmendmentError (RemediationStore × AmendmentRecheck)

module _ (sha256_hex : EntryPayload → String) where
  abbrev pub noted_draft : String → RemediationTask → AmendmentRecheck → String → ℕ → Draft
  noted_draft id t v by moment =
      record (task_draft sha256_hex id Transition.rechecked by (some t.status) t.status v.detail) {
        detail =
            ("change_kind", Detail.text t.change_kind)
            ∷ ("evaluated", Detail.flag v.evaluated)
            ∷ ("done", Detail.flag v.done)
            ∷ ("run", Detail.number t.recheck_count)
            ∷ [];
        at = some moment;
      }

  -- The fact holds: the task is verified, and then closed.
  abbrev pub close_task :
      RemediationStore
      → String
      → RemediationTask
      → AmendmentRecheck
      → String
      → ℕ
      → RemediationStore × RemediationTask
  close_task s id t v by moment =
      let t1 = verified_task t by moment in
      let s1 =
        log_entry sha256_hex (set_task s id t1)
          (record (task_draft sha256_hex id Transition.verified by (some t.status) verified
            v.detail) { at = some moment })
          moment in
      let t2 = record t1 { status = closed; closed_at = some moment } in
      (
        log_entry sha256_hex (set_task s1 id t2)
            (record (task_draft sha256_hex id Transition.closed by (some verified) closed
              "closed because the store and the document say it is done") { at = some moment })
            moment,
        t2,
      )

  -- What follows the verdict.
  abbrev pub record_verdict :
      RemediationStore
      → String
      → RemediationTask
      → AmendmentRecheck
      → String
      → ℕ
      → RemediationStore × AmendmentRecheck
  record_verdict s id before v by moment =
      let t = noted_task before v.detail moment in
      let s1 = log_entry sha256_hex (set_task s id t) (noted_draft id t v by moment) moment in
      let (s2, t2) = if closes v then close_task s1 id t v by moment else (s1, t) in
      (s2, record v { task = t2 })

  unfoldable pub recheck_amendment_task :
      (ℕ → String)
      → RemediationStore
      → String
      → List Obligation
      → Option ClauseTree
      → String
      → Option ℕ
      → ℕ
      → Rechecked
  unfolding verdict log_entry set_task
  recheck_amendment_task day_text s id os tree by at now = do
    before ← from_store (require s id)
    raise_if (not (non_empty before.change_kind)) AmendmentError.not_an_amendment
    v ← verdict day_text before os tree
    ok (record_verdict s id before v by (or_else at now))
