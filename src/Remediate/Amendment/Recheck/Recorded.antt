-- ===== src/Remediate/Amendment/Recheck/Recorded.antt =====
-- remediate/amendment.py: what a re-check writes, and the statuses that it leaves.
use sanhita.Prelude.{
  >>=-eq-ok, raise_if, ℕ, ◌≡◌, refl, String, Bool, true, false, not, List, Option, some, ok,
  or_else, str_eq, if◌then◌else◌, if_again, arith,
}
use sanhita.Prelude.Dict.{get}
use sanhita.Prelude.Text.{non_empty}
use sanhita.Ir.Schema.{Obligation}
use sanhita.Amend.Clauses.{ClauseTree}
use sanhita.Remediate.Log.{EntryPayload}
use sanhita.Remediate.Task.{closed, RemediationTask}
use sanhita.Remediate.Store.{RemediationStore, require}
use sanhita.Remediate.Store.Writes.{
  status_of, Writes, done, write, status_of-write_pair, write_pair,
}
use sanhita.Remediate.Amendment.Verdict.{AmendmentError, AmendmentRecheck, closes, verdict}
use sanhita.Remediate.Amendment.Recheck.{
  from_store, noted_task, noted_draft, close_task, record_verdict, recheck_amendment_task,
}

module _ (sha256_hex : EntryPayload → String) where
  pub recheck_amendment_task-eq-ok :
      (day_text : ℕ → String) (s : RemediationStore) (id : String) (os : List Obligation)
      (tree : Option ClauseTree) (by : String) (at : Option ℕ) (now : ℕ)
      {x : RemediationStore × AmendmentRecheck}
      → recheck_amendment_task sha256_hex day_text s id os tree by at now ≡ ok x
      → (t : RemediationTask) × (v : AmendmentRecheck) × (get id s.tasks ≡ some t)
        × (verdict day_text t os tree ≡ ok v)
        × (record_verdict sha256_hex s id t v by (or_else at now) ≡ x)
  unfolding recheck_amendment_task
  recheck_amendment_task-eq-ok day_text s id os tree by at now h =
      let (t, there, rest) = >>=-eq-ok (from_store (require s id)) _ h in
      let (_, _, later) =
        >>=-eq-ok (raise_if (not (non_empty t.change_kind)) AmendmentError.not_an_amendment) _
          rest in
      let (v, judgement, end) = >>=-eq-ok (verdict day_text t os tree) _ later in
      (t, v, ground arith, judgement, ground arith)

  abbrev noted :
      RemediationStore → String → RemediationTask → AmendmentRecheck → String → ℕ → RemediationStore
  noted s id t v by moment =
      write_pair sha256_hex s id (noted_task t v.detail moment)
        (noted_draft sha256_hex id (noted_task t v.detail moment) v by moment) moment

  closing-Writes :
      (b : Bool) (s : RemediationStore) (id : String) (t : RemediationTask) (v : AmendmentRecheck)
      (by : String) (moment : ℕ)
      → Writes sha256_hex s
          (if b
            then close_task sha256_hex
                (noted s id t v by moment)
                id
                (noted_task t v.detail moment)
                v
                by
                moment
            else (noted s id t v by moment, noted_task t v.detail moment)).0
  closing-Writes true s id t v by moment =
      write
        (write (write done id _ _ moment (record { of_task = refl; of_status = refl })) id _ _
          moment (record { of_task = refl; of_status = refl }))
        id _ _ moment (record { of_task = refl; of_status = refl })
  closing-Writes false s id t v by moment =
      write done id _ _ moment (record { of_task = refl; of_status = refl })

  closing_status :
      (b : Bool) (s : RemediationStore) (id : String) (t : RemediationTask) (v : AmendmentRecheck)
      (by : String) (moment : ℕ) (j : String)
      → status_of
          (if b
            then close_task sha256_hex
                (noted s id t v by moment)
                id
                (noted_task t v.detail moment)
                v
                by
                moment
            else (noted s id t v by moment, noted_task t v.detail moment)).0
          j
        ≡ (if str_eq id j then some (if b then closed else t.status) else status_of s j)
  closing_status true s id t v by moment j = simp (status_of-write_pair, if_again)
  closing_status false s id t v by moment j = simp status_of-write_pair

  pub record_verdict-Writes :
      (s : RemediationStore) (id : String) (t : RemediationTask) (v : AmendmentRecheck)
      (by : String) (moment : ℕ)
      → Writes sha256_hex s (record_verdict sha256_hex s id t v by moment).0
  record_verdict-Writes s id t v by moment = closing-Writes (closes v) s id t v by moment

  -- The task's status after: closed where the verdict closes it, and else what it was.
  pub record_verdict_status :
      (s : RemediationStore) (id : String) (t : RemediationTask) (v : AmendmentRecheck)
      (by : String) (moment : ℕ) (j : String)
      → status_of (record_verdict sha256_hex s id t v by moment).0 j
        ≡ (if str_eq id j then some (if closes v then closed else t.status) else status_of s j)
  record_verdict_status s id t v by moment j = closing_status (closes v) s id t v by moment j
