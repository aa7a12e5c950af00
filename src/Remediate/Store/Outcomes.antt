-- ===== src/Remediate/Store/Outcomes.antt =====
-- What each lifecycle method has done when it does not raise.
use sanhita.Prelude.{
  ℕ, String, ◌≡◌, Bool, true, false, List, Option, none, some, ok, or_else, if◌then◌else◌, arith,
  Option-cases, inl, inr, ◌⊎◌,
}
use sanhita.Prelude.Dict.{get}
use sanhita.Prelude.Text.{non_empty, strip}
use sanhita.Remediate.Log.{EntryPayload, Transition}
use sanhita.Remediate.Task.{TaskStatus, ready_for_recheck, RemediationTask}
use sanhita.Remediate.Store.{
  RemediationStore, GapRequest, open_task, new_task, open_for_gap, assign, set_status,
  attach_evidence, is_earned, created_draft, assigned_task, assigned_draft, task_draft,
  attached_draft, add_ids,
}
use sanhita.Remediate.Store.Recheck.{
  recheck, rechecked_task, rechecked_draft, fail_recheck, pass_recheck,
}
use sanhita.Remediate.Store.Writes.{write_pair}

module _ (sha256_hex : EntryPayload → String) (s : RemediationStore) where
  pub open_for_gap_cases :
      (q : GapRequest) (now : ℕ)
      → ((t : RemediationTask) × (open_task s q.gap_id ≡ some t)
          × (open_for_gap sha256_hex s q now ≡ (s, t)))
        ⊎ ((open_task s q.gap_id ≡ none)
            × (open_for_gap sha256_hex s q now ≡ (
              write_pair sha256_hex s
                  (new_task s q (or_else q.at now)).task_id
                  (new_task s q (or_else q.at now))
                  (created_draft sha256_hex q (new_task s q (or_else q.at now)) (or_else q.at now))
                  (or_else q.at now),
              new_task s q (or_else q.at now),
            )))
  unfolding open_for_gap
  open_for_gap_cases q now = elim (Option-cases (open_task s q.gap_id)) [
    | inl n ↦ inr (n, ground arith)
    | inr (t, e) ↦ inl (t, e, ground arith)
  ]

  pub assign-eq-ok :
      (id owner by team note : String) (now : ℕ) {s' : RemediationStore} {v : RemediationTask}
      → assign sha256_hex s id owner by team note now ≡ ok (s', v)
      → (b : RemediationTask) × (get id s.tasks ≡ some b)
        × (non_empty (strip owner) ≡ true)
        × (v ≡ assigned_task sha256_hex b owner team)
        × (s' ≡ write_pair sha256_hex s id v (assigned_draft sha256_hex id b v by note) now)
  unfolding assign
  assign-eq-ok id owner by team note now h = ground arith

  pub set_status-eq-ok :
      (id : String) (status : TaskStatus) (by note : String) (now : ℕ) {s' : RemediationStore}
      {v : RemediationTask}
      → set_status sha256_hex s id status by note now ≡ ok (s', v)
      → (b : RemediationTask) × (get id s.tasks ≡ some b)
        × (is_earned status ≡ false)
        × (v ≡ record b { status = status })
        × (s'
            ≡ write_pair sha256_hex s id v
                (task_draft sha256_hex id Transition.status_changed by (some b.status) status note)
                now)
  unfolding set_status
  set_status-eq-ok id status by note now h = ground arith

  pub attach_evidence-eq-ok :
      (id : String) (ids : List String) (by note : String) (now : ℕ) {s' : RemediationStore}
      {v : RemediationTask}
      → attach_evidence sha256_hex s id ids by note now ≡ ok (s', v)
      → (b : RemediationTask) × (get id s.tasks ≡ some b)
        × (v ≡ record b { evidence_ids = add_ids b.evidence_ids ids; status = ready_for_recheck })
        × (s' ≡ write_pair sha256_hex s id v (attached_draft sha256_hex id b ids by note) now)
  unfolding attach_evidence
  attach_evidence-eq-ok id ids by note now h = ground arith

  abbrev pub rechecked : String → RemediationTask → Bool → String → ℕ → RemediationStore
  rechecked id t still_failing by moment =
      write_pair sha256_hex s id t (rechecked_draft sha256_hex id t still_failing by moment) moment

  -- The writes of a re-check of the task `t`, which has its outcome noted.
  abbrev pub concluded :
      String → RemediationTask → Bool → String → ℕ → RemediationStore × RemediationTask
  concluded id t still_failing by moment =
      if still_failing
      then fail_recheck sha256_hex (rechecked id t still_failing by moment) id t by moment
      else pass_recheck sha256_hex (rechecked id t still_failing by moment) id t by moment

  pub recheck-eq-ok :
      (id : String) (still_failing : Bool) (by detail : String) (at : Option ℕ) (now : ℕ)
      {s' : RemediationStore} {v : RemediationTask}
      → recheck sha256_hex s id still_failing by detail at now ≡ ok (s', v)
      → (b : RemediationTask) × (get id s.tasks ≡ some b)
        × (concluded id
              (rechecked_task sha256_hex b still_failing detail (or_else at now))
              still_failing
              by
              (or_else at now)
            ≡ (s', v))
  unfolding recheck
  recheck-eq-ok id still_failing by detail at now h = ground arith
