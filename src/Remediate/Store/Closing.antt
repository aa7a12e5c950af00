-- ===== src/Remediate/Store/Closing.antt =====
-- remediate/tasks.py: the calls without which no task is verified or closed.
use sanhita.Prelude.{
  if_again, ℕ, String, ◌≡◌, refl, sym, ◌∙◌, ap, Bool, true, false, not, ◌&&◌, ◌||◌, List, [], ◌∷◌,
  Option, none, some, ok, err, or_else, str_eq, eq_iff, if◌then◌else◌, arith, inl, inr, any,
}
use sanhita.Prelude.Dict.{get}
use sanhita.Remediate.Log.{EntryPayload}
use sanhita.Remediate.Task.{TaskStatus, reopened, closed, RemediationTask}
use sanhita.Remediate.Store.{RemediationStore, Outcome, empty, new_task, is_earned, open_for_gap}
use sanhita.Remediate.Store.Writes.{
  Call, call_open, call_assign, call_set_status, call_attach, call_recheck, perform, settle, run,
  status_of, status_of-write_pair,
}
use sanhita.Remediate.Store.Outcomes.{
  open_for_gap_cases, assign-eq-ok, set_status-eq-ok, attach_evidence-eq-ok, recheck-eq-ok,
  concluded,
}

none_at_first : (j : String) → status_of empty j ≡ none
unfolding status_of get
none_at_first j = refl

-- The task is verified or closed.
abbrev pub is_finished : Option TaskStatus → Bool
is_finished none = false
is_finished (some st) = is_earned st

-- The call is a re-check of the task that found no breach.
abbrev pub is_passing : Call → String → Bool
is_passing (call_recheck id still_failing _ _ _ _) j = not still_failing && str_eq id j
is_passing _ j = false

module _ (sha256_hex : EntryPayload → String) where
  status_of-get :
      (s : RemediationStore) (id : String) (b : RemediationTask)
      → get id s.tasks ≡ some b
      → status_of s id ≡ some b.status
  unfolding status_of
  status_of-get s id b h = ground arith

  status_of_eq :
      (s : RemediationStore) (id j : String) → str_eq id j ≡ true → status_of s id ≡ status_of s j
  status_of_eq s id j e = ap (status_of s) ((eq_iff id j).0 e)

  pub concluded_status :
      (s : RemediationStore) (id : String) (t : RemediationTask) (still_failing : Bool)
      (by : String) (moment : ℕ) (j : String)
      → status_of (concluded sha256_hex s id t still_failing by moment).0 j
        ≡ (if str_eq id j then some (if still_failing then reopened else closed) else status_of s j)
  concluded_status s id t true by moment j = simp (status_of-write_pair, if_again)
  concluded_status s id t false by moment j = simp (status_of-write_pair, if_again)

  opened_status :
      (s : RemediationStore) (t : RemediationTask) (j : String) {x : Option TaskStatus}
      → x ≡ (if str_eq t.task_id j then some t.status else status_of s j)
      → is_finished x ≡ true
      → is_earned t.status ≡ false
      → is_finished (status_of s j) ≡ true
  opened_status s t j h k n = ground arith

  pub finished_by :
      (s : RemediationStore) (c : Call) {s' : RemediationStore} {v : RemediationTask} (j : String)
      → perform sha256_hex s c ≡ ok (s', v)
      → is_finished (status_of s' j) ≡ true
      → (is_finished (status_of s j) || is_passing c j) ≡ true
  unfolding perform
  finished_by s (call_open q now) {s' = s'} {v = v} j h k =
      let same : open_for_gap sha256_hex s q now ≡ (s', v) = ground arith in
      elim (open_for_gap_cases sha256_hex s q now) [
        | inl (t, _, e) ↦ ground arith
        | inr (_, e) ↦
            let t = new_task s q (or_else q.at now) in
            let old =
              opened_status s t j
                (ap (λ (x : RemediationStore × RemediationTask). status_of x.0 j) (sym same ∙ e)
                  ∙ status_of-write_pair sha256_hex s t.task_id t _ _ j)
                k (unfold new_task in refl) in
            ground arith
      ]
  finished_by s (call_assign id owner by team remark now) {v = v} j h k =
      let (b, g, _, q, e) = assign-eq-ok sha256_hex s id owner by team remark now h in
      ground (
        arith,
        ap (λ s. status_of s j) e ∙ status_of-write_pair sha256_hex s id v _ now j,
        status_of-get s id b g,
        status_of_eq s id j,
      )
  finished_by s (call_set_status id status by remark now) {v = v} j h k =
      let (b, _, n, q, e) = set_status-eq-ok sha256_hex s id status by remark now h in
      ground (arith, ap (λ s. status_of s j) e ∙ status_of-write_pair sha256_hex s id v _ now j)
  finished_by s (call_attach id ids by remark now) {v = v} j h k =
      let (b, _, q, e) = attach_evidence-eq-ok sha256_hex s id ids by remark now h in
      ground (arith, ap (λ s. status_of s j) e ∙ status_of-write_pair sha256_hex s id v _ now j)
  finished_by s (call_recheck id still_failing by detail at now) j h k =
      let (b, _, e) = recheck-eq-ok sha256_hex s id still_failing by detail at now h in
      ground (
        arith,
        sym (ap (λ (x : RemediationStore × RemediationTask). status_of x.0 j) e)
            ∙ concluded_status s id _ still_failing by (or_else at now) j,
      )

  settle_finished :
      (s : RemediationStore) (c : Call) (j : String)
      → is_finished (status_of (settle sha256_hex s (perform sha256_hex s c)) j) ≡ true
      → (is_finished (status_of s j) || is_passing c j) ≡ true
  settle_finished s c j = go (perform sha256_hex s c) refl
    where
      go :
          (x : Outcome)
          → perform sha256_hex s c ≡ x
          → is_finished (status_of (settle sha256_hex s x) j) ≡ true
          → (is_finished (status_of s j) || is_passing c j) ≡ true
      go (ok (s', v)) e h = finished_by s c j e h
      go (err x) e h = ground arith

  run_from_finished :
      (s : RemediationStore) (calls : List Call) (j : String)
      → is_finished (status_of (run sha256_hex s calls) j) ≡ true
      → (is_finished (status_of s j) || any (λ c. is_passing c j) calls) ≡ true
  unfolding run
  run_from_finished s [] j h = ground arith
  run_from_finished s (c ∷ cs) j h = ground (
    arith,
    settle_finished s c j,
    run_from_finished (settle sha256_hex s (perform sha256_hex s c)) cs j h,
  )

  -- A task is verified or closed only by the engine: if it is so after any calls on an empty store,
  -- then one of them was a re-check of that very task that found no breach.
  pub finished-is_passing :
      (calls : List Call) (j : String)
      → is_finished (status_of (run sha256_hex empty calls) j) ≡ true
      → any (λ c. is_passing c j) calls ≡ true
  finished-is_passing calls j h = ground (arith, run_from_finished empty calls j h, none_at_first j)
