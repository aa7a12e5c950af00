-- ===== src/Remediate/Store/Trace.antt =====
-- remediate/tasks.py: after any calls of the lifecycle methods, the log tells each task's status.
use sanhita.Prelude.{
  ℕ, String, ◌≡◌, refl, sym, ◌∙◌, ap, subst, Bool, true, false, List, [], ◌∷◌, none, some, ok, err,
  or_else, str_eq, arith, Bool-cases, inl, inr,
}
use sanhita.Prelude.Dict.{get}
use sanhita.Remediate.Log.{EntryPayload, Draft, verify}
use sanhita.Remediate.Task.{status_value, RemediationTask}
use sanhita.Remediate.Store.{RemediationStore, Outcome, empty, new_task, open_for_gap}
use sanhita.Remediate.Store.Writes.{
  Call, call_open, call_assign, call_set_status, call_attach, call_recheck, perform, settle, run,
  Says, Writes, done, write, write_pair, status_of, last_status, value_of, status_of-write_pair,
  last_status-write_pair, verify-write_pair,
}
use sanhita.Remediate.Store.Outcomes.{
  open_for_gap_cases, assign-eq-ok, set_status-eq-ok, attach_evidence-eq-ok, recheck-eq-ok,
  concluded,
}

module _ (sha256_hex : EntryPayload → String) where
  pub concluded-Writes :
      (s : RemediationStore) (id : String) (t : RemediationTask) (still_failing : Bool)
      (by : String) (moment : ℕ)
      → Writes sha256_hex s (concluded sha256_hex s id t still_failing by moment).0
  concluded-Writes s id t true by moment =
      write (write done id t _ moment (record { of_task = refl; of_status = refl })) id _ _ moment
        (record { of_task = refl; of_status = refl })
  concluded-Writes s id t false by moment =
      write
        (write (write done id t _ moment (record { of_task = refl; of_status = refl })) id _ _
          moment (record { of_task = refl; of_status = refl }))
        id _ _ moment (record { of_task = refl; of_status = refl })

  pub perform-Writes :
      (s : RemediationStore) (c : Call) {s' : RemediationStore} {v : RemediationTask}
      → perform sha256_hex s c ≡ ok (s', v)
      → Writes sha256_hex s s'
  unfolding perform
  perform-Writes s (call_open q now) {s' = s'} {v = v} h =
      let same : open_for_gap sha256_hex s q now ≡ (s', v) = ground arith in
      elim (open_for_gap_cases sha256_hex s q now) [
        | inl (t, _, e) ↦
            subst (λ (x : RemediationStore × RemediationTask). Writes sha256_hex s x.0)
              (sym e ∙ same) done
        | inr (_, e) ↦
            subst (λ (x : RemediationStore × RemediationTask). Writes sha256_hex s x.0)
              (sym e ∙ same)
              (write done _ (new_task s q (or_else q.at now)) _ _
                (record { of_task = refl; of_status = refl }))
      ]
  perform-Writes s (call_assign id owner by team remark now) h =
      let (b, _, _, k, e) = assign-eq-ok sha256_hex s id owner by team remark now h in
      rw e (write done id _ _ now (record { of_task = refl; of_status = refl }))
  perform-Writes s (call_set_status id status by remark now) h =
      let (b, _, _, k, e) = set_status-eq-ok sha256_hex s id status by remark now h in
      rw e (
        write done id _ _ now (record {
          of_task = refl;
          of_status = ap (λ (t : RemediationTask). status_value t.status) (sym k);
        }))
  perform-Writes s (call_attach id ids by remark now) h =
      let (b, _, k, e) = attach_evidence-eq-ok sha256_hex s id ids by remark now h in
      rw e (
        write done id _ _ now (record {
          of_task = refl;
          of_status = ap (λ (t : RemediationTask). status_value t.status) (sym k);
        }))
  perform-Writes s (call_recheck id still_failing by detail at now) h =
      let (b, _, e) = recheck-eq-ok sha256_hex s id still_failing by detail at now h in
      subst (Writes sha256_hex s) (ap (λ (x : RemediationStore × RemediationTask). x.0) e)
        (concluded-Writes s id _ still_failing by (or_else at now))

  -- The log verifies, and for every task its last entry says the task's status.
  pub record IsSound (s : RemediationStore) : Type 0 where
    pub intact : verify sha256_hex s.log ≡ none
    pub traced : (id : String) → last_status s id ≡ value_of (status_of s id)

  write_pair-IsSound :
      (s : RemediationStore) (id : String) (t : RemediationTask) (d : Draft) (now : ℕ)
      → Says id t d
      → IsSound s
      → IsSound (write_pair sha256_hex s id t d now)
  write_pair-IsSound s id t d now says sound = record {
    intact = verify-write_pair sha256_hex s id t d now sound.intact;
    traced = λ j.
        rw
          (
            last_status-write_pair sha256_hex s id t d now j,
            status_of-write_pair sha256_hex s id t d now j,
            ap (λ (k : String). str_eq k j) says.of_task,
          )
          (elim (Bool-cases (str_eq id j)) [
            | inl e ↦ rw e (ap some says.of_status)
            | inr n ↦ rw n (sound.traced j)
          ]);
  }

  pub Writes-IsSound :
      (s : RemediationStore) {s' : RemediationStore}
      → IsSound s
      → Writes sha256_hex s s'
      → IsSound s'
  Writes-IsSound s sound done = sound
  Writes-IsSound s sound (write {m = m} w id t d now says) =
      write_pair-IsSound m id t d now says (Writes-IsSound s sound w)

  settle-IsSound :
      (s : RemediationStore) (c : Call)
      → IsSound s
      → IsSound (settle sha256_hex s (perform sha256_hex s c))
  settle-IsSound s c sound = go (perform sha256_hex s c) refl
    where
      go : (x : Outcome) → perform sha256_hex s c ≡ x → IsSound (settle sha256_hex s x)
      go (ok (s', v)) e = Writes-IsSound s sound (perform-Writes s c e)
      go (err x) e = sound

  run_from-IsSound :
      (s : RemediationStore) (calls : List Call) → IsSound s → IsSound (run sha256_hex s calls)
  unfolding run
  run_from-IsSound s [] sound = sound
  run_from-IsSound s (c ∷ cs) sound =
      run_from-IsSound (settle sha256_hex s (perform sha256_hex s c)) cs (settle-IsSound s c sound)

  -- After any calls of the lifecycle methods on an empty store, those that raise included, the
  -- log's chain verifies, and for every task id the status that the log's last entry for it gives
  -- is the task's status; an id without a task has no entry.
  pub run_store-IsSound : (calls : List Call) → IsSound (run sha256_hex empty calls)
  unfolding verify last_status status_of get
  run_store-IsSound calls =
      run_from-IsSound empty calls (record { intact = refl; traced = λ id. refl })
