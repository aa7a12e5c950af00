-- ===== src/Remediate/Steps/Justified.antt =====
-- remediate/: in every store that is reached the log tells the tasks, and a finished task is justified.
use sanhita.Prelude.{
  ℕ, ◌≡◌, ◌⊎◌, inl, inr, refl, sym, ap, ◌∙◌, subst, String, Bool, true, false, [], ◌∷◌, none, some,
  ok, or_else, any, str_eq, eq_iff, if◌then◌else◌, arith, Bool-cases,
}
use sanhita.Prelude.Dict.{Dict, get}
use sanhita.Amend.Plan.{RequiredAction}
use sanhita.Remediate.Log.{EntryPayload, verify}
use sanhita.Remediate.Task.{reopened, closed, RemediationTask}
use sanhita.Remediate.Store.{RemediationStore, GapRequest, empty, open_for_gap}
use sanhita.Remediate.Store.Writes.{
  Call, call_open, perform, Writes, status_of, last_status, value_of,
}
use sanhita.Remediate.Store.Trace.{IsSound, perform-Writes, Writes-IsSound}
use sanhita.Remediate.Store.Closing.{is_finished, is_passing, finished_by}
use sanhita.Remediate.Service.Concludes.{was_evaluated, is_breach_of, recheck_task_status}
use sanhita.Remediate.Service.Sound.{recheck_task-IsSound}
use sanhita.Remediate.Amendment.{
  Amendment, action_request, amended_task, change_open, open_for_action,
}
use sanhita.Remediate.Amendment.Verdict.{closes}
use sanhita.Remediate.Amendment.Recheck.Facts.{verdict_fact}
use sanhita.Remediate.Amendment.Recheck.Recorded.{
  recheck_amendment_task-eq-ok, record_verdict-Writes, record_verdict_status,
}
use sanhita.Remediate.Steps.{
  Library, is_recheck, Step, lifecycle, opened_for_action, rechecked, amendment_rechecked, Reaches,
  start, then_step, Closes, IsJustified,
}

get-change_open :
    (gap_id : String) (a : RequiredAction) (m : Amendment) (d : Dict RemediationTask) (j : String)
    → elim (get j (change_open gap_id (amended_task a m) d)) [
      | none ↦ none
      | some t ↦ some t.status
    ]
      ≡ elim (get j d) [ none ↦ none | some t ↦ some t.status ]
unfolding change_open get
get-change_open gap_id a m [] j = refl
get-change_open gap_id a m ((k, t) ∷ d) j = ground (arith, get-change_open gap_id a m d j)

status_of-change_open :
    (s : RemediationStore) (gap_id : String) (a : RequiredAction) (m : Amendment) (j : String)
    → status_of (record s { tasks = change_open gap_id (amended_task a m) s.tasks }) j
      ≡ status_of s j
unfolding status_of
status_of-change_open s gap_id a m j = get-change_open gap_id a m s.tasks j

change_open-IsSound :
    (sha256_hex : EntryPayload → String) (s : RemediationStore) (gap_id : String)
    (a : RequiredAction) (m : Amendment)
    → IsSound sha256_hex s
    → IsSound sha256_hex (record s { tasks = change_open gap_id (amended_task a m) s.tasks })
unfolding last_status
change_open-IsSound sha256_hex s gap_id a m sound = record {
  intact = sound.intact;
  traced = λ j. sound.traced j ∙ ap value_of (sym (status_of-change_open s gap_id a m j));
}

perform_open :
    (sha256_hex : EntryPayload → String) (s : RemediationStore) (q : GapRequest) (now : ℕ)
    → perform sha256_hex s (call_open q now)
      ≡ ok ((open_for_gap sha256_hex s q now).0, (open_for_gap sha256_hex s q now).1)
unfolding perform
perform_open sha256_hex s q now = refl

not_passing : (c : Call) (j : String) → is_recheck c ≡ false → is_passing c j ≡ false
not_passing c j h = ground arith

nothing_first : (j : String) → is_finished (status_of empty j) ≡ false
unfolding status_of get
nothing_first j = refl

after_run :
    {Why : Type 0} (s : RemediationStore) (id j : String) (t : RemediationTask) (ev breach : Bool)
    → get id s.tasks ≡ some t
    → is_finished (
        if str_eq id j
        then some (if ev then if breach then reopened else closed else t.status)
        else status_of s j)
      ≡ true
    → (id ≡ j → ev ≡ true → breach ≡ false → Why)
    → (is_finished (status_of s j) ≡ true) ⊎ Why
unfolding status_of
after_run {Why = Why} s id j t ev breach found fin because = elim (Bool-cases (str_eq id j)) [
  | inr n ↦ inl (ground arith)
  | inl e ↦ own ((eq_iff id j).0 e) e ev breach refl refl
]
  where
    own :
        id ≡ j
        → str_eq id j ≡ true
        → (e b : Bool) → ev ≡ e
        → breach ≡ b
        → (is_finished (elim (get j s.tasks) [ none ↦ none | some u ↦ some u.status ]) ≡ true) ⊎ Why
    own same eq true false p q = inr (because same p q)
    own same eq true true p q = inl (ground arith)
    own same eq false b p q = inl (ground (arith, subst (λ k. get k s.tasks ≡ some t) same found))

after_verdict :
    {Why : Type 0} (s : RemediationStore) (id j : String) (t : RemediationTask) (c : Bool)
    → get id s.tasks ≡ some t
    → is_finished (if str_eq id j then some (if c then closed else t.status) else status_of s j)
      ≡ true
    → (id ≡ j → c ≡ true → Why)
    → (is_finished (status_of s j) ≡ true) ⊎ Why
after_verdict s id j t true found fin because =
    after_run s id j t true false found fin (λ own _ _. because own refl)
after_verdict s id j t false found fin because =
    after_run s id j t false false found fin (λ own b _. because own b)

module _ (lib : Library) where
  step-IsSound :
      {s s' : RemediationStore}
      → Step lib s s'
      → IsSound lib.sha256_hex s
      → IsSound lib.sha256_hex s'
  unfolding open_for_action
  step-IsSound {s = s} (lifecycle c _ h) sound =
      Writes-IsSound lib.sha256_hex s sound (perform-Writes lib.sha256_hex s c h)
  step-IsSound {s = s} (opened_for_action a m now) sound =
      let q = action_request lib.sha256_text a m in
      change_open-IsSound lib.sha256_hex (open_for_gap lib.sha256_hex s q now).0 q.gap_id a m (
        Writes-IsSound lib.sha256_hex s sound
          (perform-Writes lib.sha256_hex s (call_open q now) (perform_open lib.sha256_hex s q now)))
  step-IsSound {s = s} (rechecked id os evidence by today calendar now h) sound =
      recheck_task-IsSound lib.sha256_hex s id os evidence by today calendar now sound h
  step-IsSound {s = s} (amendment_rechecked id os tree by at now h) sound =
      let (t, v, _, _, e) =
        recheck_amendment_task-eq-ok lib.sha256_hex lib.day_text s id os tree by at now h in
      Writes-IsSound lib.sha256_hex s sound (
        subst (λ x. Writes lib.sha256_hex s x.0) e
          (record_verdict-Writes lib.sha256_hex s id t v by (or_else at now)))

  -- In every store that any steps reach from the empty one, the log verifies, and its last entry for
  -- each task says the task's status.
  pub reached-IsSound : {s : RemediationStore} → Reaches lib s → IsSound lib.sha256_hex s
  unfolding verify last_status status_of get
  reached-IsSound start = record { intact = refl; traced = λ j. refl }
  reached-IsSound (then_step r step) = step-IsSound step (reached-IsSound r)

  -- A task that is finished after a step was so before, or the step closed it.
  step-Closes :
      {s s' : RemediationStore} (j : String) (step : Step lib s s')
      → is_finished (status_of s' j) ≡ true
      → (is_finished (status_of s j) ≡ true) ⊎ Closes lib j step
  unfolding open_for_action
  step-Closes {s = s} j (lifecycle c other h) fin =
      inl (ground (arith, finished_by lib.sha256_hex s c j h fin, not_passing c j other))
  step-Closes {s = s} j (opened_for_action a m now) fin =
      let q = action_request lib.sha256_text a m in
      let before =
        finished_by lib.sha256_hex s (call_open q now) j (perform_open lib.sha256_hex s q now) in
      let same = status_of-change_open (open_for_gap lib.sha256_hex s q now).0 q.gap_id a m j in
      inl (ground (arith, before (ap is_finished (sym same) ∙ fin)))
  step-Closes {s = s} j (rechecked id os evidence by today calendar now h) fin =
      let (t, report, found, ran, st) =
        recheck_task_status lib.sha256_hex s id os evidence by today calendar now j h in
      after_run s id j t (was_evaluated t report) (any (is_breach_of t) report.findings) found
        (ap is_finished (sym st) ∙ fin) (λ own ev clean. (own, (t, report, found, ran, ev, clean)))
  step-Closes {s = s} j (amendment_rechecked id os tree by at now h) fin =
      let (t, v, found, judgement, e) =
        recheck_amendment_task-eq-ok lib.sha256_hex lib.day_text s id os tree by at now h in
      let st = record_verdict_status lib.sha256_hex s id t v by (or_else at now) j in
      after_verdict s id j t (closes v) found
        (ap is_finished (sym st ∙ ap (λ x. status_of x.0 j) e) ∙ fin)
        (λ own c. (own, (t, found, verdict_fact lib.day_text t os tree judgement c)))

  -- Whatever steps lead from the empty store to one in which a task is verified or closed, one of them
  -- was a re-check of that task that closed it, and the task was verified or closed after each step
  -- since: the run that the re-check made of the engine evaluated the task's rule and found no breach
  -- of it, or the fact that the amendment's task stands for held of the rules and the document that
  -- the re-check was given.
  pub finished-IsJustified :
      {s : RemediationStore} (j : String) (r : Reaches lib s)
      → is_finished (status_of s j) ≡ true
      → IsJustified lib j r
  finished-IsJustified j start fin = ground (arith, nothing_first j)
  finished-IsJustified j (then_step r step) fin = elim (step-Closes j step fin) [
    | inl earlier ↦ inr (earlier, finished-IsJustified j r earlier)
    | inr now ↦ inl now
  ]
