-- ===== src/Remediate/Service/Sound.antt =====
-- remediate/service.py: a re-check keeps the log in step with the tasks.
use sanhita.Prelude.{
  ℕ, ◌≡◌, refl, ap, ◌∙◌, subst, String, List, [], ◌∷◌, Option, none, some, ok, arith,
}
use sanhita.Prelude.Dict.{Dict, get, put}
use sanhita.Dates.{Date}
use sanhita.Ir.Schema.{Obligation}
use sanhita.Execute.Calendar.{TradingCalendar}
use sanhita.Execute.Evidence.{EvidenceStore}
use sanhita.Remediate.Log.{EntryPayload}
use sanhita.Remediate.Task.{RemediationTask}
use sanhita.Remediate.Store.{RemediationStore, log_entry, set_task}
use sanhita.Remediate.Store.Writes.{Writes, done, write}
use sanhita.Remediate.Store.Outcomes.{recheck-eq-ok}
use sanhita.Remediate.Store.Trace.{IsSound, concluded-Writes, Writes-IsSound}
use sanhita.Remediate.Service.{
  RecheckResult, Answer, declined, evaluated, answer_of, any_finding, declined_draft, conclude,
  recheck_task,
}
use sanhita.Remediate.Service.Concludes.{recheck-some, recheck_task-eq-ok}

module _ (sha256_hex : EntryPayload → String) where
  put_same :
      (id : String) (t : RemediationTask) (d : Dict RemediationTask)
      → get id d ≡ some t
      → put id t d ≡ d
  unfolding get put
  put_same id t [] h = ground arith
  put_same id t ((j, u) ∷ d) h = ground (arith, put_same id t d)

  conclude-Writes :
      (s : RemediationStore) (id : String) (t : RemediationTask) (by : String) (now : ℕ)
      (a : Answer) {s' : RemediationStore} {r : RecheckResult}
      → get id s.tasks ≡ some t
      → conclude sha256_hex s id t by now a ≡ ok (s', r)
      → Writes sha256_hex s s'
  unfolding conclude set_task put
  conclude-Writes s id t by now (declined note text detail) {s' = s'} found h =
      let draft = declined_draft sha256_hex id t by note detail in
      let same : log_entry sha256_hex s draft now ≡ s' = ground arith in
      subst (Writes sha256_hex s)
        (ap
            (λ (ts : Dict RemediationTask).
              log_entry sha256_hex (record s { tasks = ts }) draft now)
            (put_same id t s.tasks found)
          ∙ same)
        (write done id t draft now (record { of_task = refl; of_status = refl }))
  conclude-Writes s id t by now (evaluated fs text) {s' = s'} found h =
      let (s1, v, e) = recheck-some sha256_hex s id t (any_finding fs) by text now found in
      let (b, _, w) = recheck-eq-ok sha256_hex s id (any_finding fs) by text none now e in
      let same : s1 ≡ s' = ground arith in
      subst (Writes sha256_hex s) (ap (λ (x : RemediationStore × RemediationTask). x.0) w ∙ same)
        (concluded-Writes sha256_hex s id _ (any_finding fs) by now)

  -- A re-check that gives a result keeps a sound store sound: the log verifies, and its last entry for
  -- each task says the task's status.
  pub recheck_task-IsSound :
      (s : RemediationStore) (id : String) (os : List Obligation) (evidence : EvidenceStore)
      (by : String) (today : Date) (calendar : Option TradingCalendar) (now : ℕ)
      {s' : RemediationStore} {r : RecheckResult}
      → IsSound sha256_hex s
      → recheck_task sha256_hex s id os evidence by today calendar now ≡ ok (s', r)
      → IsSound sha256_hex s'
  recheck_task-IsSound s id os evidence by today calendar now sound h =
      let (t, report, found, _, e) =
        recheck_task-eq-ok sha256_hex s id os evidence by today calendar now h in
      Writes-IsSound sha256_hex s sound (conclude-Writes s id t by now (answer_of t report) found e)
