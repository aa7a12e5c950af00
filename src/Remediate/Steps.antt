-- ===== src/Remediate/Steps.antt =====
-- The ways in which remediate/ changes a store, as a relation of steps: the store's own methods but
-- its re-check, which only the other two modules call, and those modules.
pub mod Justified
use sanhita.Prelude.{ℕ, String, ◌≡◌, ◌⊎◌, Bool, true, false, List, Option, some, ok, or_else, any}
use sanhita.Prelude.Dict.{get}
use sanhita.Dates.{Date}
use sanhita.Ir.Schema.{Obligation}
use sanhita.Execute.Calendar.{TradingCalendar, weekends_only}
use sanhita.Execute.Evidence.{EvidenceStore}
use sanhita.Execute.Report.{GapReport}
use sanhita.Execute.Run.{run}
use sanhita.Amend.Clauses.{ClauseTree}
use sanhita.Amend.Plan.{RequiredAction}
use sanhita.Remediate.Log.{EntryPayload}
use sanhita.Remediate.Task.{RemediationTask}
use sanhita.Remediate.Store.{RemediationStore, empty}
use sanhita.Remediate.Store.Writes.{Call, call_recheck, perform, status_of}
use sanhita.Remediate.Store.Closing.{is_finished}
use sanhita.Remediate.Service.{RecheckResult, subject, recheck_task}
use sanhita.Remediate.Service.Concludes.{was_evaluated, is_breach_of}
use sanhita.Remediate.Amendment.{Amendment, open_for_action}
use sanhita.Remediate.Amendment.Verdict.{AmendmentRecheck}
use sanhita.Remediate.Amendment.Recheck.{recheck_amendment_task}
use sanhita.Remediate.Amendment.Recheck.Facts.{Fact}

abbrev pub is_recheck : Call → Bool
is_recheck (call_recheck _ _ _ _ _ _) = true
is_recheck _ = false

-- The libraries: SHA-256 over an entry and over a text, and an instant's day as text.
pub record Library : Type 0 where
  pub sha256_hex : EntryPayload → String
  pub sha256_text : String → String
  pub day_text : ℕ → String

module _ (lib : Library) where
  pub data Step (s : RemediationStore) : RemediationStore → Type 0 where
    lifecycle :
        {s' : RemediationStore} {t : RemediationTask}
        → (c : Call) → is_recheck c ≡ false
        → perform lib.sha256_hex s c ≡ ok (s', t)
        → Step s s'
    opened_for_action :
        (a : RequiredAction) (m : Amendment) (now : ℕ)
        → Step s (open_for_action lib.sha256_hex lib.sha256_text s a m now).0
    rechecked :
        {s' : RemediationStore} {r : RecheckResult}
        → (id : String) (os : List Obligation) (evidence : EvidenceStore) (by : String)
          (today : Date) (calendar : Option TradingCalendar) (now : ℕ)
        → recheck_task lib.sha256_hex s id os evidence by today calendar now ≡ ok (s', r)
        → Step s s'
    amendment_rechecked :
        {s' : RemediationStore} {r : AmendmentRecheck}
        → (id : String) (os : List Obligation) (tree : Option ClauseTree) (by : String)
          (at : Option ℕ) (now : ℕ)
        → recheck_amendment_task lib.sha256_hex lib.day_text s id os tree by at now ≡ ok (s', r)
        → Step s s'

  pub data Reaches : RemediationStore → Type 0 where
    start : Reaches empty
    then_step : {s s' : RemediationStore} → Reaches s → Step s s' → Reaches s'

  -- The step is a re-check of the task `j` whose answer closes it: the run that this very call made of
  -- the engine evaluated the task's rule and found no breach of it, or the fact that an amendment's
  -- task stands for holds of the rules and the document that the call was given.
  abbrev pub Closes : {s s' : RemediationStore} → String → Step s s' → Type 0
  Closes j (lifecycle c _ _) = ⊥
  Closes j (opened_for_action a m now) = ⊥
  Closes {s = s} j (rechecked id os evidence by today calendar now _) =
      (id ≡ j)
      × ((t : RemediationTask) × (report : GapReport) × (get id s.tasks ≡ some t)
          × (run (or_else calendar weekends_only) (subject t os) evidence now today 365 ≡ ok report)
          × (was_evaluated t report ≡ true)
          × (any (is_breach_of t) report.findings ≡ false))
  Closes {s = s} j (amendment_rechecked id os tree by at now _) =
      (id ≡ j) × ((t : RemediationTask) × (get id s.tasks ≡ some t) × Fact t os tree)

  -- Of the steps that were taken, one closed the task, and it was finished after each step since.
  abbrev pub IsJustified : {s : RemediationStore} → String → Reaches s → Type 0
  IsJustified j start = ⊥
  IsJustified j (then_step {s = s} r step) =
      Closes j step ⊎ ((is_finished (status_of s j) ≡ true) × IsJustified j r)
