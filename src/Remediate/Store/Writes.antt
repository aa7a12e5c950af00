-- ===== src/Remediate/Store/Writes.antt =====
-- Every lifecycle method is a run of paired writes: a task set, and an entry that says its status.
use sanhita.Prelude.{
  ℕ, String, ◌≡◌, refl, Bool, List, [], ◌∷◌, ◌++◌, Option, none, some, ok, err, str_eq,
  if◌then◌else◌, arith, get_last?, get_last?-append, select-append, append-nil, Bool-cases, inl,
  inr,
}
use sanhita.Prelude.Dict.{get, get-put}
use sanhita.Remediate.Log.{EntryPayload, TaskEntry, Draft, make_entry, append, verify, for_task}
use sanhita.Remediate.Log.Integrity.{verify-append}
use sanhita.Remediate.Task.{TaskStatus, status_value, RemediationTask}
use sanhita.Remediate.Store.{
  RemediationStore, Outcome, GapRequest, set_task, log_entry, open_for_gap, assign, set_status,
  attach_evidence,
}
use sanhita.Remediate.Store.Recheck.{recheck}

-- A call of one of the lifecycle methods, with the clock's reading.
pub data Call : Type 0 where
  call_open : GapRequest → ℕ → Call
  call_assign : String → String → String → String → String → ℕ → Call
  call_set_status : String → TaskStatus → String → String → ℕ → Call
  call_attach : String → List String → String → String → ℕ → Call
  call_recheck : String → Bool → String → String → Option ℕ → ℕ → Call

-- The entry for a write of the task under `id`.
pub record Says (id : String) (t : RemediationTask) (d : Draft) : Type 0 where
  pub of_task : d.task_id ≡ id
  pub of_status : d.to_status ≡ status_value t.status

-- The status that a store gives a task.
unfoldable pub status_of : RemediationStore → String → Option TaskStatus
status_of s id = elim (get id s.tasks) [ none ↦ none | some t ↦ some t.status ]

abbrev said : Option TaskEntry → Option String
said none = none
said (some e) = some e.to_status

-- The status that the log's last entry for a task gives it.
unfoldable pub last_status : RemediationStore → String → Option String
last_status s id = said (get_last? (for_task id s.log))

last_for_task :
    (j : String) (es : List TaskEntry) (e : TaskEntry)
    → get_last? (for_task j (es ++ e ∷ []))
      ≡ (if str_eq e.task_id j then some e else get_last? (for_task j es))
last_for_task j es e =
    rw (select-append (λ (e : TaskEntry). str_eq e.task_id j) es (e ∷ []))
      (elim (Bool-cases (str_eq e.task_id j)) [
        | inl h ↦ rw h (get_last?-append (for_task j es) e)
        | inr h ↦ rw (h, append-nil) refl
      ])

abbrev pub value_of : Option TaskStatus → Option String
value_of none = none
value_of (some st) = some (status_value st)

module _ (sha256_hex : EntryPayload → String) where
  unfoldable pub perform : RemediationStore → Call → Outcome
  perform s (call_open q now) = ok (open_for_gap sha256_hex s q now)
  perform s (call_assign id owner by team note now) = assign sha256_hex s id owner by team note now
  perform s (call_set_status id status by note now) = set_status sha256_hex s id status by note now
  perform s (call_attach id ids by note now) = attach_evidence sha256_hex s id ids by note now
  perform s (call_recheck id still_failing by detail at now) =
      recheck sha256_hex s id still_failing by detail at now

  abbrev pub settle : RemediationStore → Outcome → RemediationStore
  settle s (ok (t, _)) = t
  settle s (err _) = s

  unfoldable pub run : RemediationStore → List Call → RemediationStore
  unfolding perform
  run s [] = s
  run s (c ∷ cs) = run (settle s (perform s c)) cs

  abbrev pub write_pair : RemediationStore → String → RemediationTask → Draft → ℕ → RemediationStore
  write_pair s id t d now = log_entry sha256_hex (set_task s id t) d now

  pub data Writes (s : RemediationStore) : RemediationStore → Type 0 where
    done : Writes s s
    write :
        {m : RemediationStore}
        → Writes s m
        → (id : String) (t : RemediationTask) (d : Draft) (now : ℕ) → Says id t d
        → Writes s (write_pair m id t d now)

  pub status_of-write_pair :
      (s : RemediationStore) (id : String) (t : RemediationTask) (d : Draft) (now : ℕ) (j : String)
      → status_of (write_pair s id t d now) j
        ≡ (if str_eq id j then some t.status else status_of s j)
  unfolding status_of log_entry set_task
  status_of-write_pair s id t d now j = ground (arith, get-put id j t s.tasks)

  pub last_status-write_pair :
      (s : RemediationStore) (id : String) (t : RemediationTask) (d : Draft) (now : ℕ) (j : String)
      → last_status (write_pair s id t d now) j
        ≡ (if str_eq d.task_id j then some d.to_status else last_status s j)
  unfolding last_status log_entry set_task append make_entry
  last_status-write_pair s id t d now j =
      ground (arith, last_for_task j s.log (make_entry sha256_hex s.log d now))

  pub verify-write_pair :
      (s : RemediationStore) (id : String) (t : RemediationTask) (d : Draft) (now : ℕ)
      → verify sha256_hex s.log ≡ none
      → verify sha256_hex (write_pair s id t d now).log ≡ none
  unfolding log_entry set_task
  verify-write_pair s id t d now h = verify-append sha256_hex s.log d now h
