-- ===== src/Remediate/Task.antt =====
-- remediate/tasks.py: the task and its derived properties.
use sanhita.Prelude.{ℕ, String, Bool, true, false, ◌&&◌, List, Option, none, some}
use sanhita.Prelude.Int.{ℤ}
use sanhita.Prelude.Text.{non_empty}
use sanhita.Dates.{Date, date_lt, days_between}

pub data TaskStatus : Type 0 where
  opened in_progress awaiting_evidence ready_for_recheck verified closed reopened : TaskStatus

abbrev pub status_value : TaskStatus → String
status_value opened = "OPEN"
status_value in_progress = "IN_PROGRESS"
status_value awaiting_evidence = "AWAITING_EVIDENCE"
status_value ready_for_recheck = "READY_FOR_RECHECK"
status_value verified = "VERIFIED"
status_value closed = "CLOSED"
status_value reopened = "REOPENED"

abbrev pub is_open : TaskStatus → Bool
is_open verified = false
is_open closed = false
is_open _ = true

abbrev pub awaiting_work : TaskStatus → Bool
awaiting_work opened = true
awaiting_work in_progress = true
awaiting_work awaiting_evidence = true
awaiting_work reopened = true
awaiting_work _ = false

pub data Priority : Type 0 where
  high medium low : Priority

abbrev pub priority_value : Priority → String
priority_value high = "HIGH"
priority_value medium = "MEDIUM"
priority_value low = "LOW"

pub record RemediationTask : Type 0 where
  pub task_id : String
  pub gap_id : String
  pub obligation_id : String
  pub clause_id : String
  pub company : String
  pub title : String
  pub remediation_action : String
  pub evidence_required : String
  pub owner : String
  pub assigned_team : String
  pub priority : Priority
  pub status : TaskStatus
  pub created_at : Option ℕ
  pub due_date : Option Date
  pub closed_at : Option ℕ
  pub evidence_ids : List String
  pub verified_by : String
  pub verified_at : Option ℕ
  pub last_recheck_result : String
  pub last_recheck_at : Option ℕ
  pub recheck_count : ℕ
  pub source_rule_version : String
  pub change_kind : String
  pub change_now_at : String
  pub amended_from : String
  pub amended_to : String

abbrev pub is_from_an_amendment : RemediationTask → Bool
is_from_an_amendment t = non_empty t.change_kind

-- `today` is the date that the caller gives, or the clock's.
unfoldable pub is_overdue : RemediationTask → Date → Bool
is_overdue t today = elim t.due_date [
  | none ↦ false
  | some due ↦ is_open t.status && date_lt due today
]

unfoldable pub days_remaining : RemediationTask → Date → Option ℤ
days_remaining t today = elim t.due_date [ none ↦ none | some due ↦ some (days_between due today) ]
