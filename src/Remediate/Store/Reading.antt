-- ===== src/Remediate/Store/Reading.antt =====
-- remediate/tasks.py: what is read from a store. Nothing is stored of it.
use sanhita.Prelude.{
  ℕ, String, Bool, ◌&&◌, ◌||◌, List, [], ◌∷◌, map, Option, none, some, select, find, count, length,
  str_eq, ltb, ◌==◌,
}
use sanhita.Prelude.Dict.{Dict, values}
use sanhita.Prelude.Sort.{sort}
use sanhita.Prelude.Text.{text_le}
use sanhita.Dates.{Date, date_lt, date_eq}
use sanhita.Remediate.Task.{
  TaskStatus, opened, in_progress, awaiting_evidence, ready_for_recheck, verified, closed, reopened,
  status_value, is_open, RemediationTask, is_overdue,
}
use sanhita.Remediate.Store.{RemediationStore}

abbrev pub status_order : TaskStatus → ℕ
status_order reopened = 0
status_order opened = 1
status_order in_progress = 2
status_order awaiting_evidence = 3
status_order ready_for_recheck = 4
status_order verified = 5
status_order closed = 6

-- `date.max`
abbrev pub last_day : Date
last_day = record { year = 9999; month = 12; day = 31 }

abbrev pub due_or_last : Option Date → Date
due_or_last none = last_day
due_or_last (some d) = d

abbrev pub task_le : RemediationTask → RemediationTask → Bool
task_le a b =
    ltb (status_order a.status) (status_order b.status)
    || ((status_order a.status == status_order b.status)
        && (date_lt (due_or_last a.due_date) (due_or_last b.due_date)
            || (date_eq (due_or_last a.due_date) (due_or_last b.due_date)
                && text_le a.task_id b.task_id)))

unfoldable pub all_tasks : RemediationStore → List RemediationTask
unfolding sort values
all_tasks s = sort task_le (values s.tasks)

unfoldable pub open_tasks : RemediationStore → List RemediationTask
unfolding all_tasks
open_tasks s = select (λ (t : RemediationTask). is_open t.status) (all_tasks s)

unfoldable pub for_obligation : RemediationStore → String → List RemediationTask
unfolding all_tasks
for_obligation s id = select (λ (t : RemediationTask). str_eq t.obligation_id id) (all_tasks s)

unfoldable pub for_gap : RemediationStore → String → Option RemediationTask
unfolding all_tasks
for_gap s gap_id = find (λ (t : RemediationTask). str_eq t.gap_id gap_id) (all_tasks s)

-- `a is b`, for two statuses.
abbrev pub same_status : TaskStatus → TaskStatus → Bool
same_status a b = status_order a == status_order b

pub record Summary : Type 0 where
  pub total : ℕ
  pub still_open : ℕ
  pub closed_tasks : ℕ
  pub overdue : ℕ
  pub awaiting : ℕ
  pub ready : ℕ
  pub by_status : Dict ℕ

abbrev pub in_status : List RemediationTask → TaskStatus → ℕ
in_status ts st = count (λ (t : RemediationTask). same_status t.status st) ts

-- The statuses, as the enumeration has them.
abbrev pub statuses : List TaskStatus
statuses =
    opened ∷ in_progress ∷ awaiting_evidence ∷ ready_for_recheck ∷ verified ∷ closed ∷ reopened ∷ []

unfoldable pub summary : RemediationStore → Date → Summary
unfolding is_overdue values
summary s today =
    let ts = values s.tasks in
    record {
      total = length ts;
      still_open = count (λ (t : RemediationTask). is_open t.status) ts;
      closed_tasks = in_status ts closed;
      overdue = count (λ (t : RemediationTask). is_overdue t today) ts;
      awaiting = in_status ts awaiting_evidence;
      ready = in_status ts ready_for_recheck;
      by_status = map (λ st. (status_value st, in_status ts st)) statuses;
    }
