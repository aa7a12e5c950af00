-- ===== src/Remediate/Store.antt =====
-- remediate/tasks.py: the store of tasks and its lifecycle. A method that raises has written nothing.
pub mod Recheck
pub mod Writes
pub mod Outcomes
pub mod Trace
pub mod Closing
pub mod Lifecycle
pub mod Reading
use Prim.Native.String.{String}
use sanhita.Prelude.{
  ℕ, suc, ◌+◌, ◌≡◌, Bool, true, false, not, ◌&&◌, ◌||◌, List, [], ◌∷◌, ◌++◌, Option, none, some,
  Result, ok, err, ◌>>=◌, ◌>>◌, raise_if, or_else, length, str_eq, if◌then◌else◌, ltb, leb, ◌==◌,
  count, find, any, select, map,
}
use sanhita.Prelude.Dict.{Dict, get, put, values}
use sanhita.Prelude.Sort.{sort, member}
use sanhita.Prelude.Text.{◌⧺◌, non_empty, or_text, strip, show, text_le}
use sanhita.Dates.{Date, date_lt, date_eq}
use sanhita.Remediate.Log.{Transition, Detail, EntryPayload, TaskEntry, Draft, append}
use sanhita.Remediate.Task.{
  TaskStatus, opened, in_progress, awaiting_evidence, ready_for_recheck, verified, closed, reopened,
  status_value, is_open, Priority, medium, priority_value, RemediationTask, is_overdue,
}

pub data RemediationError : Type 0 where
  no_task no_owner set_by_hand no_evidence : RemediationError

pub record RemediationStore : Type 0 where
  pub tasks : Dict RemediationTask
  pub log : List TaskEntry

abbrev pub empty : RemediationStore
empty = record { tasks = []; log = [] }

-- `clause_id.replace(" ", "")`
unfoldable pub drop_spaces : String → String
drop_spaces String.[] = String.[]
drop_spaces (String.◌∷◌ c s) =
    if str_eq (String.◌∷◌ c String.[]) " " then drop_spaces s else String.◌∷◌ c (drop_spaces s)

-- `f"{n:03d}"`
abbrev pub pad3 : ℕ → String
pad3 n = if ltb n 10 then "00" ⧺ show n else if ltb n 100 then "0" ⧺ show n else show n

unfoldable pub next_id : RemediationStore → String → String
unfolding drop_spaces
next_id s clause_id =
    let existing = count (λ (t : RemediationTask). str_eq t.clause_id clause_id) (values s.tasks) in
    "REM-" ⧺ drop_spaces clause_id ⧺ "-" ⧺ pad3 (existing + 1)

-- The arguments of `open_for_gap`.
pub record GapRequest : Type 0 where
  pub gap_id : String
  pub obligation_id : String
  pub clause_id : String
  pub company : String
  pub title : String
  pub by : String
  pub remediation_action : String
  pub evidence_required : String
  pub owner : String
  pub assigned_team : String
  pub priority : Priority
  pub due_date : Option Date
  pub source_rule_version : String
  pub at : Option ℕ

abbrev pub Outcome : Type 0
Outcome = Result RemediationError (RemediationStore × RemediationTask)

abbrev pub require : RemediationStore → String → Result RemediationError RemediationTask
require s id = elim (get id s.tasks) [ none ↦ err no_task | some t ↦ ok t ]

-- An assignment to fields of the task that the store holds under `id`.
unfoldable pub set_task : RemediationStore → String → RemediationTask → RemediationStore
set_task s id t = record s { tasks = put id t s.tasks }

-- The open task of a gap, if there is one.
unfoldable pub open_task : RemediationStore → String → Option RemediationTask
open_task s gap_id =
    find (λ (t : RemediationTask). str_eq t.gap_id gap_id && is_open t.status) (values s.tasks)

unfoldable pub new_task : RemediationStore → GapRequest → ℕ → RemediationTask
new_task s q moment = record {
  task_id = next_id s q.clause_id;
  gap_id = q.gap_id;
  obligation_id = q.obligation_id;
  clause_id = q.clause_id;
  company = q.company;
  title = q.title;
  remediation_action = q.remediation_action;
  evidence_required = q.evidence_required;
  owner = strip q.owner;
  assigned_team = strip q.assigned_team;
  priority = q.priority;
  status = opened;
  created_at = some moment;
  due_date = q.due_date;
  closed_at = none;
  evidence_ids = [];
  verified_by = "";
  verified_at = none;
  last_recheck_result = "";
  last_recheck_at = none;
  recheck_count = 0;
  source_rule_version = q.source_rule_version;
  change_kind = "";
  change_now_at = "";
  amended_from = "";
  amended_to = "";
}

-- The loop of `attach_evidence`: ids not there yet are added in order.
unfoldable pub add_ids : List String → List String → List String
add_ids have [] = have
add_ids have (i ∷ is) = add_ids (if member i have then have else have ++ i ∷ []) is

abbrev pub no_ids : List String → Bool
no_ids [] = true
no_ids (i ∷ is) = false

abbrev pub is_earned : TaskStatus → Bool
is_earned verified = true
is_earned closed = true
is_earned _ = false

module _ (sha256_hex : EntryPayload → String) where
  -- `self.log.append`
  unfoldable pub log_entry : RemediationStore → Draft → ℕ → RemediationStore
  log_entry s d now = record s { log = append sha256_hex s.log d now }

  abbrev pub task_draft :
      String → Transition → String → Option TaskStatus → TaskStatus → String → Draft
  task_draft id transition actor from to note = record {
    task_id = id;
    transition = transition;
    actor = actor;
    from_status = elim from [ none ↦ none | some f ↦ some (status_value f) ];
    to_status = status_value to;
    note = note;
    detail = [];
    at = none;
  }

  abbrev pub created_draft : GapRequest → RemediationTask → ℕ → Draft
  created_draft q t moment =
      record (task_draft t.task_id Transition.created q.by none t.status q.title) {
        detail =
            ("obligation_id", Detail.text q.obligation_id)
            ∷ ("clause_id", Detail.text q.clause_id)
            ∷ ("gap_id", Detail.text q.gap_id)
            ∷ ("due_date", elim q.due_date [ none ↦ Detail.nothing | some d ↦ Detail.day d ])
            ∷ ("priority", Detail.text (priority_value q.priority))
            ∷ [];
        at = some moment;
      }

  -- `now` is the clock's reading.
  unfoldable pub open_for_gap :
      RemediationStore → GapRequest → ℕ → RemediationStore × RemediationTask
  open_for_gap s q now = elim (open_task s q.gap_id) [
    | some t ↦ (s, t)
    | none ↦
        let moment = or_else q.at now in
        let t = new_task s q moment in
        (log_entry (set_task s t.task_id t) (created_draft q t moment) moment, t)
  ]

  abbrev pub assigned_task : RemediationTask → String → String → RemediationTask
  assigned_task t owner team = record t {
    owner = strip owner;
    assigned_team = if non_empty team then strip team else t.assigned_team;
    status = elim t.status [ TaskStatus.opened ↦ in_progress | other ↦ other ];
  }

  abbrev pub assigned_draft : String → RemediationTask → RemediationTask → String → String → Draft
  assigned_draft id before t by note =
      record (task_draft id Transition.assigned by (some before.status) t.status
        (or_text note ("assigned to " ⧺ t.owner))) {
          detail = ("owner", Detail.text t.owner) ∷ ("team", Detail.text t.assigned_team) ∷ [];
        }

  unfoldable pub assign :
      RemediationStore → String → String → String → String → String → ℕ → Outcome
  assign s id owner by team note now = do
    before ← require s id
    raise_if (not (non_empty (strip owner))) no_owner
    let t = assigned_task before owner team
    ok (log_entry (set_task s id t) (assigned_draft id before t by note) now, t)

  unfoldable pub set_status : RemediationStore → String → TaskStatus → String → String → ℕ → Outcome
  set_status s id status by note now = do
    before ← require s id
    raise_if (is_earned status) set_by_hand
    let t = record before { status = status }
    ok (
      log_entry (set_task s id t)
          (task_draft id Transition.status_changed by (some before.status) status note) now,
      t,
    )

  abbrev pub attached_draft : String → RemediationTask → List String → String → String → Draft
  attached_draft id before ids by note =
      record (task_draft id Transition.evidence_attached by (some before.status) ready_for_recheck
        (or_text note (show (length ids) ⧺ " evidence item(s) attached"))) {
          detail = ("evidence_ids", Detail.texts ids) ∷ [];
        }

  unfoldable pub attach_evidence :
      RemediationStore → String → List String → String → String → ℕ → Outcome
  attach_evidence s id ids by note now = do
    before ← require s id
    raise_if (no_ids ids) no_evidence
    let t = record before {
      evidence_ids = add_ids before.evidence_ids ids;
      status = ready_for_recheck;
    }
    ok (log_entry (set_task s id t) (attached_draft id before ids by note) now, t)
