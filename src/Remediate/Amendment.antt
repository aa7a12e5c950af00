-- ===== src/Remediate/Amendment.antt =====
-- remediate/amendment.py: the tasks that an amendment opens, and the facts that close them.
pub mod Verdict
pub mod Recheck
use Prim.Native.String.{String}
use sanhita.Prelude.{
  ℕ, zero, suc, ◌+◌, Bool, true, false, not, ◌&&◌, ◌||◌, List, [], ◌∷◌, map, Option, none, some,
  Result, ok, err, ◌>>=◌, ◌>>◌, raise_if, or_else, select, find, length, str_eq, is_some,
  if◌then◌else◌, ltb,
}
use sanhita.Prelude.Dict.{Dict, get}
use sanhita.Prelude.Sort.{sorted_set}
use sanhita.Prelude.Text.{show, join, take_text, ◌⧺◌, non_empty, or_text}
use sanhita.Dates.{Date}
use sanhita.Ir.Enums.{RuleStatus, is_certified}
use sanhita.Ir.Schema.{Certification, Obligation}
use sanhita.Amend.Clauses.{ClauseNode, ClauseTree, find_node}
use sanhita.Amend.Impact.{is_inert}
use sanhita.Amend.Plan.{ActionKind, kind_value, kind_label, RequiredAction}
use sanhita.Amend.Plan.Words.{describe}
use sanhita.Remediate.Log.{Transition, Detail, EntryPayload, Draft}
use sanhita.Remediate.Task.{
  TaskStatus, verified, closed, is_open, Priority, high, medium, RemediationTask,
}
use sanhita.Remediate.Store.{
  RemediationStore, RemediationError, GapRequest, require, set_task, log_entry, task_draft,
  open_for_gap,
}

-- `_EVIDENCE_REQUIRED`, which has every kind.
abbrev pub evidence_required_for : ActionKind → String
evidence_required_for ActionKind.recertify =
    "A certification over the clause's new characters, signed by a named officer. Nothing else closes this."
evidence_required_for ActionKind.repoint =
    "The rule anchored to the new clause number and signed over the text found there."
evidence_required_for ActionKind.withdraw = "The rule withdrawn from the live store."
evidence_required_for ActionKind.reread =
    "The rule signed again, dated after this amendment. The clause did not change, so a signature is the "
    ⧺ "only record that a person read it again."
evidence_required_for ActionKind.assess_new =
    "A rule compiled from the new clause and either certified or rejected. Either is a decision; leaving "
    ⧺ "it proposed is not."

abbrev pub default_priority : ActionKind → Priority
default_priority ActionKind.recertify = high
default_priority ActionKind.withdraw = high
default_priority _ = medium

-- `sha256_text` is the hexadecimal SHA-256 of a text's UTF-8 form.
unfoldable pub action_gap_id : (String → String) → RequiredAction → String → String → String
unfolding join take_text
action_gap_id sha256_text a before_fingerprint after_fingerprint =
    "AMD-"
    ⧺ take_text 12 (
        sha256_text (
          join "\u{1f}" (
            before_fingerprint
            ∷ after_fingerprint
            ∷ kind_value a.kind
            ∷ a.obligation_id
            ∷ a.clause_id
            ∷ [])))

-- The arguments of `open_for_action` besides the store, the action and the clock.
pub record Amendment : Type 0 where
  pub company : String
  pub by : String
  pub before_fingerprint : String
  pub after_fingerprint : String
  pub priority : Option Priority
  pub due_date : Option Date
  pub source_rule_version : String
  pub at : Option ℕ

unfoldable pub action_request : (String → String) → RequiredAction → Amendment → GapRequest
unfolding action_gap_id describe
action_request sha256_text a m = record {
  gap_id = action_gap_id sha256_text a m.before_fingerprint m.after_fingerprint;
  obligation_id = a.obligation_id;
  clause_id = a.clause_id;
  company = m.company;
  title = kind_label a.kind ⧺ ": clause " ⧺ a.clause_id;
  by = m.by;
  remediation_action = describe a;
  evidence_required = evidence_required_for a.kind;
  owner = "";
  assigned_team = a.function;
  priority = or_else m.priority (default_priority a.kind);
  due_date = m.due_date;
  source_rule_version = m.source_rule_version;
  at = m.at;
}

abbrev pub amended_task : RequiredAction → Amendment → RemediationTask → RemediationTask
amended_task a m t = record t {
  change_kind = kind_value a.kind;
  change_now_at = or_else a.now_at "";
  amended_from = m.before_fingerprint;
  amended_to = m.after_fingerprint;
}

-- The task that `open_for_gap` returned is the store's own object: the first open task of the gap,
-- where the store has it, gets the change.
unfoldable pub change_open :
    String → (RemediationTask → RemediationTask) → Dict RemediationTask → Dict RemediationTask
change_open gap_id change [] = []
change_open gap_id change ((k, t) ∷ d) =
    let rest = change_open gap_id change d in
    if str_eq t.gap_id gap_id && is_open t.status then (k, change t) ∷ d else (k, t) ∷ rest

unfoldable pub open_for_action :
    (EntryPayload → String)
    → (String → String)
    → RemediationStore
    → RequiredAction
    → Amendment
    → ℕ
    → RemediationStore × RemediationTask
unfolding open_for_gap action_request change_open
open_for_action sha256_hex sha256_text s a m now =
    let q = action_request sha256_text a m in
    let (s1, t) = open_for_gap sha256_hex s q now in
    (record s1 { tasks = change_open q.gap_id (amended_task a m) s1.tasks }, amended_task a m t)
