-- ===== src/Amend/Plan.antt =====
-- change.py: what one firm has to do about an amendment.
pub mod Agrees
pub mod Words
use sanhita.Prelude.{
  ℕ, ◌+◌, ◌-◌, String, Bool, true, false, not, ◌&&◌, ◌||◌, List, [], ◌∷◌, ◌++◌, map, Option, none,
  some, select, count, length, str_eq, or_else, if◌then◌else◌, ltb, ◌==◌,
}
use sanhita.Prelude.Dict.{Dict, get}
use sanhita.Prelude.Sort.{sort}
use sanhita.Prelude.Text.{non_empty, text_le, strip, show, ◌⧺◌}
use sanhita.Ir.Schema.{Obligation}
use sanhita.Amend.Impact.{Consequence, AffectedRule, ImpactReport, signatures_lost}

pub data ActionKind : Type 0 where
  recertify withdraw repoint reread assess_new : ActionKind

abbrev pub is_reread_kind : ActionKind → Bool
is_reread_kind ActionKind.reread = true
is_reread_kind _ = false

abbrev pub kind_value : ActionKind → String
kind_value ActionKind.recertify = "RECERTIFY"
kind_value ActionKind.withdraw = "WITHDRAW"
kind_value ActionKind.repoint = "REPOINT"
kind_value ActionKind.reread = "REREAD"
kind_value ActionKind.assess_new = "ASSESS_NEW"

abbrev pub kind_label : ActionKind → String
kind_label ActionKind.recertify = "Re-certify the rule"
kind_label ActionKind.withdraw = "Withdraw the rule"
kind_label ActionKind.repoint = "Repoint the citation"
kind_label ActionKind.reread = "Read it again"
kind_label ActionKind.assess_new = "Decide whether this applies"

abbrev pub urgency : ActionKind → ℕ
urgency ActionKind.recertify = 0
urgency ActionKind.withdraw = 1
urgency ActionKind.reread = 2
urgency ActionKind.assess_new = 3
urgency ActionKind.repoint = 4

-- `_FROM_CONSEQUENCE.get`
abbrev pub from_consequence : Consequence → Option ActionKind
from_consequence Consequence.recertify = some ActionKind.recertify
from_consequence Consequence.withdraw = some ActionKind.withdraw
from_consequence Consequence.repoint = some ActionKind.repoint
from_consequence Consequence.reread = some ActionKind.reread
from_consequence Consequence.recompile = none

abbrev pub is_recompile : Consequence → Bool
is_recompile Consequence.recompile = true
is_recompile _ = false

-- `ControlBinding` of controls.py: who in the firm discharges a rule.
pub record ControlBinding : Type 0 where
  pub obligation_id : String
  pub function : String
  pub process : String
  pub system : String
  pub control_ref : String
  pub bound_by : String
  pub bound_at : Option ℕ
  pub note : String

pub record RequiredAction : Type 0 where
  pub kind : ActionKind
  pub obligation_id : String
  pub clause_id : String
  pub requirement : String
  pub was_certified : Bool
  pub certified_by : Option String
  pub now_at : Option String
  pub via : Option String
  pub hops : Option ℕ
  pub process : String
  pub function : String
  pub system : String
  pub control_ref : String

abbrev pub is_owned : RequiredAction → Bool
is_owned a = non_empty a.function || non_empty a.process

-- `touches_operations`
unfoldable pub touches_operations : RequiredAction → Bool
touches_operations a = elim a.kind [
  | ActionKind.recertify ↦ is_owned a
  | ActionKind.withdraw ↦ is_owned a
  | _ ↦ false
]

pub record ChangePlan : Type 0 where
  pub firm : String
  pub framework : String
  pub before_label : String
  pub after_label : String
  pub actions : List RequiredAction
  pub unaffected : ℕ

unfoldable pub plan_signatures_lost : ChangePlan → ℕ
plan_signatures_lost p =
    count (λ (a : RequiredAction). a.was_certified && not (is_reread_kind a.kind)) p.actions

unfoldable pub unowned : ChangePlan → ℕ
unowned p = count (λ (a : RequiredAction). not (is_owned a)) p.actions

-- `{o.id: o for o in obligations}.get(id)`: the last rule with the id.
unfoldable pub rule_with_id : List Obligation → String → Option Obligation
rule_with_id [] id = none
rule_with_id (o ∷ os) id = elim (rule_with_id os id) [
  | some p ↦ some p
  | none ↦ if str_eq o.id id then some o else none
]

abbrev pub requirement_text : Option Obligation → String
requirement_text none = ""
requirement_text (some o) = strip (o.action.verb ⧺ " " ⧺ o.action.object)

-- `getattr(binding, field, "") or ""`
abbrev pub bound : (ControlBinding → String) → Option ControlBinding → String
bound field none = ""
bound field (some b) = field b

-- `_action`; a firm without a control store binds nothing.
unfoldable pub action_of :
    AffectedRule → ActionKind → List Obligation → Dict ControlBinding → RequiredAction
unfolding rule_with_id get strip
action_of a kind os controls =
    let binding = get a.obligation_id controls in
    record {
      kind = kind;
      obligation_id = a.obligation_id;
      clause_id = a.clause_id;
      requirement = requirement_text (rule_with_id os a.obligation_id);
      was_certified = a.was_certified;
      certified_by = a.certified_by;
      now_at = a.now_at;
      via = a.via;
      hops = a.hops;
      process = bound (λ b. b.process) binding;
      function = bound (λ b. b.function) binding;
      system = bound (λ b. b.system) binding;
      control_ref = bound (λ b. b.control_ref) binding;
    }

abbrev pub assess_action : String → RequiredAction
assess_action clause_id = record {
  kind = ActionKind.assess_new;
  obligation_id = "";
  clause_id = clause_id;
  requirement = "";
  was_certified = false;
  certified_by = none;
  now_at = none;
  via = none;
  hops = none;
  process = "";
  function = "";
  system = "";
  control_ref = "";
}

-- The loop over the affected rules.
unfoldable pub rule_actions :
    List Obligation → Dict ControlBinding → Bool → List AffectedRule → List RequiredAction
unfolding action_of
rule_actions os controls include_uncertified [] = []
rule_actions os controls include_uncertified (a ∷ affected) =
    let rest = rule_actions os controls include_uncertified affected in
    if is_recompile a.consequence && not include_uncertified
    then rest
    else elim (from_consequence a.consequence) [
      | none ↦ rest
      | some kind ↦ action_of a kind os controls ∷ rest
    ]

abbrev pub action_le : RequiredAction → RequiredAction → Bool
action_le a b =
    ltb (urgency a.kind) (urgency b.kind)
    || ((urgency a.kind == urgency b.kind) && text_le a.clause_id b.clause_id)

unfoldable pub plan_for_firm :
    ImpactReport → List Obligation → Dict ControlBinding → String → String → Bool → ChangePlan
unfolding rule_actions sort
plan_for_firm report os controls firm framework include_uncertified = record {
  firm = firm;
  framework = framework;
  before_label = report.before_label;
  after_label = report.after_label;
  actions = sort action_le (
      rule_actions os controls include_uncertified report.affected
      ++ map assess_action report.new_clauses);
  unaffected = report.certified_before - signatures_lost report;
}
