-- ===== src/Amend/Impact.antt =====
-- diff/impact.py: what an amendment does to the rules that were signed.
pub mod Covers
pub mod Bounds
pub mod Unchanged
use sanhita.Prelude.{
  ℕ, ◌+◌, ◌-◌, String, Bool, true, false, not, ◌&&◌, ◌||◌, List, [], ◌∷◌, ◌++◌, map, Option, none,
  some, select, count, str_eq, if◌then◌else◌,
}
use sanhita.Prelude.Dict.{Dict}
use sanhita.Prelude.Sort.{sort, member, sorted_set}
use sanhita.Prelude.Text.{text_le}
use sanhita.Ir.Enums.{RuleStatus, is_certified}
use sanhita.Ir.Schema.{Certification, Obligation}
use sanhita.Amend.Diff.{ChangeKind, ClauseChange, TreeDiff}
use sanhita.Amend.References.{ReferenceGraph, dependents_of}

pub data Consequence : Type 0 where
  recertify withdraw repoint recompile reread : Consequence

abbrev pub is_reread : Consequence → Bool
is_reread Consequence.reread = true
is_reread _ = false

pub record AffectedRule : Type 0 where
  pub obligation_id : String
  pub clause_id : String
  pub consequence : Consequence
  pub change : ChangeKind
  pub was_certified : Bool
  pub certified_by : Option String
  pub signature : Option String
  pub now_at : Option String
  pub via : Option String
  pub hops : Option ℕ

abbrev pub loses_a_signature : AffectedRule → Bool
loses_a_signature a = a.was_certified && not (is_reread a.consequence)

pub record ImpactReport : Type 0 where
  pub before_label : String
  pub after_label : String
  pub certified_before : ℕ
  pub affected : List AffectedRule
  pub new_clauses : List String

unfoldable pub signatures_lost : ImpactReport → ℕ
signatures_lost r = count loses_a_signature r.affected

unfoldable pub certified_after : ImpactReport → ℕ
certified_after r = r.certified_before - signatures_lost r

unfoldable pub needing_reread : ImpactReport → List AffectedRule
needing_reread r =
    select (λ (a : AffectedRule). is_reread a.consequence && a.was_certified) r.affected

-- `_CONSEQUENCE.get`
abbrev pub consequence_of : ChangeKind → Option Consequence
consequence_of ChangeKind.modified = some Consequence.recertify
consequence_of ChangeKind.removed = some Consequence.withdraw
consequence_of ChangeKind.renumbered = some Consequence.repoint
consequence_of ChangeKind.added = none
consequence_of ChangeKind.unchanged = none

abbrev pub is_hit : ChangeKind → Bool
is_hit ChangeKind.modified = true
is_hit ChangeKind.removed = true
is_hit ChangeKind.renumbered = true
is_hit _ = false

abbrev pub is_added : ChangeKind → Bool
is_added ChangeKind.added = true
is_added _ = false

-- Rejected and superseded rules have nothing to lose.
abbrev pub is_inert : RuleStatus → Bool
is_inert RuleStatus.rejected = true
is_inert RuleStatus.superseded = true
is_inert _ = false

-- `by_clause.get(id, [])`
unfoldable pub at_clause : List Obligation → String → List Obligation
at_clause os id = select (λ (o : Obligation). str_eq o.source.clause_id id) os

abbrev signer : Option Certification → Option String
signer none = none
signer (some c) = some c.certified_by

abbrev signature_of : Option Certification → Option String
signature_of none = none
signature_of (some c) = some c.signature

abbrev pub direct_hit : Consequence → ClauseChange → Obligation → AffectedRule
direct_hit consequence c o =
    let certified = is_certified o.status in
    record {
      obligation_id = o.id;
      clause_id = c.clause_id;
      consequence = if certified then consequence else Consequence.recompile;
      change = c.kind;
      was_certified = certified;
      certified_by = if certified then signer o.certification else none;
      signature = if certified then signature_of o.certification else none;
      now_at = c.now_at;
      via = none;
      hops = none;
    }

-- The inner loop, over the rules of a changed clause.
unfoldable pub hits_at : Consequence → ClauseChange → List Obligation → List AffectedRule
hits_at consequence c [] = []
hits_at consequence c (o ∷ os) =
    let rest = hits_at consequence c os in
    if is_inert o.status then rest else direct_hit consequence c o ∷ rest

unfoldable pub hits_of : List Obligation → ClauseChange → List AffectedRule
unfolding hits_at at_clause
hits_of os c = elim (consequence_of c.kind) [
  | none ↦ []
  | some consequence ↦ hits_at consequence c (at_clause os c.clause_id)
]

unfoldable pub direct_hits : List Obligation → List ClauseChange → List AffectedRule
unfolding hits_of
direct_hits os [] = []
direct_hits os (c ∷ cs) = hits_of os c ++ direct_hits os cs

-- The added clauses that no rule is compiled from.
unfoldable pub new_clauses_of : List Obligation → List ClauseChange → List String
new_clauses_of os [] = []
new_clauses_of os (c ∷ cs) =
    let rest = new_clauses_of os cs in
    if is_added c.kind && not (member c.clause_id (map (λ (o : Obligation). o.source.clause_id) os))
    then c.clause_id ∷ rest
    else rest

abbrev pub indirect_hit : String → String → ℕ → Obligation → AffectedRule
indirect_hit changed citer hops o =
    let certified = is_certified o.status in
    record {
      obligation_id = o.id;
      clause_id = citer;
      consequence = Consequence.reread;
      change = ChangeKind.unchanged;
      was_certified = certified;
      certified_by = if certified then signer o.certification else none;
      signature = if certified then signature_of o.certification else none;
      now_at = none;
      via = some changed;
      hops = some hops;
    }

-- The affected rules so far; `already` is their ids.
abbrev pub already_hit : List AffectedRule → String → Bool
already_hit affected id = member id (map (λ (a : AffectedRule). a.obligation_id) affected)

unfoldable pub reread_rules :
    String → String → ℕ → List Obligation → List AffectedRule → List AffectedRule
reread_rules changed citer hops [] affected = affected
reread_rules changed citer hops (o ∷ os) affected = reread_rules changed citer hops os (
    if already_hit affected o.id || is_inert o.status
    then affected
    else affected ++ indirect_hit changed citer hops o ∷ [])

unfoldable pub reread_citers :
    List Obligation
    → List String
    → String
    → List (String × ℕ)
    → List AffectedRule
    → List AffectedRule
unfolding reread_rules at_clause
reread_citers os hit changed [] affected = affected
reread_citers os hit changed ((citer, hops) ∷ citers) affected =
    reread_citers os hit changed citers (
      if member citer hit
      then affected
      else reread_rules changed citer hops (at_clause os citer) affected)

unfoldable pub reread_all :
    List Obligation
    → ReferenceGraph
    → List String
    → List String
    → List AffectedRule
    → List AffectedRule
unfolding reread_citers dependents_of sort
reread_all os g hit [] affected = affected
reread_all os g hit (changed ∷ rest) affected = reread_all os g hit rest (
    reread_citers os hit changed (sort (λ a b. text_le a.0 b.0) (dependents_of g changed)) affected)

abbrev pub hit_clauses : List ClauseChange → List String
hit_clauses cs =
    map (λ (c : ClauseChange). c.clause_id) (select (λ (c : ClauseChange). is_hit c.kind) cs)

unfoldable pub second_order :
    List Obligation
    → List ClauseChange
    → Option ReferenceGraph
    → List AffectedRule
    → List AffectedRule
unfolding reread_all sorted_set
second_order os cs none affected = affected
second_order os cs (some g) affected =
    reread_all os g (hit_clauses cs) (sorted_set (hit_clauses cs)) affected

abbrev pub affected_le : AffectedRule → AffectedRule → Bool
affected_le a b =
    if a.was_certified
    then (if b.was_certified then text_le a.clause_id b.clause_id else true)
    else (if b.was_certified then false else text_le a.clause_id b.clause_id)

unfoldable pub assess_impact : TreeDiff → List Obligation → Option ReferenceGraph → ImpactReport
unfolding second_order direct_hits new_clauses_of sort
assess_impact d os references = record {
  before_label = d.before_label;
  after_label = d.after_label;
  certified_before = count (λ (o : Obligation). is_certified o.status) os;
  affected = sort affected_le (second_order os d.changes references (direct_hits os d.changes));
  new_clauses = sort text_le (new_clauses_of os d.changes);
}
