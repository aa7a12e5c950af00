-- ===== src/Amend/Plan/Agrees.antt =====
-- change.py: the plan of a firm counts the signatures that the report of the amendment counts.
use sanhita.Prelude.{
  ℕ, ◌≡◌, refl, ◌∙◌, String, Bool, true, false, not, ◌&&◌, List, [], ◌∷◌, ◌++◌, map, Option, none,
  some, arith, all, count, count-append, all-append,
}
use sanhita.Prelude.Dict.{Dict}
use sanhita.Prelude.Sort.{sort, count-sort, all-sort, sorted_set}
use sanhita.Prelude.Text.{text_le}
use sanhita.Ir.Schema.{Obligation}
use sanhita.Amend.Diff.{ChangeKind, ClauseChange, TreeDiff}
use sanhita.Amend.References.{ReferenceGraph, dependents_of}
use sanhita.Amend.Impact.{
  AffectedRule, Consequence, consequence_of, loses_a_signature, signatures_lost, at_clause, hits_at,
  hits_of, direct_hits, reread_rules, reread_citers, reread_all, second_order, assess_impact,
  affected_le, indirect_hit, hit_clauses,
}
use sanhita.Amend.Plan.{
  ControlBinding, RequiredAction, is_recompile, is_reread_kind, action_of, assess_action,
  rule_actions, action_le, plan_signatures_lost, plan_for_firm,
}

-- Only a rule that nobody signed is compiled again.
abbrev pub fits : AffectedRule → Bool
fits a = not (is_recompile a.consequence && a.was_certified)

consequence_fits :
    (k : ChangeKind) (c : Consequence) → consequence_of k ≡ some c → is_recompile c ≡ false
consequence_fits k c h = ground arith

hits_at-fits :
    (consequence : Consequence) (c : ClauseChange) (os : List Obligation)
    → is_recompile consequence ≡ false
    → all fits (hits_at consequence c os) ≡ true
unfolding hits_at
hits_at-fits consequence c [] h = refl
hits_at-fits consequence c (o ∷ os) h = ground (arith, hits_at-fits consequence c os h)

hits_of-fits : (os : List Obligation) (c : ClauseChange) → all fits (hits_of os c) ≡ true
unfolding hits_of
hits_of-fits os c = none_or (consequence_of c.kind) (consequence_fits c.kind)
  where
    none_or :
        (k : Option Consequence)
        → ((d : Consequence) → k ≡ some d → is_recompile d ≡ false)
        → all fits (elim k [ none ↦ [] | some d ↦ hits_at d c (at_clause os c.clause_id) ]) ≡ true
    none_or none each = refl
    none_or (some d) each = hits_at-fits d c (at_clause os c.clause_id) (each d refl)

direct_hits-fits :
    (os : List Obligation) (cs : List ClauseChange) → all fits (direct_hits os cs) ≡ true
unfolding direct_hits
direct_hits-fits os [] = refl
direct_hits-fits os (c ∷ cs) = ground (
  arith,
  all-append fits (hits_of os c) (direct_hits os cs),
  hits_of-fits os c,
  direct_hits-fits os cs,
)

reread_rules-fits :
    (changed citer : String) (hops : ℕ) (os : List Obligation) (affected : List AffectedRule)
    → all fits affected ≡ true
    → all fits (reread_rules changed citer hops os affected) ≡ true
unfolding reread_rules
reread_rules-fits changed citer hops [] affected h = h
reread_rules-fits changed citer hops (o ∷ os) affected h =
    reread_rules-fits changed citer hops os _
      (ground (arith, all-append fits affected (indirect_hit changed citer hops o ∷ [])))

reread_citers-fits :
    (os : List Obligation) (hit : List String) (changed : String) (citers : List (String × ℕ))
    (affected : List AffectedRule)
    → all fits affected ≡ true
    → all fits (reread_citers os hit changed citers affected) ≡ true
unfolding reread_citers
reread_citers-fits os hit changed [] affected h = h
reread_citers-fits os hit changed ((citer, hops) ∷ citers) affected h =
    reread_citers-fits os hit changed citers _
      (ground (arith, reread_rules-fits changed citer hops (at_clause os citer) affected h))

reread_all-fits :
    (os : List Obligation) (g : ReferenceGraph) (hit changes : List String)
    (affected : List AffectedRule)
    → all fits affected ≡ true
    → all fits (reread_all os g hit changes affected) ≡ true
unfolding reread_all
reread_all-fits os g hit [] affected h = h
reread_all-fits os g hit (changed ∷ rest) affected h =
    let citers = sort (λ a b. text_le a.0 b.0) (dependents_of g changed) in
    reread_all-fits os g hit rest (reread_citers os hit changed citers affected)
      (reread_citers-fits os hit changed citers affected h)

second_order-fits :
    (os : List Obligation) (cs : List ClauseChange) (references : Option ReferenceGraph)
    (affected : List AffectedRule)
    → all fits affected ≡ true
    → all fits (second_order os cs references affected) ≡ true
unfolding second_order
second_order-fits os cs none affected h = h
second_order-fits os cs (some g) affected h =
    reread_all-fits os g (hit_clauses cs) (sorted_set (hit_clauses cs)) affected h

abbrev action_loses : RequiredAction → Bool
action_loses a = a.was_certified && not (is_reread_kind a.kind)

count-rule_actions :
    (os : List Obligation) (controls : Dict ControlBinding) (inc : Bool)
    (affected : List AffectedRule)
    → all fits affected ≡ true
    → count action_loses (rule_actions os controls inc affected) ≡ count loses_a_signature affected
unfolding rule_actions action_of
count-rule_actions os controls inc [] h = refl
count-rule_actions os controls inc (a ∷ affected) h =
    ground (arith, count-rule_actions os controls inc affected)

count-assess_action : (ids : List String) → count action_loses (map assess_action ids) ≡ 0
count-assess_action [] = refl
count-assess_action (id ∷ ids) = omega (arith, count-assess_action ids)

-- Whatever the firm's controls, and whether rules that nobody signed are to be listed or not, the
-- plan made from the report of an amendment loses as many signatures as the report.
pub plan_signatures_lost_agrees :
    (d : TreeDiff) (os : List Obligation) (references : Option ReferenceGraph)
    (controls : Dict ControlBinding) (firm framework : String) (include_uncertified : Bool)
    → let report = assess_impact d os references in
      plan_signatures_lost (plan_for_firm report os controls firm framework include_uncertified)
      ≡ signatures_lost report
unfolding assess_impact plan_for_firm plan_signatures_lost signatures_lost
plan_signatures_lost_agrees d os references controls firm framework include_uncertified =
    let hits = direct_hits os d.changes in
    let found = second_order os d.changes references hits in
    let report = assess_impact d os references in
    let rules = rule_actions os controls include_uncertified report.affected in
    let new = map assess_action report.new_clauses in
    omega (
      arith,
      count-sort action_le action_loses (rules ++ new),
      count-append action_loses rules new,
      count-assess_action report.new_clauses,
      count-rule_actions os controls include_uncertified report.affected (
          all-sort affected_le fits found
          ∙ second_order-fits os d.changes references hits (direct_hits-fits os d.changes)),
    )
