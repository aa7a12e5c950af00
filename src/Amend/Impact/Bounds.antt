-- ===== src/Amend/Impact/Bounds.antt =====
-- diff/impact.py: an amendment takes no more signatures than there are.
use sanhita.Prelude.{
  ℕ, ◌+◌, ◌≤◌, ◌≡◌, refl, ◌∙◌, String, Bool, false, ◌&&◌, List, [], ◌∷◌, Option, none, some, arith,
  any, count, count-append, str_eq, eq_iff,
}
use sanhita.Prelude.Sort.{sort, count-sort, sorted_set}
use sanhita.Prelude.Text.{text_le}
use sanhita.Ir.Enums.{is_certified}
use sanhita.Ir.Schema.{Obligation}
use sanhita.Amend.Clauses.{ClauseTree, body}
use sanhita.Amend.Diff.{ClauseChange, diff_bodies, diff_trees}
use sanhita.Amend.Diff.Once.{diff_bodies_once}
use sanhita.Amend.References.{ReferenceGraph, dependents_of}
use sanhita.Amend.Impact.{
  AffectedRule, Consequence, consequence_of, loses_a_signature, signatures_lost, at_clause, hits_at,
  hits_of, direct_hits, reread_rules, reread_citers, reread_all, second_order, assess_impact,
  affected_le, indirect_hit, hit_clauses,
}

-- The signed rules of a clause.
abbrev signed_at : String → Obligation → Bool
signed_at id o = str_eq o.source.clause_id id && is_certified o.status

count-hits_at :
    (consequence : Consequence) (c : ClauseChange) (id : String) (os : List Obligation)
    → count loses_a_signature (hits_at consequence c (at_clause os id)) ≤ count (signed_at id) os
unfolding hits_at at_clause
count-hits_at consequence c id [] = omega arith
count-hits_at consequence c id (o ∷ os) = ground (arith, count-hits_at consequence c id os)

count-hits_of :
    (os : List Obligation) (c : ClauseChange)
    → count loses_a_signature (hits_of os c) ≤ count (signed_at c.clause_id) os
unfolding hits_of
count-hits_of os c = none_or (consequence_of c.kind)
  where
    none_or :
        (k : Option Consequence)
        → count loses_a_signature (elim k [
          | none ↦ []
          | some consequence ↦ hits_at consequence c (at_clause os c.clause_id)
        ])
          ≤ count (signed_at c.clause_id) os
    none_or none = omega arith
    none_or (some consequence) = count-hits_at consequence c c.clause_id os

abbrev changed_in : List ClauseChange → String → Bool
changed_in cs id = any (λ (c : ClauseChange). str_eq c.clause_id id) cs

-- The signed rules of the changed clauses.
abbrev signed_in : List ClauseChange → Obligation → Bool
signed_in cs o = changed_in cs o.source.clause_id && is_certified o.status

count-disjoint :
    (c : ClauseChange) (cs : List ClauseChange) (os : List Obligation)
    → changed_in cs c.clause_id ≡ false
    → count (signed_at c.clause_id) os + count (signed_in cs) os ≤ count (signed_in (c ∷ cs)) os
count-disjoint c cs [] h = omega arith
count-disjoint c cs (o ∷ os) h = ground (
  arith,
  eq_iff o.source.clause_id c.clause_id,
  eq_iff c.clause_id o.source.clause_id,
  count-disjoint c cs os h,
)

any_zero : (p : ClauseChange → Bool) (cs : List ClauseChange) → count p cs ≤ 0 → any p cs ≡ false
any_zero p [] h = refl
any_zero p (c ∷ cs) h = ground (arith, any_zero p cs)

count-direct_hits :
    (os : List Obligation) (cs : List ClauseChange)
    → ((id : String) → count (λ (c : ClauseChange). str_eq c.clause_id id) cs ≤ 1)
    → count loses_a_signature (direct_hits os cs) ≤ count (signed_in cs) os
unfolding direct_hits
count-direct_hits os [] once = omega arith
count-direct_hits os (c ∷ cs) once = omega (
  arith,
  count-append loses_a_signature (hits_of os c) (direct_hits os cs),
  count-hits_of os c,
  count-direct_hits os cs (λ id. ground (arith, once id)),
  count-disjoint c cs os
      (any_zero _ cs (ground (arith, once c.clause_id, eq_iff c.clause_id c.clause_id))),
)

count-signed_in :
    (cs : List ClauseChange) (os : List Obligation)
    → count (signed_in cs) os ≤ count (λ (o : Obligation). is_certified o.status) os
count-signed_in cs [] = omega arith
count-signed_in cs (o ∷ os) = ground (arith, count-signed_in cs os)

-- A rule to read again keeps its signature.
count-reread_rules :
    (changed citer : String) (hops : ℕ) (os : List Obligation) (affected : List AffectedRule)
    → count loses_a_signature (reread_rules changed citer hops os affected)
      ≡ count loses_a_signature affected
unfolding reread_rules
count-reread_rules changed citer hops [] affected = refl
count-reread_rules changed citer hops (o ∷ os) affected =
    count-reread_rules changed citer hops os _
    ∙ ground
        (arith, count-append loses_a_signature affected (indirect_hit changed citer hops o ∷ []))

count-reread_citers :
    (os : List Obligation) (hit : List String) (changed : String) (citers : List (String × ℕ))
    (affected : List AffectedRule)
    → count loses_a_signature (reread_citers os hit changed citers affected)
      ≡ count loses_a_signature affected
unfolding reread_citers
count-reread_citers os hit changed [] affected = refl
count-reread_citers os hit changed ((citer, hops) ∷ citers) affected =
    count-reread_citers os hit changed citers _
    ∙ ground (arith, count-reread_rules changed citer hops (at_clause os citer) affected)

count-reread_all :
    (os : List Obligation) (g : ReferenceGraph) (hit changes : List String)
    (affected : List AffectedRule)
    → count loses_a_signature (reread_all os g hit changes affected)
      ≡ count loses_a_signature affected
unfolding reread_all
count-reread_all os g hit [] affected = refl
count-reread_all os g hit (changed ∷ rest) affected =
    let citers = sort (λ a b. text_le a.0 b.0) (dependents_of g changed) in
    count-reread_all os g hit rest (reread_citers os hit changed citers affected)
    ∙ count-reread_citers os hit changed citers affected

count-second_order :
    (os : List Obligation) (cs : List ClauseChange) (references : Option ReferenceGraph)
    (affected : List AffectedRule)
    → count loses_a_signature (second_order os cs references affected)
      ≡ count loses_a_signature affected
unfolding second_order
count-second_order os cs none affected = refl
count-second_order os cs (some g) affected =
    count-reread_all os g (hit_clauses cs) (sorted_set (hit_clauses cs)) affected

-- An amendment takes no more signatures than there are signed rules, so that the number that
-- survives is one. The citations add rules to read again and take no signature.
pub signatures_lost_within :
    (sha256_text : String → String) (before after : ClauseTree) (before_label after_label : String)
    (os : List Obligation) (references : Option ReferenceGraph)
    → let report =
        assess_impact
          (diff_trees sha256_text before after before_label after_label)
          os
          references in
      signatures_lost report ≤ report.certified_before
unfolding assess_impact signatures_lost diff_trees
signatures_lost_within sha256_text before after before_label after_label os references =
    let cs = diff_bodies (body before) (body after) in
    omega (
      arith,
      count-sort affected_le loses_a_signature (second_order os cs references (direct_hits os cs)),
      count-second_order os cs references (direct_hits os cs),
      count-direct_hits os cs (diff_bodies_once (body before) (body after)),
      count-signed_in cs os,
    )
