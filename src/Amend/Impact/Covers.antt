-- ===== src/Amend/Impact/Covers.antt =====
-- diff/impact.py: no certified rule loses its text unreported.
use sanhita.Prelude.{
  ◌≡◌, refl, String, Bool, true, false, ◌&&◌, List, [], ◌∷◌, Option, none, some, ℕ, arith, any,
  any-append, str_eq, eq_iff, if◌then◌else◌,
}
use sanhita.Prelude.Dict.{Dict, get}
use sanhita.Prelude.Sort.{sort, any-sort, sorted_set}
use sanhita.Prelude.Members.{IsIn}
use sanhita.Prelude.Text.{text_le}
use sanhita.Ir.Enums.{is_certified}
use sanhita.Ir.Schema.{Obligation}
use sanhita.Amend.Clauses.{ClauseNode, ClauseTree, body}
use sanhita.Amend.Diff.{ChangeKind, ClauseChange, diff_bodies, diff_trees}
use sanhita.Amend.Diff.Kinds.{has, is_kind, is_gone, diff_bodies_lem}
use sanhita.Amend.References.{ReferenceGraph, dependents_of}
use sanhita.Amend.Impact.{
  AffectedRule, Consequence, consequence_of, is_hit, loses_a_signature, at_clause, hits_at, hits_of,
  direct_hits, reread_rules, reread_citers, reread_all, second_order, assess_impact, affected_le,
  indirect_hit, hit_clauses,
}

-- The entry takes the signature of the rule.
abbrev pub strips : String → AffectedRule → Bool
strips id a = str_eq a.obligation_id id && loses_a_signature a

hits_at-strips :
    (consequence : Consequence) (c : ClauseChange) (os : List Obligation) (o : Obligation)
    → is_certified o.status ≡ true
    → consequence_of c.kind ≡ some consequence
    → IsIn o os
    → any (strips o.id) (hits_at consequence c os) ≡ true
unfolding hits_at
hits_at-strips consequence c [] o s k m = elim m [ ]
hits_at-strips consequence c (_ ∷ os) o s k IsIn.here = ground (arith, eq_iff o.id o.id)
hits_at-strips consequence c (p ∷ os) o s k (IsIn.there m) =
    ground (arith, hits_at-strips consequence c os o s k m)

at_clause-IsIn :
    (os : List Obligation) (o : Obligation) (id : String)
    → str_eq o.source.clause_id id ≡ true
    → IsIn o os
    → IsIn o (at_clause os id)
unfolding at_clause
at_clause-IsIn [] o id h m = elim m [ ]
at_clause-IsIn (_ ∷ os) o id h IsIn.here = rw h IsIn.here
at_clause-IsIn (p ∷ os) o id h (IsIn.there m) =
    kept (str_eq p.source.clause_id id) p (at_clause-IsIn os o id h m)
  where
    kept :
        (b : Bool) (p : Obligation) {xs : List Obligation}
        → IsIn o xs
        → IsIn o (if b then p ∷ xs else xs)
    kept true p m = IsIn.there m
    kept false p m = m

-- The change of a clause that a certified rule stands on is a hit that takes its signature.
hits_of-strips :
    (os : List Obligation) (o : Obligation) (c : ClauseChange)
    → is_certified o.status ≡ true
    → IsIn o os
    → (str_eq c.clause_id o.source.clause_id && is_hit c.kind) ≡ true
    → any (strips o.id) (hits_of os c) ≡ true
unfolding hits_of
hits_of-strips os o c s m h = stripped (consequence_of c.kind) refl (λ consequence k.
    hits_at-strips consequence c (at_clause os c.clause_id) o s k (
      at_clause-IsIn os o c.clause_id
        (ground
          (arith, eq_iff c.clause_id o.source.clause_id, eq_iff o.source.clause_id c.clause_id))
        m))
  where
    stripped :
        (k : Option Consequence)
        → consequence_of c.kind ≡ k
        → ((consequence : Consequence)
            → consequence_of c.kind ≡ some consequence
            → any (strips o.id) (hits_at consequence c (at_clause os c.clause_id)) ≡ true)
        → any (strips o.id) (elim k [
          | none ↦ []
          | some consequence ↦ hits_at consequence c (at_clause os c.clause_id)
        ])
          ≡ true
    stripped none e each = ground arith
    stripped (some consequence) e each = each consequence e

direct_hits-strips :
    (os : List Obligation) (o : Obligation) (cs : List ClauseChange)
    → is_certified o.status ≡ true
    → IsIn o os
    → has (λ (c : ClauseChange). is_hit c.kind) o.source.clause_id cs ≡ true
    → any (strips o.id) (direct_hits os cs) ≡ true
unfolding direct_hits
direct_hits-strips os o [] s m h = cc
direct_hits-strips os o (c ∷ cs) s m h = ground (
  arith,
  any-append (strips o.id) (hits_of os c) (direct_hits os cs),
  hits_of-strips os o c s m,
  direct_hits-strips os o cs s m,
)

-- The later steps add entries and reorder them.
reread_rules-any :
    (p : AffectedRule → Bool) (changed citer : String) (hops : ℕ) (os : List Obligation)
    (affected : List AffectedRule)
    → any p affected ≡ true
    → any p (reread_rules changed citer hops os affected) ≡ true
unfolding reread_rules
reread_rules-any p changed citer hops [] affected h = h
reread_rules-any p changed citer hops (o ∷ os) affected h =
    reread_rules-any p changed citer hops os _
      (ground (arith, any-append p affected (indirect_hit changed citer hops o ∷ [])))

reread_citers-any :
    (p : AffectedRule → Bool) (os : List Obligation) (hit : List String) (changed : String)
    (citers : List (String × ℕ)) (affected : List AffectedRule)
    → any p affected ≡ true
    → any p (reread_citers os hit changed citers affected) ≡ true
unfolding reread_citers
reread_citers-any p os hit changed [] affected h = h
reread_citers-any p os hit changed ((citer, hops) ∷ citers) affected h =
    reread_citers-any p os hit changed citers _
      (ground (arith, reread_rules-any p changed citer hops (at_clause os citer) affected h))

reread_all-any :
    (p : AffectedRule → Bool) (os : List Obligation) (g : ReferenceGraph)
    (hit changes : List String) (affected : List AffectedRule)
    → any p affected ≡ true
    → any p (reread_all os g hit changes affected) ≡ true
unfolding reread_all
reread_all-any p os g hit [] affected h = h
reread_all-any p os g hit (changed ∷ rest) affected h = reread_all-any p os g hit rest _ (
    reread_citers-any p os hit changed (sort (λ a b. text_le a.0 b.0) (dependents_of g changed))
      affected h)

second_order-any :
    (p : AffectedRule → Bool) (os : List Obligation) (cs : List ClauseChange)
    (references : Option ReferenceGraph) (affected : List AffectedRule)
    → any p affected ≡ true
    → any p (second_order os cs references affected) ≡ true
unfolding second_order
second_order-any p os cs none affected h = h
second_order-any p os cs (some g) affected h =
    reread_all-any p os g (hit_clauses cs) (sorted_set (hit_clauses cs)) affected h

has_weaken :
    (q r : ClauseChange → Bool) (id : String) (cs : List ClauseChange)
    → ((c : ClauseChange) → q c ≡ true → r c ≡ true)
    → has q id cs ≡ true
    → has r id cs ≡ true
has_weaken q r id [] f h = h
has_weaken q r id (c ∷ cs) f h = ground (arith, f c, has_weaken q r id cs f)

gone_is_hit : (c : ClauseChange) → is_gone c ≡ true → is_hit c.kind ≡ true
gone_is_hit c h = ground arith

modified_is_hit : (c : ClauseChange) → is_kind ChangeKind.modified c ≡ true → is_hit c.kind ≡ true
modified_is_hit c h = ground arith

covered :
    (old new : Dict ClauseNode) (id : String) (n : ClauseNode) (after : Option ClauseNode)
    → get id old ≡ some n
    → get id new ≡ after
    → has (λ (c : ClauseChange). is_hit c.kind) id (diff_bodies old new) ≡ false
    → (m : ClauseNode) × (after ≡ some m) × (m.sha256 ≡ n.sha256)
covered old new id n none b a quiet = ground (
  arith,
  diff_bodies_lem old new id,
  has_weaken is_gone (λ (c : ClauseChange). is_hit c.kind) id (diff_bodies old new) gone_is_hit,
)
covered old new id n (some m) b a quiet = (
  m,
  refl,
  ground (
    arith,
    diff_bodies_lem old new id,
    has_weaken (is_kind ChangeKind.modified) (λ (c : ClauseChange). is_hit c.kind) id
        (diff_bodies old new) modified_is_hit,
    eq_iff n.sha256 m.sha256,
  ),
)

-- A signed rule whose clause the earlier edition has, and that no entry of the report takes the
-- signature of, stands on the same words in the later edition: the clause is there under its own
-- number, with the same hash. So no change of the text of a certified rule goes unreported, whatever
-- the references add.
pub unreported_keeps_text :
    (sha256_text : String → String) (before after : ClauseTree) (before_label after_label : String)
    (os : List Obligation) (references : Option ReferenceGraph) (o : Obligation) (n : ClauseNode)
    → IsIn o os
    → is_certified o.status ≡ true
    → get o.source.clause_id (body before) ≡ some n
    → any
        (strips o.id)
        (assess_impact
          (diff_trees sha256_text before after before_label after_label)
          os
          references).affected
      ≡ false
    → (m : ClauseNode) × (get o.source.clause_id (body after) ≡ some m) × (m.sha256 ≡ n.sha256)
unfolding assess_impact diff_trees
unreported_keeps_text sha256_text before after before_label after_label os references o n m s b
      quiet =
    let cs = diff_bodies (body before) (body after) in
    covered (body before) (body after) o.source.clause_id n (get o.source.clause_id (body after)) b
      refl
      (ground (
        arith,
        direct_hits-strips os o cs s m,
        second_order-any (strips o.id) os cs references (direct_hits os cs),
        any-sort affected_le (strips o.id) (second_order os cs references (direct_hits os cs)),
      ))
