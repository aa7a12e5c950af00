-- ===== src/Amend/Impact/Unchanged.antt =====
-- diff/tree_diff.py and diff/impact.py: a new edition with the clauses of the old one.
use sanhita.Prelude.{
  ◌≤◌, ◌≡◌, refl, ap, ◌∙◌, String, Bool, true, List, [], ◌∷◌, Option, none, some, arith, all, count,
  is_some, str_eq, eq_iff, if◌then◌else◌,
}
use sanhita.Prelude.Dict.{get}
use sanhita.Prelude.Sort.{sort, sorted_set}
use sanhita.Ir.Schema.{Obligation}
use sanhita.Amend.Clauses.{ClauseNode, ClauseTree, body}
use sanhita.Amend.Diff.{ChangeKind, ClauseChange, diff_bodies, diff_trees}
use sanhita.Amend.Diff.Kinds.{has, is_kind, same_text, diff_bodies_lem}
use sanhita.Amend.Diff.Once.{diff_bodies_once, diff_bodies_self}
use sanhita.Amend.References.{ReferenceGraph}
use sanhita.Amend.Impact.{
  hits_of, direct_hits, new_clauses_of, reread_all, second_order, assess_impact, hit_clauses,
}

abbrev all_unchanged : List ClauseChange → Bool
all_unchanged cs = all (is_kind ChangeKind.unchanged) cs

direct_hits_none :
    (os : List Obligation) (cs : List ClauseChange)
    → all_unchanged cs ≡ true
    → direct_hits os cs ≡ []
unfolding direct_hits hits_of
direct_hits_none os [] h = refl
direct_hits_none os (c ∷ cs) h = ground (arith, direct_hits_none os cs)

new_clauses_none :
    (os : List Obligation) (cs : List ClauseChange)
    → all_unchanged cs ≡ true
    → new_clauses_of os cs ≡ []
unfolding new_clauses_of
new_clauses_none os [] h = refl
new_clauses_none os (c ∷ cs) h = ground (arith, new_clauses_none os cs)

hit_clauses_none : (cs : List ClauseChange) → all_unchanged cs ≡ true → hit_clauses cs ≡ []
hit_clauses_none [] h = refl
hit_clauses_none (c ∷ cs) h = ground (arith, hit_clauses_none cs)

second_order_none :
    (os : List Obligation) (cs : List ClauseChange) (references : Option ReferenceGraph)
    → all_unchanged cs ≡ true
    → second_order os cs references [] ≡ []
unfolding second_order reread_all sorted_set
second_order_none os cs none h = refl
second_order_none os cs (some g) h = rw (hit_clauses_none cs h) refl

-- Where every change is of the one kind, a clause is reported as often as with that kind.
count-has :
    (id : String) (cs : List ClauseChange)
    → all_unchanged cs ≡ true
    → count (λ (c : ClauseChange). str_eq c.clause_id id) cs ≤ 1
    → count (λ (c : ClauseChange). str_eq c.clause_id id) cs
      ≡ (if has (is_kind ChangeKind.unchanged) id cs then 1 else 0)
count-has id [] h one = refl
count-has id (c ∷ cs) h one = ground (arith, count-has id cs)

same_text_self : (o : Option ClauseNode) → same_text o o ≡ is_some o
same_text_self none = refl
same_text_self (some o) = (eq_iff o.sha256 o.sha256).1 refl

-- A document against itself: each of its clauses is reported exactly once, as unchanged, and nothing
-- else is; the report of the impact affects no rule and names no new clause, whatever the rules and
-- the references are.
pub assess_impact_self :
    (sha256_text : String → String) (tree : ClauseTree) (before after : String)
    (os : List Obligation) (references : Option ReferenceGraph) (id : String)
    → let d = diff_trees sha256_text tree tree before after in
      (count (λ (c : ClauseChange). str_eq c.clause_id id) d.changes
        ≡ (if is_some (get id (body tree)) then 1 else 0))
      × (all (is_kind ChangeKind.unchanged) d.changes ≡ true)
      × ((assess_impact d os references).affected ≡ [])
      × ((assess_impact d os references).new_clauses ≡ [])
unfolding diff_trees assess_impact sort
assess_impact_self sha256_text tree before after os references id =
    let nodes = body tree in
    let changes = diff_bodies nodes nodes in
    let unchanged = diff_bodies_self nodes in
    let (there, _, _, _, _) = diff_bodies_lem nodes nodes id in
    let hits = second_order_none os changes references unchanged in
    (
      count-has id changes unchanged (diff_bodies_once nodes nodes id)
          ∙ ap (λ (b : Bool). if b then 1 else 0) (there ∙ same_text_self (get id nodes)),
      unchanged,
      rw (direct_hits_none os changes unchanged, hits) refl,
      rw (new_clauses_none os changes unchanged) refl,
    )
