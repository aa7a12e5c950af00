-- ===== src/Tests/Amend.antt =====
-- Two editions of a document, a signed rule over each of three clauses, and what the amendment does.
use sanhita.Prelude.{
  ℕ, ◌≡◌, ◌≤◌, refl, arith, String, true, false, not, ◌&&◌, ◌||◌, List, [], ◌∷◌, none, some, all,
  any, count, str_eq, is_some, if◌then◌else◌,
}
use sanhita.Prelude.Dict.{Dict, get, put, keys, values}
use sanhita.Prelude.Members.{IsIn}
use sanhita.Prelude.Sort.{sort, insert, sorted_set, insert_key}
use sanhita.Ir.Schema.{Obligation}
use sanhita.Amend.Clauses.{ClauseNode, ClauseTree, starts_with, index_from, body}
use sanhita.Amend.Diff.{
  ChangeKind, ClauseChange, TreeDiff, only_in, landing, landed, compared, departed, appeared,
  change_of, change_at, changes_of, diff_bodies, diff_trees,
}
use sanhita.Amend.Diff.Kinds.{
  has, is_kind, is_gone, same_text, rewritten, left, entered, moved_to, diff_bodies_lem,
}
use sanhita.Amend.Diff.Once.{keeps_text, diff_bodies_once, renumbered_keeps_text}
use sanhita.Amend.References.{
  ReferenceGraph, citers_of, visit_all, expand, search_from, dependents_within, dependents_of,
}
use sanhita.Amend.References.Known.{Leans, itself, citing}
use sanhita.Amend.References.Nearest.{dependents_nearest}
use sanhita.Amend.Impact.{
  signatures_lost, at_clause, hits_at, hits_of, direct_hits, new_clauses_of, reread_rules,
  reread_citers, reread_all, second_order, assess_impact,
}
use sanhita.Amend.Impact.Covers.{strips, unreported_keeps_text}
use sanhita.Amend.Impact.Bounds.{signatures_lost_within}
use sanhita.Amend.Impact.Unchanged.{assess_impact_self}
use sanhita.Amend.Plan.{plan_signatures_lost, plan_for_firm}
use sanhita.Amend.Plan.Agrees.{plan_signatures_lost_agrees}
use sanhita.Tests.Samples.{signed, anchor}

abbrev node : String → String → ClauseNode
node id sha = record {
  id = id;
  kind = "CLAUSE";
  number = id;
  title = "";
  text = sha;
  page = 1;
  char_span = (0, 5);
  sha256 = sha;
  depth = 1;
  parent_id = none;
  children = [];
  section = "40";
}

abbrev tree : List (String × ClauseNode) → ClauseTree
tree nodes = record { nodes = nodes; roots = [] }

-- The first clause is rewritten, the second moves, the third stays.
abbrev earlier : Dict ClauseNode
earlier = ("40.1", node "40.1" "words") ∷ ("41", node "41" "moved") ∷ ("50", node "50" "kept") ∷ []

abbrev later : Dict ClauseNode
later = ("40.1", node "40.1" "other") ∷ ("42", node "42" "moved") ∷ ("50", node "50" "kept") ∷ []

abbrev rule : String → String → Obligation
rule id clause_id = record signed { id = id; source = record anchor { clause_id = clause_id } }

abbrev rules : List Obligation
rules = rule "R-1" "40.1" ∷ rule "R-2" "41" ∷ rule "R-3" "50" ∷ []

-- The third clause cites the first.
abbrev citations : ReferenceGraph
citations = record {
  citations = record { source = "50"; target = "40.1"; context = "see 40.1" } ∷ [];
}

abbrev sha : String → String
sha s = s

abbrev changed : TreeDiff
changed = diff_trees sha (tree earlier) (tree later) "2024" "2025"

-- What the tests of the diff compute with.
program : Unit {0}
unfolding get put keys values sort insert sorted_set insert_key starts_with index_from body only_in
    landing landed compared departed appeared change_of change_at changes_of diff_bodies diff_trees
    citers_of visit_all expand search_from dependents_within dependents_of signatures_lost at_clause
    hits_at hits_of direct_hits new_clauses_of reread_rules reread_citers reread_all second_order
    assess_impact
program = tt

two_are_lost : signatures_lost (assess_impact changed rules (some citations)) ≡ 2
unfolding program
two_are_lost = refl

diff_bodies_lem_example :
    (has (is_kind ChangeKind.unchanged) "41" (diff_bodies earlier later)
      ≡ same_text (get "41" earlier) (get "41" later))
    × (has (is_kind ChangeKind.modified) "41" (diff_bodies earlier later)
        ≡ rewritten (get "41" earlier) (get "41" later))
    × (has is_gone "41" (diff_bodies earlier later) ≡ left (get "41" earlier) (get "41" later))
    × ((entered (get "41" earlier) (get "41" later)
          && (has (is_kind ChangeKind.added) "41" (diff_bodies earlier later)
              || any (moved_to "41") (diff_bodies earlier later)))
        ≡ entered (get "41" earlier) (get "41" later))
    × ((has (is_kind ChangeKind.added) "41" (diff_bodies earlier later)
          && not (entered (get "41" earlier) (get "41" later)))
        ≡ false)
diff_bodies_lem_example = diff_bodies_lem earlier later "41"

diff_bodies_once_example :
    count (λ (c : ClauseChange). str_eq c.clause_id "41") (diff_bodies earlier later) ≤ 1
diff_bodies_once_example = diff_bodies_once earlier later "41"

renumbered_keeps_text_example :
    all
      (λ c. not (is_kind ChangeKind.renumbered c) || keeps_text later c)
      (diff_bodies earlier later)
    ≡ true
renumbered_keeps_text_example = renumbered_keeps_text earlier later

assess_impact_self_example :
    (count
        (λ (c : ClauseChange). str_eq c.clause_id "41")
        (diff_trees sha (tree earlier) (tree earlier) "2024" "2024").changes
      ≡ (if is_some (get "41" (body (tree earlier))) then 1 else 0))
    × (all
          (is_kind ChangeKind.unchanged)
          (diff_trees sha (tree earlier) (tree earlier) "2024" "2024").changes
        ≡ true)
    × ((assess_impact
          (diff_trees sha (tree earlier) (tree earlier) "2024" "2024")
          rules
          (some citations)).affected
        ≡ [])
    × ((assess_impact
          (diff_trees sha (tree earlier) (tree earlier) "2024" "2024")
          rules
          (some citations)).new_clauses
        ≡ [])
assess_impact_self_example =
    assess_impact_self sha (tree earlier) "2024" "2024" rules (some citations) "41"

third_is_there : get "50" (body (tree earlier)) ≡ some (node "50" "kept")
unfolding program
third_is_there = refl

third_keeps_its_signature :
    any (strips "R-3") (assess_impact changed rules (some citations)).affected ≡ false
unfolding program
third_keeps_its_signature = refl

unreported_keeps_text_example :
    (m : ClauseNode) × (get "50" (body (tree later)) ≡ some m) × (m.sha256 ≡ "kept")
unreported_keeps_text_example =
    unreported_keeps_text sha (tree earlier) (tree later) "2024" "2025" rules (some citations)
      (rule "R-3" "50") (node "50" "kept") (IsIn.there (IsIn.there IsIn.here)) refl third_is_there
      third_keeps_its_signature

signatures_lost_within_example :
    signatures_lost (assess_impact changed rules (some citations))
    ≤ (assess_impact changed rules (some citations)).certified_before
signatures_lost_within_example =
    signatures_lost_within sha (tree earlier) (tree later) "2024" "2025" rules (some citations)

plan_signatures_lost_agrees_example :
    plan_signatures_lost
      (plan_for_firm (assess_impact changed rules (some citations)) rules [] "A Firm" "SB" false)
    ≡ signatures_lost (assess_impact changed rules (some citations))
plan_signatures_lost_agrees_example =
    plan_signatures_lost_agrees changed rules (some citations) [] "A Firm" "SB" false

dependents_nearest_example :
    (n : ℕ) × (get "50" (dependents_within citations "40.1" 4) ≡ some n)
    × (n ≤ 1)
    × Leans citations.citations "40.1" n "50"
dependents_nearest_example =
    dependents_nearest citations "40.1" "50" 4 1
      (citing (record { source = "50"; target = "40.1"; context = "see 40.1" }) IsIn.here refl refl
        itself)
      (omega arith) refl
