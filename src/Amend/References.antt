-- ===== src/Amend/References.antt =====
-- analyse/references.py: the graph of citations, and who leans on a clause through it.
pub mod Known
pub mod Growth
pub mod Nearest
use Prim.Native.String.{String}
use sanhita.Prelude.{ℕ, zero, suc, List, [], ◌∷◌, ◌++◌, str_eq, if◌then◌else◌}
use sanhita.Prelude.Dict.{Dict}
use sanhita.Prelude.Sort.{member}

pub record Citation : Type 0 where
  pub source : String
  pub target : String
  pub context : String

-- The numbers that were no clause references (`noise`) and the broken ones have no part here.
pub record ReferenceGraph : Type 0 where
  pub citations : List Citation

-- `citers_of`; a citer may stand here more than once.
unfoldable pub citers_of : List Citation → String → List String
citers_of [] id = []
citers_of (c ∷ cs) id =
    let rest = citers_of cs id in if str_eq c.target id then c.source ∷ rest else rest

-- A round's state: what has been seen, what was found in this round, and what was found in all.
pub record Search : Type 0 where
  pub seen : List String
  pub next : List String
  pub found : Dict ℕ

unfoldable pub visit_all : ℕ → Search → List String → Search
visit_all depth s [] = s
visit_all depth s (citer ∷ citers) =
    visit_all depth
      (if member citer s.seen then s else record {
        seen = citer ∷ s.seen;
        next = citer ∷ s.next;
        found = s.found ++ (citer, depth) ∷ [];
      })
      citers

-- The loop over the frontier.
unfoldable pub expand : List Citation → ℕ → Search → List String → Search
unfolding visit_all citers_of
expand cs depth s [] = s
expand cs depth s (node ∷ nodes) = expand cs depth (visit_all depth s (citers_of cs node)) nodes

-- The loop over the depths: `rounds` are left, the next one is `depth`. A round that finds nothing
-- leaves nothing for the later ones to do.
unfoldable pub search_from : List Citation → ℕ → ℕ → Search → Dict ℕ
unfolding expand
search_from cs zero depth s = s.found
search_from cs (suc rounds) depth s =
    search_from cs rounds (suc depth) (expand cs depth (record s { next = [] }) s.next)

unfoldable pub dependents_within : ReferenceGraph → String → ℕ → Dict ℕ
unfolding search_from
dependents_within g id max_depth =
    search_from g.citations max_depth 1 (record { seen = id ∷ []; next = id ∷ []; found = [] })

-- `dependents_of`, with its default depth.
unfoldable pub dependents_of : ReferenceGraph → String → Dict ℕ
unfolding dependents_within
dependents_of g id = dependents_within g id 4
