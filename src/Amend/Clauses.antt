-- ===== src/Amend/Clauses.antt =====
-- parse/clause_tree.py: the parsed document, as the later stages read it, and diff/tree_diff.py's view
-- of its numbered body.
use Prim.Native.String.{String}
use sanhita.Prelude.{
  ℕ, Bool, true, false, not, ◌&&◌, List, [], ◌∷◌, Option, none, some, select, str_eq,
}
use sanhita.Prelude.Sort.{sort}
use sanhita.Prelude.Text.{show, text_le, ◌⧺◌}
use sanhita.Prelude.Dict.{keys, Dict, get, put, values}

-- The layout of the page (`x0`, `lines`, the footnotes) is not read after parsing.
pub record ClauseNode : Type 0 where
  pub id : String
  pub kind : String
  pub number : String
  pub title : String
  pub text : String
  pub page : ℕ
  pub char_span : ℕ × ℕ
  pub sha256 : String
  pub depth : ℕ
  pub parent_id : Option String
  pub children : List String
  pub section : String

pub record ClauseTree : Type 0 where
  pub nodes : Dict ClauseNode
  pub roots : List String

-- `ClauseTree.get`
unfoldable pub find_node : ClauseTree → String → Option ClauseNode
find_node t id = get id t.nodes

-- `s.startswith(prefix)`
unfoldable pub starts_with : String → String → Bool
starts_with String.[] s = true
starts_with (String.◌∷◌ c p) String.[] = false
starts_with (String.◌∷◌ c p) (String.◌∷◌ d s) =
    str_eq (String.◌∷◌ c String.[]) (String.◌∷◌ d String.[]) && starts_with p s

abbrev pub in_body : ClauseNode → Bool
in_body n = not (starts_with "ANX-" n.section) && not (str_eq n.kind "APPENDIX")

-- A dictionary of the nodes by their ids; a later node takes the place of an earlier one.
unfoldable pub index_from : Dict ClauseNode → List ClauseNode → Dict ClauseNode
unfolding put
index_from d [] = d
index_from d (n ∷ ns) = index_from (put n.id n d) ns

-- `_body`
unfoldable pub body : ClauseTree → Dict ClauseNode
unfolding index_from starts_with
body t = index_from [] (select in_body (values t.nodes))

-- `str(node.char_span)`
abbrev pub span_text : ℕ × ℕ → String
span_text span = "(" ⧺ show span.0 ⧺ ", " ⧺ show span.1 ⧺ ")"

-- The bytes that are digested, of the ids in turn.
unfoldable pub fingerprint_from : Dict ClauseNode → List String → String
unfolding get show
fingerprint_from nodes [] = ""
fingerprint_from nodes (id ∷ ids) = elim (get id nodes) [
  | none ↦ fingerprint_from nodes ids
  | some n ↦
      id
      ⧺ "\u{1f}"
      ⧺ n.sha256
      ⧺ "\u{1f}"
      ⧺ span_text n.char_span
      ⧺ "\u{1e}"
      ⧺ fingerprint_from nodes ids
]

-- `sha256_text` is the hexadecimal SHA-256 of a text's UTF-8 form.
unfoldable pub fingerprint : (String → String) → ClauseTree → String
unfolding fingerprint_from sort keys
fingerprint sha256_text t = sha256_text (fingerprint_from t.nodes (sort text_le (keys t.nodes)))
