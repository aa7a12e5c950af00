-- ===== src/Amend/Diff.antt =====
-- diff/tree_diff.py: two parsed documents, compared clause by clause.
pub mod Kinds
pub mod Once
use Prim.Native.String.{String}
use sanhita.Prelude.{
  ℕ, Bool, true, false, not, ◌&&◌, ◌||◌, List, [], ◌∷◌, ◌++◌, Option, none, some, length, select,
  str_eq, is_some, if◌then◌else◌,
}
use sanhita.Prelude.Dict.{Dict, get, keys}
use sanhita.Prelude.Sort.{member, sorted_set}
use sanhita.Amend.Clauses.{ClauseNode, ClauseTree, body, fingerprint}

pub data ChangeKind : Type 0 where
  unchanged added removed modified renumbered : ChangeKind

abbrev pub same_kind : ChangeKind → ChangeKind → Bool
same_kind unchanged unchanged = true
same_kind added added = true
same_kind removed removed = true
same_kind modified modified = true
same_kind renumbered renumbered = true
same_kind _ _ = false

pub record ClauseChange : Type 0 where
  pub kind : ChangeKind
  pub clause_id : String
  pub now_at : Option String
  pub before_sha : Option String
  pub after_sha : Option String
  pub before_text : Option String
  pub after_text : Option String
  pub before_page : Option ℕ
  pub after_page : Option ℕ

pub record TreeDiff : Type 0 where
  pub before_label : String
  pub after_label : String
  pub before_fingerprint : String
  pub after_fingerprint : String
  pub changes : List ClauseChange

-- `of_kind`, and the properties by kind
unfoldable pub of_kind : TreeDiff → ChangeKind → List ClauseChange
of_kind d k = select (λ (c : ClauseChange). same_kind c.kind k) d.changes

abbrev pub identical : TreeDiff → Bool
identical d = str_eq d.before_fingerprint d.after_fingerprint

-- `set(old) - set(new)`, without an order.
unfoldable pub only_in : Dict ClauseNode → Dict ClauseNode → List String
only_in old new = select (λ id. not (member id (keys new))) (keys old)

abbrev pub sha_of : String → Dict ClauseNode → Option String
sha_of id d = elim (get id d) [ none ↦ none | some n ↦ some n.sha256 ]

abbrev pub page_of : String → Dict ClauseNode → Option ℕ
page_of id d = elim (get id d) [ none ↦ none | some n ↦ some n.page ]

abbrev pub is_sha : String → Option String → Bool
is_sha h none = false
is_sha h (some g) = str_eq g h

abbrev pub first : List String → Option String
first [] = none
first (x ∷ xs) = some x

-- `moved_to`: the first arrived id, in order, that has the characters.
unfoldable pub landing : Dict ClauseNode → Dict ClauseNode → String → Option String
unfolding only_in sorted_set get
landing old new sha =
    first (sorted_set (select (λ id. is_sha sha (sha_of id new)) (only_in new old)))

abbrev pub landing_of : Dict ClauseNode → Dict ClauseNode → ClauseNode → Option String
landing_of old new n = landing old new n.sha256

-- `set(moved_to.values())`
unfoldable pub landed : Dict ClauseNode → Dict ClauseNode → List String → List String
unfolding landing get
landed old new [] = []
landed old new (id ∷ ids) = elim (get id old) [
  | none ↦ landed old new ids
  | some n ↦ elim (landing_of old new n) [
    | none ↦ landed old new ids
    | some t ↦ t ∷ landed old new ids
  ]
]

abbrev pub no_change : ChangeKind → String → ClauseChange
no_change kind id = record {
  kind = kind;
  clause_id = id;
  now_at = none;
  before_sha = none;
  after_sha = none;
  before_text = none;
  after_text = none;
  before_page = none;
  after_page = none;
}

-- The clause has its id in both editions.
unfoldable pub compared : String → ClauseNode → ClauseNode → ClauseChange
compared id o n =
    let same = str_eq o.sha256 n.sha256 in
    record (no_change (if same then unchanged else modified) id) {
      before_sha = some o.sha256;
      after_sha = some n.sha256;
      before_text = if same then none else some o.text;
      after_text = if same then none else some n.text;
      before_page = some o.page;
      after_page = some n.page;
    }

unfoldable pub departed : Dict ClauseNode → String → ClauseNode → Option String → ClauseChange
unfolding get
departed new id o none = record (no_change removed id) {
  before_sha = some o.sha256;
  before_text = some o.text;
  before_page = some o.page;
}
departed new id o (some target) = record (no_change renumbered id) {
  now_at = some target;
  before_sha = some o.sha256;
  after_sha = sha_of target new;
  before_page = some o.page;
  after_page = page_of target new;
}

unfoldable pub appeared : String → ClauseNode → ClauseChange
appeared id n = record (no_change added id) {
  after_sha = some n.sha256;
  after_text = some n.text;
  after_page = some n.page;
}

-- The body of the loop, of the clause in each edition.
unfoldable pub change_of :
    Dict ClauseNode
    → Dict ClauseNode
    → List String
    → String
    → Option ClauseNode
    → Option ClauseNode
    → Option ClauseChange
unfolding compared departed appeared landing
change_of old new landings id (some o) (some n) = some (compared id o n)
change_of old new landings id (some o) none = some (departed new id o (landing_of old new o))
change_of old new landings id none (some n) =
    if member id landings then none else some (appeared id n)
change_of old new landings id none none = none

unfoldable pub change_at :
    Dict ClauseNode → Dict ClauseNode → List String → String → Option ClauseChange
unfolding change_of get
change_at old new landings id = change_of old new landings id (get id old) (get id new)

unfoldable pub changes_of :
    Dict ClauseNode → Dict ClauseNode → List String → List String → List ClauseChange
unfolding change_at
changes_of old new landings [] = []
changes_of old new landings (id ∷ ids) = elim (change_at old new landings id) [
  | none ↦ changes_of old new landings ids
  | some c ↦ c ∷ changes_of old new landings ids
]

unfoldable pub diff_bodies : Dict ClauseNode → Dict ClauseNode → List ClauseChange
unfolding changes_of landed only_in sorted_set
diff_bodies old new =
    changes_of old new (landed old new (sorted_set (only_in old new)))
      (sorted_set (keys old ++ keys new))

unfoldable pub diff_trees : (String → String) → ClauseTree → ClauseTree → String → String → TreeDiff
unfolding diff_bodies body fingerprint
diff_trees sha256_text before after before_label after_label = record {
  before_label = before_label;
  after_label = after_label;
  before_fingerprint = fingerprint sha256_text before;
  after_fingerprint = fingerprint sha256_text after;
  changes = diff_bodies (body before) (body after);
}
