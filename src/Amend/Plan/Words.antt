-- ===== src/Amend/Plan/Words.antt =====
-- change.py: an action in a sentence.
use sanhita.Prelude.{String, ◌&&◌, Option, none, some, or_else, if◌then◌else◌, ◌==◌}
use sanhita.Prelude.Text.{non_empty, show, ◌⧺◌}
use sanhita.Amend.Plan.{ActionKind, RequiredAction}

abbrev pub where_it_sits : RequiredAction → String
where_it_sits a =
    if non_empty a.process && non_empty a.function
    then " It is run by " ⧺ a.function ⧺ " as part of " ⧺ a.process ⧺ "."
    else if non_empty a.function
    then " It is run by " ⧺ a.function ⧺ "."
    else if non_empty a.process
    then " It sits in " ⧺ a.process ⧺ "."
    else ""

-- The truth value of an optional text, and what an f-string writes for it.
abbrev pub text_or_none : Option String → String
text_or_none none = "None"
text_or_none (some s) = s

unfoldable pub describe : RequiredAction → String
unfolding show
describe a =
    let rest = where_it_sits a in
    elim a.kind [
      | ActionKind.recertify ↦
          let by = or_else a.certified_by "" in
          let who = if non_empty by then " " ⧺ by ⧺ " signed the previous text." else "" in
          "Clause " ⧺ a.clause_id ⧺ " changed, so the words this rule was signed over are gone."
          ⧺ who ⧺ " It has to be read and signed again before it can produce a finding." ⧺ rest
      | ActionKind.withdraw ↦
          "Clause " ⧺ a.clause_id
          ⧺ " was removed, so this duty no longer exists. Withdraw the rule and check "
          ⧺ "whether anything the firm still does for it can stop." ⧺ rest
      | ActionKind.repoint ↦
          "Clause "
          ⧺ a.clause_id
          ⧺ " kept its words and moved to "
          ⧺ text_or_none a.now_at
          ⧺ ". Nothing about the duty changed; the citation has to point at the new number."
          ⧺ rest
      | ActionKind.reread ↦
          let n = or_else a.hops 0 in
          let hop = if n == 0 then "" else ", " ⧺ show n ⧺ " reference away" in
          "Clause "
          ⧺ a.clause_id
          ⧺ " did not change, but "
          ⧺ text_or_none a.via
          ⧺ " did"
          ⧺ hop
          ⧺ ", and this rule depends on it. A text diff calls this clause untouched. Somebody has to read it again."
          ⧺ rest
      | ActionKind.assess_new ↦
          "Clause " ⧺ a.clause_id ⧺ " is new and no rule has been drawn from it. "
          ⧺ "Somebody has to decide whether it carries a duty for this firm."
    ]
