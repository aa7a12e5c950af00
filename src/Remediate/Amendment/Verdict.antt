-- ===== src/Remediate/Amendment/Verdict.antt =====
-- remediate/amendment.py: the judgement of an amendment's task, from the rules and the later document.
use Prim.Native.String.{String}
use sanhita.Prelude.{
  ℕ, Bool, true, false, not, ◌&&◌, ◌||◌, List, [], ◌∷◌, map, Option, none, some, Result, ok, err,
  select, find, length, str_eq, if◌then◌else◌, ltb,
}
use sanhita.Prelude.Sort.{sorted_set}
use sanhita.Prelude.Text.{show, join, take_text, ◌⧺◌, non_empty}
use sanhita.Ir.Enums.{RuleStatus, is_certified}
use sanhita.Ir.Schema.{Certification, Obligation}
use sanhita.Amend.Clauses.{ClauseTree, find_node}
use sanhita.Amend.Impact.{is_inert}
use sanhita.Remediate.Task.{RemediationTask}

pub record AmendmentRecheck : Type 0 where
  pub task : RemediationTask
  pub done : Bool
  pub detail : String
  pub evaluated : Bool

-- The property `closes`
abbrev pub closes : AmendmentRecheck → Bool
closes r = r.done && r.evaluated

-- `_clause_sha`
unfoldable pub clause_sha : Option ClauseTree → String → Option String
unfolding find_node
clause_sha none id = none
clause_sha (some tree) id = elim (find_node tree id) [ none ↦ none | some n ↦ some n.sha256 ]

-- `_current`: the first rule with the id.
unfoldable pub current_rule : List Obligation → String → Option Obligation
current_rule os id = find (λ (o : Obligation). str_eq o.id id) os

-- `status.value.lower()`
abbrev pub status_word : RuleStatus → String
status_word RuleStatus.proposed = "proposed"
status_word RuleStatus.certified = "certified"
status_word RuleStatus.rejected = "rejected"
status_word RuleStatus.superseded = "superseded"

abbrev pub is_rejected : RuleStatus → Bool
is_rejected RuleStatus.rejected = true
is_rejected _ = false

-- A task that is there raises nothing of the store's; a rule that is certified without a certificate
-- raises Python's AttributeError.
pub data AmendmentError : Type 0 where
  unknown_task not_an_amendment no_certificate : AmendmentError

abbrev pub Judged : Type 0
Judged = Result AmendmentError AmendmentRecheck

abbrev pub judged : RemediationTask → Bool → String → AmendmentRecheck
judged t done detail = record { task = t; done = done; detail = detail; evaluated = true }

abbrev pub unanswered : RemediationTask → String → AmendmentRecheck
unanswered t detail = record { task = t; done = false; detail = detail; evaluated = false }

unfoldable pub judge_withdraw : RemediationTask → Option Obligation → AmendmentRecheck
judge_withdraw t none = judged t true "the rule is no longer in the store"
judge_withdraw t (some o) =
    if is_inert o.status
    then judged t true ("the rule is " ⧺ status_word o.status)
    else judged t false ("the rule is still " ⧺ status_word o.status ⧺ " in the store")

-- The rules of the task's clause that are certified or rejected.
unfoldable pub decided : RemediationTask → List Obligation → List Obligation
decided t os =
    select
      (λ (o : Obligation).
        str_eq o.source.clause_id t.clause_id && (is_certified o.status || is_rejected o.status))
      os

unfoldable pub judge_new : RemediationTask → List Obligation → AmendmentRecheck
unfolding join sorted_set show
judge_new t [] =
    judged t false
      ("nothing compiled from clause " ⧺ t.clause_id ⧺ " has been certified or rejected yet")
judge_new t (o ∷ os) = judged t true (
    show (length (o ∷ os))
    ⧺ " rule(s) from clause "
    ⧺ t.clause_id
    ⧺ " have been decided: "
    ⧺ join ", " (sorted_set (map (λ (o : Obligation). status_word o.status) (o ∷ os))))

-- `raised is None or signed_at > raised`
abbrev pub signed_after : Option ℕ → ℕ → Bool
signed_after none signed_at = true
signed_after (some raised) signed_at = ltb raised signed_at

-- The last branch, of a rule that is certified over the expected hash.
unfoldable pub judge_signed : RemediationTask → String → String → Option Certification → Judged
unfolding take_text
judge_signed t target expected none = err no_certificate
judge_signed t target expected (some c) = ok (
    judged t true (
      "certified by "
      ⧺ c.certified_by
      ⧺ " over the current text of clause "
      ⧺ target
      ⧺ " ("
      ⧺ take_text 12 expected
      ⧺ ")"))

unfoldable pub judge_text : RemediationTask → Obligation → String → Option String → Judged
unfolding judge_signed take_text
judge_text t o target none = ok (
    unanswered t
      ("clause " ⧺ target ⧺ " is not in the later document, so its text cannot be compared"))
judge_text t o target (some expected) =
    if not (is_certified o.status)
    then ok (judged t false ("the rule is " ⧺ status_word o.status ⧺ ", not certified"))
    else if str_eq t.change_kind "REPOINT" && not (str_eq o.source.clause_id target)
    then ok (
        judged t false
          ("the rule still points at clause " ⧺ o.source.clause_id ⧺ " rather than " ⧺ target))
    else if not (str_eq o.source.sha256 expected)
    then ok (
        judged t false (
          "the certification still covers the earlier text: signed over "
          ⧺ take_text 12 o.source.sha256
          ⧺ ", the document now holds "
          ⧺ take_text 12 expected))
    else judge_signed t target expected o.certification

abbrev pub target_of : RemediationTask → String
target_of t = if str_eq t.change_kind "REPOINT" then t.change_now_at else t.clause_id

-- The rule of the task; a task without a rule's id has none.
abbrev pub rule_of : RemediationTask → List Obligation → Option Obligation
rule_of t os = if non_empty t.obligation_id then current_rule os t.obligation_id else none

-- `day_text` is an instant's `date().isoformat()`.
module _ (day_text : ℕ → String) where
  unfoldable pub judge_signature : RemediationTask → Option Certification → AmendmentRecheck
  judge_signature t none = judged t false "the rule is not certified"
  judge_signature t (some c) =
      if signed_after t.created_at c.certified_at
      then judged t true (
          "signed again by "
          ⧺ c.certified_by
          ⧺ " on "
          ⧺ day_text c.certified_at
          ⧺ ", after this was raised")
      else judged t false
          "the standing signature predates this amendment, so nothing records that anybody read the clause again"

  unfoldable pub judge_reread : RemediationTask → Obligation → AmendmentRecheck
  unfolding judge_signature
  judge_reread t o =
      if is_certified o.status
      then judge_signature t o.certification
      else judged t false "the rule is not certified"

  unfoldable pub judge_rule : RemediationTask → Option ClauseTree → Option Obligation → Judged
  unfolding judge_reread judge_text clause_sha
  judge_rule t tree none = ok (
      unanswered t
        ("rule " ⧺ t.obligation_id ⧺ " is not in this store, so there is nothing to check"))
  judge_rule t tree (some o) =
      if str_eq t.change_kind "REREAD"
      then ok (judge_reread t o)
      else judge_text t o (target_of t) (clause_sha tree (target_of t))

  -- `_verdict`
  unfoldable pub verdict : RemediationTask → List Obligation → Option ClauseTree → Judged
  unfolding judge_withdraw judge_new decided judge_rule current_rule
  verdict t os tree =
      if str_eq t.change_kind "WITHDRAW"
      then ok (judge_withdraw t (rule_of t os))
      else if str_eq t.change_kind "ASSESS_NEW"
      then ok (judge_new t (decided t os))
      else judge_rule t tree (rule_of t os)
