-- ===== src/Remediate/Amendment/Recheck/Facts.antt =====
-- remediate/amendment.py: what holds of the rules and the document when a task closes.
use sanhita.Prelude.{
  ℕ, ◌≡◌, refl, sym, ap, ◌∙◌, subst, String, Bool, true, false, not, ◌&&◌, ◌||◌, List, [], ◌∷◌,
  Option, none, some, ok, any, select, find, str_eq, eq_iff, if◌then◌else◌, arith, Bool-cases, inl,
  inr,
}
use sanhita.Prelude.Members.{IsIn}
use sanhita.Prelude.Text.{non_empty}
use sanhita.Ir.Enums.{is_certified}
use sanhita.Ir.Schema.{Certification, Obligation}
use sanhita.Amend.Clauses.{ClauseTree}
use sanhita.Amend.Impact.{is_inert}
use sanhita.Remediate.Task.{RemediationTask}
use sanhita.Remediate.Amendment.Verdict.{
  AmendmentRecheck, closes, clause_sha, current_rule, is_rejected, judge_withdraw, decided,
  judge_new, signed_after, judge_signature, judge_reread, judge_signed, judge_text, target_of,
  judge_rule, rule_of, verdict,
}

-- What has to be so for a task to close: the rule has left the live store; a rule of the new clause is
-- decided; the rule carries a signature later than the task; or the rule is certified over the hash
-- that the later document has for its clause, and for a renumbering it points there.
pub data Fact (t : RemediationTask) (os : List Obligation) (tree : Option ClauseTree) : Type 0 where
  gone :
      t.change_kind ≡ "WITHDRAW"
      → (non_empty t.obligation_id && any (λ (o : Obligation). str_eq o.id t.obligation_id) os)
        ≡ false
      → Fact t os tree
  retired :
      (o : Obligation)
      → t.change_kind ≡ "WITHDRAW"
      → IsIn o os
      → o.id ≡ t.obligation_id
      → is_inert o.status ≡ true
      → Fact t os tree
  settled :
      (o : Obligation)
      → t.change_kind ≡ "ASSESS_NEW"
      → IsIn o os
      → o.source.clause_id ≡ t.clause_id
      → (is_certified o.status || is_rejected o.status) ≡ true
      → Fact t os tree
  signed_again :
      (o : Obligation) (c : Certification)
      → t.change_kind ≡ "REREAD"
      → IsIn o os
      → o.id ≡ t.obligation_id
      → is_certified o.status ≡ true
      → o.certification ≡ some c
      → signed_after t.created_at c.certified_at ≡ true
      → Fact t os tree
  current :
      (o : Obligation)
      → IsIn o os
      → o.id ≡ t.obligation_id
      → is_certified o.status ≡ true
      → clause_sha tree (target_of t) ≡ some o.source.sha256
      → (not (str_eq t.change_kind "REPOINT") || str_eq o.source.clause_id t.change_now_at) ≡ true
      → Fact t os tree

find-IsIn :
    (p : Obligation → Bool) (os : List Obligation) (o : Obligation)
    → find p os ≡ some o
    → IsIn o os × (p o ≡ true)
find-IsIn p [] o h = ground arith
find-IsIn p (x ∷ os) o h = step (p x) refl h (find-IsIn p os o)
  where
    step :
        (b : Bool)
        → p x ≡ b
        → (if b then some x else find p os) ≡ some o
        → (find p os ≡ some o → IsIn o os × (p o ≡ true))
        → IsIn o (x ∷ os) × (p o ≡ true)
    step true e h rest = subst (λ y. IsIn y (x ∷ os) × (p y ≡ true)) (ground arith) (IsIn.here, e)
    step false e h rest = let (n, k) = rest h in (IsIn.there n, k)

not_found : (p : Obligation → Bool) (os : List Obligation) → find p os ≡ none → any p os ≡ false
not_found p [] h = refl
not_found p (x ∷ os) h = ground (arith, not_found p os)

chosen :
    (p : Obligation → Bool) (b : Bool) (x : Obligation) (ys os : List Obligation) (o : Obligation)
    → p x ≡ b
    → IsIn o (if b then x ∷ ys else ys)
    → (IsIn o ys → IsIn o os × (p o ≡ true))
    → IsIn o (x ∷ os) × (p o ≡ true)
chosen p true x ys os o e IsIn.here rest = (IsIn.here, e)
chosen p true x ys os o e (IsIn.there m) rest = let (n, h) = rest m in (IsIn.there n, h)
chosen p false x ys os o e m rest = let (n, h) = rest m in (IsIn.there n, h)

select-IsIn :
    (p : Obligation → Bool) (os : List Obligation) (o : Obligation)
    → IsIn o (select p os)
    → IsIn o os × (p o ≡ true)
select-IsIn p [] o m = elim m [ ]
select-IsIn p (x ∷ os) o m = chosen p (p x) x (select p os) os o refl m (select-IsIn p os o)

withdrawn_fact :
    (t : RemediationTask) (os : List Obligation) (tree : Option ClauseTree)
    (rule : Option Obligation)
    → t.change_kind ≡ "WITHDRAW"
    → rule_of t os ≡ rule
    → closes (judge_withdraw t rule) ≡ true
    → Fact t os tree
unfolding judge_withdraw current_rule
withdrawn_fact t os tree none kind rule c =
    Fact.gone kind (ground (arith, not_found (λ (o : Obligation). str_eq o.id t.obligation_id) os))
withdrawn_fact t os tree (some o) kind rule c =
    let (m, same) =
      find-IsIn (λ (o : Obligation). str_eq o.id t.obligation_id) os o (ground arith) in
    Fact.retired o kind m ((eq_iff o.id t.obligation_id).0 same) (ground arith)

settled_fact :
    (t : RemediationTask) (os : List Obligation) (tree : Option ClauseTree)
    (rules : List Obligation)
    → t.change_kind ≡ "ASSESS_NEW"
    → decided t os ≡ rules
    → closes (judge_new t rules) ≡ true
    → Fact t os tree
unfolding judge_new decided
settled_fact t os tree [] kind rules c = ground arith
settled_fact t os tree (o ∷ rest) kind rules c =
    let (m, h) = select-IsIn _ os o (subst (λ xs. IsIn o xs) (sym rules) IsIn.here) in
    Fact.settled o kind m (ground (arith, eq_iff o.source.clause_id t.clause_id)) (ground arith)

signed_fact :
    (t : RemediationTask) (os : List Obligation) (tree : Option ClauseTree) (o : Obligation)
    (c : Option Certification) (day_text : ℕ → String)
    → t.change_kind ≡ "REREAD"
    → IsIn o os
    → o.id ≡ t.obligation_id
    → is_certified o.status ≡ true
    → o.certification ≡ c
    → closes (judge_signature day_text t c) ≡ true
    → Fact t os tree
unfolding judge_signature
signed_fact t os tree o none day_text kind m same s has c = ground arith
signed_fact t os tree o (some cert) day_text kind m same s has c =
    Fact.signed_again o cert kind m same s has (ground arith)

text_fact :
    (t : RemediationTask) (os : List Obligation) (tree : Option ClauseTree) (o : Obligation)
    (sha : Option String) {v : AmendmentRecheck}
    → IsIn o os
    → o.id ≡ t.obligation_id
    → clause_sha tree (target_of t) ≡ sha
    → judge_text t o (target_of t) sha ≡ ok v
    → closes v ≡ true
    → Fact t os tree
unfolding judge_text judge_signed
text_fact t os tree o none m same sha e c = ground arith
text_fact t os tree o (some expected) m same sha e c =
    Fact.current o m same (ground arith)
      (sha ∙ ap some (ground (arith, eq_iff o.source.sha256 expected))) (ground arith)

rule_fact :
    (day_text : ℕ → String) (t : RemediationTask) (os : List Obligation) (tree : Option ClauseTree)
    (rule : Option Obligation) {v : AmendmentRecheck}
    → rule_of t os ≡ rule
    → judge_rule day_text t tree rule ≡ ok v
    → closes v ≡ true
    → Fact t os tree
unfolding judge_rule judge_reread current_rule
rule_fact day_text t os tree none rule e c = ground arith
rule_fact day_text t os tree (some o) {v = v} rule e c =
    let (m, same) =
      find-IsIn (λ (o : Obligation). str_eq o.id t.obligation_id) os o (ground arith) in
    let own = (eq_iff o.id t.obligation_id).0 same in
    elim (Bool-cases (str_eq t.change_kind "REREAD")) [
      | inl r ↦
          signed_fact t os tree o o.certification day_text ((eq_iff t.change_kind "REREAD").0 r) m
            own (ground arith) refl (ground arith)
      | inr n ↦
          text_fact t os tree o (clause_sha tree (target_of t)) {v = v} m own refl (ground arith) c
    ]

-- A verdict that closes names a fact.
pub verdict_fact :
    (day_text : ℕ → String) (t : RemediationTask) (os : List Obligation) (tree : Option ClauseTree)
    {v : AmendmentRecheck}
    → verdict day_text t os tree ≡ ok v
    → closes v ≡ true
    → Fact t os tree
unfolding verdict
verdict_fact day_text t os tree {v = v} e c = elim (Bool-cases (str_eq t.change_kind "WITHDRAW")) [
  | inl w ↦
      withdrawn_fact t os tree (rule_of t os) ((eq_iff t.change_kind "WITHDRAW").0 w) refl
        (ground arith)
  | inr n ↦ elim (Bool-cases (str_eq t.change_kind "ASSESS_NEW")) [
    | inl a ↦
        settled_fact t os tree (decided t os) ((eq_iff t.change_kind "ASSESS_NEW").0 a) refl
          (ground arith)
    | inr m ↦ rule_fact day_text t os tree (rule_of t os) {v = v} refl (ground arith) c
  ]
]
