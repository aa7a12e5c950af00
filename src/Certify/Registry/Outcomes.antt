-- ===== src/Certify/Registry/Outcomes.antt =====
-- What each transition of the registry has done when it does not raise.
use sanhita.Prelude.{
  ℕ, String, ◌≡◌, Bool, true, false, List, [], ◌∷◌, Option, some, ok, get_last?, str_eq, eq_iff,
  all, arith,
}
use sanhita.Prelude.Text.{non_empty, strip}
use sanhita.Ir.Enums.{RuleStatus, is_certified}
use sanhita.Ir.Schema.{Obligation}
use sanhita.Ir.Validate.{model_validate}
use sanhita.Ir.Obligation.{certify}
use sanhita.Certify.Registry.{
  Library, RuleRegistry, history, current, require, record_version, propose, certify_rule, reject,
  amend, supersede, amended_copy, propose_draft, certify_draft, reject_draft, amend_draft,
  is_certified_rule,
}
use sanhita.Certify.Registry.Edits.{Edit, names_forbidden}
use sanhita.Certify.Registry.Writes.{IsFiled}

all-get_last? :
    {A : Type 0} (p : A → Bool) (xs : List A) (x : A)
    → all p xs ≡ true
    → get_last? xs ≡ some x
    → p x ≡ true
all-get_last? p [] x h k = cc
all-get_last? p (y ∷ []) x h k = ground arith
all-get_last? p (y ∷ z ∷ zs) x h k = ground (arith, all-get_last? p (z ∷ zs) x)

-- The current version of a rule carries the rule's id.
pub current-id :
    (r : RuleRegistry) (id : String) (o : Obligation)
    → IsFiled r
    → current r id ≡ some o
    → o.id ≡ id
unfolding current
current-id r id o f h =
    (eq_iff o.id id).0 (all-get_last? (λ o. str_eq o.id id) (history r id) o (f.at_id id) h)

require-eq-ok :
    (r : RuleRegistry) (id : String) (o : Obligation) → require r id ≡ ok o → current r id ≡ some o
require-eq-ok r id o h = ground arith

module _ (lib : Library) (r : RuleRegistry) where
  pub propose-eq-ok :
      (o : Obligation) (by : String) (now : ℕ) {s : RuleRegistry} {v : Obligation}
      → propose lib r o by now ≡ ok (s, v)
      → (o.status ≡ RuleStatus.proposed)
        × (is_certified_rule lib (current r o.id) ≡ false)
        × (v ≡ o)
        × (s ≡ record_version lib r (propose_draft lib (current r o.id) o by) now o)
  unfolding propose
  propose-eq-ok o by now h = ground arith

  pub certify_rule-eq-ok :
      (id by key : String) (note : Option String) (at : Option ℕ) (now : ℕ) {s : RuleRegistry}
      {v : Obligation}
      → certify_rule lib r id by key note at now ≡ ok (s, v)
      → (b : Obligation) × (current r id ≡ some b)
        × (certify lib.hmac b by key at note now ≡ ok v)
        × (s ≡ record_version lib r (certify_draft lib id b v by note) now v)
  unfolding certify_rule
  certify_rule-eq-ok id by key remark at now h = ground arith

  pub reject-eq-ok :
      (id by reason : String) (now : ℕ) {s : RuleRegistry} {v : Obligation}
      → reject lib r id by reason now ≡ ok (s, v)
      → (b : Obligation) × (current r id ≡ some b)
        × (is_certified b.status ≡ false)
        × (non_empty (strip reason) ≡ true)
        × (v ≡ record b { status = RuleStatus.rejected })
        × (s ≡ record_version lib r (reject_draft lib id b by reason) now v)
  unfolding reject
  reject-eq-ok id by reason now h = ground arith

  pub amend-eq-ok :
      (id : String) (edits : List Edit) (by level : String) (note : Option String) (now₁ now₂ : ℕ)
      {s : RuleRegistry} {v : Obligation}
      → amend lib r id edits by level note now₁ now₂ ≡ ok (s, v)
      → (b : Obligation) × (current r id ≡ some b)
        × (names_forbidden edits ≡ false)
        × (model_validate lib.sha256_text (amended_copy lib b edits level) ≡ ok v)
        × (s
            ≡ record_version lib
                (supersede lib r id b v by now₁)
                (amend_draft lib id b v by note)
                now₂
                v)
  unfolding amend
  amend-eq-ok id edits by level remark now₁ now₂ h = ground arith
