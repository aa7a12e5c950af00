-- ===== src/Certify/Registry/Locked.antt =====
-- A certified rule changes only by amendment, and an amendment keeps the signed version.
use sanhita.Prelude.{
  ℕ, String, ◌≡◌, ◌∙◌, ap, List, [], ◌∷◌, ◌++◌, Option, none, some, ok, err, str_eq, if◌then◌else◌,
  arith, append_assoc,
}
use sanhita.Prelude.Text.{non_empty, strip}
use sanhita.Ir.Enums.{RuleStatus, same_status}
use sanhita.Ir.Schema.{Obligation}
use sanhita.Ir.Validate.{model_validate-ok, check_consistency}
use sanhita.Certify.Ledger.{Draft}
use sanhita.Certify.Registry.{
  Library, RuleRegistry, history, current, record_version, propose, certify_rule, reject, amend,
  supersede, amend_draft, amended_copy, bump_version, no_reason, already_certified, not_proposed,
  certified_immutable,
}
use sanhita.Certify.Registry.Edits.{Edit}
use sanhita.Certify.Registry.Writes.{IsFiled, history-record_version}
use sanhita.Certify.Registry.Outcomes.{current-id, amend-eq-ok}
use sanhita.Certify.Registry.Steps.{amended_copy_fields}
use sanhita.Certify.Registry.Invariant.{history-supersede}

-- While the latest version under a rule's id is certified, no rule with that id can be proposed, and
-- the certified one can neither be certified again nor rejected: each of the three calls raises.
pub certified_is_locked :
    (lib : Library) (r : RuleRegistry) (id : String) (b o : Obligation)
    → current r id ≡ some b
    → b.status ≡ RuleStatus.certified
    → o.id ≡ id
    → ((by : String) (now : ℕ)
        → propose lib r o by now
          ≡ err (
              if same_status o.status RuleStatus.proposed then already_certified else not_proposed))
      × ((by key : String) (note : Option String) (at : Option ℕ) (now : ℕ)
          → certify_rule lib r id by key note at now ≡ err certified_immutable)
      × ((by reason : String) (now : ℕ)
          → reject lib r id by reason now
            ≡ err (if non_empty (strip reason) then certified_immutable else no_reason))
unfolding propose certify_rule reject
certified_is_locked lib r id b o c st e = (
  λ by now. ground (arith, ap (current r) e),
  λ by key remark at now. ground arith,
  λ by reason now. ground arith,
)

history_of_amendment :
    (lib : Library) (r : RuleRegistry) (id : String) (b v : Obligation) (by : String) (now₁ : ℕ)
    (d : Draft) (now₂ : ℕ) (j : String)
    → b.status ≡ RuleStatus.certified
    → b.id ≡ id
    → v.id ≡ id
    → history (record_version lib (supersede lib r id b v by now₁) d now₂ v) j ≡ (
        if str_eq id j
        then history r j ++ record b { status = RuleStatus.superseded } ∷ v ∷ []
        else history r j)
history_of_amendment lib r id b v by now₁ d now₂ j st bid vid =
    let old = record b { status = RuleStatus.superseded } in
    ground (
      arith,
      history-record_version lib (supersede lib r id b v by now₁) d now₂ v j,
      history-supersede lib r id b v by now₁ j,
      ap (λ t. str_eq t j) vid,
      ap (λ t. str_eq t j) bid,
      append_assoc (history r j) (old ∷ []) (v ∷ []),
    )

-- Amending a rule whose latest version is certified adds two versions: the signed one, marked
-- superseded and otherwise unchanged, certificate included; and then the amended one, which is a
-- consistent proposal with no certificate and the next version number. No other rule changes.
pub amend-certified :
    (lib : Library) (r : RuleRegistry) (id : String) (edits : List Edit) (by level : String)
    (note : Option String) (now₁ now₂ : ℕ) (s : RuleRegistry) (v b : Obligation)
    → IsFiled r
    → amend lib r id edits by level note now₁ now₂ ≡ ok (s, v)
    → current r id ≡ some b
    → b.status ≡ RuleStatus.certified
    → ((j : String)
        → history s j ≡ (
            if str_eq id j
            then history r j ++ record b { status = RuleStatus.superseded } ∷ v ∷ []
            else history r j))
      × (v.id ≡ id)
      × (v.status ≡ RuleStatus.proposed)
      × (v.certification ≡ none)
      × (v.version ≡ bump_version b.version level)
      × (check_consistency v ≡ ok tt)
amend-certified lib r id edits by level remark now₁ now₂ s v b f h c st =
    let (b', c', n, k, e) = amend-eq-ok lib r id edits by level remark now₁ now₂ h in
    let one : b' ≡ b = ground arith in
    let (same, good, _) = model_validate-ok lib.sha256_text (amended_copy lib b' edits level) v k in
    let (same_id, vst, nocert, ver) = amended_copy_fields lib b' edits level n in
    let bid : b'.id ≡ id = current-id r id b' f c' in
    let vid : v.id ≡ id = ap (λ (o : Obligation). o.id) same ∙ (same_id ∙ bid) in
    let grown = λ (j : String).
      ap (λ s. history s j) e
      ∙ history_of_amendment lib r id b' v by now₁ (amend_draft lib id b' v by remark) now₂ j
          (ap (λ (o : Obligation). o.status) one ∙ st) bid vid in
    (
      λ j.
          grown j
          ∙ ap
              (λ (o : Obligation).
                if str_eq id j
                then history r j ++ record o { status = RuleStatus.superseded } ∷ v ∷ []
                else history r j)
              one,
      vid,
      ap (λ (o : Obligation). o.status) same ∙ vst,
      ap (λ (o : Obligation). o.certification) same ∙ nocert,
      ap (λ (o : Obligation). o.version) same
          ∙ (ver ∙ ap (λ (o : Obligation). bump_version o.version level) one),
      rw same good,
    )
