-- ===== src/Certify/Registry.antt =====
-- certify/lifecycle.py: the registry of every version of every rule, and its four transitions.
-- A transition that raises leaves the registry as it was: each raises before its first write.
pub mod Edits
pub mod Writes
pub mod Outcomes
pub mod Steps
pub mod Invariant
pub mod Signatures
pub mod AsOf
pub mod Replay
pub mod Locked
use sanhita.Prelude.{
  ℕ, zero, suc, ◌+◌, ◌-◌, ◌≤◌, String, ◌≡◌, Bool, true, false, not, ◌&&◌, List, [], ◌∷◌, ◌++◌, map,
  Option, none, some, Result, ok, err, ◌>>=◌, ◌>>◌, raise_if, or_else, length, get_elem?, get_last?,
  str_eq, if◌then◌else◌, leb, min, select, is_some, flatten,
}
use sanhita.Prelude.Text.{◌⧺◌, non_empty, strip, show, text_le}
use sanhita.Prelude.Dict.{Dict, get, put, values}
use sanhita.Prelude.Sort.{sort}
use sanhita.Ir.Enums.{RuleStatus, status_value, is_certified, same_status}
use sanhita.Ir.Schema.{ExtractionMeta, Certification, Version, Obligation}
use sanhita.Ir.Validate.{SchemaError, model_validate}
use sanhita.Ir.Obligation.{SigningPayload, CertifyError, certify, verify_signature}
use sanhita.Certify.Changes.{Value, Changes, diff_values}
use sanhita.Certify.Ledger.{
  Transition, AuditEntry, EntryPayload, Draft, Problem, append, verify_chain,
}
use Edits.{Edit, apply_edits, is_forbidden, names_forbidden}

-- `bump_version`
unfoldable pub bump_version : Version → String → Version
bump_version v level =
    if str_eq level "major"
    then record { major = v.major + 1; minor = 0; patch = 0 }
    else if str_eq level "patch"
    then record v { patch = v.patch + 1 }
    else record { major = v.major; minor = v.minor + 1; patch = 0 }

abbrev pub show_version : Version → String
show_version v = show v.major ⧺ "." ⧺ show v.minor ⧺ "." ⧺ show v.patch

-- What the module takes from the standard library and the schema library: SHA-256 over canonical
-- JSON and over text, HMAC-SHA256, and the dump of a rule to plain data.
pub record Library : Type 0 where
  pub sha256_entry : EntryPayload → String
  pub sha256_text : String → String
  pub hmac : String → SigningPayload → String
  pub model_dump : Obligation → Value

pub data RegistryError : Type 0 where
  not_proposed already_certified certified_immutable was_rejected : RegistryError
  no_reason unknown_obligation no_edits forbidden_edit : RegistryError
  refused : CertifyError → RegistryError
  invalid : SchemaError → RegistryError

pub record RuleRegistry : Type 0 where
  pub ledger : List AuditEntry
  pub versions : Dict (List Obligation)

abbrev pub empty : RuleRegistry
empty = record { ledger = []; versions = [] }

unfoldable pub history : RuleRegistry → String → List Obligation
history r id = or_else (get id r.versions) []

unfoldable pub current : RuleRegistry → String → Option Obligation
unfolding history
current r id = get_last? (history r id)

lasts : List (List Obligation) → List Obligation
lasts [] = []
lasts (v ∷ vs) = elim (get_last? v) [ none ↦ lasts vs | some o ↦ o ∷ lasts vs ]

unfoldable pub all_current : RuleRegistry → List Obligation
unfolding lasts
all_current r = lasts (values r.versions)

unfoldable pub by_status : RuleRegistry → RuleStatus → List Obligation
unfolding all_current
by_status r status = select (λ o. same_status o.status status) (all_current r)

abbrev pub Outcome : Type 0
Outcome = Result RegistryError (RuleRegistry × Obligation)

abbrev pub require : RuleRegistry → String → Result RegistryError Obligation
require r id = elim (current r id) [ none ↦ err unknown_obligation | some o ↦ ok o ]

-- `_push`
unfoldable pub push : RuleRegistry → Obligation → RuleRegistry
unfolding history
push r o = record r { versions = put o.id (history r o.id ++ o ∷ []) r.versions }

abbrev pub no_items : {A : Type 0} → List A → Bool
no_items [] = true
no_items (x ∷ xs) = false

module _ (lib : Library) where
  -- `ledger.append`, and then `_push`: the two writes of a transition.
  unfoldable pub record_version : RuleRegistry → Draft → ℕ → Obligation → RuleRegistry
  unfolding push
  record_version r d now o = push (record r { ledger = append lib.sha256_entry r.ledger d now }) o

  abbrev pub blank_draft : String → Transition → String → String → Version → Draft
  blank_draft id transition actor to_state version = record {
    obligation_id = id;
    transition = transition;
    actor = actor;
    to_state = to_state;
    version = version;
    from_state = none;
    changes = [];
    note = none;
    signature = none;
    at = none;
  }

  -- The ledger's entry for a proposal.
  abbrev pub propose_draft : Option Obligation → Obligation → String → Draft
  propose_draft existing o by =
      record (blank_draft o.id Transition.proposed by (status_value RuleStatus.proposed)
        o.version) {
          from_state = elim existing [ none ↦ none | some e ↦ some (status_value e.status) ];
          changes = elim existing [
            | none ↦ []
            | some e ↦ diff_values (lib.model_dump e) (lib.model_dump o)
          ];
          note = elim o.extraction [ none ↦ none | some x ↦ some x.engine ];
        }

  abbrev pub is_certified_rule : Option Obligation → Bool
  is_certified_rule none = false
  is_certified_rule (some o) = is_certified o.status

  -- `now` is the clock's reading at the ledger's append.
  unfoldable pub propose : RuleRegistry → Obligation → String → ℕ → Outcome
  propose r o by now = do
    raise_if (not (same_status o.status RuleStatus.proposed)) not_proposed
    raise_if (is_certified_rule (current r o.id)) already_certified
    ok (record_version r (propose_draft (current r o.id) o by) now o, o)

  abbrev pub certify_blocked : RuleStatus → Result RegistryError (Unit {0})
  certify_blocked RuleStatus.certified = err certified_immutable
  certify_blocked RuleStatus.rejected = err was_rejected
  certify_blocked _ = ok tt

  abbrev pub lift_certify : Result CertifyError Obligation → Result RegistryError Obligation
  lift_certify (ok o) = ok o
  lift_certify (err e) = err (refused e)

  abbrev pub signature_of : Obligation → Option String
  signature_of o = elim o.certification [ none ↦ none | some c ↦ some c.signature ]

  abbrev pub certify_draft : String → Obligation → Obligation → String → Option String → Draft
  certify_draft id before after by note =
      record (blank_draft id Transition.certified by (status_value RuleStatus.certified)
        after.version) {
          from_state = some (status_value before.status);
          note = note;
          signature = signature_of after;
        }

  -- The caller's `at` dates the certificate; the ledger's entry is dated by the clock.
  unfoldable pub certify_rule :
      RuleRegistry → String → String → String → Option String → Option ℕ → ℕ → Outcome
  certify_rule r id by key note at now = do
    before ← require r id
    certify_blocked before.status
    after ← lift_certify (certify lib.hmac before by key at note now)
    ok (record_version r (certify_draft id before after by note) now after, after)

  abbrev pub reject_draft : String → Obligation → String → String → Draft
  reject_draft id before by reason =
      record (blank_draft id Transition.rejected by (status_value RuleStatus.rejected)
        before.version) { from_state = some (status_value before.status); note = some reason }

  unfoldable pub reject : RuleRegistry → String → String → String → ℕ → Outcome
  reject r id by reason now = do
    raise_if (not (non_empty (strip reason))) no_reason
    before ← require r id
    raise_if (is_certified before.status) certified_immutable
    let after = record before { status = RuleStatus.rejected }
    ok (record_version r (reject_draft id before by reason) now after, after)

  abbrev pub supersede_draft : String → Obligation → Obligation → String → Draft
  supersede_draft id before after by =
      record (blank_draft id Transition.superseded by (status_value RuleStatus.superseded)
        before.version) {
          from_state = some (status_value RuleStatus.certified);
          note = some ("superseded by " ⧺ show_version after.version);
        }

  abbrev pub amend_draft : String → Obligation → Obligation → String → Option String → Draft
  amend_draft id before after by note =
      record (blank_draft id Transition.amended by (status_value RuleStatus.proposed)
        after.version) {
          from_state = some (status_value before.status);
          changes = diff_values (lib.model_dump before) (lib.model_dump after);
          note = note;
        }

  -- The first write of `amend`: a certified rule is superseded.
  unfoldable pub supersede :
      RuleRegistry → String → Obligation → Obligation → String → ℕ → RuleRegistry
  supersede r id before after by now =
      if is_certified before.status
      then record_version r (supersede_draft id before after by) now
          (record before { status = RuleStatus.superseded })
      else r

  -- `model_copy(update={**edits, status, certification, version})`
  unfoldable pub amended_copy : Obligation → List Edit → String → Obligation
  unfolding bump_version
  amended_copy before edits level = record (apply_edits edits before) {
    status = RuleStatus.proposed;
    certification = none;
    version = bump_version before.version level;
  }

  abbrev pub lift_validate : Result SchemaError Obligation → Result RegistryError Obligation
  lift_validate (ok o) = ok o
  lift_validate (err e) = err (invalid e)

  abbrev pub no_edits_given : List Edit → Bool
  no_edits_given [] = true
  no_edits_given (e ∷ es) = false

  -- `now₁` and `now₂` are the clock's readings at the two appends.
  unfoldable pub amend :
      RuleRegistry → String → List Edit → String → String → Option String → ℕ → ℕ → Outcome
  amend r id edits by level note now₁ now₂ = do
    before ← require r id
    raise_if (no_edits_given edits) no_edits
    raise_if (names_forbidden edits) forbidden_edit
    after ← lift_validate (model_validate lib.sha256_text (amended_copy before edits level))
    ok (
      record_version (supersede r id before after by now₁) (amend_draft id before after by note)
          now₂ after,
      after,
    )
