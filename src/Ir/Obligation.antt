-- ===== src/Ir/Obligation.antt =====
-- ir/schema.py and ir/canonical.py: what a signature covers, signing, and `Obligation.certify`.
use sanhita.Prelude.{
  ℕ, String, Bool, true, false, not, ◌&&◌, ◌||◌, List, [], ◌∷◌, ◌++◌, Option, none, some, Result,
  ok, err, ◌>>=◌, ◌>>◌, raise_if, or_else, str_eq, if◌then◌else◌,
}
use sanhita.Prelude.Text.{non_empty}
use sanhita.Ir.Enums.{Actor, Modality, RuleStatus, is_must}
use sanhita.Ir.Schema.{
  Action, Trigger, Deadline, Condition, EvidenceReq, SourceAnchor, Version, Obligation,
}
use sanhita.Ir.Validate.{SchemaError, empty_signer, empty_key, needs_resolution, has_evidence}

-- The normative content of a rule: every field but the certificate, the status and the telemetry.
pub record SigningPayload : Type 0 where
  pub id : String
  pub actor : Actor
  pub modality : Modality
  pub action : Action
  pub trigger : Trigger
  pub deadline : Option Deadline
  pub conditions : List Condition
  pub evidence : List EvidenceReq
  pub penalty_ref : Option String
  pub source : SourceAnchor
  pub version : Version

unfoldable pub signing_payload : Obligation → SigningPayload
signing_payload o = record {
  id = o.id;
  actor = o.actor;
  modality = o.modality;
  action = o.action;
  trigger = o.trigger;
  deadline = o.deadline;
  conditions = o.conditions;
  evidence = o.evidence;
  penalty_ref = o.penalty_ref;
  source = o.source;
  version = o.version;
}

-- The three questions that a person must settle before signing.
pub data Issue : Type 0 where
  day_count_open no_evidence action_incomplete : Issue

abbrev pub deadline_open : Option Deadline → Bool
deadline_open none = false
deadline_open (some d) = needs_resolution d

unfoldable pub blocking_issues : Obligation → List Issue
blocking_issues o =
    (if deadline_open o.deadline then day_count_open ∷ [] else [])
    ++ ((if is_must o.modality && not (has_evidence o) then no_evidence ∷ [] else [])
        ++ (if not (non_empty o.action.verb) || not (non_empty o.action.object)
            then action_incomplete ∷ []
            else []))

pub data CertifyError : Type 0 where
  already_certified was_rejected : CertifyError
  unresolved : List Issue → CertifyError
  invalid : SchemaError → CertifyError

-- `hmac key payload` is the standard library's HMAC-SHA256 over the canonical JSON of the payload.
module _ (hmac : String → SigningPayload → String) where
  unfoldable pub sign_hmac : SigningPayload → String → Result CertifyError String
  sign_hmac value key = if non_empty key then ok (hmac key value) else err (invalid empty_key)

  unfoldable pub verify_hmac : SigningPayload → String → String → Result CertifyError Bool
  unfolding sign_hmac
  verify_hmac value key signature = do
    expected ← sign_hmac value key
    ok (str_eq expected signature)

  abbrev pub status_blocks : RuleStatus → Result CertifyError (Unit {0})
  status_blocks RuleStatus.certified = err already_certified
  status_blocks RuleStatus.rejected = err was_rejected
  status_blocks _ = ok tt

  abbrev pub issues_block : List Issue → Result CertifyError (Unit {0})
  issues_block [] = ok tt
  issues_block (i ∷ is) = err (unresolved (i ∷ is))

  -- `Obligation.certify`; `now` is the clock's reading.
  unfoldable pub certify :
      Obligation → String → String → Option ℕ → Option String → ℕ → Result CertifyError Obligation
  unfolding sign_hmac
  certify o certified_by key at note now = do
    status_blocks o.status
    issues_block (blocking_issues o)
    signature ← sign_hmac (signing_payload o) key
    raise_if (not (non_empty certified_by)) (invalid empty_signer)
    ok (record o {
      status = RuleStatus.certified;
      certification = some (record {
        certified_by = certified_by;
        certified_at = or_else at now;
        signature = signature;
        locked = true;
        note = note;
      });
    })

  -- `Obligation.verify_signature`
  unfoldable pub verify_signature : Obligation → String → Result CertifyError Bool
  verify_signature o key = elim o.certification [
    | none ↦ ok false
    | some c ↦ verify_hmac (signing_payload o) key c.signature
  ]
