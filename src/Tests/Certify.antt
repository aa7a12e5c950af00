-- ===== src/Tests/Certify.antt =====
-- The rule's life at a sample: proposed, signed, amended, and the ledger of it.
use sanhita.Prelude.{
  false, ℕ, String, ◌≡◌, ◌↔◌, refl, List, [], ◌∷◌, ◌++◌, Option, none, some, ok, err, arith, ◌⊎◌,
  true, str_eq, if◌then◌else◌,
}
use sanhita.Prelude.Dict.{get, put, update, keys}
use sanhita.Prelude.Sort.{sort, sorted_set}
use sanhita.Prelude.Text.{non_empty, strip, show}
use sanhita.Chain
use sanhita.Chain.{Collision}
use sanhita.Ir.Enums.{RuleStatus, same_status}
use sanhita.Ir.Ids.{suffix_for_index, obligation_id}
use sanhita.Ir.Fields.{id_fits}
use sanhita.Ir.Shape.{obligation_id_fits}
use sanhita.Ir.Sets.{build, refuses_ids, build_distinct}
use sanhita.Ir.Schema.{Obligation}
use sanhita.Ir.Validate.{
  model_validate, check_fields, check_recurrence, check_deadline, check_kind, check_anchor,
  check_consistency, check_conditions, clause_part,
}
use sanhita.Ir.Obligation.{
  certify, signing_payload, blocking_issues, sign_hmac, verify_hmac, verify_signature,
}
use sanhita.Ir.Signing.{verify_signature-certify}
use sanhita.Certify.Changes.{
  Value, Fields, Scalar, diff_values, flatten, changed, same_scalar, get_null, diff_values_lem,
}
use sanhita.Certify.Ledger.{
  AuditEntry, Draft, Transition, append, make_entry, compute_hash, payload, verify_chain, head,
}
use sanhita.Certify.Ledger.Integrity.{
  ledger_layout, history_fixed_by_head, verify_chain-append, verify_chain_lem, IsIntact,
}
use sanhita.Certify.Registry.{
  RuleRegistry, empty, history, current, propose, certify_rule, reject, amend, supersede,
  amended_copy, bump_version, record_version, push, already_certified, not_proposed,
  certified_immutable, no_reason,
}
use sanhita.Certify.Registry.AsOf.{as_of, tally, count_entry, as_of_rules}
use sanhita.Certify.Registry.Edits.{Edit, set_penalty_ref, apply_edits}
use sanhita.Certify.Registry.Invariant.{
  Call, call_propose, call_certify, call_reject, call_amend, perform, settle, run, IsSound,
  run-IsSound,
}
use sanhita.Certify.Registry.Replay.{as_of_stable}
use sanhita.Certify.Registry.Locked.{certified_is_locked, amend-certified}
use sanhita.Tests.Samples.{lib, duty, signed}

abbrev calls : List Call
calls =
    call_propose duty "extractor" 10
    ∷ call_reject "SB-40.1.8-a" "officer" "  " 15
    ∷ call_certify "SB-40.1.8-a" "officer" "key" none none 20
    ∷ []

abbrev amend_call : Call
amend_call =
    call_amend "SB-40.1.8-a" (set_penalty_ref (some "s. 15HB") ∷ []) "officer" "minor" none 30 31

-- What the tests of the registry compute with.
program : Unit {0}
unfolding run perform current history propose certify_rule reject amend supersede amended_copy
    apply_edits bump_version record_version push append make_entry compute_hash payload head certify
    blocking_issues sign_hmac signing_payload verify_signature verify_hmac strip get put sort
    model_validate check_fields check_recurrence check_deadline check_kind check_anchor
    check_consistency check_conditions clause_part as_of tally count_entry as_of_rules diff_values
    flatten update keys sorted_set changed same_scalar show verify_chain
program = tt

run-IsSound_example : IsSound lib (run lib empty calls)
run-IsSound_example = run-IsSound lib calls

current-registry : current (run lib empty calls) "SB-40.1.8-a" ≡ some signed
unfolding program
current-registry = refl

certified_is_locked_example :
    ((by : String) (now : ℕ)
      → propose lib (run lib empty calls) duty by now
        ≡ err (
            if same_status duty.status RuleStatus.proposed
            then already_certified
            else not_proposed))
    × ((by key : String) (note : Option String) (at : Option ℕ) (now : ℕ)
        → certify_rule lib (run lib empty calls) "SB-40.1.8-a" by key note at now
          ≡ err certified_immutable)
    × ((by reason : String) (now : ℕ)
        → reject lib (run lib empty calls) "SB-40.1.8-a" by reason now
          ≡ err (if non_empty (strip reason) then certified_immutable else no_reason))
certified_is_locked_example =
    certified_is_locked lib (run lib empty calls) "SB-40.1.8-a" signed duty current-registry refl
      refl

abbrev edits : List Edit
edits = set_penalty_ref (some "s. 15HB") ∷ []

abbrev amended : Obligation
amended = record duty {
  penalty_ref = some "s. 15HB";
  version = record { major = 1; minor = 1; patch = 0 };
}

abbrev after_amend : RuleRegistry
after_amend = settle (run lib empty calls) (perform lib (run lib empty calls) amend_call)

amend-registry :
    amend lib (run lib empty calls) "SB-40.1.8-a" edits "officer" "minor" none 30 31
    ≡ ok (after_amend, amended)
unfolding program
amend-registry = refl

amend-certified_example :
    ((j : String)
      → history after_amend j ≡ (
          if str_eq "SB-40.1.8-a" j
          then history (run lib empty calls) j
            ++ record signed { status = RuleStatus.superseded } ∷ amended ∷ []
          else history (run lib empty calls) j))
    × (amended.id ≡ "SB-40.1.8-a")
    × (amended.status ≡ RuleStatus.proposed)
    × (amended.certification ≡ none)
    × (amended.version ≡ bump_version signed.version "minor")
    × (check_consistency amended ≡ ok tt)
amend-certified_example =
    amend-certified lib (run lib empty calls) "SB-40.1.8-a" edits "officer" "minor" none 30 31
      after_amend amended signed (run-IsSound lib calls).filed amend-registry current-registry refl

-- Certified at 20 and amended at 30: the rulebook as of 25.
as_of_stable_example :
    as_of (settle (run lib empty calls) (perform lib (run lib empty calls) amend_call)) 25
    ≡ as_of (run lib empty calls) 25
as_of_stable_example =
    as_of_stable lib (run lib empty calls) amend_call 25 30 (run-IsSound lib calls) (omega arith)
      (omega arith, omega arith)

as_of_25 : as_of (run lib empty calls) 25 ≡ signed ∷ []
unfolding program
as_of_25 = refl

certify-duty : certify lib.hmac duty "officer" "key" none none 20 ≡ ok signed
unfolding program
certify-duty = refl

verify_signature-certify_example :
    (verify_signature lib.hmac signed "key" ≡ ok true)
    × (verify_signature lib.hmac (record signed { status = RuleStatus.superseded }) "key" ≡ ok true)
    × (verify_signature lib.hmac signed "other"
        ≡ ok (
            str_eq
              (lib.hmac "other" (signing_payload duty))
              (lib.hmac "key" (signing_payload duty))))
verify_signature-certify_example =
    verify_signature-certify lib.hmac duty "officer" "key" "other" none none 20 refl certify-duty

abbrev draft : Draft
draft = record {
  obligation_id = "SB-40.1.8-a";
  transition = Transition.proposed;
  actor = "extractor";
  to_state = "PROPOSED";
  version = record { major = 1; minor = 0; patch = 0 };
  from_state = none;
  changes = [];
  note = none;
  signature = none;
  at = none;
}

abbrev entry : AuditEntry
entry = make_entry lib.sha256_entry [] draft 10

entry_verifies : verify_chain lib.sha256_entry (entry ∷ []) ≡ []
unfolding program
entry_verifies = refl

history_fixed_by_head_example :
    (Chain.contents ledger_layout (entry ∷ []) ≡ Chain.contents ledger_layout (entry ∷ []))
    ⊎ Collision lib.sha256_entry
history_fixed_by_head_example =
    history_fixed_by_head lib.sha256_entry entry entry [] [] entry_verifies entry_verifies refl

verify_chain-append_example :
    verify_chain lib.sha256_entry (append lib.sha256_entry (entry ∷ []) draft 11)
    ≡ verify_chain lib.sha256_entry (entry ∷ [])
verify_chain-append_example = verify_chain-append lib.sha256_entry (entry ∷ []) draft 11

verify_chain_lem_example :
    (verify_chain lib.sha256_entry (entry ∷ []) ≡ []) ↔ IsIntact lib.sha256_entry (entry ∷ [])
verify_chain_lem_example = verify_chain_lem lib.sha256_entry (entry ∷ [])

suffixes : (suffix_for_index 0 ≡ "a") × (suffix_for_index 25 ≡ "z") × (suffix_for_index 26 ≡ "aa")
unfolding suffix_for_index
suffixes = (refl, refl, refl)

obligation_id_fits_example :
    (id_fits (obligation_id (λ s. s) "SB" "40.1.8" 27) ≡ true)
    × (clause_part (obligation_id (λ s. s) "SB" "40.1.8" 27) ≡ some "40.1.8")
obligation_id_fits_example = obligation_id_fits (λ s. s) "SB" "40.1.8" 27 refl refl refl refl refl

build_distinct_example :
    refuses_ids (build (λ s. s) (λ s. s) "SB" "40.1.8" (duty ∷ duty ∷ [])) ≡ false
build_distinct_example = build_distinct (λ s. s) (λ s. s) "SB" "40.1.8" (duty ∷ duty ∷ [])

abbrev before_edit : Value
before_edit = Value.dict (Fields.field "id" (Value.leaf (Scalar.text "a")) Fields.end)

abbrev after_edit : Value
after_edit = Value.dict (Fields.field "id" (Value.leaf (Scalar.text "b")) Fields.end)

diff_values_lem_example : get "id" (diff_values before_edit after_edit) ≡ (
    if same_scalar (get_null "id" (flatten before_edit "")) (get_null "id" (flatten after_edit ""))
    then none
    else some (get_null "id" (flatten before_edit ""), get_null "id" (flatten after_edit "")))
diff_values_lem_example = diff_values_lem before_edit after_edit "id"
