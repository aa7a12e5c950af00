-- ===== src/Ir/Validate.antt =====
-- ir/schema.py: the validators of the value objects and of the rule. The normalising part of the field
-- validators (case, white space, sorting) is taken to have run: values are given normalised. The
-- fields of a certificate are checked where `certify` builds it.
use Prim.Native.String.{count}
use Prim.Native.Char.{Char, code}
use sanhita.Prelude.{
  ℕ, ◌+◌, String, ◌≡◌, Bool, true, false, not, ◌&&◌, ◌||◌, List, [], ◌∷◌, Option, none, some,
  Result, ok, err, ◌>>◌, raise_if, is_some, all, leb, ltb, ◌==◌, str_eq, if◌then◌else◌,
}
use sanhita.Prelude.Text.{non_empty}
use sanhita.Ir.Enums.{
  TriggerKind, DeadlineKind, CommencementKind, ConditionKind, RuleStatus, is_certified, is_must,
  is_unspecified,
}
use sanhita.Ir.Fields.{
  id_fits, action_fits, trigger_fits, recurrence_fits, deadline_fits, period_fits, condition_fits,
  artifact_type_fits, evidence_fits, anchor_fits,
}
use sanhita.Ir.Schema.{Trigger, Commencement, Deadline, Condition, SourceAnchor, Obligation}

-- Which check refused the value.
pub data SchemaError : Type 0 where
  recurrence_required recurrence_meaningless : SchemaError
  fixed_date_required offset_required condition_required : SchemaError
  absolute_without_date absolute_with_offset one_offset_required anchor_required : SchemaError
  period_required on_demand_with_date day_count_without_days : SchemaError
  threshold_without_parameter bad_span hash_mismatch : SchemaError
  must_without_evidence certified_without_certificate certificate_without_status : SchemaError
  bad_id bad_action bad_trigger bad_recurrence bad_period bad_condition : SchemaError
  bad_artifact_type bad_anchor : SchemaError
  malformed_id clause_mismatch bad_provenance empty_signer empty_key : SchemaError

abbrev pub Check : Type 0
Check = Result SchemaError (Unit {0})

abbrev pub has_text : Option String → Bool
has_text none = false
has_text (some s) = non_empty s

unfoldable pub check_recurrence : Trigger → Check
check_recurrence t = elim t.kind [
  | TriggerKind.schedule ↦ raise_if (not (has_text t.recurrence)) recurrence_required
  | _ ↦ raise_if (has_text t.recurrence) recurrence_meaningless
]

unfoldable pub check_commencement : Commencement → Check
check_commencement c = elim c.kind [
  | CommencementKind.fixed_date ↦ raise_if (not (is_some c.fixed_date)) fixed_date_required
  | CommencementKind.relative_to_issuance ↦ raise_if (not (is_some c.offset_days)) offset_required
  | CommencementKind.conditional_on_event ↦ raise_if (not (has_text c.condition)) condition_required
]

-- `len(set_offsets)`
abbrev pub offsets_set : Deadline → ℕ
offsets_set d =
    (if is_some d.offset_days then 1 else 0)
    + ((if is_some d.offset_hours then 1 else 0) + (if is_some d.offset_months then 1 else 0))

unfoldable pub check_kind : Deadline → Check
check_kind d = elim d.kind [
  | DeadlineKind.absolute ↦ do
    raise_if (not (is_some d.absolute_date)) absolute_without_date
    raise_if (ltb 0 (offsets_set d)) absolute_with_offset
  | DeadlineKind.relative ↦ do
    raise_if (not (offsets_set d == 1)) one_offset_required
    raise_if (not (has_text d.anchor_event)) anchor_required
  | DeadlineKind.end_of_period ↦ raise_if (not (has_text d.period)) period_required
  | DeadlineKind.on_demand ↦
      raise_if (ltb 0 (offsets_set d) || is_some d.absolute_date) on_demand_with_date
]

unfoldable pub check_deadline : Deadline → Check
unfolding check_kind
check_deadline d = do
  check_kind d
  raise_if (not (is_unspecified d.business_days) && not (is_some d.offset_days))
      day_count_without_days

-- `needs_resolution`
abbrev pub needs_resolution : Deadline → Bool
needs_resolution d = is_some d.offset_days && is_unspecified d.business_days

unfoldable pub check_threshold : Condition → Check
check_threshold c = elim c.kind [
  | ConditionKind.threshold ↦ elim c.parameters [
    | [] ↦ err threshold_without_parameter
    | _ ∷ _ ↦ ok tt
  ]
  | _ ↦ ok tt
]

-- `sha256_hex` is the standard library's SHA-256 of the text's UTF-8, in hexadecimal.
unfoldable pub check_anchor : (String → String) → SourceAnchor → Check
check_anchor sha256_hex a = do
  raise_if (ltb a.char_span.1 a.char_span.0) bad_span
  raise_if (not (str_eq (sha256_hex a.verbatim_text) a.sha256)) hash_mismatch

unfoldable pub is_dash : Char → Bool
is_dash c = code c == b'-'

-- `s.split("-", 1)`: what stands before the first dash, and what stands behind it.
unfoldable pub before_dash : String → String
unfolding is_dash
before_dash String.[] = String.[]
before_dash (String.◌∷◌ c s) = if is_dash c then String.[] else String.◌∷◌ c (before_dash s)

unfoldable pub after_dash : String → Option String
unfolding is_dash
after_dash String.[] = none
after_dash (String.◌∷◌ c s) = if is_dash c then some s else after_dash s

-- `self.id.split("-", 2)[1]`
unfoldable pub clause_part : String → Option String
unfolding before_dash after_dash
clause_part id = elim (after_dash id) [ none ↦ none | some rest ↦ some (before_dash rest) ]

abbrev pub same_clause : Option String → String → Check
same_clause none clause = err malformed_id
same_clause (some part) clause = raise_if (not (str_eq part clause)) clause_mismatch

abbrev pub span_fits : ℕ → (String × (ℕ × ℕ)) → Bool
span_fits limit (name, (start, end)) = leb start end && leb end limit

abbrev pub has_evidence : Obligation → Bool
has_evidence o = elim o.evidence [ [] ↦ false | _ ∷ _ ↦ true ]

-- A certificate is valid on these two statuses only.
abbrev pub may_carry_certificate : RuleStatus → Bool
may_carry_certificate RuleStatus.certified = true
may_carry_certificate RuleStatus.superseded = true
may_carry_certificate _ = false

unfoldable pub check_consistency : Obligation → Check
unfolding clause_part
check_consistency o = do
  raise_if (is_must o.modality && not (has_evidence o)) must_without_evidence
  raise_if (is_certified o.status && not (is_some o.certification)) certified_without_certificate
  raise_if (is_some o.certification && not (may_carry_certificate o.status))
      certificate_without_status
  same_clause (clause_part o.id) o.source.clause_id
  raise_if (not (all (span_fits (count o.source.verbatim_text)) o.field_provenance)) bad_provenance

unfoldable pub check_conditions : List Condition → Check
unfolding check_threshold
check_conditions [] = ok tt
check_conditions (c ∷ cs) = check_threshold c >> check_conditions cs

abbrev pub check_optional : {A : Type 0} → (A → Check) → Option A → Check
check_optional check none = ok tt
check_optional check (some a) = check a

abbrev pub commencement_of : Option Deadline → Option Commencement
commencement_of none = none
commencement_of (some d) = d.commencement

-- The checks of single fields.
unfoldable pub check_fields : Obligation → Check
unfolding id_fits recurrence_fits period_fits artifact_type_fits
check_fields o = do
  raise_if (not (id_fits o.id)) bad_id
  raise_if (not (action_fits o.action)) bad_action
  raise_if (not (trigger_fits o.trigger)) bad_trigger
  raise_if (not (recurrence_fits o.trigger.recurrence)) bad_recurrence
  raise_if (not (deadline_fits o.deadline)) bad_period
  raise_if (not (all condition_fits o.conditions)) bad_condition
  raise_if (not (all evidence_fits o.evidence)) bad_artifact_type
  raise_if (not (anchor_fits o.source)) bad_anchor

-- `Obligation.model_validate`: the fields and the parts first, then the rule as a whole.
unfoldable pub model_validate : (String → String) → Obligation → Result SchemaError Obligation
model_validate sha256_hex o = do
  check_fields o
  check_recurrence o.trigger
  check_optional check_commencement (commencement_of o.deadline)
  check_optional check_deadline o.deadline
  check_conditions o.conditions
  check_anchor sha256_hex o.source
  check_consistency o
  ok o

pub >>-eq-ok :
    {B : Type 0} (m : Check) (k : Result SchemaError B) {b : B}
    → (m >> k) ≡ ok b
    → (m ≡ ok tt) × (k ≡ ok b)
>>-eq-ok (ok tt) k h = (λ i. ok tt, h)
>>-eq-ok (err e) k h = cc

-- A value that passes is returned as it is, and is consistent.
pub model_validate-ok :
    (sha256_hex : String → String) (o v : Obligation)
    → model_validate sha256_hex o ≡ ok v
    → (v ≡ o) × (check_consistency o ≡ ok tt) × (check_optional check_deadline o.deadline ≡ ok tt)
unfolding model_validate
model_validate-ok sha256_hex o v h =
    let (_, h₀) = >>-eq-ok (check_fields o) _ h in
    let (_, h₁) = >>-eq-ok (check_recurrence o.trigger) _ h₀ in
    let (_, h₂) = >>-eq-ok (check_optional check_commencement (commencement_of o.deadline)) _ h₁ in
    let (d, h₃) = >>-eq-ok (check_optional check_deadline o.deadline) _ h₂ in
    let (_, h₄) = >>-eq-ok (check_conditions o.conditions) _ h₃ in
    let (_, h₅) = >>-eq-ok (check_anchor sha256_hex o.source) _ h₄ in
    let (c, h₆) = >>-eq-ok (check_consistency o) _ h₅ in (cc, c, d)
