-- ===== src/Certify/Registry/Steps.antt =====
-- Every transition that does not raise is a run of writes.
use sanhita.Prelude.{
  ℕ, ◌≤◌, String, ◌≡◌, refl, sym, ◌∙◌, ap, false, List, Option, none, ok, Bool-cases, inl, inr,
}
use sanhita.Ir.Enums.{RuleStatus, status_value, is_certified}
use sanhita.Ir.Schema.{Obligation}
use sanhita.Ir.Validate.{model_validate-ok}
use sanhita.Ir.Obligation.{certify}
use sanhita.Ir.Signing.{certify-eq-ok}
use sanhita.Certify.Ledger.{Draft}
use sanhita.Certify.Registry.{
  Library, RuleRegistry, current, record_version, propose, certify_rule, reject, amend, supersede,
  amended_copy, bump_version, propose_draft, certify_draft, reject_draft, supersede_draft,
  amend_draft,
}
use sanhita.Certify.Registry.Outcomes.{
  current-id, propose-eq-ok, certify_rule-eq-ok, reject-eq-ok, amend-eq-ok,
}
use sanhita.Certify.Registry.Edits.{Edit, apply_edits-id, names_forbidden}
use sanhita.Certify.Registry.Writes.{Fits, Writes, done, write, IsFiled}

-- `certify` and the validated copy keep the rule's id and say its status.
certified_copy :
    (lib : Library) (b : Obligation) (by key : String) (at : Option ℕ) (note : Option String)
    (now : ℕ) (v : Obligation)
    → certify lib.hmac b by key at note now ≡ ok v
    → (v.id ≡ b.id) × (v.status ≡ RuleStatus.certified)
certified_copy lib b by key at remark now v h =
    let (_, _, _, _, _, e) = certify-eq-ok lib.hmac b by key at remark now h in
    (ap (λ (o : Obligation). o.id) e, ap (λ (o : Obligation). o.status) e)

pub amended_copy_fields :
    (lib : Library) (b : Obligation) (edits : List Edit) (level : String)
    → names_forbidden edits ≡ false
    → ((amended_copy lib b edits level).id ≡ b.id)
      × ((amended_copy lib b edits level).status ≡ RuleStatus.proposed)
      × ((amended_copy lib b edits level).certification ≡ none)
      × ((amended_copy lib b edits level).version ≡ bump_version b.version level)
unfolding amended_copy
amended_copy_fields lib b edits level h = (apply_edits-id edits b h, refl, refl, refl)

module _ (lib : Library) (since : ℕ) (r : RuleRegistry) where
  write_one :
      (d : Draft) (now : ℕ) (o : Obligation) {s : RuleRegistry}
      → Fits d o
      → since ≤ now
      → s ≡ record_version lib r d now o
      → Writes lib since r s
  write_one d now o fits late e = write done d now o fits late e

  pub propose-Writes :
      (o : Obligation) (by : String) (now : ℕ) {s : RuleRegistry} {v : Obligation}
      → since ≤ now
      → propose lib r o by now ≡ ok (s, v)
      → Writes lib since r s
  propose-Writes o by now late h =
      let (st, _, _, e) = propose-eq-ok lib r o by now h in
      let fits : Fits (propose_draft lib (current r o.id) o by) o = record {
        same_id = refl;
        same_state = ap status_value (sym st);
        same_version = refl;
        by_clock = refl;
      } in
      write_one _ now o fits late e

  pub certify_rule-Writes :
      (id by key : String) (note : Option String) (at : Option ℕ) (now : ℕ) {s : RuleRegistry}
      {v : Obligation}
      → IsFiled r
      → since ≤ now
      → certify_rule lib r id by key note at now ≡ ok (s, v)
      → Writes lib since r s
  certify_rule-Writes id by key remark at now {v = v} f late h =
      let (b, c, k, e) = certify_rule-eq-ok lib r id by key remark at now h in
      let (same, st) = certified_copy lib b by key at remark now v k in
      let fits : Fits (certify_draft lib id b v by remark) v = record {
        same_id = sym (same ∙ current-id r id b f c);
        same_state = ap status_value (sym st);
        same_version = refl;
        by_clock = refl;
      } in
      write_one _ now v fits late e

  pub reject-Writes :
      (id by reason : String) (now : ℕ) {s : RuleRegistry} {v : Obligation}
      → IsFiled r
      → since ≤ now
      → reject lib r id by reason now ≡ ok (s, v)
      → Writes lib since r s
  reject-Writes id by reason now {v = v} f late h =
      let (b, c, _, _, k, e) = reject-eq-ok lib r id by reason now h in
      let fits : Fits (reject_draft lib id b by reason) v = record {
        same_id = sym (ap (λ (o : Obligation). o.id) k ∙ current-id r id b f c);
        same_state = ap (λ (o : Obligation). status_value o.status) (sym k);
        same_version = ap (λ (o : Obligation). o.version) (sym k);
        by_clock = refl;
      } in
      write_one _ now v fits late e

  supersede-Writes :
      (id : String) (b v : Obligation) (by : String) (now : ℕ)
      → b.id ≡ id
      → since ≤ now
      → Writes lib since r (supersede lib r id b v by now)
  unfolding supersede
  supersede-Writes id b v by now e late = elim (Bool-cases (is_certified b.status)) [
    | inl c ↦ rw c (
        write_one (supersede_draft lib id b v by) now (record b { status = RuleStatus.superseded })
          (record { same_id = sym e; same_state = refl; same_version = refl; by_clock = refl }) late
          refl)
    | inr c ↦ rw c done
  ]

  pub amend-Writes :
      (id : String) (edits : List Edit) (by level : String) (note : Option String) (now₁ now₂ : ℕ)
      {s : RuleRegistry} {v : Obligation}
      → IsFiled r
      → since ≤ now₁
      → since ≤ now₂
      → amend lib r id edits by level note now₁ now₂ ≡ ok (s, v)
      → Writes lib since r s
  amend-Writes id edits by level remark now₁ now₂ {v = v} f late₁ late₂ h =
      let (b, c, n, k, e) = amend-eq-ok lib r id edits by level remark now₁ now₂ h in
      let (same, _, _) = model_validate-ok lib.sha256_text (amended_copy lib b edits level) v k in
      let (same_id, st, _, _) = amended_copy_fields lib b edits level n in
      let fits : Fits (amend_draft lib id b v by remark) v = record {
        same_id = sym (ap (λ (o : Obligation). o.id) same ∙ (same_id ∙ current-id r id b f c));
        same_state = ap status_value (sym (ap (λ (o : Obligation). o.status) same ∙ st));
        same_version = refl;
        by_clock = refl;
      } in
      write (supersede-Writes id b v by now₁ (current-id r id b f c) late₁) _ now₂ v fits late₂ e
