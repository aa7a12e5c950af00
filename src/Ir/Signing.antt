-- ===== src/Ir/Signing.antt =====
-- What `Obligation.certify` gives when it does not raise, that it is valid, and that its signature
-- verifies.
use sanhita.Prelude.{
  ℕ, String, ◌≡◌, ◌≢◌, refl, ◌∙◌, ap, true, [], Option, some, ok, or_else, str_eq, eq_iff, arith,
}
use sanhita.Prelude.Text.{non_empty}
use sanhita.Ir.Enums.{RuleStatus}
use sanhita.Ir.Schema.{Certification, Obligation}
use sanhita.Ir.Obligation.{
  SigningPayload, signing_payload, blocking_issues, certify, sign_hmac, verify_hmac,
  verify_signature,
}

abbrev certified_with : Obligation → Certification → Obligation
certified_with o c = record o { status = RuleStatus.certified; certification = some c }

module _ (hmac : String → SigningPayload → String) where
  abbrev pub certificate :
      Obligation → String → String → Option ℕ → Option String → ℕ → Certification
  certificate o by key at note now = record {
    certified_by = by;
    certified_at = or_else at now;
    signature = hmac key (signing_payload o);
    locked = true;
    note = note;
  }

  pub certify-eq-ok :
      (o : Obligation) (by key : String) (at : Option ℕ) (note : Option String) (now : ℕ)
      {v : Obligation}
      → certify hmac o by key at note now ≡ ok v
      → (o.status ≢ RuleStatus.certified)
        × (o.status ≢ RuleStatus.rejected)
        × (blocking_issues o ≡ [])
        × (non_empty key ≡ true)
        × (non_empty by ≡ true)
        × (v ≡ record o {
          status = RuleStatus.certified;
          certification = some (certificate o by key at note now);
        })
  unfolding certify
  certify-eq-ok o by key at remark now h = ground arith

  unfolded_signature :
      (o : Obligation) (c : Certification) (status : RuleStatus) (key : String)
      → verify_signature hmac (record o { status = status; certification = some c }) key
        ≡ verify_hmac hmac (signing_payload o) key c.signature
  unfolding verify_signature signing_payload
  unfolded_signature o c status key = refl

  same_hmac :
      (p : SigningPayload) (key signature : String)
      → non_empty key ≡ true
      → verify_hmac hmac p key signature ≡ ok (str_eq (hmac key p) signature)
  unfolding verify_hmac sign_hmac
  same_hmac p key signature k = ground arith

  -- The signature of a rule that `certify` returned verifies under the same key, and still does
  -- when the rule is superseded later; under any other key it verifies exactly where that key's HMAC of
  -- the rule's normative content is the same.
  pub verify_signature-certify :
      (o : Obligation) (by key other : String) (at : Option ℕ) (note : Option String) (now : ℕ)
      {v : Obligation}
      → non_empty other ≡ true
      → certify hmac o by key at note now ≡ ok v
      → (verify_signature hmac v key ≡ ok true)
        × (verify_signature hmac (record v { status = RuleStatus.superseded }) key ≡ ok true)
        × (verify_signature hmac v other
            ≡ ok (str_eq (hmac other (signing_payload o)) (hmac key (signing_payload o))))
  verify_signature-certify o by key other at remark now {v} n h =
      let (_, _, _, k, _, e) = certify-eq-ok o by key at remark now h in
      let c = certificate o by key at remark now in
      let p = signing_payload o in
      let with_status = λ (status : RuleStatus).
        unfolded_signature o c status key
        ∙ (same_hmac p key (hmac key p) k ∙ ap ok ((eq_iff (hmac key p) (hmac key p)).1 refl)) in
      (
        rw e (with_status RuleStatus.certified),
        rw e (with_status RuleStatus.superseded),
        rw e (unfolded_signature o c RuleStatus.certified other ∙ same_hmac p other (hmac key p) n),
      )
