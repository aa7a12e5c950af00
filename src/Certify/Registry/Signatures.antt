-- ===== src/Certify/Registry/Signatures.antt =====
-- certify/lifecycle.py, `verify_signatures`: every signature and the ledger's chain, checked anew.
use sanhita.Prelude.{
  ℕ, ◌+◌, String, Bool, ◌&&◌, List, [], ◌∷◌, ◌++◌, Result, ok, ◌>>=◌, if◌then◌else◌, is_some,
  flatten,
}
use sanhita.Prelude.Dict.{values}
use sanhita.Ir.Schema.{Obligation}
use sanhita.Ir.Obligation.{CertifyError, verify_signature}
use sanhita.Certify.Ledger.{Problem, verify_chain}
use sanhita.Certify.Registry.{Library, RuleRegistry, no_items}

pub record SignatureReport : Type 0 where
  pub checked : ℕ
  pub valid : ℕ
  pub tampered : List String
  pub ledger_problems : List Problem

-- `SignatureReport.ok`
abbrev pub report_ok : SignatureReport → Bool
report_ok p = no_items p.tampered && no_items p.ledger_problems

module _ (lib : Library) (key : String) where
  -- The body of the inner loop of `verify_signatures`.
  unfoldable pub check_signature :
      SignatureReport → Obligation → Result CertifyError SignatureReport
  unfolding verify_signature
  check_signature p o =
      if is_some o.certification
      then (do
        good ← verify_signature lib.hmac o key
        ok (
            if good
            then record p { checked = p.checked + 1; valid = p.valid + 1 }
            else record p { checked = p.checked + 1; tampered = p.tampered ++ o.id ∷ [] }))
      else ok p

  unfoldable pub check_signatures :
      SignatureReport → List Obligation → Result CertifyError SignatureReport
  unfolding check_signature
  check_signatures p [] = ok p
  check_signatures p (o ∷ os) = do p' ← check_signature p o; check_signatures p' os

  unfoldable pub verify_signatures : RuleRegistry → Result CertifyError SignatureReport
  unfolding check_signatures verify_chain
  verify_signatures r = do
    p ←
        check_signatures (record { checked = 0; valid = 0; tampered = []; ledger_problems = [] })
          (flatten (values r.versions))
    ok (record p { ledger_problems = verify_chain lib.sha256_entry r.ledger })
