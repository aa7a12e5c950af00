-- ===== src/Tests/Receipt.antt =====
-- A run of one signed rule, with its receipt.
use sanhita.Prelude.{◌≡◌, refl, true, [], ◌∷◌, none, some, ok, str_eq}
use sanhita.Prelude.Text.{non_empty, show, ◌⧺◌}
use sanhita.Receipt.{
  Library, Source, Versions, verdict, payload, to_json, sign, unsigned_receipt, build_receipt,
  verify_receipt, verify_receipt-build_receipt,
}
use sanhita.Amend.Clauses.{ClauseTree}
use sanhita.Tests.Samples.{signed}

abbrev lib : Library
lib = record {
  sha256_bytes = λ bytes. "sha";
  sha256_text = λ s. s;
  hmac = λ key p. "mac" ⧺ key;
  canonical_json = λ o. o.id;
  instant_text = λ n. show n;
}

abbrev pdf : Source
pdf = record { name = "circular.pdf"; bytes = 37 ∷ 80 ∷ [] }

abbrev tree : ClauseTree
tree = record { nodes = []; roots = [] }

abbrev versions : Versions
versions = record {
  engine = "rules";
  ruleset_version = "rules-1.0.0";
  model_id = none;
  prompt_version = none;
}

digest_is_a_text :
    non_empty
      (sign lib (payload lib (unsigned_receipt lib pdf tree (signed ∷ []) "head" versions 7)) "key")
    ≡ true
unfolding sign
digest_is_a_text = refl

verify_receipt-build_receipt_example :
    verify_receipt lib
      (to_json lib (build_receipt lib pdf tree (signed ∷ []) "head" versions (some "key") 7))
      "key"
    ≡ ok (
        verdict (
          str_eq
            (sign lib
              (payload lib (unsigned_receipt lib pdf tree (signed ∷ []) "head" versions 7))
              "key")
            (sign lib
              (payload lib (unsigned_receipt lib pdf tree (signed ∷ []) "head" versions 7))
              "key")))
verify_receipt-build_receipt_example =
    verify_receipt-build_receipt lib pdf tree (signed ∷ []) "head" versions "key" "key" 7 refl
      digest_is_a_text
