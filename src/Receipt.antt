-- ===== src/Receipt.antt =====
-- analyse/receipt.py: the signed record of a compile run, and its check.
use sanhita.Prelude.{
  ℕ, ◌≡◌, refl, String, Bool, true, false, not, List, [], ◌∷◌, ◌++◌, Option, none, some, Result, ok,
  err, select, count, length, str_eq, if◌then◌else◌, ltb,
}
use sanhita.Prelude.Dict.{Dict, get, values}
use sanhita.Prelude.Sort.{sort}
use sanhita.Prelude.Text.{non_empty, text_le, ◌⧺◌}
use sanhita.Ir.Enums.{is_certified}
use sanhita.Ir.Schema.{Obligation}
use sanhita.Amend.Clauses.{ClauseTree, in_body, fingerprint}

-- A value of a receipt, as JSON has it.
pub data Value : Type 0 where
  null : Value
  text : String → Value
  number : ℕ → Value

pub record Receipt : Type 0 where
  pub source_name : String
  pub source_sha256 : String
  pub source_bytes : ℕ
  pub tree_fingerprint : String
  pub clauses_parsed : ℕ
  pub engine : String
  pub ruleset_version : String
  pub model_id : Option String
  pub prompt_version : Option String
  pub rules_total : ℕ
  pub rules_certified : ℕ
  pub rulebook_sha256 : String
  pub ledger_head : String
  pub generated_at : ℕ
  pub signature : Option String

-- The file that was compiled.
pub record Source : Type 0 where
  pub name : String
  pub bytes : List ℕ

-- The versions that a run names.
pub record Versions : Type 0 where
  pub engine : String
  pub ruleset_version : String
  pub model_id : Option String
  pub prompt_version : Option String

-- The libraries: SHA-256 of bytes and of a text's UTF-8, HMAC-SHA256 over the canonical JSON of a
-- payload, which is written in the order of its keys, the canonical JSON of a rule, and an instant's
-- ISO text.
pub record Library : Type 0 where
  pub sha256_bytes : List ℕ → String
  pub sha256_text : String → String
  pub hmac : String → Dict Value → String
  pub canonical_json : Obligation → String
  pub instant_text : ℕ → String

pub data ReceiptError : Type 0 where
  not_a_text : ReceiptError

abbrev pub optional : Option String → Value
optional none = Value.null
optional (some s) = Value.text s

abbrev pub verdict : Bool → Bool × String
verdict true = (true, "The signature matches. Nothing in this receipt has been altered.")
verdict false = (
  false,
  "The signature does not match. Either the receipt was edited after it "
      ⧺ "was written, or it was signed with a different key.",
)

abbrev pub no_signature : Bool × String
no_signature = (false, "This receipt carries no signature, so nothing can be checked.")

module _ (lib : Library) where
  unfoldable pub payload : Receipt → Dict Value
  payload r =
      ("source_name", Value.text r.source_name)
      ∷ ("source_sha256", Value.text r.source_sha256)
      ∷ ("source_bytes", Value.number r.source_bytes)
      ∷ ("tree_fingerprint", Value.text r.tree_fingerprint)
      ∷ ("clauses_parsed", Value.number r.clauses_parsed)
      ∷ ("engine", Value.text r.engine)
      ∷ ("ruleset_version", Value.text r.ruleset_version)
      ∷ ("model_id", optional r.model_id)
      ∷ ("prompt_version", optional r.prompt_version)
      ∷ ("rules_total", Value.number r.rules_total)
      ∷ ("rules_certified", Value.number r.rules_certified)
      ∷ ("rulebook_sha256", Value.text r.rulebook_sha256)
      ∷ ("ledger_head", Value.text r.ledger_head)
      ∷ ("generated_at", Value.text (lib.instant_text r.generated_at))
      ∷ []

  -- `payload() | {"signature": …}`
  unfoldable pub to_json : Receipt → Dict Value
  unfolding payload
  to_json r = payload r ++ ("signature", optional r.signature) ∷ []

  unfoldable pub rulebook_bytes : List Obligation → String
  rulebook_bytes [] = ""
  rulebook_bytes (o ∷ os) = lib.canonical_json o ⧺ "\u{1e}" ⧺ rulebook_bytes os

  -- `_rulebook_hash`
  unfoldable pub rulebook_hash : List Obligation → String
  unfolding rulebook_bytes sort
  rulebook_hash os =
      lib.sha256_text (rulebook_bytes (sort (λ (a b : Obligation). text_le a.id b.id) os))

  -- `_sign`
  unfoldable pub sign : Dict Value → String → String
  unfolding sort
  sign p key = lib.hmac key (sort (λ a b. text_le a.0 b.0) p)

  unfoldable pub unsigned_receipt :
      Source → ClauseTree → List Obligation → String → Versions → ℕ → Receipt
  unfolding rulebook_hash fingerprint values
  unsigned_receipt pdf tree os head versions now = record {
    source_name = pdf.name;
    source_sha256 = lib.sha256_bytes pdf.bytes;
    source_bytes = length pdf.bytes;
    tree_fingerprint = fingerprint lib.sha256_text tree;
    clauses_parsed = count in_body (values tree.nodes);
    engine = versions.engine;
    ruleset_version = versions.ruleset_version;
    model_id = versions.model_id;
    prompt_version = versions.prompt_version;
    rules_total = length os;
    rules_certified = count (λ (o : Obligation). is_certified o.status) os;
    rulebook_sha256 = rulebook_hash os;
    ledger_head = head;
    generated_at = now;
    signature = none;
  }

  -- Signed where a key is given that is not empty.
  unfoldable pub build_receipt :
      Source → ClauseTree → List Obligation → String → Versions → Option String → ℕ → Receipt
  unfolding unsigned_receipt sign payload
  build_receipt pdf tree os head versions none now = unsigned_receipt pdf tree os head versions now
  build_receipt pdf tree os head versions (some key) now =
      let r = unsigned_receipt pdf tree os head versions now in
      if non_empty key then record r { signature = some (sign (payload r) key) } else r

  -- A signature that is neither a text nor without a truth value makes `compare_digest` raise.
  unfoldable pub verify_signature :
      Dict Value → String → Option Value → Result ReceiptError (Bool × String)
  unfolding sign
  verify_signature raw key none = ok no_signature
  verify_signature raw key (some Value.null) = ok no_signature
  verify_signature raw key (some (Value.number n)) =
      if ltb 0 n then err not_a_text else ok no_signature
  verify_signature raw key (some (Value.text s)) =
      if non_empty s
      then ok (verdict (str_eq (sign (select (λ e. not (str_eq e.0 "signature")) raw) key) s))
      else ok no_signature

  unfoldable pub verify_receipt : Dict Value → String → Result ReceiptError (Bool × String)
  unfolding verify_signature get
  verify_receipt raw key = verify_signature raw key (get "signature" raw)

  -- A receipt that was built with a key and written as JSON is read back, with any key, as its very
  -- payload: the check answers whether the HMACs of the payload under the two keys agree, so that it
  -- holds under the key of the signature. The digest that was signed with is not the empty text.
  pub verify_receipt-build_receipt :
      (pdf : Source) (tree : ClauseTree) (os : List Obligation) (head : String)
      (versions : Versions) (key other : String) (now : ℕ)
      → non_empty key ≡ true
      → non_empty (sign (payload (unsigned_receipt pdf tree os head versions now)) key) ≡ true
      → verify_receipt (to_json (build_receipt pdf tree os head versions (some key) now)) other
        ≡ ok (
            verdict (
              str_eq
                (sign (payload (unsigned_receipt pdf tree os head versions now)) other)
                (sign (payload (unsigned_receipt pdf tree os head versions now)) key)))
  unfolding verify_receipt verify_signature to_json build_receipt payload get
  verify_receipt-build_receipt pdf tree os head versions key other now has_key has_digest =
      rw (has_key, has_digest) refl
