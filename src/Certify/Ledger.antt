-- ===== src/Certify/Ledger.antt =====
-- certify/ledger.py: the append-only, hash-chained audit ledger.
pub mod Integrity
use sanhita.Prelude.{
  ℕ, zero, suc, String, ◌≡◌, Bool, not, List, [], ◌∷◌, ◌++◌, Option, none, some, or_else, length,
  str_eq, if◌then◌else◌, ◌==◌, select,
}
use sanhita.Prelude.Sort.{sort}
use sanhita.Prelude.Text.{text_le}
use sanhita.Ir.Schema.{Version}
use sanhita.Certify.Changes.{Scalar, Changes}

pub data Transition : Type 0 where
  proposed certified amended rejected superseded : Transition

-- `"0" * 64`
abbrev pub genesis : String
genesis = "0000000000000000000000000000000000000000000000000000000000000000"

pub record AuditEntry : Type 0 where
  pub sequence : ℕ
  pub obligation_id : String
  pub transition : Transition
  pub actor : String
  pub at : ℕ
  pub from_state : Option String
  pub to_state : String
  pub version : Version
  pub changes : Changes
  pub note : Option String
  pub signature : Option String
  pub previous_hash : String
  pub entry_hash : String

-- What the hash covers: every field but the hash itself, the changes in order of their keys.
pub record EntryPayload : Type 0 where
  pub sequence : ℕ
  pub obligation_id : String
  pub transition : Transition
  pub actor : String
  pub at : ℕ
  pub from_state : Option String
  pub to_state : String
  pub version : Version
  pub changes : List (String × (Scalar × Scalar))
  pub note : Option String
  pub signature : Option String
  pub previous_hash : String

abbrev key_le : (String × (Scalar × Scalar)) → (String × (Scalar × Scalar)) → Bool
key_le (j, _) (k, _) = text_le j k

unfoldable pub payload : AuditEntry → EntryPayload
unfolding sort
payload e = record {
  sequence = e.sequence;
  obligation_id = e.obligation_id;
  transition = e.transition;
  actor = e.actor;
  at = e.at;
  from_state = e.from_state;
  to_state = e.to_state;
  version = e.version;
  changes = sort key_le e.changes;
  note = e.note;
  signature = e.signature;
  previous_hash = e.previous_hash;
}

-- The arguments of `append`.
pub record Draft : Type 0 where
  pub obligation_id : String
  pub transition : Transition
  pub actor : String
  pub to_state : String
  pub version : Version
  pub from_state : Option String
  pub changes : Changes
  pub note : Option String
  pub signature : Option String
  pub at : Option ℕ

-- `head`
unfoldable pub head : String → List AuditEntry → String
head previous [] = previous
head previous (e ∷ es) = head e.entry_hash es

pub data Problem : Type 0 where
  wrong_sequence : ℕ → ℕ → Problem
  chain_break : ℕ → String → Problem
  content_altered : ℕ → String → Problem

-- `sha256_hex` is SHA-256 over the canonical JSON of the payload.
module _ (sha256_hex : EntryPayload → String) where
  unfoldable pub compute_hash : AuditEntry → String
  unfolding payload
  compute_hash e = sha256_hex (payload e)

  -- The entry that `append` makes; `now` is the clock's reading.
  unfoldable pub make_entry : List AuditEntry → Draft → ℕ → AuditEntry
  unfolding head compute_hash
  make_entry entries d now =
      let entry : AuditEntry = record {
        sequence = length entries;
        obligation_id = d.obligation_id;
        transition = d.transition;
        actor = d.actor;
        at = or_else d.at now;
        from_state = d.from_state;
        to_state = d.to_state;
        version = d.version;
        changes = d.changes;
        note = d.note;
        signature = d.signature;
        previous_hash = head genesis entries;
        entry_hash = "";
      } in
      record entry { entry_hash = compute_hash entry }

  unfoldable pub append : List AuditEntry → Draft → ℕ → List AuditEntry
  unfolding make_entry
  append entries d now = entries ++ make_entry entries d now ∷ []

  -- The body of the loop of `verify_chain`.
  unfoldable pub entry_problems : ℕ → String → AuditEntry → List Problem
  unfolding compute_hash
  entry_problems index previous e =
      (if e.sequence == index then [] else wrong_sequence index e.sequence ∷ [])
      ++ ((if str_eq e.previous_hash previous then [] else chain_break index e.obligation_id ∷ [])
          ++ (if str_eq (compute_hash e) e.entry_hash
              then []
              else content_altered index e.obligation_id ∷ []))

  unfoldable pub verify_from : ℕ → String → List AuditEntry → List Problem
  unfolding entry_problems
  verify_from index previous [] = []
  verify_from index previous (e ∷ es) =
      entry_problems index previous e ++ verify_from (suc index) e.entry_hash es

  unfoldable pub verify_chain : List AuditEntry → List Problem
  unfolding verify_from
  verify_chain entries = verify_from 0 genesis entries

-- `obligation_id.split("@")[0]`
pub before_at : String → String
before_at String.[] = String.[]
before_at (String.◌∷◌ c s) =
    if str_eq (String.◌∷◌ c String.[]) "@" then String.[] else String.◌∷◌ c (before_at s)

unfoldable pub for_obligation : String → List AuditEntry → List AuditEntry
unfolding before_at
for_obligation id entries = select (λ e. str_eq (before_at e.obligation_id) (before_at id)) entries
