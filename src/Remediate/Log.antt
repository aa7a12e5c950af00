-- ===== src/Remediate/Log.antt =====
-- remediate/tasks.py: the append-only, hash-chained log of task transitions.
pub mod Integrity
use sanhita.Prelude.{
  ℕ, zero, suc, ◌+◌, String, ◌≡◌, Bool, List, [], ◌∷◌, ◌++◌, Option, none, some, or_else, length,
  get_last?, str_eq, if◌then◌else◌, ◌==◌, select,
}
use sanhita.Prelude.Dict.{Dict}
use sanhita.Prelude.Text.{or_text}
use sanhita.Dates.{Date}

pub data Transition : Type 0 where
  created assigned status_changed evidence_attached rechecked verified closed reopened : Transition

-- A value in an entry's `detail`; a date stands for its ISO text.
pub data Detail : Type 0 where
  nothing : Detail
  text : String → Detail
  texts : List String → Detail
  number : ℕ → Detail
  flag : Bool → Detail
  day : Date → Detail

abbrev pub genesis : String
genesis = "0000000000000000000000000000000000000000000000000000000000000000"

-- What the hash covers.
pub record EntryPayload : Type 0 where
  pub sequence : ℕ
  pub task_id : String
  pub transition : Transition
  pub actor : String
  pub at : ℕ
  pub from_status : Option String
  pub to_status : String
  pub note : String
  pub detail : Dict Detail
  pub previous_hash : String

-- A `TaskEntry`: its payload's fields, and the hash stored with them.
pub record TaskEntry : Type 0 where
  pub payload : EntryPayload
  pub open payload use *
  pub entry_hash : String

-- The arguments of `append`.
pub record Draft : Type 0 where
  pub task_id : String
  pub transition : Transition
  pub actor : String
  pub from_status : Option String
  pub to_status : String
  pub note : String
  pub detail : Dict Detail
  pub at : Option ℕ

abbrev pub last_hash : Option TaskEntry → String
last_hash none = genesis
last_hash (some e) = e.entry_hash

-- Why `verify` refuses the log, with the place of the entry.
pub data Problem : Type 0 where
  misnumbered : ℕ → ℕ → Problem
  unlinked : ℕ → Problem
  altered : ℕ → Problem

-- `sha256_hex` is SHA-256 over the canonical JSON of the payload.
module _ (sha256_hex : EntryPayload → String) where
  -- `compute_hash`
  abbrev pub compute_hash : TaskEntry → String
  compute_hash e = sha256_hex e.payload

  unfoldable pub make_entry : List TaskEntry → Draft → ℕ → TaskEntry
  make_entry entries d now =
      let payload : EntryPayload = record {
        sequence = length entries + 1;
        task_id = d.task_id;
        transition = d.transition;
        actor = or_text d.actor "unattributed";
        at = or_else d.at now;
        from_status = d.from_status;
        to_status = d.to_status;
        note = d.note;
        detail = d.detail;
        previous_hash = last_hash (get_last? entries);
      } in
      record { payload = payload; entry_hash = sha256_hex payload }

  unfoldable pub append : List TaskEntry → Draft → ℕ → List TaskEntry
  unfolding make_entry
  append entries d now = entries ++ make_entry entries d now ∷ []

  -- The loop of `verify`: the first problem, or none.
  unfoldable pub verify_from : ℕ → String → List TaskEntry → Option Problem
  verify_from index previous [] = none
  verify_from index previous (e ∷ es) =
      let rest = verify_from (suc index) e.entry_hash es in
      if e.sequence == index
      then (if str_eq e.previous_hash previous
          then (if str_eq e.entry_hash (compute_hash e) then rest else some (altered index))
          else some (unlinked index))
      else some (misnumbered index e.sequence)

  unfoldable pub verify : List TaskEntry → Option Problem
  unfolding verify_from
  verify entries = verify_from 1 genesis entries

-- `for_task`
abbrev pub for_task : String → List TaskEntry → List TaskEntry
for_task id entries = select (λ e. str_eq e.task_id id) entries
