-- ===== src/Ir/Schema.antt =====
-- ir/schema.py: the value objects of a rule and the rule itself, field for field. The floating-point
-- telemetry (`confidence`, `field_confidence`) has no part in any decision and is left out.
use sanhita.Prelude.{ℕ, String, Bool, List, Option}
use sanhita.Prelude.Int.{ℤ}
use sanhita.Dates.{Date}
use sanhita.Ir.Enums.{
  Actor, Modality, TriggerKind, DeadlineKind, DayCount, CommencementKind, ConditionKind, RuleStatus,
}

pub record Action : Type 0 where
  pub verb : String
  pub object : String
  pub qualifiers : List String
  pub recipient : Option String
  pub medium : Option String

pub record Trigger : Type 0 where
  pub kind : TriggerKind
  pub expression : String
  pub recurrence : Option String

pub record Commencement : Type 0 where
  pub kind : CommencementKind
  pub offset_days : Option ℕ
  pub fixed_date : Option Date
  pub condition : Option String

-- `offset_days` has no lower bound in the schema; the other two offsets do.
pub record Deadline : Type 0 where
  pub kind : DeadlineKind
  pub offset_days : Option ℤ
  pub offset_hours : Option ℕ
  pub offset_months : Option ℕ
  pub business_days : DayCount
  pub anchor_event : Option String
  pub absolute_date : Option Date
  pub period : Option String
  pub commencement : Option Commencement

-- A named constant of a condition; a float is kept as its text.
pub data Constant : Type 0 where
  text : String → Constant
  whole : ℤ → Constant
  real : String → Constant

pub record Condition : Type 0 where
  pub kind : ConditionKind
  pub expression : String
  pub parameters : List (String × Constant)

pub record EvidenceReq : Type 0 where
  pub artifact_type : String
  pub retention_period_days : Option ℕ
  pub producible_on_demand : Bool
  pub description : Option String

pub record SourceAnchor : Type 0 where
  pub circular_id : String
  pub section : String
  pub clause_id : String
  pub page : ℕ
  pub char_span : ℕ × ℕ
  pub verbatim_text : String
  pub sha256 : String
  pub source_circulars : List String
  pub earliest_source_date : Option Date

-- An instant is a number: its distance from a fixed origin, in UTC.
pub record ExtractionMeta : Type 0 where
  pub engine : String
  pub extracted_at : ℕ
  pub prompt_version : Option String
  pub model_id : Option String
  pub effort : Option String
  pub ruleset_version : Option String
  pub input_tokens : Option ℕ
  pub output_tokens : Option ℕ

pub record Certification : Type 0 where
  pub certified_by : String
  pub certified_at : ℕ
  pub signature : String
  pub locked : Bool
  pub note : Option String

-- `version` is the text "major.minor.patch", held as its three numbers.
pub record Version : Type 0 where
  pub major : ℕ
  pub minor : ℕ
  pub patch : ℕ

pub record Obligation : Type 0 where
  pub id : String
  pub actor : Actor
  pub modality : Modality
  pub action : Action
  pub trigger : Trigger
  pub deadline : Option Deadline
  pub conditions : List Condition
  pub evidence : List EvidenceReq
  pub penalty_ref : Option String
  pub source : SourceAnchor
  pub status : RuleStatus
  pub version : Version
  pub certification : Option Certification
  pub field_provenance : List (String × (ℕ × ℕ))
  pub extraction : Option ExtractionMeta
