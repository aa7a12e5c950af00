-- ===== src/Ir/Enums.antt =====
-- ir/enums.py: the closed vocabularies of the rule, with the values that the wire format gives them.
use sanhita.Prelude.{String, Bool, true, false}

pub data Actor : Type 0 where
  stock_broker investment_adviser amc rta depository mii : Actor
  stock_exchange clearing_corporation clearing_member depository_participant : Actor

pub data Modality : Type 0 where
  must must_not may should : Modality

pub data TriggerKind : Type 0 where
  event schedule condition continuous : TriggerKind

pub data DeadlineKind : Type 0 where
  absolute relative end_of_period on_demand : DeadlineKind

pub data DayCount : Type 0 where
  business calendar unspecified : DayCount

pub data CommencementKind : Type 0 where
  fixed_date relative_to_issuance conditional_on_event : CommencementKind

pub data ConditionKind : Type 0 where
  precondition exemption threshold : ConditionKind

pub data RuleStatus : Type 0 where
  proposed certified rejected superseded : RuleStatus

abbrev pub status_value : RuleStatus → String
status_value proposed = "PROPOSED"
status_value certified = "CERTIFIED"
status_value rejected = "REJECTED"
status_value superseded = "SUPERSEDED"

abbrev pub is_certified : RuleStatus → Bool
is_certified certified = true
is_certified _ = false

-- `a is b`, for two statuses.
abbrev pub same_status : RuleStatus → RuleStatus → Bool
same_status proposed proposed = true
same_status certified certified = true
same_status rejected rejected = true
same_status superseded superseded = true
same_status _ _ = false

abbrev pub is_must : Modality → Bool
is_must must = true
is_must _ = false

abbrev pub is_unspecified : DayCount → Bool
is_unspecified unspecified = true
is_unspecified _ = false

abbrev pub is_business : DayCount → Bool
is_business business = true
is_business _ = false
