-- ===== src/Tests/Samples.antt =====
-- Sample rules, and concrete functions in place of the libraries.
use Prim.Native.String.{◌++◌}
use sanhita.Prelude.{[], ◌∷◌, none, some, true, false}
use sanhita.Prelude.Int.{pos}
use sanhita.Ir.Enums.{Actor, Modality, TriggerKind, DeadlineKind, DayCount, RuleStatus}
use sanhita.Ir.Schema.{Deadline, EvidenceReq, Obligation, SourceAnchor}
use sanhita.Certify.Changes.{Value, Fields, Scalar}
use sanhita.Certify.Registry.{Library}

abbrev pub lib : Library
lib = record {
  sha256_entry = λ p. p.obligation_id ++ (p.actor ++ p.previous_hash);
  sha256_text = λ s. s;
  hmac = λ key p. key ++ p.id;
  model_dump = λ o. Value.dict (
      Fields.field "id" (Value.leaf (Scalar.text o.id))
        (Fields.field "object" (Value.leaf (Scalar.text o.action.object)) Fields.end));
}

abbrev pub anchor : SourceAnchor
anchor = record {
  circular_id = "SEBI/2025";
  section = "40";
  clause_id = "40.1.8";
  page = 12;
  char_span = (0, 5);
  verbatim_text = "words";
  sha256 = "words";
  source_circulars = [];
  earliest_source_date = none;
}

abbrev pub monthly : Deadline
monthly = record {
  kind = DeadlineKind.end_of_period;
  offset_days = some (pos 2);
  offset_hours = none;
  offset_months = none;
  business_days = DayCount.calendar;
  anchor_event = none;
  absolute_date = none;
  period = some "MONTH";
  commencement = none;
}

abbrev pub filing : EvidenceReq
filing = record {
  artifact_type = "REPORT_FILING";
  retention_period_days = none;
  producible_on_demand = false;
  description = none;
}

-- A proposed duty to report each month.
abbrev pub duty : Obligation
duty = record {
  id = "SB-40.1.8-a";
  actor = Actor.stock_broker;
  modality = Modality.must;
  action = record {
    verb = "report";
    object = "margin";
    qualifiers = [];
    recipient = some "exchange";
    medium = none;
  };
  trigger = record { kind = TriggerKind.event; expression = "month.end"; recurrence = none };
  deadline = some monthly;
  conditions = [];
  evidence = filing ∷ [];
  penalty_ref = none;
  source = anchor;
  status = RuleStatus.proposed;
  version = record { major = 1; minor = 0; patch = 0 };
  certification = none;
  field_provenance = [];
  extraction = none;
}

abbrev pub signed : Obligation
signed = record duty {
  status = RuleStatus.certified;
  certification = some (record {
    certified_by = "officer";
    certified_at = 20;
    signature = "keySB-40.1.8-a";
    locked = true;
    note = none;
  });
}
