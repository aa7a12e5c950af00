-- ===== src/Attention/Health.antt =====
-- health.py: what is true of the records of each certified rule.
pub mod Records
pub mod Words
use sanhita.Prelude.{
  ℕ, ◌+◌, String, Bool, true, false, not, ◌&&◌, ◌||◌, List, [], ◌∷◌, map, Option, none, some,
  select, count, length, get_last?, is_some, or_else, if◌then◌else◌, ltb, ◌==◌,
}
use sanhita.Prelude.Int.{ℤ, pos_part, ltb_ℤ, pos}
use sanhita.Prelude.Dict.{Dict, get}
use sanhita.Prelude.Sort.{sort}
use sanhita.Prelude.Text.{non_empty, strip, show, text_le, ◌⧺◌}
use sanhita.Dates.{Date, sub_days, days_between, date_lt, date_le, date_eq}
use sanhita.Dates.Iso.{isoformat}
use sanhita.Ir.Enums.{is_certified}
use sanhita.Ir.Schema.{Deadline, EvidenceReq, Obligation}
use sanhita.Execute.Evidence.{ComplianceEvent, EvidenceStore, for_obligation}
use sanhita.Execute.Applicability.{expected_occasions, is_end_of_period, named_period}
use sanhita.Amend.Plan.{ControlBinding, bound}

pub data Signal : Type 0 where
  current gone_quiet never_recorded unfiled no_schedule : Signal

abbrev pub needs_attention : Signal → Bool
needs_attention Signal.gone_quiet = true
needs_attention Signal.never_recorded = true
needs_attention Signal.unfiled = true
needs_attention _ = false

abbrev pub is_current : Signal → Bool
is_current Signal.current = true
is_current _ = false

abbrev pub signal_rank : Signal → ℕ
signal_rank Signal.gone_quiet = 0
signal_rank Signal.never_recorded = 1
signal_rank Signal.unfiled = 2
signal_rank Signal.no_schedule = 3
signal_rank Signal.current = 4

pub record RuleHealth : Type 0 where
  pub obligation_id : String
  pub clause_id : String
  pub requirement : String
  pub signal : Signal
  pub occasions_due : ℕ
  pub occasions_recorded : ℕ
  pub unfiled : ℕ
  pub last_recorded_on : Option Date
  pub last_due_on : Option Date
  pub period : String
  pub process : String
  pub function : String

unfoldable pub days_quiet : RuleHealth → Option ℕ
days_quiet r = elim r.last_recorded_on [
  | none ↦ none
  | some recorded ↦ elim r.last_due_on [
    | none ↦ none
    | some due ↦ some (pos_part (days_between due recorded))
  ]
]

abbrev pub is_owned : RuleHealth → Bool
is_owned r = non_empty r.function || non_empty r.process

pub record EvidenceHealth : Type 0 where
  pub as_of : Date
  pub since : Date
  pub source : String
  pub rules : List RuleHealth
  pub awaiting_mapping : ℕ
  pub records : ℕ
  pub earliest_record : Option Date
  pub latest_record : Option Date
  pub assessed_on : Option ℕ
  pub assessment_is_stale : Bool

unfoldable pub needing_attention : EvidenceHealth → ℕ
needing_attention h = count (λ (r : RuleHealth). needs_attention r.signal) h.rules

unfoldable pub days_since_last_record : EvidenceHealth → Option ℤ
days_since_last_record h = elim h.latest_record [
  | none ↦ none
  | some d ↦ some (days_between h.as_of d)
]

unfoldable pub is_quiet : EvidenceHealth → Bool
unfolding days_since_last_record
is_quiet h = elim (days_since_last_record h) [ none ↦ false | some days ↦ ltb_ℤ (pos 31) days ]

-- A set of days, in order.
unfoldable pub insert_day : Date → List Date → List Date
insert_day d [] = d ∷ []
insert_day d (x ∷ xs) =
    let rest = insert_day d xs in
    if date_eq d x then x ∷ xs else if date_lt d x then d ∷ x ∷ xs else x ∷ rest

-- `sorted({e.occurred_on for e in events})`
unfoldable pub recorded_dates : List ComplianceEvent → List Date
unfolding insert_day
recorded_dates [] = []
recorded_dates (e ∷ es) = insert_day e.occurred_on (recorded_dates es)

-- What a rule's health says before its signal is known.
abbrev pub common : Obligation → List ComplianceEvent → Option ControlBinding → RuleHealth
common o events binding = record {
  obligation_id = o.id;
  clause_id = o.source.clause_id;
  requirement = strip (o.action.verb ⧺ " " ⧺ o.action.object);
  signal = Signal.no_schedule;
  occasions_due = 0;
  occasions_recorded = length (recorded_dates events);
  unfiled = count (λ (e : ComplianceEvent). not (is_some e.filed_on)) events;
  last_recorded_on = get_last? (recorded_dates events);
  last_due_on = none;
  period = "";
  process = bound (λ b. b.process) binding;
  function = bound (λ b. b.function) binding;
}

-- The period of a recurring duty.
abbrev pub recurring : Option Deadline → Option String
recurring none = none
recurring (some d) = if is_end_of_period d.kind then named_period d else none

-- The signal of a recurring duty, from the last day it fell due and the last record.
unfoldable pub signal_of : Option Date → Option Date → ℕ → Signal
signal_of none recorded n = Signal.current
signal_of (some due) none n = Signal.never_recorded
signal_of (some due) (some recorded) n =
    if date_lt recorded due
    then Signal.gone_quiet
    else if ltb 0 n
    then Signal.unfiled
    else Signal.current

-- The rest of `_health_of`, from the days on which the duty fell due, if it recurs.
unfoldable pub scheduled : RuleHealth → List Date → Option String → RuleHealth
unfolding signal_of
scheduled c due none = record c {
  signal = if ltb 0 c.unfiled then Signal.unfiled else Signal.no_schedule;
}
scheduled c due (some period) = record c {
  signal = signal_of (get_last? due) c.last_recorded_on c.unfiled;
  occasions_due = length due;
  last_due_on = get_last? due;
  period = period;
}

-- `_health_of`, of the rule's events and its binding.
unfoldable pub health_of :
    Obligation → List ComplianceEvent → Option ControlBinding → Date → Date → RuleHealth
unfolding recorded_dates scheduled expected_occasions
health_of o events binding since today =
    scheduled (common o events binding) (expected_occasions o since today) (recurring o.deadline)

abbrev pub events_of : Option EvidenceStore → String → List ComplianceEvent
events_of none id = []
events_of (some s) id = for_obligation s id

abbrev pub has_evidence : List EvidenceReq → Bool
has_evidence [] = false
has_evidence (e ∷ es) = true

-- `evidence.window`: the first and the last day of the events.
unfoldable pub earliest_of : List ComplianceEvent → Option Date
earliest_of [] = none
earliest_of (e ∷ es) = elim (earliest_of es) [
  | none ↦ some e.occurred_on
  | some d ↦ some (if date_le e.occurred_on d then e.occurred_on else d)
]

unfoldable pub latest_of : List ComplianceEvent → Option Date
latest_of [] = none
latest_of (e ∷ es) = elim (latest_of es) [
  | none ↦ some e.occurred_on
  | some d ↦ some (if date_le d e.occurred_on then e.occurred_on else d)
]

abbrev pub health_le : RuleHealth → RuleHealth → Bool
health_le a b =
    ltb (signal_rank a.signal) (signal_rank b.signal)
    || ((signal_rank a.signal == signal_rank b.signal) && text_le a.clause_id b.clause_id)

abbrev pub watched : Obligation → Bool
watched o = is_certified o.status && has_evidence o.evidence

abbrev all_events : Option EvidenceStore → List ComplianceEvent
all_events none = []
all_events (some s) = s.events

-- `lookback_days` is 400 unless it is given; a firm without a store of controls binds nothing.
unfoldable pub assess_evidence_health :
    List Obligation
    → Option EvidenceStore
    → Date
    → ℕ
    → Dict ControlBinding
    → ℕ
    → Option ℕ
    → Bool
    → EvidenceHealth
unfolding health_of earliest_of latest_of for_obligation sort get
assess_evidence_health os evidence today lookback_days controls awaiting_mapping assessed_on
      assessment_is_stale =
    let since = sub_days today lookback_days in
    record {
      as_of = today;
      since = since;
      source = elim evidence [ none ↦ "" | some s ↦ s.label ];
      rules = sort health_le (
          map
            (λ (o : Obligation).
              health_of o (events_of evidence o.id) (get o.id controls) since today)
            (select watched os));
      awaiting_mapping = awaiting_mapping;
      records = length (all_events evidence);
      earliest_record = earliest_of (all_events evidence);
      latest_record = latest_of (all_events evidence);
      assessed_on = assessed_on;
      assessment_is_stale = assessment_is_stale;
    }
