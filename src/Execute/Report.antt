-- ===== src/Execute/Report.antt =====
-- execute/report.py: what a run found, what it refused to answer, and the counts it is quoted for.
use sanhita.Prelude.{
  ℕ, ◌+◌, String, Bool, true, false, ◌&&◌, ◌||◌, List, Option, none, some, length, select, count,
  if◌then◌else◌, ltb, ◌==◌,
}
use sanhita.Prelude.Int.{ℤ, pos_part}
use sanhita.Prelude.Text.{text_le}
use sanhita.Prelude.Sort.{sort}
use sanhita.Dates.{Date}
use sanhita.Ir.Enums.{Modality, TriggerKind}

pub data Outcome : Type 0 where
  satisfied missing late no_evidence : Outcome

abbrev pub is_missing : Outcome → Bool
is_missing missing = true
is_missing _ = false

abbrev pub is_late : Outcome → Bool
is_late late = true
is_late _ = false

abbrev pub is_no_evidence : Outcome → Bool
is_no_evidence no_evidence = true
is_no_evidence _ = false

-- The citation: what `_cite` takes from the signed rule.
pub record Citation : Type 0 where
  pub obligation_id : String
  pub clause_id : String
  pub section : String
  pub page : ℕ
  pub verbatim : String
  pub requirement : String
  pub certified_by : String
  pub certified_at : ℕ
  pub signature : String

-- The nine fields of the citation stand together.
pub record Finding : Type 0 where
  pub outcome : Outcome
  pub event_id : String
  pub entity : String
  pub occurred_on : Date
  pub due_on : Date
  pub filed_on : Option Date
  pub days_late : Option ℤ
  pub due_date_is_approximate : Bool
  pub citation : Citation

pub data Severity : Type 0 where
  high medium : Severity

unfoldable pub severity : Finding → Severity
severity f =
    if is_missing f.outcome || is_no_evidence f.outcome
    then high
    else elim f.days_late [ none ↦ medium | some n ↦ if ltb 5 (pos_part n) then high else medium ]

-- The sentences that say why a rule is not checked, one constructor for each, with what the
-- sentence quotes. The first five are `_why_not`'s, the others `assess_applicability`'s.
pub data Reason : Type 0 where
  not_enforceable : Modality → Reason
  no_deadline demand_not_recorded day_count_unanswered no_artifact_named : Reason
  not_certified forbids permits nothing_to_retain standing on_demand : Reason
  no_period_closed : String → Reason
  recurs : String → ℕ → Date → Date → Reason
  fires_on_event : TriggerKind → Reason

pub record Unevaluable : Type 0 where
  pub obligation_id : String
  pub clause_id : String
  pub page : ℕ
  pub reason : Reason

pub data Verdict : Type 0 where
  not_applicable expected undetermined : Verdict

-- `Applicability`, of execute/applicability.py
pub record Applicability : Type 0 where
  pub obligation_id : String
  pub clause_id : String
  pub verdict : Verdict
  pub occasions : ℕ
  pub reason : Reason

pub record GapReport : Type 0 where
  pub evidence_label : String
  pub calendar_name : String
  pub run_at : ℕ
  pub certified_rules : ℕ
  pub rules_evaluated : ℕ
  pub events_checked : ℕ
  pub occasions_unevidenced : ℕ
  pub satisfied : ℕ
  pub findings : List Finding
  pub unevaluable : List Unevaluable
  pub not_applicable : ℕ
  pub undetermined : List Unevaluable
  pub applicability : List Applicability

unfoldable pub never_evidenced : GapReport → List Finding
never_evidenced r = select (λ (f : Finding). is_no_evidence f.outcome) r.findings

unfoldable pub missing_findings : GapReport → List Finding
missing_findings r = select (λ (f : Finding). is_missing f.outcome) r.findings

unfoldable pub late_findings : GapReport → List Finding
late_findings r = select (λ (f : Finding). is_late f.outcome) r.findings

unfoldable pub breaches : GapReport → ℕ
breaches r = length (missing_findings r) + length (late_findings r)

unfoldable pub unverified : GapReport → ℕ
unverified r = length (never_evidenced r)

-- The rate as its numerator and denominator, in place of the quotient's float.
unfoldable pub compliance_rate : GapReport → Option (ℕ × ℕ)
compliance_rate r = if r.events_checked == 0 then none else some (r.satisfied, r.events_checked)

unfoldable pub approximate_findings : GapReport → ℕ
approximate_findings r = count (λ (f : Finding). f.due_date_is_approximate) r.findings

abbrev pub outcome_order : Outcome → ℕ
outcome_order missing = 0
outcome_order late = 1
outcome_order no_evidence = 2
outcome_order satisfied = 3

abbrev pub lateness : Finding → ℕ
lateness f = elim f.days_late [ none ↦ 0 | some n ↦ pos_part n ]

-- The key's order: the outcome, then the later first, then the clause. The days late are never
-- negative, so their positive part is the number.
abbrev pub rank_le : Finding → Finding → Bool
rank_le f g =
    ltb (outcome_order f.outcome) (outcome_order g.outcome)
    || ((outcome_order f.outcome == outcome_order g.outcome)
        && (ltb (lateness g) (lateness f)
            || ((lateness f == lateness g) && text_le f.citation.clause_id g.citation.clause_id)))

unfoldable pub ranked : GapReport → List Finding
ranked r = sort rank_le r.findings
