-- ===== src/Execute/Run/Balance.antt =====
-- execute/engine.py: one write of the report at a time, and the accounts that it keeps.
use sanhita.Prelude.{
  ℕ, ◌+◌, ◌≡◌, true, List, [], ◌∷◌, Result, ok, err, >>=-eq-ok, subst, ◌||◌, arith, length, count,
  length-append, count-append,
}
use sanhita.Dates.{Date}
use sanhita.Ir.Schema.{Deadline, Obligation}
use sanhita.Execute.Calendar.{TradingCalendar}
use sanhita.Execute.Evidence.{ComplianceEvent}
use sanhita.Execute.Report.{
  Outcome, Finding, Reason, GapReport, is_missing, is_late, is_no_evidence,
}
use sanhita.Execute.Engine.{DueError, Check, check, check_computed, check_due, cite}
use sanhita.Execute.Run.{
  check_events, record_check, add_evaluated, add_unevaluable, add_unevidenced, unevaluable_rule,
}

-- Where `n` of `k` certified rules have been dealt with: each is in one account, and so is each
-- event that was checked.
pub record IsBalanced (k n : ℕ) (r : GapReport) : Type 0 where
  pub certified : r.certified_rules ≡ k
  pub rules :
      n ≡ r.rules_evaluated + length r.unevaluable + r.not_applicable + length r.undetermined
  pub events :
      r.events_checked
      ≡ r.satisfied
        + count (λ (f : Finding). is_missing f.outcome) r.findings
        + count (λ (f : Finding). is_late f.outcome) r.findings
  pub all_findings :
      length r.findings
      ≡ count (λ (f : Finding). is_missing f.outcome) r.findings
        + count (λ (f : Finding). is_late f.outcome) r.findings
        + count (λ (f : Finding). is_no_evidence f.outcome) r.findings

-- A check finds a missing or a late event.
pub IsBreach : Check → Type 0
IsBreach Check.not_yet_due = Unit
IsBreach Check.passed = Unit
IsBreach (Check.found f) = (is_missing f.outcome || is_late f.outcome) ≡ true

check_due-IsBreach :
    (c : TradingCalendar) (o : Obligation) (d : Deadline) (e : ComplianceEvent) (today due : Date)
    {k : Check}
    → check_due c o d e today due ≡ ok k
    → IsBreach k
unfolding check_due cite IsBreach
check_due-IsBreach c o d e today due h = ground arith

check_computed-IsBreach :
    (c : TradingCalendar) (o : Obligation) (d : Deadline) (e : ComplianceEvent) (today : Date)
    (m : Result DueError Date) {k : Check}
    → check_computed c o d e today m ≡ ok k
    → IsBreach k
unfolding check_computed IsBreach
check_computed-IsBreach c o d e today (ok due) h = check_due-IsBreach c o d e today due h
check_computed-IsBreach c o d e today (err (DueError.calendar_error x)) h = ground arith
check_computed-IsBreach c o d e today (err DueError.no_absolute_date) h = ground arith
check_computed-IsBreach c o d e today (err DueError.day_count_unresolved) h = ground arith
check_computed-IsBreach c o d e today (err DueError.not_computable) h = ground arith

pub check-IsBreach :
    (c : TradingCalendar) (o : Obligation) (e : ComplianceEvent) (today : Date) {k : Check}
    → check c o e today ≡ ok k
    → IsBreach k
unfolding check IsBreach
check-IsBreach c o e today h = grind (arith, check_computed-IsBreach)

pub record_check-IsBalanced :
    {k n : ℕ} (outcome : Check) (r : GapReport)
    → IsBreach outcome
    → IsBalanced k n r
    → IsBalanced k n (record_check outcome r)
unfolding IsBreach
record_check-IsBalanced Check.not_yet_due r b i = i
record_check-IsBalanced Check.passed r b i = record {
  certified = i.certified;
  rules = i.rules;
  events = omega (arith, i.events);
  all_findings = i.all_findings;
}
record_check-IsBalanced (Check.found f) r b i = record {
  certified = i.certified;
  rules = i.rules;
  events = ground (
    arith,
    i.events,
    count-append (λ (f : Finding). is_missing f.outcome) r.findings (f ∷ []),
    count-append (λ (f : Finding). is_late f.outcome) r.findings (f ∷ []),
  );
  all_findings = ground (
    arith,
    i.all_findings,
    length-append r.findings (f ∷ []),
    count-append (λ (f : Finding). is_missing f.outcome) r.findings (f ∷ []),
    count-append (λ (f : Finding). is_late f.outcome) r.findings (f ∷ []),
    count-append (λ (f : Finding). is_no_evidence f.outcome) r.findings (f ∷ []),
  );
}

pub check_events-IsBalanced :
    (c : TradingCalendar) (o : Obligation) (today : Date) (es : List ComplianceEvent) {k n : ℕ}
    (r : GapReport) {r2 : GapReport}
    → check_events c o today es r ≡ ok r2
    → IsBalanced k n r
    → IsBalanced k n r2
unfolding check_events
check_events-IsBalanced c o today [] {k} {n} r h i = subst (IsBalanced k n) (ground arith) i
check_events-IsBalanced c o today (e ∷ es) r h i =
    let (outcome, checked, rest) = >>=-eq-ok (check c o e today) _ h in
    check_events-IsBalanced c o today es (record_check outcome r) rest
      (record_check-IsBalanced outcome r (check-IsBreach c o e today checked) i)

pub add_unevaluable-IsBalanced :
    {k n : ℕ} (o : Obligation) (reason : Reason) (r : GapReport)
    → IsBalanced k n r
    → IsBalanced k (n + 1) (add_unevaluable o reason r)
add_unevaluable-IsBalanced o reason r i = record {
  certified = i.certified;
  rules = ground (arith, i.rules, length-append r.unevaluable (unevaluable_rule o reason ∷ []));
  events = i.events;
  all_findings = i.all_findings;
}

pub add_evaluated-IsBalanced :
    {k n : ℕ} (r : GapReport) → IsBalanced k n r → IsBalanced k (n + 1) (add_evaluated r)
add_evaluated-IsBalanced r i = record {
  certified = i.certified;
  rules = omega (arith, i.rules);
  events = i.events;
  all_findings = i.all_findings;
}

pub add_unevidenced-IsBalanced :
    {k n : ℕ} (occasions : ℕ) (f : Finding) (r : GapReport)
    → f.outcome ≡ Outcome.no_evidence
    → IsBalanced k n r
    → IsBalanced k (n + 1) (add_unevidenced occasions f r)
add_unevidenced-IsBalanced occasions f r none_filed i = record {
  certified = i.certified;
  rules = omega (arith, i.rules);
  events = ground (
    arith,
    i.events,
    count-append (λ (f : Finding). is_missing f.outcome) r.findings (f ∷ []),
    count-append (λ (f : Finding). is_late f.outcome) r.findings (f ∷ []),
  );
  all_findings = ground (
    arith,
    i.all_findings,
    length-append r.findings (f ∷ []),
    count-append (λ (f : Finding). is_missing f.outcome) r.findings (f ∷ []),
    count-append (λ (f : Finding). is_late f.outcome) r.findings (f ∷ []),
    count-append (λ (f : Finding). is_no_evidence f.outcome) r.findings (f ∷ []),
  );
}
