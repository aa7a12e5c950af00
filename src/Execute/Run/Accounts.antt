-- ===== src/Execute/Run/Accounts.antt =====
-- execute/engine.py and report.py: what the counts of a run add up to.
use sanhita.Prelude.{
  ℕ, ◌+◌, ◌≡◌, ◌⊎◌, inl, inr, refl, sym, ◌∙◌, List, [], ◌∷◌, Option, none, some, ok, >>=-eq-ok,
  subst, arith, length, count, length-append, length-select,
}
use sanhita.Prelude.Sort.{sort, length-sort}
use sanhita.Dates.{Date, sub_days}
use sanhita.Ir.Enums.{is_certified}
use sanhita.Ir.Schema.{Obligation}
use sanhita.Execute.Calendar.{TradingCalendar}
use sanhita.Execute.Evidence.{ComplianceEvent, EvidenceStore, for_obligation}
use sanhita.Execute.Report.{
  Outcome, Finding, Reason, Applicability, GapReport, breaches, unverified, missing_findings,
  late_findings, never_evidenced, is_missing, is_late, is_no_evidence,
}
use sanhita.Execute.Applicability.{assess_applicability}
use sanhita.Execute.Engine.{cite, why_not}
use sanhita.Execute.Run.{
  run, evaluate_all, evaluate, evaluate_events, check_unless, no_evidence, owed,
  unevidenced_finding, add_evaluated, add_unevaluable, add_unevidenced, add_undetermined,
  add_not_applicable, add_applicability, unevaluable_rule, new_report, certified_only, by_id,
}
use sanhita.Execute.Run.Balance.{
  check_events-IsBalanced, IsBalanced, add_unevaluable-IsBalanced, add_evaluated-IsBalanced,
  add_unevidenced-IsBalanced,
}

owed-cases :
    (o : Obligation) (occasions : ℕ) (window_start today : Date) (r : GapReport) {r2 : GapReport}
    → owed o occasions window_start today r ≡ ok r2
    → ((reason : Reason) × (r2 ≡ add_unevaluable o reason r))
      ⊎ ((f : Finding) × (f.outcome ≡ Outcome.no_evidence) × (r2 ≡ add_unevidenced occasions f r))
unfolding owed cite unevidenced_finding
owed-cases o occasions window_start today r h = grind arith

owed-IsBalanced :
    {k n : ℕ} (o : Obligation) (occasions : ℕ) (window_start today : Date) (r : GapReport)
    {r2 : GapReport}
    → owed o occasions window_start today r ≡ ok r2
    → IsBalanced k n r
    → IsBalanced k (n + 1) r2
owed-IsBalanced {k} {n} o occasions window_start today r h i =
    elim (owed-cases o occasions window_start today r h) [
      | inl (reason, e) ↦
          subst (IsBalanced k (n + 1)) (sym e) (add_unevaluable-IsBalanced o reason r i)
      | inr (f, none_filed, e) ↦
          subst (IsBalanced k (n + 1)) (sym e)
            (add_unevidenced-IsBalanced occasions f r none_filed i)
    ]

add_not_applicable-IsBalanced :
    {k n : ℕ} (r : GapReport) → IsBalanced k n r → IsBalanced k (n + 1) (add_not_applicable r)
add_not_applicable-IsBalanced r i = record {
  certified = i.certified;
  rules = omega (arith, i.rules);
  events = i.events;
  all_findings = i.all_findings;
}

add_undetermined-IsBalanced :
    {k n : ℕ} (o : Obligation) (reason : Reason) (r : GapReport)
    → IsBalanced k n r
    → IsBalanced k (n + 1) (add_undetermined o reason r)
add_undetermined-IsBalanced o reason r i = record {
  certified = i.certified;
  rules = ground (arith, i.rules, length-append r.undetermined (unevaluable_rule o reason ∷ []));
  events = i.events;
  all_findings = i.all_findings;
}

add_applicability-IsBalanced :
    {k n : ℕ} (a : Applicability) (r : GapReport)
    → IsBalanced k n r
    → IsBalanced k n (add_applicability a r)
add_applicability-IsBalanced a r i = record {
  certified = i.certified;
  rules = i.rules;
  events = i.events;
  all_findings = i.all_findings;
}

no_evidence-cases :
    (o : Obligation) (window_start today : Date) (r0 : GapReport) {r2 : GapReport}
    → no_evidence o window_start today r0 ≡ ok r2
    → let a = assess_applicability o window_start today in
      let r = add_applicability a r0 in
      (r2 ≡ add_not_applicable r)
      ⊎ ((r2 ≡ add_undetermined o a.reason r) ⊎ (owed o a.occasions window_start today r ≡ ok r2))
unfolding no_evidence
no_evidence-cases o window_start today r0 h = grind arith

no_evidence-IsBalanced :
    {k n : ℕ} (o : Obligation) (window_start today : Date) (r : GapReport) {r2 : GapReport}
    → no_evidence o window_start today r ≡ ok r2
    → IsBalanced k n r
    → IsBalanced k (n + 1) r2
no_evidence-IsBalanced {k} {n} o window_start today r0 h i =
    let a = assess_applicability o window_start today in
    let r = add_applicability a r0 in
    let j : IsBalanced k n r = add_applicability-IsBalanced a r0 i in
    elim (no_evidence-cases o window_start today r0 h) [
      | inl e ↦ subst (IsBalanced k (n + 1)) (sym e) (add_not_applicable-IsBalanced r j)
      | inr (inl e) ↦
          subst (IsBalanced k (n + 1)) (sym e) (add_undetermined-IsBalanced o a.reason r j)
      | inr (inr e) ↦ owed-IsBalanced o a.occasions window_start today r e j
    ]

check_unless-IsBalanced :
    (problem : Option Reason) (c : TradingCalendar) (o : Obligation) (today : Date)
    (es : List ComplianceEvent) {k n : ℕ} (r : GapReport) {r2 : GapReport}
    → check_unless problem c o today es r ≡ ok r2
    → IsBalanced k n r
    → IsBalanced k (n + 1) r2
unfolding check_unless
check_unless-IsBalanced (some problem) c o today es {k} {n} r h i =
    subst (IsBalanced k (n + 1)) (ground arith) (add_unevaluable-IsBalanced o problem r i)
check_unless-IsBalanced none c o today es r h i =
    check_events-IsBalanced c o today es (add_evaluated r) h (add_evaluated-IsBalanced r i)

evaluate_events-IsBalanced :
    (c : TradingCalendar) (window_start today : Date) {k n : ℕ} (o : Obligation)
    (es : List ComplianceEvent) (r : GapReport) {r2 : GapReport}
    → evaluate_events c window_start today o es r ≡ ok r2
    → IsBalanced k n r
    → IsBalanced k (n + 1) r2
unfolding evaluate_events
evaluate_events-IsBalanced c window_start today o [] r h i =
    no_evidence-IsBalanced o window_start today r h i
evaluate_events-IsBalanced c window_start today o (e ∷ es) r h i =
    check_unless-IsBalanced (why_not o) c o today (e ∷ es) r h i

evaluate_all-IsBalanced :
    (c : TradingCalendar) (evidence : EvidenceStore) (window_start today : Date) (k : ℕ)
    (os : List Obligation) (n : ℕ) (r : GapReport) {r2 : GapReport}
    → evaluate_all c evidence window_start today os r ≡ ok r2
    → IsBalanced k n r
    → IsBalanced k (n + length os) r2
unfolding evaluate_all evaluate
evaluate_all-IsBalanced c evidence window_start today k [] n r {r2} h i =
    subst (λ m. IsBalanced k m r2) (omega arith) (subst (IsBalanced k n) (ground arith) i)
evaluate_all-IsBalanced c evidence window_start today k (o ∷ os) n r {r2} h i =
    let (r1, first, rest) = >>=-eq-ok (evaluate c evidence window_start today o r) _ h in
    subst (λ m. IsBalanced k m r2) (omega arith)
      (evaluate_all-IsBalanced c evidence window_start today k os (n + 1) r1 rest (
        evaluate_events-IsBalanced c window_start today o (for_obligation evidence o.id) r first i))

new_report-IsBalanced :
    (c : TradingCalendar) (evidence : EvidenceStore) (now k : ℕ)
    → IsBalanced k 0 (new_report c evidence now k)
new_report-IsBalanced c evidence now k = record {
  certified = refl;
  rules = refl;
  events = refl;
  all_findings = refl;
}

-- Where a run ends, its report accounts for every certified rule once: as evaluated, as one that
-- cannot be checked, as not owed, or as undetermined. Every event that was checked is satisfied or
-- a breach, and every finding is a breach or
-- unverified.
pub run-accounts :
    (c : TradingCalendar) (obligations : List Obligation) (evidence : EvidenceStore) (now : ℕ)
    (today : Date) (window_days : ℕ) {r : GapReport}
    → run c obligations evidence now today window_days ≡ ok r
    → (count (λ (o : Obligation). is_certified o.status) obligations
        ≡ r.rules_evaluated + length r.unevaluable + r.not_applicable + length r.undetermined)
      × (r.certified_rules ≡ count (λ (o : Obligation). is_certified o.status) obligations)
      × (r.events_checked ≡ r.satisfied + breaches r)
      × (length r.findings ≡ breaches r + unverified r)
unfolding run breaches unverified missing_findings late_findings never_evidenced
run-accounts c obligations evidence now today window_days {r} h =
    let certified = certified_only obligations in
    let i =
      evaluate_all-IsBalanced c evidence (sub_days today window_days) today (length certified)
        (sort by_id certified) 0 (new_report c evidence now (length certified)) h
        (new_report-IsBalanced c evidence now (length certified)) in
    let measured = length-select (λ (o : Obligation). is_certified o.status) obligations in
    let sorted = length-sort by_id certified in
    let missing = length-select (λ (f : Finding). is_missing f.outcome) r.findings in
    let late = length-select (λ (f : Finding). is_late f.outcome) r.findings in
    let silent = length-select (λ (f : Finding). is_no_evidence f.outcome) r.findings in
    (
      omega (arith, i.rules, measured, sorted),
      i.certified ∙ measured,
      omega (arith, i.events, missing, late),
      omega (arith, i.all_findings, missing, late, silent),
    )
