-- ===== src/Execute/Run/Citations.antt =====
-- execute/engine.py: the rule that each finding of a run cites.
use sanhita.Prelude.{
  ℕ, ◌≡◌, ◌⊎◌, inl, inr, refl, sym, subst, Bool, true, false, List, [], ◌∷◌, ◌++◌, Option, none,
  some, Result, ok, err, >>=-eq-ok, arith, length, if◌then◌else◌,
}
use sanhita.Prelude.Sort.{sort}
use sanhita.Dates.{Date, sub_days}
use sanhita.Ir.Enums.{is_certified}
use sanhita.Ir.Schema.{Deadline, Obligation}
use sanhita.Execute.Calendar.{TradingCalendar}
use sanhita.Execute.Evidence.{ComplianceEvent, EvidenceStore, for_obligation}
use sanhita.Execute.Report.{Finding, Reason, GapReport}
use sanhita.Execute.Applicability.{assess_applicability}
use sanhita.Execute.Engine.{DueError, Check, check, check_computed, check_due, cite, why_not}
use sanhita.Execute.Run.{
  run, evaluate_all, evaluate, evaluate_events, check_unless, check_events, no_evidence, owed,
  record_check, unevidenced_finding, add_evaluated, add_applicability, new_report, certified_only,
  by_id,
}
use sanhita.Prelude.Members.{IsIn, sort-IsIn}

-- Each finding cites a certified rule of the list, field by field.
pub data AreCited (os : List Obligation) : List Finding → Type 0 where
  no_finding : AreCited os []
  one_more :
      (fs : List Finding) (f : Finding) (o : Obligation)
      → AreCited os fs
      → IsIn o os
      → is_certified o.status ≡ true
      → cite o ≡ ok f.citation
      → AreCited os (fs ++ f ∷ [])

CitesIn : List Obligation → GapReport → Type 0
CitesIn os r = AreCited os r.findings

IsFoundFor : Obligation → Check → Type 0
IsFoundFor o Check.not_yet_due = Unit
IsFoundFor o Check.passed = Unit
IsFoundFor o (Check.found f) = cite o ≡ ok f.citation

check_due-IsFoundFor :
    (c : TradingCalendar) (o : Obligation) (d : Deadline) (e : ComplianceEvent) (today due : Date)
    {k : Check}
    → check_due c o d e today due ≡ ok k
    → IsFoundFor o k
unfolding check_due IsFoundFor
check_due-IsFoundFor c o d e today due h = ground arith

check_computed-IsFoundFor :
    (c : TradingCalendar) (o : Obligation) (d : Deadline) (e : ComplianceEvent) (today : Date)
    (m : Result DueError Date) {k : Check}
    → check_computed c o d e today m ≡ ok k
    → IsFoundFor o k
unfolding check_computed IsFoundFor
check_computed-IsFoundFor c o d e today (ok due) h = check_due-IsFoundFor c o d e today due h
check_computed-IsFoundFor c o d e today (err (DueError.calendar_error x)) h = ground arith
check_computed-IsFoundFor c o d e today (err DueError.no_absolute_date) h = ground arith
check_computed-IsFoundFor c o d e today (err DueError.day_count_unresolved) h = ground arith
check_computed-IsFoundFor c o d e today (err DueError.not_computable) h = ground arith

check-IsFoundFor :
    (c : TradingCalendar) (o : Obligation) (e : ComplianceEvent) (today : Date) {k : Check}
    → check c o e today ≡ ok k
    → IsFoundFor o k
unfolding check IsFoundFor
check-IsFoundFor c o e today h = grind (arith, check_computed-IsFoundFor)

module _ (os : List Obligation) where
  record_check-CitesIn :
      (o : Obligation) (outcome : Check) (r : GapReport)
      → IsIn o os
      → is_certified o.status ≡ true
      → IsFoundFor o outcome
      → CitesIn os r
      → CitesIn os (record_check outcome r)
  unfolding IsFoundFor CitesIn
  record_check-CitesIn o Check.not_yet_due r m s b i = i
  record_check-CitesIn o Check.passed r m s b i = i
  record_check-CitesIn o (Check.found f) r m s b i = AreCited.one_more r.findings f o i m s b

  check_events-CitesIn :
      (c : TradingCalendar) (o : Obligation) (today : Date) (es : List ComplianceEvent)
      (r : GapReport) {r2 : GapReport}
      → IsIn o os
      → is_certified o.status ≡ true
      → check_events c o today es r ≡ ok r2
      → CitesIn os r
      → CitesIn os r2
  unfolding check_events
  check_events-CitesIn c o today [] r m s h i = subst (CitesIn os) (ground arith) i
  check_events-CitesIn c o today (e ∷ es) r m s h i =
      let (outcome, checked, rest) = >>=-eq-ok (check c o e today) _ h in
      check_events-CitesIn c o today es (record_check outcome r) m s rest
        (record_check-CitesIn o outcome r m s (check-IsFoundFor c o e today checked) i)

  -- A step that adds no finding keeps the citations; the one that adds one cites the rule.
  same_findings : (r r2 : GapReport) → r2.findings ≡ r.findings → CitesIn os r → CitesIn os r2
  unfolding CitesIn
  same_findings r r2 e i = subst (AreCited os) (sym e) i

  owed-cases :
      (o : Obligation) (occasions : ℕ) (window_start today : Date) (r : GapReport) {r2 : GapReport}
      → owed o occasions window_start today r ≡ ok r2
      → (r2.findings ≡ r.findings)
        ⊎ ((f : Finding) × (cite o ≡ ok f.citation) × (r2.findings ≡ r.findings ++ f ∷ []))
  unfolding owed unevidenced_finding
  owed-cases o occasions window_start today r h = grind arith

  owed-CitesIn :
      (o : Obligation) (occasions : ℕ) (window_start today : Date) (r : GapReport) {r2 : GapReport}
      → IsIn o os
      → is_certified o.status ≡ true
      → owed o occasions window_start today r ≡ ok r2
      → CitesIn os r
      → CitesIn os r2
  unfolding CitesIn
  owed-CitesIn o occasions window_start today r {r2} m s h i =
      elim (owed-cases o occasions window_start today r h) [
        | inl e ↦ subst (AreCited os) (sym e) i
        | inr (f, b, e) ↦ subst (AreCited os) (sym e) (AreCited.one_more r.findings f o i m s b)
      ]

  no_evidence-cases :
      (o : Obligation) (window_start today : Date) (r0 : GapReport) {r2 : GapReport}
      → no_evidence o window_start today r0 ≡ ok r2
      → let a = assess_applicability o window_start today in
        (r2.findings ≡ r0.findings)
        ⊎ (owed o a.occasions window_start today (add_applicability a r0) ≡ ok r2)
  unfolding no_evidence
  no_evidence-cases o window_start today r0 h = grind arith

  refused_or_checked :
      (problem : Option Reason) (c : TradingCalendar) (o : Obligation) (today : Date)
      (es : List ComplianceEvent) (r : GapReport) {r2 : GapReport}
      → check_unless problem c o today es r ≡ ok r2
      → (r2.findings ≡ r.findings) ⊎ (check_events c o today es (add_evaluated r) ≡ ok r2)
  unfolding check_unless
  refused_or_checked (some problem) c o today es r h = inl (ground arith)
  refused_or_checked none c o today es r h = inr h

  evaluate_events-CitesIn :
      (c : TradingCalendar) (window_start today : Date) (o : Obligation) (es : List ComplianceEvent)
      (r : GapReport) {r2 : GapReport}
      → IsIn o os
      → is_certified o.status ≡ true
      → evaluate_events c window_start today o es r ≡ ok r2
      → CitesIn os r
      → CitesIn os r2
  unfolding evaluate_events check_unless CitesIn
  evaluate_events-CitesIn c window_start today o [] r {r2} m s h i =
      let a = assess_applicability o window_start today in
      elim (no_evidence-cases o window_start today r h) [
        | inl e ↦ subst (AreCited os) (sym e) i
        | inr e ↦ owed-CitesIn o a.occasions window_start today (add_applicability a r) m s e i
      ]
  evaluate_events-CitesIn c window_start today o (e ∷ es) r m s h i =
      elim (refused_or_checked (why_not o) c o today (e ∷ es) r h) [
        | inl same ↦ subst (AreCited os) (sym same) i
        | inr rest ↦ check_events-CitesIn c o today (e ∷ es) (add_evaluated r) m s rest i
      ]

  evaluate_all-CitesIn :
      (c : TradingCalendar) (evidence : EvidenceStore) (window_start today : Date)
      (rules : List Obligation) (r : GapReport) {r2 : GapReport}
      → ((o : Obligation) → IsIn o rules → IsIn o os × (is_certified o.status ≡ true))
      → evaluate_all c evidence window_start today rules r ≡ ok r2
      → CitesIn os r
      → CitesIn os r2
  unfolding evaluate_all evaluate
  evaluate_all-CitesIn c evidence window_start today [] r m h i =
      subst (CitesIn os) (ground arith) i
  evaluate_all-CitesIn c evidence window_start today (o ∷ rules) r m h i =
      let (r1, first, rest) = >>=-eq-ok (evaluate c evidence window_start today o r) _ h in
      let (inside, s) = m o IsIn.here in
      evaluate_all-CitesIn c evidence window_start today rules r1 (λ x y. m x (IsIn.there y)) rest
        (evaluate_events-CitesIn c window_start today o (for_obligation evidence o.id) r inside s
          first i)

kept-IsIn :
    (x o : Obligation) (os : List Obligation) (b : Bool)
    → is_certified x.status ≡ b
    → (IsIn o (certified_only os) → IsIn o os × (is_certified o.status ≡ true))
    → IsIn o (if b then x ∷ certified_only os else certified_only os)
    → IsIn o (x ∷ os) × (is_certified o.status ≡ true)
kept-IsIn x o os false e rest m = let (inside, s) = rest m in (IsIn.there inside, s)
kept-IsIn x o os true e rest IsIn.here = (IsIn.here, e)
kept-IsIn x o os true e rest (IsIn.there m) = let (inside, s) = rest m in (IsIn.there inside, s)

certified_only-IsIn :
    (os : List Obligation) (o : Obligation)
    → IsIn o (certified_only os)
    → IsIn o os × (is_certified o.status ≡ true)
certified_only-IsIn [] o h = elim h [ ]
certified_only-IsIn (x ∷ os) o h =
    kept-IsIn x o os (is_certified x.status) refl (λ m. certified_only-IsIn os o m) h

-- Every finding of a run cites a certified rule among those that were given: the clause, page and
-- words of its source, its requirement, and the officer, the time and the signature of its
-- certificate.
pub run-AreCited :
    (c : TradingCalendar) (obligations : List Obligation) (evidence : EvidenceStore) (now : ℕ)
    (today : Date) (window_days : ℕ) {r : GapReport}
    → run c obligations evidence now today window_days ≡ ok r
    → AreCited obligations r.findings
unfolding run CitesIn
run-AreCited c obligations evidence now today window_days {r} h =
    let certified = certified_only obligations in
    evaluate_all-CitesIn obligations c evidence (sub_days today window_days) today
      (sort by_id certified) (new_report c evidence now (length certified))
      (λ o m. certified_only-IsIn obligations o (sort-IsIn by_id o certified m)) h
      AreCited.no_finding
