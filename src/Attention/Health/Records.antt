-- ===== src/Attention/Health/Records.antt =====
-- health.py: what it means that a rule's records are up to date.
use sanhita.Prelude.{
  String, ℕ, ◌≡◌, ◌⊎◌, inl, inr, refl, sym, subst, Bool, true, false, not, List, [], ◌∷◌, Option,
  none, some, all, count, get_last?, is_some, if◌then◌else◌, arith, ltb,
}
use sanhita.Prelude.Members.{IsIn}
use sanhita.Dates.{Date, date_lt, date_eq}
use sanhita.Ir.Schema.{Obligation}
use sanhita.Execute.Evidence.{ComplianceEvent}
use sanhita.Execute.Applicability.{expected_occasions}
use sanhita.Amend.Plan.{ControlBinding}
use sanhita.Attention.Health.{
  is_current, RuleHealth, insert_day, recorded_dates, recurring, scheduled, signal_of, health_of,
  common,
}

last-IsIn : (ds : List Date) (d : Date) → get_last? ds ≡ some d → IsIn d ds
last-IsIn [] d h = ground arith
last-IsIn (x ∷ []) d h = subst (λ y. IsIn y (x ∷ [])) (ground arith) IsIn.here
last-IsIn (x ∷ y ∷ ys) d h = IsIn.there (last-IsIn (y ∷ ys) d h)

insert_day-IsIn : (x d : Date) (ds : List Date) → IsIn d (insert_day x ds) → (x ≡ d) ⊎ IsIn d ds
unfolding insert_day
insert_day-IsIn x d [] IsIn.here = inl refl
insert_day-IsIn x d [] (IsIn.there m) = elim m [ ]
insert_day-IsIn x d (y ∷ ys) m =
    placed (date_eq x y) (date_lt x y) x d y ys m (insert_day-IsIn x d ys)
  where
    placed :
        (same before : Bool) (x d y : Date) (ys : List Date)
        → IsIn d (if same then y ∷ ys else if before then x ∷ y ∷ ys else y ∷ insert_day x ys)
        → (IsIn d (insert_day x ys) → (x ≡ d) ⊎ IsIn d ys)
        → (x ≡ d) ⊎ IsIn d (y ∷ ys)
    placed true before x d y ys m later = inr m
    placed false true x d y ys IsIn.here later = inl refl
    placed false true x d y ys (IsIn.there m) later = inr m
    placed false false x d y ys IsIn.here later = inr IsIn.here
    placed false false x d y ys (IsIn.there m) later = elim (later m) [
      | inl same ↦ inl same
      | inr n ↦ inr (IsIn.there n)
    ]

recorded_dates-IsIn :
    (es : List ComplianceEvent) (d : Date)
    → IsIn d (recorded_dates es)
    → (e : ComplianceEvent) × IsIn e es × (e.occurred_on ≡ d)
unfolding recorded_dates
recorded_dates-IsIn [] d m = elim m [ ]
recorded_dates-IsIn (e ∷ es) d m = elim (insert_day-IsIn e.occurred_on d (recorded_dates es) m) [
  | inl same ↦ (e, IsIn.here, same)
  | inr later ↦ let (f, n, on) = recorded_dates-IsIn es d later in (f, IsIn.there n, on)
]

none_unfiled :
    (es : List ComplianceEvent)
    → ltb 0 (count (λ (e : ComplianceEvent). not (is_some e.filed_on)) es) ≡ false
    → all (λ (e : ComplianceEvent). is_some e.filed_on) es ≡ true
none_unfiled [] h = refl
none_unfiled (e ∷ es) h = ground (arith, none_unfiled es)

current_signal :
    (due recorded : Option Date) (n : ℕ) (d : Date)
    → is_current (signal_of due recorded n) ≡ true
    → due ≡ some d
    → (r : Date) × (recorded ≡ some r) × (date_lt r d ≡ false) × (ltb 0 n ≡ false)
unfolding signal_of
current_signal none recorded n d h k = ground arith
current_signal (some due) none n d h k = ground arith
current_signal (some due) (some recorded) n d h k = (recorded, refl, ground arith, ground arith)

scheduled_current :
    (c : RuleHealth) (days : List Date) (period : Option String) (due : Date)
    → is_current (scheduled c days period).signal ≡ true
    → (scheduled c days period).last_due_on ≡ some due
    → c.last_due_on ≡ none
    → (r : Date) × (c.last_recorded_on ≡ some r)
      × (date_lt r due ≡ false)
      × (ltb 0 c.unfiled ≡ false)
unfolding scheduled
scheduled_current c days none due h k n = ground arith
scheduled_current c days (some period) due h k n =
    current_signal (get_last? days) c.last_recorded_on c.unfiled due h k

-- Where a rule that fell due in the window is called up to date, there is a record of it that is not
-- older than the last day it fell due, and every record of it names a filing date.
pub current_has_records :
    (o : Obligation) (events : List ComplianceEvent) (binding : Option ControlBinding)
    (since today due : Date)
    → is_current (health_of o events binding since today).signal ≡ true
    → (health_of o events binding since today).last_due_on ≡ some due
    → (e : ComplianceEvent) × IsIn e events
      × (date_lt e.occurred_on due ≡ false)
      × (all (λ (e : ComplianceEvent). is_some e.filed_on) events ≡ true)
unfolding health_of
current_has_records o events binding since today due up_to_date fell_due =
    let (r, last, not_before, filed) =
      scheduled_current (common o events binding) (expected_occasions o since today)
        (recurring o.deadline) due up_to_date fell_due refl in
    let (e, m, on) = recorded_dates-IsIn events r (last-IsIn (recorded_dates events) r last) in
    (e, m, subst (λ d. date_lt d due ≡ false) (sym on) not_before, none_unfiled events filed)
