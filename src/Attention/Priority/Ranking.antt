-- ===== src/Attention/Priority/Ranking.antt =====
-- priority.py: what the scores can be.
use sanhita.Prelude.{
  ℕ, ◌≤◌, ◌≡◌, String, Bool, true, false, not, ◌||◌, [], ◌∷◌, Option, none, some, if◌then◌else◌,
  arith,
}
use sanhita.Prelude.Int.{ℤ, pos, negsuc}
use sanhita.Prelude.Text.{non_empty}
use sanhita.Dates.{Date}
use sanhita.Remediate.Task.{RemediationTask, is_overdue, days_remaining}
use sanhita.Attention.Health.{Signal, RuleHealth}
use sanhita.Attention.Priority.{
  is_frequent, lost_signature, is_high, is_reopened, is_now, band_of, factor, due_soon,
  signal_score, score_task, score_health, health_item,
}

due_soon-le : (d : Option ℤ) → (due_soon d).0 ≤ 25
due_soon-le none = ground arith
due_soon-le (some (pos n)) = ground arith
due_soon-le (some (negsuc n)) = ground arith

factor-le : (b : Bool) (n : ℕ) (why : String) → (factor b n why).0 ≤ n
factor-le b n why = ground arith

signal_score-le : (s : Signal) → (signal_score s).0 ≤ 20
signal_score-le s = ground arith

first_factor :
    (overdue : Bool) (d : Option ℤ)
    → (if overdue then (40, "it is overdue" ∷ []) else due_soon d).0 ≤ 40
first_factor true d = omega arith
first_factor false d = omega (arith, due_soon-le d)

below_now : (n : ℕ) → n ≤ 45 → is_now (band_of n) ≡ false
below_now n h = ground arith

-- What the scores can come to: a task has 120 points at most, and a rule whose records need attention
-- has 45 at most, which is below the 55 of the highest band: such a rule is never among the things to
-- do this week.
pub scores_within :
    (t : RemediationTask) (today : Date) (r : RuleHealth) (base : String)
    → ((score_task t today).0 ≤ 120)
      × ((score_health r).0 ≤ 45)
      × (is_now (health_item base r).band ≡ false)
unfolding score_task score_health health_item
scores_within t today r base =
    let health : (score_health r).0 ≤ 45 = omega (
      arith,
      signal_score-le r.signal,
      factor-le (is_frequent r.period) 10 "it recurs monthly or more often",
      factor-le (not (non_empty r.function || non_empty r.process)) 15 "nobody owns it",
    ) in
    (
      omega (
        arith,
        first_factor (is_overdue t today) (days_remaining t today),
        factor-le (lost_signature t.change_kind) 30
            "a signature no longer covers the clause it names",
        factor-le (is_high t.priority) 20 "the firm marked it high priority",
        factor-le (is_reopened t.status) 15
            "the fix was attempted and the rule still finds a breach",
        factor-le (not (non_empty t.owner || non_empty t.assigned_team)) 15 "nobody owns it",
      ),
      health,
      below_now (score_health r).0 health,
    )
