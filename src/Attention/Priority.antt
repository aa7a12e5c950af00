-- ===== src/Attention/Priority.antt =====
-- priority.py: the open work in one list, worst first.
pub mod Ranking
pub mod Order
use Prim.Native.Char.{Char}
use Prim.Native.String.{String}
use sanhita.Prelude.{
  ℕ, ◌+◌, Bool, true, false, not, ◌&&◌, ◌||◌, List, [], ◌∷◌, ◌++◌, map, Option, none, some, select,
  count, length, str_eq, if◌then◌else◌, ltb, leb, ◌==◌,
}
use sanhita.Prelude.Int.{ℤ, pos, negsuc, leb_ℤ}
use sanhita.Prelude.Sort.{sort}
use sanhita.Prelude.Text.{non_empty, or_text, show, text_le, ◌⧺◌}
use sanhita.Dates.{Date}
use sanhita.Execute.Calendar.{upper}
use sanhita.Remediate.Task.{
  TaskStatus, is_open, Priority, high, medium, low, RemediationTask, is_from_an_amendment,
  is_overdue, days_remaining,
}
use sanhita.Attention.Health.{Signal, needs_attention, RuleHealth, EvidenceHealth}

pub data Band : Type 0 where
  now soon when_you_can : Band

abbrev pub is_now : Band → Bool
is_now Band.now = true
is_now _ = false

abbrev pub same_band : Band → Band → Bool
same_band Band.now Band.now = true
same_band Band.soon Band.soon = true
same_band Band.when_you_can Band.when_you_can = true
same_band _ _ = false

-- `_band`
abbrev pub band_of : ℕ → Band
band_of score =
    if leb 55 score then Band.now else if leb 25 score then Band.soon else Band.when_you_can

pub record Ranked : Type 0 where
  pub title : String
  pub score : ℕ
  pub band : Band
  pub reasons : List String
  pub clause_id : String
  pub obligation_id : String
  pub owner : String
  pub team : String
  pub due_date : Option Date
  pub link : String
  pub kind : String

abbrev pub is_owned : Ranked → Bool
is_owned r = non_empty r.owner || non_empty r.team

pub record WorkList : Type 0 where
  pub as_of : Date
  pub items : List Ranked

-- `of`
unfoldable pub of_band : WorkList → Band → List Ranked
of_band w b = select (λ (i : Ranked). same_band i.band b) w.items

unfoldable pub headline : WorkList → String
unfolding of_band show
headline w = elim w.items [
  | [] ↦ "There is no open compliance work for this firm."
  | _ ∷ _ ↦
      let now_items = length (of_band w Band.now) in
      if ltb 0 now_items
      then show now_items
        ⧺ " of "
        ⧺ show (length w.items)
        ⧺ " open items are overdue, close to a deadline, or on a rule nobody can run."
      else show (length w.items) ⧺ " open item(s), none of them urgent this week."
]

-- A factor that fired, with its reason.
abbrev pub Score : Type 0
Score = ℕ × List String

abbrev pub factor : Bool → ℕ → String → Score
factor fired points reason = if fired then (points, reason ∷ []) else (0, [])

abbrev pub plus : Score → Score → Score
plus a b = (a.0 + b.0, a.1 ++ b.1)

-- A deadline that has not passed.
abbrev pub due_soon : Option ℤ → Score
due_soon none = (0, [])
due_soon (some (pos n)) =
    if leb n 7
    then (25, ("it falls due in " ⧺ show n ⧺ " day(s)") ∷ [])
    else if leb n 30
    then (10, "it falls due within the month" ∷ [])
    else (0, [])
due_soon (some (negsuc n)) = (10, "it falls due within the month" ∷ [])

abbrev pub lost_signature : String → Bool
lost_signature kind = str_eq kind "RECERTIFY" || (str_eq kind "WITHDRAW" || str_eq kind "REPOINT")

abbrev pub is_high : Priority → Bool
is_high high = true
is_high _ = false

abbrev pub is_reopened : TaskStatus → Bool
is_reopened TaskStatus.reopened = true
is_reopened _ = false

-- `_score_task`
unfoldable pub score_task : RemediationTask → Date → Score
unfolding is_overdue days_remaining show
score_task t today =
    plus
      (if is_overdue t today then (40, "it is overdue" ∷ []) else due_soon (days_remaining t today))
      (plus
        (factor (lost_signature t.change_kind) 30
          "a signature no longer covers the clause it names")
        (plus (factor (is_high t.priority) 20 "the firm marked it high priority") (
          plus
            (factor (is_reopened t.status) 15
              "the fix was attempted and the rule still finds a breach")
            (factor (not (non_empty t.owner || non_empty t.assigned_team)) 15 "nobody owns it"))))

abbrev pub signal_score : Signal → Score
signal_score Signal.gone_quiet = (20, "its records have stopped arriving" ∷ [])
signal_score Signal.never_recorded = (15, "no record of this duty has ever been uploaded" ∷ [])
signal_score Signal.unfiled = (10, "recorded occasions name no filing date" ∷ [])
signal_score _ = (0, [])

-- `rule.period.upper() in ("DAY", "WEEK", "MONTH")`
abbrev pub is_frequent : String → Bool
is_frequent period =
    str_eq (upper period) "DAY" || (str_eq (upper period) "WEEK" || str_eq (upper period) "MONTH")

-- `_score_health`
unfoldable pub score_health : RuleHealth → Score
unfolding upper
score_health r = plus (signal_score r.signal) (
    plus (factor (is_frequent r.period) 10 "it recurs monthly or more often")
      (factor (not (non_empty r.function || non_empty r.process)) 15 "nobody owns it"))

unfoldable pub task_item : String → Date → RemediationTask → Ranked
unfolding score_task
task_item base today t =
    let s = score_task t today in
    record {
      title = or_text t.title ("Task on clause " ⧺ t.clause_id);
      score = s.0;
      band = band_of s.0;
      reasons = s.1;
      clause_id = t.clause_id;
      obligation_id = t.obligation_id;
      owner = t.owner;
      team = t.assigned_team;
      due_date = t.due_date;
      link = base ⧺ "/remediation#" ⧺ t.task_id;
      kind = if is_from_an_amendment t then "AMENDMENT" else "TASK";
    }

unfoldable pub health_item : String → RuleHealth → Ranked
unfolding score_health
health_item base r =
    let s = score_health r in
    record {
      title = or_text r.requirement ("Duty on clause " ⧺ r.clause_id);
      score = s.0;
      band = band_of s.0;
      reasons = s.1;
      clause_id = r.clause_id;
      obligation_id = r.obligation_id;
      owner = "";
      team = r.function;
      due_date = none;
      link = base ⧺ "/review";
      kind = "EVIDENCE";
    }

-- Tuples of texts, compared from the left.
abbrev pub texts_le : List String → List String → Bool
texts_le [] ys = true
texts_le (x ∷ xs) [] = false
texts_le (x ∷ xs) (y ∷ ys) = let rest = texts_le xs ys in if str_eq x y then rest else text_le x y

abbrev pub texts_of : Ranked → List String
texts_of r = r.clause_id ∷ r.obligation_id ∷ r.title ∷ []

abbrev pub ranked_le : Ranked → Ranked → Bool
ranked_le a b = ltb b.score a.score || ((a.score == b.score) && texts_le (texts_of a) (texts_of b))

abbrev pub rules_of : Option EvidenceHealth → List RuleHealth
rules_of none = []
rules_of (some h) = h.rules

-- The items, before they are put in order.
unfoldable pub open_items :
    List RemediationTask → Option EvidenceHealth → String → Date → List Ranked
unfolding task_item health_item
open_items tasks health base today =
    map (task_item base today) (select (λ (t : RemediationTask). is_open t.status) tasks)
    ++ map (health_item base)
        (select (λ (r : RuleHealth). needs_attention r.signal) (rules_of health))

unfoldable pub rank_open_work :
    List RemediationTask → Option EvidenceHealth → String → Date → WorkList
unfolding open_items sort
rank_open_work tasks health base today = record {
  as_of = today;
  items = sort ranked_le (open_items tasks health base today);
}
