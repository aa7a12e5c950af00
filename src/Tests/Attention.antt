-- ===== src/Tests/Attention.antt =====
-- Records that are up to date, and a list of one task and one rule.
use sanhita.Prelude.{
  ◌+◌, ◌≡◌, ◌≤◌, ◌&&◌, ◌++◌, refl, true, false, [], ◌∷◌, none, some, all, count, is_some, leb,
}
use sanhita.Prelude.Members.{IsIn}
use sanhita.Prelude.Text.{strip}
use sanhita.Dates.{date_lt, days_in_month, days_before_month, next_day, add_days, ordinal, weekday}
use sanhita.Execute.Calendar.{upper, read_period}
use sanhita.Execute.Evidence.{ComplianceEvent}
use sanhita.Execute.Applicability.{
  month_end, period_close, closes_here, admits, period_loop, period_ends, expected_occasions,
}
use sanhita.Remediate.Task.{RemediationTask, is_open}
use sanhita.Remediate.Store.{empty, new_task}
use sanhita.Attention.Health.{
  Signal, needs_attention, is_current, RuleHealth, EvidenceHealth, insert_day, recorded_dates,
  signal_of, scheduled, health_of,
}
use sanhita.Attention.Health.Records.{current_has_records}
use sanhita.Attention.Priority.{
  Band, Ranked, WorkList, of_band, is_now, task_item, score_task, score_health, health_item,
  rules_of, rank_open_work,
}
use sanhita.Attention.Priority.Order.{IsInOrder, rank_open_work_lem}
use sanhita.Attention.Priority.Ranking.{scores_within}
use sanhita.Tests.Samples.{signed}
use sanhita.Tests.Execute.{on, event}
use sanhita.Tests.Remediate.{request}

abbrev june : ComplianceEvent
june = record event { occurred_on = on 2026 6 30 }

abbrev health : RuleHealth
health = health_of signed (june ∷ []) none (on 2026 5 15) (on 2026 7 10)

-- What the tests of the records compute with.
program : Unit {0}
unfolding insert_day recorded_dates signal_of scheduled health_of month_end period_close closes_here
    admits period_loop period_ends expected_occasions read_period upper strip days_in_month
    days_before_month next_day add_days ordinal weekday
program = tt

june_is_current : is_current health.signal ≡ true
unfolding program
june_is_current = refl

june_fell_due : health.last_due_on ≡ some (on 2026 6 30)
unfolding program
june_fell_due = refl

current_has_records_example :
    (e : ComplianceEvent) × IsIn e (june ∷ [])
    × (date_lt e.occurred_on (on 2026 6 30) ≡ false)
    × (all (λ (e : ComplianceEvent). is_some e.filed_on) (june ∷ []) ≡ true)
current_has_records_example =
    current_has_records signed (june ∷ []) none (on 2026 5 15) (on 2026 7 10) (on 2026 6 30)
      june_is_current june_fell_due

abbrev task : RemediationTask
task = new_task empty request 10

abbrev quiet : RuleHealth
quiet = record health { signal = Signal.gone_quiet }

abbrev records : EvidenceHealth
records = record {
  as_of = on 2026 7 10;
  since = on 2026 5 15;
  source = "register";
  rules = health ∷ quiet ∷ [];
  awaiting_mapping = 0;
  records = 1;
  earliest_record = some (on 2026 6 30);
  latest_record = some (on 2026 6 30);
  assessed_on = none;
  assessment_is_stale = false;
}

abbrev work : WorkList
work = rank_open_work (task ∷ []) (some records) "/firm" (on 2026 7 10)

rank_open_work_lem_example :
    IsInOrder work.items
    × (work.items
        ≡ of_band work Band.now ++ (of_band work Band.soon ++ of_band work Band.when_you_can))
    × (count (λ (i : Ranked). leb 25 i.score) work.items
        ≡ count
            (λ (t : RemediationTask).
              is_open t.status && leb 25 (task_item "/firm" (on 2026 7 10) t).score)
            (task ∷ [])
          + count
              (λ (r : RuleHealth). needs_attention r.signal && leb 25 (health_item "/firm" r).score)
              (rules_of (some records)))
rank_open_work_lem_example =
    rank_open_work_lem (task ∷ []) (some records) "/firm" (on 2026 7 10)
      (λ (i : Ranked). leb 25 i.score)

scores_within_example :
    ((score_task task (on 2026 7 10)).0 ≤ 120)
    × ((score_health quiet).0 ≤ 45)
    × (is_now (health_item "/firm" quiet).band ≡ false)
scores_within_example = scores_within task (on 2026 7 10) quiet "/firm"
