-- ===== src/Tests/Remediate.antt =====
-- Sample tasks: a gap that is raised, worked on and re-checked.
use sanhita.Prelude.{
  String, ◌≡◌, ◌↔◌, refl, true, false, List, [], ◌∷◌, ◌++◌, none, some, ok, or_else, any, str_eq,
  if◌then◌else◌, ◌+◌,
}
use sanhita.Prelude.Dict.{get, put, values}
use sanhita.Prelude.Text.{strip, show, ◌⧺◌}
use sanhita.Remediate.Log.{
  EntryPayload, TaskEntry, Draft, Transition, append, make_entry, verify, verify_from,
}
use sanhita.Remediate.Log.Integrity.{IsIntact, verify_lem}
use sanhita.Remediate.Task.{TaskStatus, is_open, medium, RemediationTask}
use sanhita.Remediate.Store.{
  RemediationStore, GapRequest, empty, drop_spaces, next_id, set_task, open_task, new_task, add_ids,
  log_entry, open_for_gap, assign, set_status, attach_evidence,
}
use sanhita.Remediate.Store.Recheck.{recheck}
use sanhita.Remediate.Store.Writes.{
  Call, call_open, call_assign, call_attach, call_recheck, perform, run, status_of,
}
use sanhita.Remediate.Store.Trace.{IsSound, run_store-IsSound}
use sanhita.Remediate.Store.Closing.{is_finished, is_passing, finished-is_passing}
use sanhita.Remediate.Store.Lifecycle.{
  transitions, recheck_transitions, recheck_lem, open_for_gap_twice,
}

abbrev sha : EntryPayload → String
sha p = p.task_id ⧺ p.previous_hash

abbrev pub request : GapRequest
request = record {
  gap_id = "G-1";
  obligation_id = "SB-40.1.8-a";
  clause_id = "40.1 8";
  company = "A Firm";
  title = "Report margin";
  by = "officer";
  remediation_action = "report";
  evidence_required = "REPORT_FILING";
  owner = " desk ";
  assigned_team = "";
  priority = medium;
  due_date = none;
  source_rule_version = "1.0.0";
  at = some 10;
}

-- The first `assign` is of a task that is not there.
abbrev calls : List Call
calls =
    call_assign "REM-40.18-001" "desk" "officer" "" "" 5
    ∷ call_open request 10
    ∷ call_attach "REM-40.18-001" ("E-1" ∷ []) "desk" "" 20
    ∷ call_recheck "REM-40.18-001" false "engine" "" none 30
    ∷ []

-- What the tests of the store compute with.
program : Unit {0}
unfolding run perform open_for_gap assign set_status attach_evidence recheck next_id drop_spaces
    set_task open_task new_task add_ids log_entry append make_entry verify verify_from get put
    values status_of strip show
program = tt

run_store-IsSound_example : IsSound sha (run sha empty calls)
run_store-IsSound_example = run_store-IsSound sha calls

closed_at_last : is_finished (status_of (run sha empty calls) "REM-40.18-001") ≡ true
unfolding program
closed_at_last = refl

finished-is_passing_example : any (λ c. is_passing c "REM-40.18-001") calls ≡ true
finished-is_passing_example = finished-is_passing sha calls "REM-40.18-001" closed_at_last

abbrev raised : RemediationStore × RemediationTask
raised = open_for_gap sha empty request 10

raised_task : get "REM-40.18-001" raised.0.tasks ≡ some (new_task empty request 10)
unfolding program
raised_task = refl

recheck_lem_example :
    (s' : RemediationStore) × (v : RemediationTask) × (recheck sha raised.0 "REM-40.18-001" true
        "engine" "" none 30
      ≡ ok (s', v))
    × (v.status ≡ (if true then TaskStatus.reopened else TaskStatus.closed))
    × (v.closed_at
        ≡ (if true then (new_task empty request 10).closed_at else some (or_else none 30)))
    × (v.recheck_count ≡ (new_task empty request 10).recheck_count + 1)
    × ((j : String)
        → get j s'.tasks ≡ (if str_eq "REM-40.18-001" j then some v else get j raised.0.tasks))
    × (transitions s'.log ≡ transitions raised.0.log ++ recheck_transitions true)
recheck_lem_example =
    recheck_lem sha raised.0 "REM-40.18-001" true "engine" "" none 30 (new_task empty request 10)
      raised_task

open_for_gap_twice_example :
    ((open_for_gap sha raised.0 request 11).0 ≡ raised.0)
    × ((open_for_gap sha raised.0 request 11).1.gap_id ≡ "G-1")
    × (is_open (open_for_gap sha raised.0 request 11).1.status ≡ true)
open_for_gap_twice_example = open_for_gap_twice sha empty request request 10 11 refl

abbrev draft : Draft
draft = record {
  task_id = "REM-40.18-001";
  transition = Transition.created;
  actor = "officer";
  from_status = none;
  to_status = "OPEN";
  note = "";
  detail = [];
  at = none;
}

abbrev entry : TaskEntry
entry = make_entry sha [] draft 10

verify_lem_example : (verify sha (entry ∷ []) ≡ none) ↔ IsIntact sha (entry ∷ [])
verify_lem_example = verify_lem sha (entry ∷ [])
