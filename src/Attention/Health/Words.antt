-- ===== src/Attention/Health/Words.antt =====
-- health.py: the sentences about one rule's records, and about all of them.
use sanhita.Prelude.{String, Option, none, some, length, if◌then◌else◌, ltb, ◌==◌}
use sanhita.Prelude.Int.{pos_part}
use sanhita.Prelude.Text.{non_empty, show, ◌⧺◌}
use sanhita.Dates.{Date}
use sanhita.Dates.Iso.{isoformat}
use sanhita.Attention.Health.{
  Signal, RuleHealth, EvidenceHealth, needing_attention, days_since_last_record, is_quiet,
}

abbrev iso_or : Option Date → String → String
iso_or none s = s
iso_or (some d) s = isoformat d

unfoldable pub describe : RuleHealth → String
unfolding show isoformat
describe r =
    let whose = if non_empty r.function then " It belongs to " ⧺ r.function ⧺ "." else "" in
    elim r.signal [
      | Signal.never_recorded ↦
          "This duty fell due "
          ⧺ show r.occasions_due
          ⧺ " time(s) in the window and no record of any of them has "
          ⧺ "been uploaded. That is not a finding: nothing here knows whether it was done."
          ⧺ whose
      | Signal.gone_quiet ↦
          "The last record is dated "
          ⧺ iso_or r.last_recorded_on "never"
          ⧺ ". The duty has fallen due again since, "
          ⧺ "most recently on "
          ⧺ iso_or r.last_due_on "unknown"
          ⧺ ", with nothing recorded against it."
          ⧺ whose
      | Signal.unfiled ↦
          show r.unfiled
          ⧺ " recorded occasion(s) name no filing date, so the register itself says the artifact was "
          ⧺ "never produced."
          ⧺ whose
      | Signal.no_schedule ↦
          "This duty is triggered by an event rather than by a calendar, so there is no schedule to judge its "
          ⧺ "records against. Whether records are missing depends on whether the event happened."
      | Signal.current ↦
          show r.occasions_recorded
          ⧺ " of "
          ⧺ show r.occasions_due
          ⧺ " occasion(s) in the window have a record, "
          ⧺ "including the most recent."
    ]

abbrev iso_text : Option Date → String
iso_text none = ""
iso_text (some d) = isoformat d

-- A store with records has a last one.
unfoldable pub headline : EvidenceHealth → String
unfolding is_quiet needing_attention days_since_last_record isoformat show
headline h =
    if h.records == 0
    then "No compliance records have been uploaded for this firm."
    else if is_quiet h
    then "Nothing has been recorded for "
      ⧺ show (elim (days_since_last_record h) [ none ↦ 0 | some n ↦ pos_part n ])
      ⧺ " days. The most recent record is dated "
      ⧺ iso_text h.latest_record
      ⧺ "."
    else if ltb 0 (needing_attention h)
    then show (needing_attention h)
      ⧺ " of "
      ⧺ show (length h.rules)
      ⧺ " certified duties have records that are missing, stopped or unfiled."
    else "All "
      ⧺ show (length h.rules)
      ⧺ " certified duties with a schedule have a record against their most recent occasion."
