-- ===== src/Execute/Evidence.antt =====
-- execute/evidence.py: the firm's events, and the store that holds one record for each occasion.
use sanhita.Prelude.{
  ℕ, String, Bool, true, false, ◌&&◌, ◌||◌, List, [], ◌∷◌, ◌++◌, map, Option, none, some, select,
  if◌then◌else◌, str_eq,
}
use sanhita.Prelude.Sort.{sort}
use sanhita.Prelude.Text.{text_le}
use sanhita.Dates.{Date, date_lt, date_eq}
pub mod Occasions

pub record ComplianceEvent : Type 0 where
  pub id : String
  pub obligation_id : String
  pub entity : String
  pub occurred_on : Date
  pub artifact_type : String
  pub filed_on : Option Date
  pub reference : Option String
  pub source_document : String
  pub source_page : Option ℕ
  pub source_row : Option ℕ
  pub source_excerpt : String
  pub mapped_by : String
  pub mapped_at : Option ℕ

pub record EvidenceStore : Type 0 where
  pub label : String
  pub events : List ComplianceEvent

-- `add`
unfoldable pub add : EvidenceStore → ComplianceEvent → EvidenceStore
add s e = record s { events = s.events ++ e ∷ [] }

-- `occasion_of(a) == occasion_of(b)`
abbrev pub same_occasion : ComplianceEvent → ComplianceEvent → Bool
same_occasion a b =
    str_eq a.obligation_id b.obligation_id
    && (str_eq a.entity b.entity && date_eq a.occurred_on b.occurred_on)

-- The loop of `supersede`: the events afterwards, and what was displaced.
unfoldable pub supersede_in :
    List ComplianceEvent → ComplianceEvent → List ComplianceEvent × Option ComplianceEvent
supersede_in [] e = (e ∷ [], none)
supersede_in (x ∷ xs) e =
    let rest = supersede_in xs e in
    if same_occasion x e then (e ∷ xs, some x) else (x ∷ rest.0, rest.1)

unfoldable pub supersede : EvidenceStore → ComplianceEvent → EvidenceStore × Option ComplianceEvent
unfolding supersede_in
supersede s e =
    let (events, displaced) = supersede_in s.events e in (record s { events = events }, displaced)

-- By the day, and within a day by the id.
abbrev pub event_le : ComplianceEvent → ComplianceEvent → Bool
event_le a b =
    date_lt a.occurred_on b.occurred_on
    || (date_eq a.occurred_on b.occurred_on && text_le a.id b.id)

unfoldable pub for_obligation : EvidenceStore → String → List ComplianceEvent
unfolding sort
for_obligation s id =
    sort event_le (select (λ (e : ComplianceEvent). str_eq e.obligation_id id) s.events)
