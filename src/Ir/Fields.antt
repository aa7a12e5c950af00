-- ===== src/Ir/Fields.antt =====
-- ir/schema.py: what a field has to be by itself, of values that the field validators have normalised.
-- The pattern of a SHA-256 is not here: the anchor's is compared with the digest of its text.
use Prim.Native.Char.{Char, code}
use sanhita.Prelude.{
  ℕ, ◌+◌, String, Bool, true, false, ◌&&◌, ◌||◌, Option, none, some, leb, ◌==◌, str_eq,
  if◌then◌else◌,
}
use sanhita.Prelude.Text.{non_empty, take_text}
use sanhita.Ir.Schema.{Action, Trigger, Deadline, Condition, EvidenceReq, SourceAnchor}

abbrev pub between : ℕ → ℕ → Char → Bool
between lo hi c = leb lo (code c) && leb (code c) hi

abbrev pub is_upper : Char → Bool
is_upper c = between b'A' b'Z' c

abbrev pub is_lower : Char → Bool
is_lower c = between b'a' b'z' c

abbrev pub is_digit : Char → Bool
is_digit c = between b'0' b'9' c

-- `[0-9A-Za-z().#]`
abbrev pub is_clause_char : Char → Bool
is_clause_char c =
    is_digit c
    || is_upper c
    || is_lower c
    || code c == b'('
    || code c == b')'
    || code c == b'.'
    || code c == b'#'

-- `[a-z]*$`, where the end of a pattern may also stand before a last line break.
unfoldable pub id_end : String → Bool
id_end String.[] = true
id_end (String.◌∷◌ c s) = if is_lower c then id_end s else code c == 10 && str_eq s String.[]

abbrev pub id_suffix : String → Bool
id_suffix String.[] = false
id_suffix (String.◌∷◌ c s) = is_lower c && id_end s

-- `[0-9A-Za-z().#]+-[a-z]+$`; `seen` tells that a character of the clause was read.
unfoldable pub id_clause : Bool → String → Bool
unfolding id_end
id_clause seen String.[] = false
id_clause seen (String.◌∷◌ c s) =
    if code c == b'-' then seen && id_suffix s else is_clause_char c && id_clause true s

-- `[A-Z]{2,6}-`, and what follows; `n` capitals were read.
unfoldable pub id_prefix : ℕ → String → Bool
unfolding id_clause
id_prefix n String.[] = false
id_prefix n (String.◌∷◌ c s) =
    if code c == b'-'
    then leb 2 n && leb n 6 && id_clause false s
    else is_upper c && id_prefix (n + 1) s

-- `_ID_RE.match`
unfoldable pub id_fits : String → Bool
unfolding id_prefix
id_fits id = id_prefix 0 id

abbrev absent_or : (String → Bool) → Option String → Bool
absent_or test none = true
absent_or test (some s) = test s

-- `Action.verb` and `Action.object`
abbrev pub action_fits : Action → Bool
action_fits a = non_empty a.verb && non_empty a.object

-- `text.startswith("FREQ=")`
unfoldable pub recurrence_fits : Option String → Bool
unfolding take_text
recurrence_fits r = absent_or (λ s. str_eq (take_text 5 s) "FREQ=") r

abbrev pub trigger_fits : Trigger → Bool
trigger_fits t = non_empty t.expression

-- `_PERIODS`
unfoldable pub period_fits : Option String → Bool
period_fits p =
    absent_or
      (λ s.
        str_eq s "DAY"
        || str_eq s "WEEK"
        || str_eq s "MONTH"
        || str_eq s "QUARTER"
        || str_eq s "HALF_YEAR"
        || str_eq s "YEAR")
      p

abbrev pub deadline_fits : Option Deadline → Bool
deadline_fits none = true
deadline_fits (some d) = period_fits d.period

abbrev pub condition_fits : Condition → Bool
condition_fits c = non_empty c.expression

-- `[A-Z0-9_]*`
pub artifact_rest : String → Bool
artifact_rest String.[] = true
artifact_rest (String.◌∷◌ c s) = (is_upper c || is_digit c || code c == b'_') && artifact_rest s

-- `re.fullmatch(r"[A-Z][A-Z0-9_]*", text)`
unfoldable pub artifact_type_fits : String → Bool
unfolding artifact_rest
artifact_type_fits String.[] = false
artifact_type_fits (String.◌∷◌ c s) = is_upper c && artifact_rest s

abbrev pub evidence_fits : EvidenceReq → Bool
evidence_fits e = artifact_type_fits e.artifact_type

abbrev pub anchor_fits : SourceAnchor → Bool
anchor_fits a =
    non_empty a.circular_id
    && (non_empty a.section
        && (non_empty a.clause_id && (leb 1 a.page && non_empty a.verbatim_text)))
