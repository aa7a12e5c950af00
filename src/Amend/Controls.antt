-- ===== src/Amend/Controls.antt =====
-- controls.py: which function of the firm discharges which rule, kept beside the rulebook.
use sanhita.Prelude.{
  ℕ, ◌-◌, String, Bool, false, not, ◌&&◌, List, [], ◌∷◌, Option, none, some, Result, ok, ◌>>◌,
  raise_if, select, count, length, str_eq, is_some, if◌then◌else◌,
}
use sanhita.Prelude.Dict.{Dict, get, put}
use sanhita.Prelude.Text.{non_empty, strip, join}
use sanhita.Amend.Plan.{ControlBinding}

pub record ControlStore : Type 0 where
  pub bindings : Dict ControlBinding

-- The links that are set, as a phrase.
unfoldable pub describe : ControlBinding → String
unfolding join
describe b = join ", " (select non_empty (b.function ∷ b.system ∷ b.control_ref ∷ []))

abbrev pub is_complete : ControlBinding → Bool
is_complete b =
    non_empty b.process && (non_empty b.function && (non_empty b.system && non_empty b.control_ref))

-- `chain`: the links that are set, in order.
unfoldable pub chain : ControlBinding → Dict String
chain b =
    select (λ link. non_empty link.1)
      (("process", b.process)
        ∷ ("function", b.function)
        ∷ ("system", b.system)
        ∷ ("control", b.control_ref)
        ∷ [])

-- `get`
unfoldable pub binding_of : ControlStore → String → Option ControlBinding
binding_of s id = get id s.bindings

pub data ControlError : Type 0 where
  no_function : ControlError

-- The arguments of `bind` besides the rule.
pub record Owner : Type 0 where
  pub function : String
  pub process : String
  pub system : String
  pub control_ref : String
  pub bound_by : String
  pub note : String

abbrev pub binding_for : String → Owner → ℕ → ControlBinding
binding_for id o now = record {
  obligation_id = id;
  function = strip o.function;
  process = strip o.process;
  system = strip o.system;
  control_ref = strip o.control_ref;
  bound_by = strip o.bound_by;
  bound_at = some now;
  note = strip o.note;
}

unfoldable pub bind :
    ControlStore → String → Owner → ℕ → Result ControlError (ControlStore × ControlBinding)
unfolding strip put
bind s id o now = do
  raise_if (not (non_empty (strip o.function))) no_function
  ok (record s { bindings = put id (binding_for id o now) s.bindings }, binding_for id o now)

-- `d.pop(k, None)`, of a dictionary, which has a key once.
unfoldable pub remove : String → Dict ControlBinding → Dict ControlBinding
remove k [] = []
remove k ((j, v) ∷ d) = let rest = remove k d in if str_eq j k then d else (j, v) ∷ rest

unfoldable pub unbind : ControlStore → String → ControlStore × Bool
unfolding remove get
unbind s id = (record s { bindings = remove id s.bindings }, is_some (get id s.bindings))

-- What `coverage` counts; the two ratios are quotients of these.
pub record Coverage : Type 0 where
  pub total : ℕ
  pub bound_rules : ℕ
  pub mapped : ℕ
  pub unbound : ℕ

abbrev pub maps : Option ControlBinding → Bool
maps none = false
maps (some b) = is_complete b

unfoldable pub coverage : ControlStore → List String → Coverage
unfolding get
coverage s ids =
    let bound_rules = count (λ id. is_some (get id s.bindings)) ids in
    record {
      total = length ids;
      bound_rules = bound_rules;
      mapped = count (λ id. maps (get id s.bindings)) ids;
      unbound = length ids - bound_rules;
    }
