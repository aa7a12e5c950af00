-- ===== src/Certify/Changes.antt =====
-- certify/ledger.py: `_flatten` and `diff_obligations`, the field-level difference of two rules.
-- A rule is compared by its dump to plain data (`model_dump`, of the schema library).
use sanhita.Prelude.{
  ℕ, suc, String, ◌≡◌, refl, Bool, true, false, not, ◌&&◌, List, [], ◌∷◌, ◌++◌, Option, none, some,
  or_else, str_eq, eq_iff, if◌then◌else◌, arith, ◌==◌,
}
use sanhita.Prelude.Int.{ℤ, pos, negsuc}
use sanhita.Prelude.Text.{◌⧺◌, non_empty, show}
use sanhita.Prelude.Sort.{member-append, sorted_set, member, member-sorted_set}
use sanhita.Prelude.Dict.{Dict, get, update, keys}

-- A float that equals a whole number is held by that number, and is not the integer, which JSON writes
-- in another way; any other float is held as its text.
pub data Scalar : Type 0 where
  null : Scalar
  flag : Bool → Scalar
  whole : ℤ → Scalar
  whole_real : ℤ → Scalar
  real : String → Scalar
  text : String → Scalar

mutual
  pub data Value : Type 0 where
    leaf : Scalar → Value
    dict : Fields → Value
    list : Items → Value

  pub data Fields : Type 0 where
    end : Fields
    field : String → Value → Fields → Fields

  pub data Items : Type 0 where
    nil : Items
    cons : Value → Items → Items

abbrev pub same_ℤ : ℤ → ℤ → Bool
same_ℤ (pos m) (pos n) = m == n
same_ℤ (negsuc m) (negsuc n) = m == n
same_ℤ _ _ = false

abbrev pub flag_ℤ : Bool → ℤ
flag_ℤ true = pos 1
flag_ℤ false = pos 0

-- The number that a value is for Python's `==`: `True == 1`, `False == 0`, and `2.0 == 2`.
abbrev pub number_of : Scalar → Option ℤ
number_of (flag b) = some (flag_ℤ b)
number_of (whole n) = some n
number_of (whole_real n) = some n
number_of _ = none

abbrev pub same_number : Option ℤ → Option ℤ → Bool
same_number (some m) (some n) = same_ℤ m n
same_number _ _ = false

-- Python's `==` on such values.
unfoldable pub same_scalar : Scalar → Scalar → Bool
same_scalar null null = true
same_scalar (real s) (real t) = str_eq s t
same_scalar (text s) (text t) = str_eq s t
same_scalar a b = same_number (number_of a) (number_of b)

abbrev field_path : String → String → String
field_path prefix key = if non_empty prefix then prefix ⧺ "." ⧺ key else key

abbrev item_path : String → ℕ → String
item_path prefix index = prefix ⧺ "[" ⧺ show index ⧺ "]"

unfoldable mutual
  pub flatten : Value → String → Dict Scalar
  flatten (leaf s) prefix = (prefix, s) ∷ []
  flatten (dict fs) prefix = flatten_fields fs prefix []
  flatten (list is) prefix = flatten_items is prefix 0 []

  pub flatten_fields : Fields → String → Dict Scalar → Dict Scalar
  flatten_fields end prefix out = out
  flatten_fields (field key item fs) prefix out =
      flatten_fields fs prefix (update out (flatten item (field_path prefix key)))

  pub flatten_items : Items → String → ℕ → Dict Scalar → Dict Scalar
  flatten_items nil prefix index out = out
  flatten_items (cons item is) prefix index out =
      flatten_items is prefix (suc index) (update out (flatten item (item_path prefix index)))

abbrev pub Changes : Type 0
Changes = Dict (Scalar × Scalar)

-- `left.get(key)`, with `None` for a missing key.
abbrev pub get_null : String → Dict Scalar → Scalar
get_null k d = or_else (get k d) null

-- The keys are distinct, so an assignment to a new key adds it at the end.
unfoldable pub changed : Dict Scalar → Dict Scalar → List String → Changes
changed left right [] = []
changed left right (k ∷ ks) =
    if same_scalar (get_null k left) (get_null k right)
    then changed left right ks
    else (k, (get_null k left, get_null k right)) ∷ changed left right ks

unfoldable pub diff_values : Value → Value → Changes
unfolding flatten changed keys
diff_values before after =
    let left = flatten before "" in
    let right = flatten after "" in changed left right (sorted_set (keys left ++ keys right))

same_null : same_scalar null null ≡ true
unfolding same_scalar
same_null = refl

get-keys : {V : Type 0} (k : String) (d : Dict V) → member k (keys d) ≡ false → get k d ≡ none
unfolding get keys
get-keys k [] h = refl
get-keys k ((j, v) ∷ d) h = ground (arith, eq_iff j k, eq_iff k j, get-keys k d)

get-changed :
    (left right : Dict Scalar) (ks : List String) (k : String)
    → get k (changed left right ks) ≡ (
        if member k ks && not (same_scalar (get_null k left) (get_null k right))
        then some (get_null k left, get_null k right)
        else none)
unfolding changed get
get-changed left right [] k = refl
get-changed left right (j ∷ ks) k =
    ground (arith, eq_iff j k, eq_iff k j, get-changed left right ks k)

-- A field is in the difference exactly when its two values differ, with both values; a field that
-- one side lacks counts as null there.
pub diff_values_lem :
    (before after : Value) (k : String)
    → get k (diff_values before after) ≡ (
        if same_scalar (get_null k (flatten before "")) (get_null k (flatten after ""))
        then none
        else some (get_null k (flatten before ""), get_null k (flatten after "")))
unfolding diff_values
diff_values_lem before after k =
    let left = flatten before "" in
    let right = flatten after "" in
    ground (
      arith,
      get-changed left right (sorted_set (keys left ++ keys right)) k,
      member-sorted_set k (keys left ++ keys right),
      member-append k (keys left) (keys right),
      get-keys k left,
      get-keys k right,
      same_null,
    )
