-- ===== src/Prelude/Sort.antt =====
-- `sorted(xs, key=…)`: stable, by a Boolean order; and the sorted set of the texts of a list.
use sanhita.Prelude.Tests.{if◌then◌else◌, Bool-cases}
use sanhita.Prelude.Lists.{count, all, any, length}
use sanhita.Prelude.Text.{text_le}
use sanhita.Prelude.Order.{text_le_total, text_le_trans, text_le_antisymm}
use Prim.Native.Nat.{suc}
use Prim.Native.String.{String}
use mathlib.Core.Path.{◌≡◌, refl}
use mathlib.Core.Logic.{inl, inr}
use mathlib.Core.Bool.{Bool, true, false, ◌||◌, ◌&&◌}
use mathlib.Core.List.{List, [], ◌∷◌, ◌++◌}
use native.Mathlib.Omega.{arith}
use text.Mathlib.Text.{◌==◌ as str_eq}
use text.Mathlib.TextEquality.{eq_iff}

module _ {A : Type 0} (le : A → A → Bool) where
  unfoldable pub insert : A → List A → List A
  insert x [] = x ∷ []
  insert x (y ∷ ys) = if le x y then x ∷ y ∷ ys else y ∷ insert x ys

  unfoldable pub sort : List A → List A
  unfolding insert
  sort [] = []
  sort (x ∷ xs) = insert x (sort xs)

  abbrev pub IsSorted : List A → Type 0
  IsSorted [] = Unit
  IsSorted (x ∷ xs) = (all (le x) xs ≡ true) × IsSorted xs

  count-insert : (p : A → Bool) (x : A) (xs : List A) → count p (insert x xs) ≡ count p (x ∷ xs)
  unfolding insert
  count-insert p x [] = refl
  count-insert p x (y ∷ ys) = elim (Bool-cases (le x y)) [
    | inl e ↦ ground arith
    | inr e ↦ ground (arith, count-insert p x ys)
  ]

  -- Sorting keeps each item as often as it was there.
  pub count-sort : (p : A → Bool) (xs : List A) → count p (sort xs) ≡ count p xs
  unfolding sort
  count-sort p [] = refl
  count-sort p (x ∷ xs) = ground (arith, count-insert p x (sort xs), count-sort p xs)

  length-insert : (x : A) (xs : List A) → length (insert x xs) ≡ suc (length xs)
  unfolding insert
  length-insert x [] = refl
  length-insert x (y ∷ ys) = ground (arith, length-insert x ys)

  pub length-sort : (xs : List A) → length (sort xs) ≡ length xs
  unfolding sort
  length-sort [] = refl
  length-sort (x ∷ xs) = ground (arith, length-insert x (sort xs), length-sort xs)

  all-insert : (p : A → Bool) (x : A) (xs : List A) → all p (insert x xs) ≡ (p x && all p xs)
  unfolding insert
  all-insert p x [] = refl
  all-insert p x (y ∷ ys) = ground (arith, all-insert p x ys)

  pub all-sort : (p : A → Bool) (xs : List A) → all p (sort xs) ≡ all p xs
  unfolding sort
  all-sort p [] = refl
  all-sort p (x ∷ xs) = ground (arith, all-insert p x (sort xs), all-sort p xs)

  any-insert : (p : A → Bool) (x : A) (xs : List A) → any p (insert x xs) ≡ (p x || any p xs)
  unfolding insert
  any-insert p x [] = refl
  any-insert p x (y ∷ ys) = ground (arith, any-insert p x ys)

  pub any-sort : (p : A → Bool) (xs : List A) → any p (sort xs) ≡ any p xs
  unfolding sort
  any-sort p [] = refl
  any-sort p (x ∷ xs) = ground (arith, any-insert p x (sort xs), any-sort p xs)

  all-weaken :
      ((x y z : A) → le x y ≡ true → le y z ≡ true → le x z ≡ true)
      → (x y : A) (ys : List A) → le x y ≡ true
      → all (le y) ys ≡ true
      → all (le x) ys ≡ true
  all-weaken trans x y [] h k = refl
  all-weaken trans x y (z ∷ zs) h k = ground (arith, trans x y z, all-weaken trans x y zs)

  module _ (total : (x y : A) → le x y ≡ false → le y x ≡ true)
      (trans : (x y z : A) → le x y ≡ true → le y z ≡ true → le x z ≡ true) where
    insert-IsSorted : (x : A) (xs : List A) → IsSorted xs → IsSorted (insert x xs)
    unfolding insert
    insert-IsSorted x [] s = (refl, tt)
    insert-IsSorted x (y ∷ ys) s = elim (Bool-cases (le x y)) [
      | inl e ↦ rw e (ground (arith, all-weaken trans x y ys), s)
      | inr e ↦ rw e (ground (arith, all-insert (le y) x ys, total x y), insert-IsSorted x ys s.1)
    ]

    pub sort-IsSorted : (xs : List A) → IsSorted (sort xs)
    unfolding sort
    sort-IsSorted [] = tt
    sort-IsSorted (x ∷ xs) = insert-IsSorted x (sort xs) (sort-IsSorted xs)

-- `k in xs`, for a list or a set of texts.
abbrev pub member : String → List String → Bool
member k [] = false
member k (x ∷ xs) = str_eq k x || member k xs

unfoldable pub insert_key : String → List String → List String
insert_key k [] = k ∷ []
insert_key k (x ∷ xs) =
    if str_eq k x then x ∷ xs else if text_le k x then k ∷ x ∷ xs else x ∷ insert_key k xs

pub member-append :
    (k : String) (xs ys : List String) → member k (xs ++ ys) ≡ (member k xs || member k ys)
member-append k [] ys = refl
member-append k (x ∷ xs) ys = ground (arith, member-append k xs ys)

-- `sorted(set(xs))`
unfoldable pub sorted_set : List String → List String
unfolding insert_key
sorted_set [] = []
sorted_set (x ∷ xs) = insert_key x (sorted_set xs)

member-insert_key :
    (j k : String) (xs : List String) → member j (insert_key k xs) ≡ (str_eq j k || member j xs)
unfolding insert_key
member-insert_key j k [] = refl
member-insert_key j k (x ∷ xs) =
    ground (arith, eq_iff k x, eq_iff j k, eq_iff j x, member-insert_key j k xs)

pub member-sorted_set : (j : String) (xs : List String) → member j (sorted_set xs) ≡ member j xs
unfolding sorted_set
member-sorted_set j [] = refl
member-sorted_set j (x ∷ xs) =
    ground (arith, member-insert_key j x (sorted_set xs), member-sorted_set j xs)

-- Strictly rising: in order, and none twice.
abbrev pub IsRising : List String → Type 0
IsRising [] = Unit
IsRising (x ∷ xs) = (all (λ y. text_le x y) xs ≡ true) × (member x xs ≡ false) × IsRising xs

all-insert_key :
    (p : String → Bool) (k : String) (xs : List String)
    → p k ≡ true
    → all p xs ≡ true
    → all p (insert_key k xs) ≡ true
unfolding insert_key
all-insert_key p k [] h a = ground arith
all-insert_key p k (x ∷ xs) h a = ground (arith, all-insert_key p k xs)

member_below :
    (k x : String) (xs : List String)
    → str_eq k x ≡ false
    → text_le k x ≡ true
    → all (λ y. text_le x y) xs ≡ true
    → member k xs ≡ false
member_below k x [] n h a = refl
member_below k x (y ∷ ys) n h a =
    ground (arith, eq_iff k x, eq_iff k y, text_le_antisymm k x, member_below k x ys)

insert_key-IsRising : (k : String) (xs : List String) → IsRising xs → IsRising (insert_key k xs)
unfolding insert_key
insert_key-IsRising k [] r = (refl, refl, tt)
insert_key-IsRising k (x ∷ xs) r = elim (Bool-cases (str_eq k x)) [
  | inl e ↦ rw e r
  | inr n ↦ elim (Bool-cases (text_le k x)) [
    | inl e ↦
        rw (n, e)
          (
            ground (arith, all-weaken text_le text_le_trans k x xs),
            ground (arith, member_below k x xs),
            r,
          )
    | inr f ↦
        rw (n, f)
          (
            all-insert_key (λ y. text_le x y) k xs (text_le_total k x f) r.0,
            ground (arith, member-insert_key x k xs, eq_iff x k, eq_iff k x),
            insert_key-IsRising k xs r.2,
          )
  ]
]

-- The sorted set is in order, with no text twice.
pub sorted_set-IsRising : (xs : List String) → IsRising (sorted_set xs)
unfolding sorted_set
sorted_set-IsRising [] = tt
sorted_set-IsRising (x ∷ xs) = insert_key-IsRising x (sorted_set xs) (sorted_set-IsRising xs)
