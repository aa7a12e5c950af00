-- ===== src/Prelude/Members.antt =====
-- Membership in a list, and in a sorted list.
use mathlib.Core.Logic.{◌⊎◌, inl, inr}
use mathlib.Core.Bool.{Bool, true, false}
use mathlib.Core.List.{List, [], ◌∷◌}
use sanhita.Prelude.Tests.{if◌then◌else◌}
use sanhita.Prelude.Sort.{insert, sort}

pub data IsIn {A : Type 0} (x : A) : List A → Type 0 where
  here : {xs : List A} → IsIn x (x ∷ xs)
  there : {y : A} {xs : List A} → IsIn x xs → IsIn x (y ∷ xs)

either-IsIn :
    {A : Type 0} (b : Bool) (y : A) (xs ys : List A)
    → IsIn y (if b then xs else ys)
    → IsIn y xs ⊎ IsIn y ys
either-IsIn true y xs ys h = inl h
either-IsIn false y xs ys h = inr h

swap-IsIn : {A : Type 0} (x y z : A) (zs : List A) → IsIn y (x ∷ zs) → IsIn y (x ∷ z ∷ zs)
swap-IsIn x y z zs IsIn.here = IsIn.here
swap-IsIn x y z zs (IsIn.there m) = IsIn.there (IsIn.there m)

behind-IsIn :
    {A : Type 0} (le : A → A → Bool) (x y z : A) (zs : List A)
    → (IsIn y (insert le x zs) → IsIn y (x ∷ zs))
    → IsIn y (z ∷ insert le x zs)
    → IsIn y (x ∷ z ∷ zs)
behind-IsIn le x y z zs f IsIn.here = IsIn.there IsIn.here
behind-IsIn le x y z zs f (IsIn.there m) = swap-IsIn x y z zs (f m)

push-IsIn :
    {A : Type 0} (x y : A) (xs ys : List A)
    → (IsIn y xs → IsIn y ys)
    → IsIn y (x ∷ xs)
    → IsIn y (x ∷ ys)
push-IsIn x y xs ys f IsIn.here = IsIn.here
push-IsIn x y xs ys f (IsIn.there m) = IsIn.there (f m)

insert-IsIn :
    {A : Type 0} (le : A → A → Bool) (x y : A) (xs : List A)
    → IsIn y (insert le x xs)
    → IsIn y (x ∷ xs)
unfolding insert
insert-IsIn le x y [] h = h
insert-IsIn le x y (z ∷ zs) h = elim (either-IsIn (le x z) y (x ∷ z ∷ zs) (z ∷ insert le x zs) h) [
  | inl first ↦ first
  | inr later ↦ behind-IsIn le x y z zs (λ m. insert-IsIn le x y zs m) later
]

pub sort-IsIn :
    {A : Type 0} (le : A → A → Bool) (y : A) (xs : List A) → IsIn y (sort le xs) → IsIn y xs
unfolding sort
sort-IsIn le y [] h = h
sort-IsIn le y (x ∷ xs) h =
    push-IsIn x y (sort le xs) xs (λ m. sort-IsIn le y xs m) (insert-IsIn le x y (sort le xs) h)
