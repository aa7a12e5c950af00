-- ===== src/Prelude/Order.antt =====
-- The order of texts by code points is total, and sorting by a key puts a list in order.
use Prim.Native.Nat.{Ordering}
use Prim.Native.String.{String, compare}
use Prim.Native.String.compare
use mathlib.Core.Path.{◌≡◌, refl}
use mathlib.Core.Logic.{inl, inr}
use mathlib.Core.Bool.{true, false}
use native.Mathlib.Omega.{arith}
use text.Mathlib.TextEquality.{path_by_compare}
use sanhita.Prelude.Tests.{Bool-cases}
use sanhita.Prelude.Text.{text_le}

pub text_le_total : (s t : String) → text_le s t ≡ false → text_le t s ≡ true
text_le_total String.[] String.[] h = cc
text_le_total String.[] (String.◌∷◌ d t) h = ground (arith, compare.nil-cons d t)
text_le_total (String.◌∷◌ c s) String.[] h = ground (arith, compare.nil-cons c s)
text_le_total (String.◌∷◌ c s) (String.◌∷◌ d t) h =
    ground (arith, compare.cons-cons c d s t, compare.cons-cons d c t s, text_le_total s t)

pub text_le_trans : (s t u : String) → text_le s t ≡ true → text_le t u ≡ true → text_le s u ≡ true
text_le_trans String.[] t String.[] h k = refl
text_le_trans String.[] t (String.◌∷◌ e u) h k = ground (arith, compare.nil-cons e u)
text_le_trans (String.◌∷◌ c s) String.[] u h k = ground (arith, compare.cons-nil c s)
text_le_trans (String.◌∷◌ c s) (String.◌∷◌ d t) String.[] h k = ground (arith, compare.cons-nil d t)
text_le_trans (String.◌∷◌ c s) (String.◌∷◌ d t) (String.◌∷◌ e u) h k = ground (
  arith,
  compare.cons-cons c d s t,
  compare.cons-cons d e t u,
  compare.cons-cons c e s u,
  text_le_trans s t u,
)

pub text_le_refl : (s : String) → text_le s s ≡ true
text_le_refl s = elim (Bool-cases (text_le s s)) [ inl h ↦ h | inr h ↦ text_le_total s s h ]

pub text_le_antisymm : (s t : String) → text_le s t ≡ true → text_le t s ≡ true → s ≡ t
text_le_antisymm s t h k = path_by_compare s t (flipped s t h k)
  where
    flipped : (s t : String) → text_le s t ≡ true → text_le t s ≡ true → compare s t ≡ Ordering.eq
    flipped String.[] String.[] h k = refl
    flipped String.[] (String.◌∷◌ d t) h k = ground (arith, compare.cons-nil d t)
    flipped (String.◌∷◌ c s) String.[] h k = ground (arith, compare.cons-nil c s)
    flipped (String.◌∷◌ c s) (String.◌∷◌ d t) h k =
        ground (arith, compare.cons-cons c d s t, compare.cons-cons d c t s, flipped s t)
