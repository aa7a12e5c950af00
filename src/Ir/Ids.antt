-- ===== src/Ir/Ids.antt =====
-- ir/schema.py: `suffix_for_index` and `obligation_id`, which hand out the `-a`, `-b`, … suffixes.
use Prim.Native.Char.{Char, code}
use Prim.Native.String.{char_at}
use sanhita.Prelude.{
  ℕ, zero, suc, ◌+◌, ◌-◌, ◌*◌, ◌/◌, ◌%◌, ◌≤◌, ◌<◌, String, ◌≡◌, refl, sym, ◌∙◌, ap, Bool, true,
  ◌&&◌, arith, ◌==◌, ==_iff,
}
use sanhita.Prelude.Text.{◌⧺◌}

-- `chr(ord("a") + rem)`
unfoldable pub letter : ℕ → Char
letter r = char_at "abcdefghijklmnopqrstuvwxyz" r

-- The `while n > 0` loop; `n` falls in each round, so `n` rounds are enough.
unfoldable pub suffix_loop : ℕ → ℕ → String → String
suffix_loop zero n out = out
suffix_loop (suc fuel) zero out = out
suffix_loop (suc fuel) (suc k) out = suffix_loop fuel (k / 26) (String.◌∷◌ (letter (k % 26)) out)

unfoldable pub suffix_for_index : ℕ → String
unfolding suffix_loop letter
suffix_for_index index = suffix_loop (index + 1) (index + 1) String.[]

-- `upper` is `str.upper`.
unfoldable pub obligation_id : (String → String) → String → String → ℕ → String
obligation_id upper prefix clause_id index =
    upper prefix ⧺ "-" ⧺ clause_id ⧺ "-" ⧺ suffix_for_index index

-- The number that a suffix stands for, in bijective base 26.
suffix_value : ℕ → String → ℕ
suffix_value acc String.[] = acc
suffix_value acc (String.◌∷◌ c s) = suffix_value (acc * 26 + (code c - 96)) s

-- The letters read as their numbers, tried one by one.
unfoldable pub first_letters : (ℕ → Bool) → ℕ → Bool
first_letters good zero = true
first_letters good (suc k) = good k && first_letters good k

pub first_letters_lem :
    (good : ℕ → Bool) (k r : ℕ) → r < k → first_letters good k ≡ true → good r ≡ true
unfolding first_letters
first_letters_lem good zero r small all_good = ground arith
first_letters_lem good (suc k) r small all_good = ground (arith, first_letters_lem good k r)

letter_table : first_letters (λ r. (code (letter r) - 96) == (r + 1)) 26 ≡ true
unfolding first_letters letter
letter_table = refl

code-letter : (r : ℕ) → r < 26 → code (letter r) - 96 ≡ r + 1
code-letter r h = (==_iff _ _).0 (first_letters_lem _ 26 r h letter_table)

suffix_loop_value :
    (fuel n : ℕ) (out : String)
    → n ≤ fuel
    → suffix_value 0 (suffix_loop fuel n out) ≡ suffix_value n out
unfolding suffix_loop
suffix_loop_value zero zero out h = refl
suffix_loop_value zero (suc n) out h = absurd (omega arith)
suffix_loop_value (suc fuel) zero out h = refl
suffix_loop_value (suc fuel) (suc k) out h =
    let step : k / 26 * 26 + (code (letter (k % 26)) - 96) ≡ suc k =
      omega (arith, code-letter (k % 26) (omega arith)) in
    suffix_loop_value fuel (k / 26) (String.◌∷◌ (letter (k % 26)) out) (omega arith)
    ∙ unfold suffix_value in ap (λ n. suffix_value n out) step

-- Reading a suffix back as a number in bijective base 26 gives the index plus one, so two indices
-- never share a suffix.
pub suffix_for_index_injective : (i j : ℕ) → suffix_for_index i ≡ suffix_for_index j → i ≡ j
unfolding suffix_for_index suffix_value
suffix_for_index_injective i j e = omega (
  arith,
  sym (suffix_loop_value (i + 1) (i + 1) String.[] (omega arith))
      ∙ (ap (suffix_value 0) e ∙ suffix_loop_value (j + 1) (j + 1) String.[] (omega arith)),
)
