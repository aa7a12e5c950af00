-- ===== src/Ir/Shape.antt =====
-- ir/schema.py: the ids that `obligation_id` makes are those that the schema's pattern admits.
use Prim.Native.Char.{Char}
use Prim.Native.String.append
use sanhita.Prelude.{
  ℕ, zero, suc, ◌+◌, ◌/◌, ◌%◌, ◌<◌, String, ◌≡◌, refl, ap, ◌∙◌, Bool, true, false, ◌&&◌, ◌||◌, some,
  arith, leb,
}
use sanhita.Prelude.Text.{◌⧺◌, non_empty}
use sanhita.Ir.Ids.{
  letter, suffix_loop, suffix_for_index, obligation_id, first_letters, first_letters_lem,
}
use sanhita.Ir.Fields.{
  is_upper, is_lower, is_clause_char, id_end, id_suffix, id_clause, id_prefix, id_fits,
}
use sanhita.Ir.Validate.{is_dash, before_dash, after_dash, clause_part}

abbrev pub all_chars : (Char → Bool) → String → Bool
all_chars test String.[] = true
all_chars test (String.◌∷◌ c s) = test c && all_chars test s

abbrev pub length_of : String → ℕ
length_of String.[] = 0
length_of (String.◌∷◌ c s) = suc (length_of s)

lower_table : first_letters (λ r. is_lower (letter r)) 26 ≡ true
unfolding first_letters letter
lower_table = refl

letter-is_lower : (r : ℕ) → r < 26 → is_lower (letter r) ≡ true
letter-is_lower r h = first_letters_lem (λ r. is_lower (letter r)) 26 r h lower_table

id_suffix-letter :
    (r : ℕ) (s : String) → r < 26 → id_end s ≡ true → id_suffix (String.◌∷◌ (letter r) s) ≡ true
id_suffix-letter r s h e = ground (arith, letter-is_lower r h)

id_suffix_end : (s : String) → id_suffix s ≡ true → id_end s ≡ true
unfolding id_end
id_suffix_end String.[] h = refl
id_suffix_end (String.◌∷◌ c s) h = ground arith

suffix_loop_fits :
    (fuel n : ℕ) (out : String) → id_suffix out ≡ true → id_suffix (suffix_loop fuel n out) ≡ true
unfolding suffix_loop
suffix_loop_fits zero n out h = h
suffix_loop_fits (suc fuel) zero out h = h
suffix_loop_fits (suc fuel) (suc k) out h =
    suffix_loop_fits fuel _ _ (id_suffix-letter (k % 26) out (omega arith) (id_suffix_end out h))

suffix_fits : (index : ℕ) → id_suffix (suffix_for_index index) ≡ true
unfolding suffix_for_index id_end
suffix_fits index = go (index + 1) (omega arith)
  where
    go : (n : ℕ) → 0 < n → id_suffix (suffix_loop n n String.[]) ≡ true
    go zero h = absurd (omega arith)
    go (suc k) h =
        unfold suffix_loop in
        suffix_loop_fits k (k / 26) _ (id_suffix-letter (k % 26) String.[] (omega arith) refl)

nil_append : (s : String) → String.[] ⧺ s ≡ s
nil_append s = λ i. append.nil s i

cons_append : (c : Char) (s t : String) → String.◌∷◌ c s ⧺ t ≡ String.◌∷◌ c (s ⧺ t)
cons_append c s t = λ i. append.cons c s t i

abbrev dash : Char
dash = "-"

dash_append : (s : String) → "-" ⧺ s ≡ String.◌∷◌ dash s
dash_append s = cons_append dash String.[] s ∙ ap (λ (t : String). String.◌∷◌ dash t) (nil_append s)

id_clause_fits :
    (seen : Bool) (c s : String)
    → all_chars is_clause_char c ≡ true
    → (seen || non_empty c) ≡ true
    → id_suffix s ≡ true
    → id_clause seen (c ⧺ String.◌∷◌ dash s) ≡ true
unfolding id_clause
id_clause_fits seen String.[] s h some_seen fits =
    rw (nil_append (String.◌∷◌ dash s)) (ground arith)
id_clause_fits seen (String.◌∷◌ c cs) s h some_seen fits =
    rw (cons_append c cs (String.◌∷◌ dash s)) (ground (arith, id_clause_fits true cs s))

id_prefix_fits :
    (n : ℕ) (p s : String)
    → all_chars is_upper p ≡ true
    → leb 2 (n + length_of p) ≡ true
    → leb (n + length_of p) 6 ≡ true
    → id_clause false s ≡ true
    → id_prefix n (p ⧺ String.◌∷◌ dash s) ≡ true
unfolding id_prefix
id_prefix_fits n String.[] s h lo hi fits = rw (nil_append (String.◌∷◌ dash s)) (ground arith)
id_prefix_fits n (String.◌∷◌ c cs) s h lo hi fits =
    rw (cons_append c cs (String.◌∷◌ dash s)) (ground (arith, id_prefix_fits (n + 1) cs s))

after_dash-prefix :
    (p s : String) → all_chars is_upper p ≡ true → after_dash (p ⧺ String.◌∷◌ dash s) ≡ some s
unfolding after_dash is_dash
after_dash-prefix String.[] s h = rw (nil_append (String.◌∷◌ dash s)) refl
after_dash-prefix (String.◌∷◌ c cs) s h =
    rw (cons_append c cs (String.◌∷◌ dash s)) (ground (arith, after_dash-prefix cs s))

before_dash-clause :
    (c s : String) → all_chars is_clause_char c ≡ true → before_dash (c ⧺ String.◌∷◌ dash s) ≡ c
unfolding before_dash is_dash
before_dash-clause String.[] s h = rw (nil_append (String.◌∷◌ dash s)) refl
before_dash-clause (String.◌∷◌ c cs) s h =
    rw (cons_append c cs (String.◌∷◌ dash s)) (ground (arith, before_dash-clause cs s))

obligation_id-parts :
    (upper : String → String) (prefix clause : String) (index : ℕ)
    → obligation_id upper prefix clause index
      ≡ upper prefix ⧺ String.◌∷◌ dash (clause ⧺ String.◌∷◌ dash (suffix_for_index index))
unfolding obligation_id
obligation_id-parts upper prefix clause index =
    ap (λ (t : String). upper prefix ⧺ t)
      (dash_append (clause ⧺ "-" ⧺ suffix_for_index index)
        ∙ ap (λ (t : String). String.◌∷◌ dash (clause ⧺ t)) (dash_append (suffix_for_index index)))

-- For a prefix of two to six capitals and a clause number of the admitted characters, the id that is
-- handed out for any index matches the schema's pattern, and the part of it that the schema compares
-- with the clause number is the clause number.
pub obligation_id_fits :
    (upper : String → String) (prefix clause : String) (index : ℕ)
    → all_chars is_upper (upper prefix) ≡ true
    → leb 2 (length_of (upper prefix)) ≡ true
    → leb (length_of (upper prefix)) 6 ≡ true
    → all_chars is_clause_char clause ≡ true
    → non_empty clause ≡ true
    → (id_fits (obligation_id upper prefix clause index) ≡ true)
      × (clause_part (obligation_id upper prefix clause index) ≡ some clause)
unfolding id_fits clause_part
obligation_id_fits upper prefix clause index capitals lo hi admitted there =
    let suffix = suffix_for_index index in
    let rest = clause ⧺ String.◌∷◌ dash suffix in
    rw (obligation_id-parts upper prefix clause index) (
      id_prefix_fits 0 (upper prefix) rest capitals (ground arith) (ground arith)
          (id_clause_fits false clause suffix admitted there (suffix_fits index)),
      ground (
        arith,
        after_dash-prefix (upper prefix) rest capitals,
        before_dash-clause clause suffix admitted,
      ),
    )
