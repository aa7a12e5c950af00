-- ===== src/Prelude/Text.antt =====
-- Python's `str` as the native text: truth value, `strip`, concatenation, order.
use Prim.Native.Char.{Char, code}
use Prim.Native.Nat.{ℕ, zero, suc, ◌+◌, ◌/◌, ◌%◌}
use Prim.Native.String.{String, compare, char_at, ◌++◌}
use mathlib.Core.List.{List, [], ◌∷◌}
use mathlib.Core.Bool.{Bool, true, false, not, ◌||◌, ◌&&◌}
use text.Mathlib.Text.{is_le}
use sanhita.Prelude.Tests.{leb, ltb, ◌==◌, if◌then◌else◌}

-- The truth value of a text.
abbrev pub non_empty : String → Bool
non_empty String.[] = false
non_empty (String.◌∷◌ c s) = true

-- `s or default`.
abbrev pub or_text : String → String → String
or_text s d = if non_empty s then s else d

infixr 65 ◌⧺◌
abbrev pub ◌⧺◌ : String → String → String
s ⧺ t = s ++ t

-- `s <= t`, by code points.
abbrev pub text_le : String → String → Bool
text_le s t = is_le (compare s t)

-- The white space that `str.strip` removes.
pub is_space : Char → Bool
is_space c =
    let n = code c in
    (leb 9 n && leb n 13)
    || (leb 28 n && leb n 32)
    || n == 133
    || n == 160
    || n == 5760
    || (leb 8192 n && leb n 8202)
    || n == 8232
    || n == 8233
    || n == 8239
    || n == 8287
    || n == 12288

pub lstrip : String → String
unfolding is_space
lstrip String.[] = String.[]
lstrip (String.◌∷◌ c s) = if is_space c then lstrip s else String.◌∷◌ c s

pub rstrip : String → String
unfolding is_space
rstrip String.[] = String.[]
rstrip (String.◌∷◌ c s) =
    let rest = rstrip s in
    if is_space c && not (non_empty rest) then String.[] else String.◌∷◌ c rest

-- `s.strip()`
unfoldable pub strip : String → String
unfolding lstrip rstrip
strip s = rstrip (lstrip s)

digit : ℕ → Char
digit d = char_at "0123456789" d

show_loop : ℕ → ℕ → String → String
show_loop zero n out = out
show_loop (suc fuel) n out =
    let rest = show_loop fuel (n / 10) (String.◌∷◌ (digit (n % 10)) out) in
    if ltb n 10 then String.◌∷◌ (digit n) out else rest

-- `str(n)`; `n` falls in each round, so `n + 1` rounds are enough.
unfoldable pub show : ℕ → String
unfolding show_loop digit
show n = show_loop (n + 1) n String.[]

-- `s[:n]`
unfoldable pub take_text : ℕ → String → String
take_text zero s = String.[]
take_text (suc n) String.[] = String.[]
take_text (suc n) (String.◌∷◌ c s) = String.◌∷◌ c (take_text n s)

-- `sep.join(xs)`
unfoldable pub join : String → List String → String
join sep [] = ""
join sep (x ∷ []) = x
join sep (x ∷ y ∷ xs) = x ⧺ sep ⧺ join sep (y ∷ xs)
