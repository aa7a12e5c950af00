-- ===== src/Certify/Registry/Replay.antt =====
-- `as_of`: what a registry says of a past moment is not changed by what happens later.
use sanhita.Prelude.{
  ℕ, zero, suc, ◌+◌, ◌-◌, ◌≤◌, ◌<◌, String, ◌≡◌, refl, sym, ◌∙◌, ap, true, List, [], ◌∷◌, ◌++◌,
  or_else, get_elem?, length, length-append, length-map, str_eq, eq_iff, if◌then◌else◌, leb, min,
  all, arith, Bool-cases, inl, inr,
}
use sanhita.Prelude.Dict.{Dict, get, put}
use sanhita.Prelude.Sort.{sort}
use sanhita.Prelude.Text.{text_le}
use sanhita.Ir.Schema.{Obligation}
use sanhita.Certify.Ledger.{AuditEntry}
use sanhita.Certify.Registry.{Library, RuleRegistry, history}
use sanhita.Certify.Registry.AsOf.{count_entry, tally, version_at, as_of_rules, as_of}
use sanhita.Certify.Registry.Writes.{
  Writes, IsTraced, entries_of, version_trace, entry_trace, ledger-Writes, history-Writes,
}
use sanhita.Certify.Registry.Invariant.{Call, IsSince, IsSound, perform, settle, settle-Writes}

tally-append :
    (moment : ℕ) (counts : Dict ℕ) (es fs : List AuditEntry)
    → tally moment counts (es ++ fs) ≡ tally moment (tally moment counts es) fs
unfolding tally
tally-append moment counts [] fs = refl
tally-append moment counts (e ∷ es) fs = tally-append moment (count_entry moment counts e) es fs

-- Entries dated after the moment are not counted.
tally_later :
    (moment since : ℕ) (counts : Dict ℕ) (es : List AuditEntry)
    → moment < since
    → all (λ e. leb since e.at) es ≡ true
    → tally moment counts es ≡ counts
unfolding tally
tally_later moment since counts [] h k = refl
tally_later moment since counts (e ∷ es) h k = ground (arith, tally_later moment since counts es)

-- Every count is positive and within the bound for its rule.
abbrev IsWithin : (String → ℕ) → Dict ℕ → Type 0
IsWithin bound [] = Unit
IsWithin bound ((id, n) ∷ counts) = (1 ≤ n) × (n ≤ bound id) × IsWithin bound counts

get-IsWithin :
    (bound : String → ℕ) (id : String) (counts : Dict ℕ)
    → IsWithin bound counts
    → or_else (get id counts) 0 ≤ bound id
unfolding get
get-IsWithin bound id [] w = omega arith
get-IsWithin bound id ((j, n) ∷ counts) w = elim (Bool-cases (str_eq j id)) [
  | inl e ↦ rw e (rw (ap bound ((eq_iff j id).0 e)) at w.1)
  | inr e ↦ rw e (get-IsWithin bound id counts w.2)
]

IsWithin-mono :
    (bound bound' : String → ℕ) (counts : Dict ℕ)
    → ((j : String) → bound j ≤ bound' j)
    → IsWithin bound counts
    → IsWithin bound' counts
IsWithin-mono bound bound' [] h w = tt
IsWithin-mono bound bound' ((j, n) ∷ counts) h w =
    (w.0, omega (arith, w.1, h j), IsWithin-mono bound bound' counts h w.2)

put-IsWithin :
    (bound : String → ℕ) (id : String) (n : ℕ) (counts : Dict ℕ)
    → 1 ≤ n
    → n ≤ bound id
    → IsWithin bound counts
    → IsWithin bound (put id n counts)
unfolding put
put-IsWithin bound id n [] p h w = (p, h, tt)
put-IsWithin bound id n ((j, m) ∷ counts) p h w = elim (Bool-cases (str_eq j id)) [
  | inl e ↦ rw e (p, rw (ap bound (sym ((eq_iff j id).0 e))) at h, w.2)
  | inr e ↦ rw e (w.0, w.1, put-IsWithin bound id n counts p h w.2)
]

abbrev bound_after : (String → ℕ) → List AuditEntry → String → ℕ
bound_after bound es id = bound id + length (entries_of id es)

abbrev with_entry : (String → ℕ) → AuditEntry → String → ℕ
with_entry bound e j = bound j + (if str_eq e.obligation_id j then 1 else 0)

count_entry-IsWithin :
    (moment : ℕ) (bound : String → ℕ) (counts : Dict ℕ) (e : AuditEntry)
    → IsWithin bound counts
    → IsWithin (with_entry bound e) (count_entry moment counts e)
unfolding count_entry
count_entry-IsWithin moment bound counts e w =
    let wider = IsWithin-mono bound (with_entry bound e) counts (λ j. ground arith) w in
    let own : str_eq e.obligation_id e.obligation_id ≡ true =
      (eq_iff e.obligation_id e.obligation_id).1 refl in
    elim (Bool-cases (leb e.at moment)) [
      | inl h ↦ rw h (
          put-IsWithin (with_entry bound e) e.obligation_id _ counts (omega arith)
            (ground (arith, get-IsWithin bound e.obligation_id counts w, own)) wider)
      | inr h ↦ rw h wider
    ]

tally-IsWithin :
    (moment : ℕ) (bound : String → ℕ) (counts : Dict ℕ) (es : List AuditEntry)
    → IsWithin bound counts
    → IsWithin (bound_after bound es) (tally moment counts es)
unfolding tally
tally-IsWithin moment bound counts [] w = IsWithin-mono bound _ counts (λ j. omega arith) w
tally-IsWithin moment bound counts (e ∷ es) w =
    IsWithin-mono (bound_after (with_entry bound e) es) (bound_after bound (e ∷ es))
      (tally moment (count_entry moment counts e) es) (λ j. ground arith)
      (tally-IsWithin moment (with_entry bound e) (count_entry moment counts e) es
        (count_entry-IsWithin moment bound counts e w))

-- By the trace, a rule has as many versions as entries.
length-history :
    (r : RuleRegistry) (id : String)
    → IsTraced r
    → length (entries_of id r.ledger) ≡ length (history r id)
length-history r id t =
    sym (length-map entry_trace (entries_of id r.ledger))
    ∙ (ap length (sym (t.at_id id)) ∙ length-map version_trace (history r id))

counts-IsWithin :
    (r : RuleRegistry) (moment : ℕ)
    → IsTraced r
    → IsWithin (λ id. length (history r id)) (tally moment [] r.ledger)
counts-IsWithin r moment t =
    IsWithin-mono (bound_after (λ _. 0) r.ledger) (λ id. length (history r id))
      (tally moment [] r.ledger) (λ j. omega (arith, length-history r j t))
      (tally-IsWithin moment (λ _. 0) [] r.ledger tt)

get_elem?-append :
    {A : Type 0} (xs ys : List A) (i : ℕ) → i < length xs → get_elem? (xs ++ ys) i ≡ get_elem? xs i
get_elem?-append [] ys i h = absurd (omega arith)
get_elem?-append (x ∷ xs) ys zero h = refl
get_elem?-append (x ∷ xs) ys (suc i) h = get_elem?-append xs ys i (omega arith)

version_at-append :
    (old new : List Obligation) (n : ℕ)
    → 1 ≤ n
    → n ≤ length old
    → version_at (old ++ new) n ≡ version_at old n
version_at-append old new n p h =
    let same : min n (length (old ++ new)) - 1 ≡ n - 1 = omega (arith, length-append {0} old new) in
    let same' : min n (length old) - 1 ≡ n - 1 = omega arith in
    ap (get_elem? (old ++ new)) same
    ∙ (get_elem?-append old new (n - 1) (omega arith) ∙ ap (get_elem? old) (sym same'))

as_of_rules-grow :
    (r s : RuleRegistry) (counts : Dict ℕ)
    → ((id : String) → (new : List Obligation) × (history s id ≡ history r id ++ new))
    → IsWithin (λ id. length (history r id)) counts
    → as_of_rules s counts ≡ as_of_rules r counts
unfolding as_of_rules
as_of_rules-grow r s [] grows w = refl
as_of_rules-grow r s ((id, n) ∷ counts) grows w =
    let (new, h) = grows id in
    let same : version_at (history s id) n ≡ version_at (history r id) n =
      ap (λ vs. version_at vs n) h ∙ version_at-append (history r id) new n w.0 w.1 in
    ground (arith, same, as_of_rules-grow r s counts grows w.2)

as_of-Writes :
    (lib : Library) (r s : RuleRegistry) (moment since : ℕ)
    → IsTraced r
    → moment < since
    → Writes lib since r s
    → as_of s moment ≡ as_of r moment
unfolding as_of
as_of-Writes lib r s moment since t later w =
    let (new, e, dated) = ledger-Writes w in
    let counted : tally moment [] s.ledger ≡ tally moment [] r.ledger =
      ap (tally moment []) e
      ∙ (tally-append moment [] r.ledger new
          ∙ tally_later moment since (tally moment [] r.ledger) new later dated) in
    ap (sort (λ o p. text_le o.id p.id)) (
      ap (as_of_rules s) counted
      ∙ as_of_rules-grow r s (tally moment [] r.ledger) (λ id. history-Writes id w)
          (counts-IsWithin r moment t))

-- The rulebook as of a moment is the same before and after any call made later than the moment,
-- provided that the registry's versions match its ledger, as they do after any calls
-- (`run-IsSound`).
pub as_of_stable :
    (lib : Library) (r : RuleRegistry) (c : Call) (moment since : ℕ)
    → IsSound lib r
    → moment < since
    → IsSince since c
    → as_of (settle r (perform lib r c)) moment ≡ as_of r moment
as_of_stable lib r c moment since sound later late =
    as_of-Writes lib r _ moment since sound.traced later
      (settle-Writes lib since r c sound.filed late)
