-- ===== src/Execute/Evidence/Occasions.antt =====
-- execute/evidence.py, `supersede`: one record for each occasion.
use sanhita.Prelude.{
  if◌then◌else◌, ◌≡◌, refl, true, false, List, [], ◌∷◌, arith, count, Bool-cases, sym, subst, ◌∙◌,
  inl, inr, eq_iff, find, some, any, map, ◌++◌,
}
use sanhita.Execute.Evidence.{
  ComplianceEvent, EvidenceStore, same_occasion, supersede, supersede_in,
}

-- At most one record for each occasion.
unfoldable pub IsSingle : List ComplianceEvent → Type 0
IsSingle [] = Unit
IsSingle (e ∷ es) = (count (λ x. same_occasion x e) es ≡ 0) × IsSingle es

same_occasion_trans :
    (a b c : ComplianceEvent) → same_occasion a b ≡ true → same_occasion a c ≡ same_occasion b c
same_occasion_trans a b c h = grind (arith, eq_iff)

same_occasion_sym : (a b : ComplianceEvent) → same_occasion a b ≡ same_occasion b a
same_occasion_sym a b = grind (arith, eq_iff)

same_occasion_refl : (a : ComplianceEvent) → same_occasion a a ≡ true
same_occasion_refl a = grind (arith, eq_iff)

occasion_count :
    (a b : ComplianceEvent) (xs : List ComplianceEvent)
    → same_occasion a b ≡ true
    → count (λ x. same_occasion x a) xs ≡ count (λ x. same_occasion x b) xs
occasion_count a b [] h = refl
occasion_count a b (x ∷ xs) h = ground (
  arith,
  occasion_count a b xs h,
  same_occasion_trans a b x h,
  same_occasion_sym x a,
  same_occasion_sym x b,
)

-- Another occasion has as many records after the call as before.
count-supersede_in :
    (xs : List ComplianceEvent) (e y : ComplianceEvent)
    → same_occasion e y ≡ false
    → count (λ x. same_occasion x y) (supersede_in xs e).0 ≡ count (λ x. same_occasion x y) xs
unfolding supersede_in
count-supersede_in [] e y h = ground arith
count-supersede_in (x ∷ xs) e y h =
    ground (arith, count-supersede_in xs e y h, same_occasion_trans x e y)

supersede_here :
    (x : ComplianceEvent) (xs : List ComplianceEvent) (e : ComplianceEvent)
    → same_occasion x e ≡ true
    → (supersede_in (x ∷ xs) e).0 ≡ e ∷ xs
unfolding supersede_in
supersede_here x xs e h = ground arith

supersede_later :
    (x : ComplianceEvent) (xs : List ComplianceEvent) (e : ComplianceEvent)
    → same_occasion x e ≡ false
    → (supersede_in (x ∷ xs) e).0 ≡ x ∷ (supersede_in xs e).0
unfolding supersede_in
supersede_later x xs e h = ground arith

supersede_in-IsSingle :
    (xs : List ComplianceEvent) (e : ComplianceEvent) → IsSingle xs → IsSingle (supersede_in xs e).0
unfolding supersede_in IsSingle
supersede_in-IsSingle [] e h = (refl, tt)
supersede_in-IsSingle (x ∷ xs) e (none_x, single) = elim (Bool-cases (same_occasion x e)) [
  | inl same ↦
      subst IsSingle (sym (supersede_here x xs e same))
        (sym (occasion_count x e xs same) ∙ none_x, single)
  | inr other ↦ subst IsSingle (sym (supersede_later x xs e other)) (
    count-supersede_in xs e x (same_occasion_sym e x ∙ other) ∙ none_x,
    supersede_in-IsSingle xs e single,
  )
]

-- The records, with the event in the place of those of its occasion.
abbrev pub replaced : ComplianceEvent → List ComplianceEvent → List ComplianceEvent
replaced e xs = map (λ (x : ComplianceEvent). if same_occasion x e then e else x) xs

replaced_none :
    (e : ComplianceEvent) (xs : List ComplianceEvent)
    → count (λ x. same_occasion x e) xs ≡ 0
    → replaced e xs ≡ xs
replaced_none e [] h = refl
replaced_none e (x ∷ xs) h = ground (arith, replaced_none e xs)

supersede_in_list :
    (xs : List ComplianceEvent) (e : ComplianceEvent)
    → IsSingle xs
    → (supersede_in xs e).0
      ≡ (if any (λ x. same_occasion x e) xs then replaced e xs else xs ++ e ∷ [])
unfolding supersede_in IsSingle
supersede_in_list [] e h = refl
supersede_in_list (x ∷ xs) e (none_x, single) = elim (Bool-cases (same_occasion x e)) [
  | inl same ↦
      let none_e = sym (occasion_count x e xs same) ∙ none_x in
      ground (arith, replaced_none e xs none_e)
  | inr other ↦ ground (arith, supersede_in_list xs e single)
]

find-supersede_in :
    (xs : List ComplianceEvent) (e : ComplianceEvent)
    → find (λ x. same_occasion x e) (supersede_in xs e).0 ≡ some e
unfolding supersede_in
find-supersede_in [] e = ground (arith, same_occasion_refl e)
find-supersede_in (x ∷ xs) e = ground (arith, same_occasion_refl e, find-supersede_in xs e)

displaced_lem :
    (xs : List ComplianceEvent) (e : ComplianceEvent)
    → (supersede_in xs e).1 ≡ find (λ x. same_occasion x e) xs
unfolding supersede_in
displaced_lem [] e = refl
displaced_lem (x ∷ xs) e = ground (arith, displaced_lem xs e)

-- In a store with at most one record for each occasion, `supersede` keeps it so, puts the event in the
-- place of the record that its occasion had, or at the end where it had none, and leaves every other
-- record where it is. The event is then what the store holds for its occasion, and the record that it
-- displaced is handed back.
pub supersede_lem :
    (s : EvidenceStore) (e : ComplianceEvent)
    → IsSingle s.events
    → IsSingle (supersede s e).0.events
      × ((supersede s e).0.events ≡ (
          if any (λ x. same_occasion x e) s.events
          then replaced e s.events
          else s.events ++ e ∷ []))
      × (find (λ x. same_occasion x e) (supersede s e).0.events ≡ some e)
      × ((supersede s e).1 ≡ find (λ x. same_occasion x e) s.events)
      × ((supersede s e).0.label ≡ s.label)
unfolding supersede
supersede_lem s e h = (
  supersede_in-IsSingle s.events e h,
  supersede_in_list s.events e h,
  find-supersede_in s.events e,
  displaced_lem s.events e,
  refl,
)
