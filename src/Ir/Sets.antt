-- ===== src/Ir/Sets.antt =====
-- ir/schema.py: `ObligationSet`, the rules of one clause, with their ids handed out in order.
use Prim.Native.String.append as text_append
use sanhita.Prelude.{
  ℕ, zero, suc, ◌<◌, ◌≡◌, ◌⊎◌, inl, inr, refl, sym, ap, ◌∙◌, String, Bool, true, false, not, ◌&&◌,
  List, [], ◌∷◌, map, Result, ok, err, ◌>>=◌, ◌>>◌, >>=-eq-ok, raise_if, all, length, str_eq,
  eq_iff, arith,
}
use sanhita.Prelude.Sort.{member}
use sanhita.Prelude.Text.{◌⧺◌}
use sanhita.Ir.Schema.{Obligation}
use sanhita.Ir.Ids.{obligation_id, suffix_for_index_injective}
use sanhita.Ir.Validate.{SchemaError, model_validate, model_validate-ok}

pub record ObligationSet : Type 0 where
  pub clause_id : String
  pub obligations : List Obligation

pub data SetError : Type 0 where
  foreign_clause duplicate_ids : SetError
  bad_draft : SchemaError → SetError

abbrev pub ids_of : List Obligation → List String
ids_of os = map (λ (o : Obligation). o.id) os

-- `len(set(ids)) == len(ids)`
abbrev pub distinct : List String → Bool
distinct [] = true
distinct (x ∷ xs) = not (member x xs) && distinct xs

unfoldable pub check_members : ObligationSet → Result SetError ObligationSet
check_members s = do
  raise_if (not (all (λ (o : Obligation). str_eq o.source.clause_id s.clause_id) s.obligations))
      foreign_clause
  raise_if (not (distinct (ids_of s.obligations))) duplicate_ids
  ok s

abbrev pub from_schema : {A : Type 0} → Result SchemaError A → Result SetError A
from_schema (ok a) = ok a
from_schema (err e) = err (bad_draft e)

append_cancel : (a s t : String) → (a ⧺ s) ≡ (a ⧺ t) → s ≡ t
append_cancel String.[] s t h = sym (text_append.nil s) ∙ h ∙ text_append.nil t
append_cancel (String.◌∷◌ c a) s t h =
    append_cancel a s t (ground (arith, text_append.cons c a s, text_append.cons c a t))

-- The set is refused for two rules with one id.
abbrev pub refuses_ids : Result SetError ObligationSet → Bool
refuses_ids (err duplicate_ids) = true
refuses_ids _ = false

module _ (upper : String → String) (sha256_hex : String → String) where
  -- The drafts from `index` on; a draft is a rule whose id is still to be given.
  unfoldable pub number_drafts :
      String → String → ℕ → List Obligation → Result SetError (List Obligation)
  unfolding model_validate obligation_id
  number_drafts prefix clause_id index [] = ok []
  number_drafts prefix clause_id index (draft ∷ drafts) =
      from_schema (
        model_validate sha256_hex
          (record draft { id = obligation_id upper prefix clause_id index }))
      >>= λ o. number_drafts prefix clause_id (suc index) drafts >>= λ os. ok (o ∷ os)

  unfoldable pub build : String → String → List Obligation → Result SetError ObligationSet
  unfolding number_drafts check_members
  build prefix clause_id drafts = number_drafts prefix clause_id 0 drafts >>= λ os.
      check_members (record { clause_id = clause_id; obligations = os })

  numbered : String → String → ℕ → ℕ → List String
  numbered prefix clause_id index zero = []
  numbered prefix clause_id index (suc n) =
      obligation_id upper prefix clause_id index ∷ numbered prefix clause_id (suc index) n

  number_drafts-ids :
      (prefix clause_id : String) (index : ℕ) (drafts : List Obligation) {os : List Obligation}
      → number_drafts prefix clause_id index drafts ≡ ok os
      → ids_of os ≡ numbered prefix clause_id index (length drafts)
  unfolding number_drafts numbered
  number_drafts-ids prefix clause_id index [] h = ground arith
  number_drafts-ids prefix clause_id index (d ∷ ds) h =
      let named = record d { id = obligation_id upper prefix clause_id index } in
      let (o, e, rest) = >>=-eq-ok (from_schema (model_validate sha256_hex named)) _ h in
      let (os, f, end) = >>=-eq-ok (number_drafts prefix clause_id (suc index) ds) _ rest in
      let same : o ≡ named =
        (model_validate-ok sha256_hex named o (validated (model_validate sha256_hex named) e)).0 in
      ground (
        arith,
        ap (λ (o : Obligation). o.id) same,
        number_drafts-ids prefix clause_id (suc index) ds f,
      )
    where
      validated :
          (m : Result SchemaError Obligation) {o : Obligation} → from_schema m ≡ ok o → m ≡ ok o
      validated (ok o) h = ground arith
      validated (err e) h = ground arith

  obligation_id_injective :
      (prefix clause_id : String) (i j : ℕ)
      → obligation_id upper prefix clause_id i ≡ obligation_id upper prefix clause_id j
      → i ≡ j
  unfolding obligation_id
  obligation_id_injective prefix clause_id i j h = suffix_for_index_injective i j (
      append_cancel "-" _ _
        (append_cancel clause_id _ _ (append_cancel "-" _ _ (append_cancel (upper prefix) _ _ h))))

  numbered-member :
      (prefix clause_id : String) (i j n : ℕ)
      → i < j
      → member (obligation_id upper prefix clause_id i) (numbered prefix clause_id j n) ≡ false
  unfolding numbered
  numbered-member prefix clause_id i j zero h = refl
  numbered-member prefix clause_id i j (suc n) h = ground (
    arith,
    eq_iff (obligation_id upper prefix clause_id i) (obligation_id upper prefix clause_id j),
    obligation_id_injective prefix clause_id i j,
    numbered-member prefix clause_id i (suc j) n,
  )

  numbered-distinct :
      (prefix clause_id : String) (i n : ℕ) → distinct (numbered prefix clause_id i n) ≡ true
  unfolding numbered
  numbered-distinct prefix clause_id i zero = refl
  numbered-distinct prefix clause_id i (suc n) = ground (
    arith,
    numbered-member prefix clause_id i (suc i) n (omega arith),
    numbered-distinct prefix clause_id (suc i) n,
  )

  checked_distinct :
      (s : ObligationSet)
      → distinct (ids_of s.obligations) ≡ true
      → refuses_ids (check_members s) ≡ false
  unfolding check_members
  checked_distinct s h = ground arith

  draft_errors :
      (m : Result SetError Obligation) (rest : Result SetError (List Obligation)) {e : SetError}
      → (m >>= λ o. rest >>= λ os. ok (o ∷ os)) ≡ err e
      → (m ≡ err e) ⊎ (rest ≡ err e)
  draft_errors (err x) rest h = inl (ground arith)
  draft_errors (ok o) (err x) h = inr (ground arith)
  draft_errors (ok o) (ok os) h = ground arith

  number_drafts_errors :
      (prefix clause_id : String) (index : ℕ) (drafts : List Obligation) {e : SetError}
      → number_drafts prefix clause_id index drafts ≡ err e
      → refuses_ids (err e) ≡ false
  unfolding number_drafts
  number_drafts_errors prefix clause_id index [] h = ground arith
  number_drafts_errors prefix clause_id index (d ∷ ds) h =
      let m =
        model_validate sha256_hex (record d { id = obligation_id upper prefix clause_id index }) in
      elim (draft_errors (from_schema m) (number_drafts prefix clause_id (suc index) ds) h) [
        | inl refused ↦ schema_errors m refused
        | inr later ↦ number_drafts_errors prefix clause_id (suc index) ds later
      ]
    where
      schema_errors :
          (m : Result SchemaError Obligation) {e : SetError}
          → from_schema m ≡ err e
          → refuses_ids (err e) ≡ false
      schema_errors (ok o) h = ground arith
      schema_errors (err x) h = ground arith

  built :
      (prefix clause_id : String) (drafts : List Obligation) (m : Result SetError (List Obligation))
      → number_drafts prefix clause_id 0 drafts ≡ m
      → refuses_ids (m >>= λ os. check_members (record { clause_id = clause_id; obligations = os }))
        ≡ false
  built prefix clause_id drafts (ok os) h =
      checked_distinct (record { clause_id = clause_id; obligations = os })
        (ap distinct (number_drafts-ids prefix clause_id 0 drafts h)
          ∙ numbered-distinct prefix clause_id 0 (length drafts))
  built prefix clause_id drafts (err e) h = number_drafts_errors prefix clause_id 0 drafts h

  -- The ids that are handed out in order never meet: building the set of a clause is never refused for
  -- two rules with one id, however many drafts there are.
  pub build_distinct :
      (prefix clause_id : String) (drafts : List Obligation)
      → refuses_ids (build prefix clause_id drafts) ≡ false
  unfolding build
  build_distinct prefix clause_id drafts =
      built prefix clause_id drafts (number_drafts prefix clause_id 0 drafts) refl
