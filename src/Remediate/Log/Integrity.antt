-- ===== src/Remediate/Log/Integrity.antt =====
-- The log's chain: what `verify` decides, and that `append` keeps it.
use native.Mathlib.Decide.{ℕ_discrete}
use sanhita.Prelude.{
  ℕ, suc, String, ◌≡◌, refl, ◌↔◌, inl, inr, Bool-cases, List, [], ◌∷◌, none, str_eq, eq_iff, arith,
  get_last?,
}
use sanhita.Chain
use sanhita.Chain.{Layout, Collision, IsChained, IsChained-append, chain_determined}
use sanhita.Remediate.Log.{
  TaskEntry, EntryPayload, Draft, genesis, last_hash, make_entry, append, verify_from, verify,
}

dec_text : Discrete String
dec_text s t = elim (Bool-cases (str_eq s t)) [
  | inl e ↦ yes ((eq_iff s t).0 e)
  | inr n ↦ no (λ e. cc ((eq_iff s t).1 e))
]

pub EntryPayload-discrete : Discrete EntryPayload
EntryPayload-discrete = hlevel (ℕ_discrete, dec_text)

abbrev pub log_layout : Layout TaskEntry EntryPayload
log_layout = record {
  payload = λ e. e.payload;
  entry_hash = λ e. e.entry_hash;
  sequence = λ p. p.sequence;
  previous_hash = λ p. p.previous_hash;
  dec = EntryPayload-discrete;
}

module _ (sha256_hex : EntryPayload → String) where
  abbrev pub IsIntact : List TaskEntry → Type 0
  IsIntact = IsChained log_layout sha256_hex 1 genesis

  verify_from_sound :
      (index : ℕ) (previous : String) (es : List TaskEntry)
      → verify_from sha256_hex index previous es ≡ none
      → IsChained log_layout sha256_hex index previous es
  unfolding verify_from
  verify_from_sound index previous [] h = tt
  verify_from_sound index previous (e ∷ es) h =
      let parts : (e.sequence ≡ index)
          × (e.previous_hash ≡ previous)
          × (e.entry_hash ≡ sha256_hex e.payload)
          × (verify_from sha256_hex (suc index) e.entry_hash es ≡ none) =
        ground
          (arith, eq_iff e.previous_hash previous, eq_iff e.entry_hash (sha256_hex e.payload)) in
      (parts.0, parts.1, parts.2, verify_from_sound (suc index) e.entry_hash es parts.3)

  verify_from_complete :
      (index : ℕ) (previous : String) (es : List TaskEntry)
      → IsChained log_layout sha256_hex index previous es
      → verify_from sha256_hex index previous es ≡ none
  unfolding verify_from
  verify_from_complete index previous [] c = refl
  verify_from_complete index previous (e ∷ es) c = ground (
    arith,
    eq_iff e.previous_hash previous,
    eq_iff e.entry_hash (sha256_hex e.payload),
    verify_from_complete (suc index) e.entry_hash es c.3,
  )

  -- `verify` passes exactly the intact logs.
  pub verify_lem : (es : List TaskEntry) → (verify sha256_hex es ≡ none) ↔ IsIntact es
  unfolding verify
  verify_lem es = (verify_from_sound 1 genesis es, verify_from_complete 1 genesis es)

  last_hash_lem :
      (previous : String) (e : TaskEntry) (es : List TaskEntry)
      → last_hash (get_last? (e ∷ es)) ≡ Chain.head_hash log_layout previous (e ∷ es)
  last_hash_lem previous e [] = refl
  last_hash_lem previous e (f ∷ es) = last_hash_lem e.entry_hash f es

  genesis_last :
      (es : List TaskEntry) → last_hash (get_last? es) ≡ Chain.head_hash log_layout genesis es
  genesis_last [] = refl
  genesis_last (e ∷ es) = last_hash_lem genesis e es

  -- A log that verifies still does when an entry is appended.
  pub verify-append :
      (es : List TaskEntry) (d : Draft) (now : ℕ)
      → verify sha256_hex es ≡ none
      → verify sha256_hex (append sha256_hex es d now) ≡ none
  verify-append es d now h =
      let e = make_entry sha256_hex es d now in
      (verify_lem (append sha256_hex es d now)).1 (
        unfold append in
        IsChained-append log_layout sha256_hex 1 genesis es e ((verify_lem es).0 h)
          (unfold make_entry in omega arith) (unfold make_entry in genesis_last es)
          (unfold make_entry in refl))
