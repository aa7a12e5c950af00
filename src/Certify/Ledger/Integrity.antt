-- ===== src/Certify/Ledger/Integrity.antt =====
-- The ledger's chain: what `verify_chain` decides, that `append` keeps it, and that a head hash
-- fixes the whole history.
use native.Mathlib.Decide.{ℕ_discrete}
use native.Mathlib.Nat.{add-zero, zero-add}
use sanhita.Prelude.{
  ℕ, suc, ◌+◌, String, ◌≡◌, refl, sym, ◌∙◌, ap, ◌↔◌, ◌⊎◌, inl, inr, Bool-cases, List, [], ◌∷◌, ◌++◌,
  length, str_eq, eq_iff, arith, append_assoc, append-nil,
}
use sanhita.Chain
use sanhita.Chain.{Layout, Collision, IsChained, IsChained-append, chain_determined}
use sanhita.Certify.Ledger.{
  AuditEntry, EntryPayload, Draft, genesis, payload, head, compute_hash, make_entry, append,
  entry_problems, verify_from, verify_chain,
}

dec_text : Discrete String
dec_text s t = elim (Bool-cases (str_eq s t)) [
  | inl e ↦ yes ((eq_iff s t).0 e)
  | inr n ↦ no (λ e. cc ((eq_iff s t).1 e))
]

pub EntryPayload-discrete : Discrete EntryPayload
EntryPayload-discrete = hlevel (ℕ_discrete, dec_text)

abbrev pub ledger_layout : Layout AuditEntry EntryPayload
ledger_layout = record {
  payload = payload;
  entry_hash = λ e. e.entry_hash;
  sequence = λ p. p.sequence;
  previous_hash = λ p. p.previous_hash;
  dec = EntryPayload-discrete;
}

pub head_lem :
    (previous : String) (es : List AuditEntry)
    → head previous es ≡ Chain.head_hash ledger_layout previous es
unfolding head
head_lem previous [] = refl
head_lem previous (e ∷ es) = head_lem e.entry_hash es

append-eq-nil : {A : Type 0} (xs ys : List A) → xs ++ ys ≡ [] → (xs ≡ []) × (ys ≡ [])
append-eq-nil [] ys h = (refl, h)
append-eq-nil (x ∷ xs) ys h = cc

module _ (sha256_hex : EntryPayload → String) where
  abbrev pub IsIntact : List AuditEntry → Type 0
  IsIntact = IsChained ledger_layout sha256_hex 0 genesis

  no_entry_problems :
      (index : ℕ) (previous : String) (e : AuditEntry)
      → entry_problems sha256_hex index previous e ≡ []
      → (e.sequence ≡ index)
        × (e.previous_hash ≡ previous)
        × (e.entry_hash ≡ sha256_hex (payload e))
  unfolding entry_problems
  no_entry_problems index previous e h =
      ground
        (arith, eq_iff e.previous_hash previous, eq_iff (compute_hash sha256_hex e) e.entry_hash)

  entry_problems_none :
      (index : ℕ) (previous : String) (e : AuditEntry)
      → e.sequence ≡ index
      → e.previous_hash ≡ previous
      → e.entry_hash ≡ sha256_hex (payload e)
      → entry_problems sha256_hex index previous e ≡ []
  unfolding entry_problems
  entry_problems_none index previous e n p h =
      ground
        (arith, eq_iff e.previous_hash previous, eq_iff (compute_hash sha256_hex e) e.entry_hash)

  payload_fields :
      (e : AuditEntry)
      → ((payload e).sequence ≡ e.sequence) × ((payload e).previous_hash ≡ e.previous_hash)
  unfolding payload
  payload_fields e = (refl, refl)

  verify_from_sound :
      (index : ℕ) (previous : String) (es : List AuditEntry)
      → verify_from sha256_hex index previous es ≡ []
      → IsChained ledger_layout sha256_hex index previous es
  unfolding verify_from
  verify_from_sound index previous [] h = tt
  verify_from_sound index previous (e ∷ es) h =
      let (first, rest) = append-eq-nil (entry_problems sha256_hex index previous e) _ h in
      let (n, p, d) = no_entry_problems index previous e first in
      let (pn, pp) = payload_fields e in
      (pn ∙ n, pp ∙ p, d, verify_from_sound (suc index) e.entry_hash es rest)

  verify_from_complete :
      (index : ℕ) (previous : String) (es : List AuditEntry)
      → IsChained ledger_layout sha256_hex index previous es
      → verify_from sha256_hex index previous es ≡ []
  unfolding verify_from
  verify_from_complete index previous [] c = refl
  verify_from_complete index previous (e ∷ es) c =
      let (pn, pp) = payload_fields e in
      let first : entry_problems sha256_hex index previous e ≡ [] =
        entry_problems_none index previous e (sym pn ∙ c.0) (sym pp ∙ c.1) c.2 in
      rw first (verify_from_complete (suc index) e.entry_hash es c.3)

  -- `verify_chain` finds nothing exactly when the ledger is intact: every entry is numbered by its
  -- place, names the hash of the entry before it, and stores the digest of its own content.
  pub verify_chain_lem : (es : List AuditEntry) → (verify_chain sha256_hex es ≡ []) ↔ IsIntact es
  unfolding verify_chain
  verify_chain_lem es = (verify_from_sound 0 genesis es, verify_from_complete 0 genesis es)

  verify_from-append :
      (index : ℕ) (previous : String) (es fs : List AuditEntry)
      → verify_from sha256_hex index previous (es ++ fs)
        ≡ verify_from sha256_hex index previous es
          ++ verify_from sha256_hex (index + length es) (head previous es) fs
  unfolding verify_from head
  verify_from-append index previous [] fs = simp add-zero
  verify_from-append index previous (e ∷ es) fs =
      rw
        (
          verify_from-append (suc index) e.entry_hash es fs,
          append_assoc (entry_problems sha256_hex index previous e),
        )
        (ap
          (λ (n : ℕ).
            entry_problems sha256_hex index previous e
            ++ (verify_from sha256_hex (suc index) e.entry_hash es
                ++ verify_from sha256_hex n (head e.entry_hash es) fs))
          (omega arith))

  make_entry_fine :
      (es : List AuditEntry) (d : Draft) (now : ℕ)
      → entry_problems sha256_hex (length es) (head genesis es) (make_entry sha256_hex es d now)
        ≡ []
  unfolding make_entry
  make_entry_fine es d now =
      entry_problems_none (length es) (head genesis es) (make_entry sha256_hex es d now) refl refl
        (unfold compute_hash payload in refl)

  verify_from_one :
      (es : List AuditEntry) (d : Draft) (now : ℕ)
      → verify_from sha256_hex
          (0 + length es)
          (head genesis es)
          (make_entry sha256_hex es d now ∷ [])
        ≡ []
  unfolding verify_from
  verify_from_one es d now = rw (zero-add (length es), make_entry_fine es d now)

  -- Appending an entry neither adds a problem nor hides one, whatever the ledger held before.
  pub verify_chain-append :
      (es : List AuditEntry) (d : Draft) (now : ℕ)
      → verify_chain sha256_hex (append sha256_hex es d now) ≡ verify_chain sha256_hex es
  unfolding verify_chain append
  verify_chain-append es d now =
      rw
        (
          verify_from-append 0 genesis es (make_entry sha256_hex es d now ∷ []),
          verify_from_one es d now,
        )
        (append-nil (verify_from sha256_hex 0 genesis es))

  -- Two non-empty ledgers that both verify and end in the same hash hold the same contents and
  -- hashes throughout, unless two different contents with one digest can be shown.
  pub history_fixed_by_head :
      (e f : AuditEntry) (es fs : List AuditEntry)
      → verify_chain sha256_hex (e ∷ es) ≡ []
      → verify_chain sha256_hex (f ∷ fs) ≡ []
      → head genesis (e ∷ es) ≡ head genesis (f ∷ fs)
      → (Chain.contents ledger_layout (e ∷ es) ≡ Chain.contents ledger_layout (f ∷ fs))
        ⊎ Collision sha256_hex
  history_fixed_by_head e f es fs c d h =
      chain_determined ledger_layout sha256_hex 0 genesis e f es fs
        ((verify_chain_lem (e ∷ es)).0 c) ((verify_chain_lem (f ∷ fs)).0 d)
        (sym (head_lem genesis (e ∷ es)) ∙ (h ∙ head_lem genesis (f ∷ fs)))
