-- ===== src/Chain.antt =====
-- A hash-chained sequence: the shape that the audit ledger (certify/ledger.py) and the remediation
-- log (remediate/tasks.py) share, behind an interface that both fill.
use sanhita.Prelude.{
  ℕ, suc, ◌+◌, String, ◌≡◌, refl, sym, ◌∙◌, ap, ◌≢◌, ◌⊎◌, inl, inr, List, [], ◌∷◌, ◌++◌, length,
  arith,
}

-- An entry `E` is what the hash covers, `P`, and the hash that was stored with it.
pub record Layout (E P : Type 0) : Type 0 where
  pub payload : E → P
  pub entry_hash : E → String
  pub sequence : P → ℕ
  pub previous_hash : P → String
  pub dec : Discrete P

-- Two different contents with one digest.
abbrev pub Collision : {P : Type 0} → (P → String) → Type 0
Collision {P} digest = (p : P) × (q : P) × (p ≢ q) × (digest p ≡ digest q)

module _ {E P : Type 0} (l : Layout E P) where
  open l use {payload, entry_hash}

  abbrev pub head_hash : String → List E → String
  head_hash previous [] = previous
  head_hash previous (e ∷ es) = head_hash (entry_hash e) es

  -- What an auditor reads of the entries: the contents and the stored hashes.
  abbrev pub contents : List E → List (P × String)
  contents [] = []
  contents (e ∷ es) = (payload e, entry_hash e) ∷ contents es

module _ {E P : Type 0} (l : Layout E P) (digest : P → String) where
  open l use {payload, entry_hash, sequence, previous_hash}

  -- Every entry is numbered by its place, names the hash before it, and stores its own digest.
  abbrev pub IsChained : ℕ → String → List E → Type 0
  IsChained index previous [] = Unit
  IsChained index previous (e ∷ es) =
      (sequence (payload e) ≡ index)
      × (previous_hash (payload e) ≡ previous)
      × (entry_hash e ≡ digest (payload e))
      × IsChained (suc index) (entry_hash e) es

  pub IsChained-append :
      (index : ℕ) (previous : String) (es : List E) (e : E)
      → IsChained index previous es
      → sequence (payload e) ≡ index + length es
      → previous_hash (payload e) ≡ head_hash l previous es
      → entry_hash e ≡ digest (payload e)
      → IsChained index previous (es ++ e ∷ [])
  IsChained-append index previous [] e c n p h = (omega arith, p, h, tt)
  IsChained-append index previous (f ∷ es) e c n p h =
      (c.0, c.1, c.2, IsChained-append (suc index) (entry_hash f) es e c.3 (omega arith) p h)

  pub IsChained-prefix :
      (index : ℕ) (previous : String) (es fs : List E)
      → IsChained index previous (es ++ fs)
      → IsChained index previous es
  IsChained-prefix index previous [] fs c = tt
  IsChained-prefix index previous (e ∷ es) fs c =
      (c.0, c.1, c.2, IsChained-prefix (suc index) (entry_hash e) es fs c.3)

  -- Equal digests come of equal contents, or show a collision.
  content_of_digest : (p q : P) → digest p ≡ digest q → (p ≡ q) ⊎ Collision digest
  content_of_digest p q h = elim (l.dec p q) [ yes e ↦ inl e | no n ↦ inr (p, q, n, h) ]

  same_length :
      (index : ℕ) (previous previous' : String) (es fs : List E)
      → length es ≡ length fs
      → IsChained index previous es
      → IsChained index previous' fs
      → head_hash l previous es ≡ head_hash l previous' fs
      → ((contents l es ≡ contents l fs) × (previous ≡ previous')) ⊎ Collision digest
  same_length index previous previous' [] [] n c d h = inl (refl, h)
  same_length index previous previous' [] (f ∷ fs) n c d h = absurd (omega arith)
  same_length index previous previous' (e ∷ es) [] n c d h = absurd (omega arith)
  same_length index previous previous' (e ∷ es) (f ∷ fs) n c d h =
      elim (same_length (suc index) (entry_hash e) (entry_hash f) es fs (omega arith) c.3 d.3 h) [
        | inr bad ↦ inr bad
        | inl (rest, hashes) ↦
            elim (content_of_digest (payload e) (payload f) (sym c.2 ∙ (hashes ∙ d.2))) [
              | inr bad ↦ inr bad
              | inl equal ↦
                  inl
                    ((λ i. (equal i, hashes i) ∷ rest i), sym c.1 ∙ (ap previous_hash equal ∙ d.1))
            ]
      ]

  -- The last entry: its number says how many there are.
  last_entry :
      (index : ℕ) (previous : String) (e : E) (es : List E)
      → IsChained index previous (e ∷ es)
      → (z : E) × (suc (sequence (payload z)) ≡ index + length (e ∷ es))
        × (head_hash l previous (e ∷ es) ≡ digest (payload z))
  last_entry index previous e [] c = (e, omega (arith, c.0), c.2)
  last_entry index previous e (f ∷ es) c =
      let (z, n, h) = last_entry (suc index) (entry_hash e) f es c.3 in (z, omega (arith, n), h)

  pub chain_determined :
      (index : ℕ) (previous : String) (e f : E) (es fs : List E)
      → IsChained index previous (e ∷ es)
      → IsChained index previous (f ∷ fs)
      → head_hash l previous (e ∷ es) ≡ head_hash l previous (f ∷ fs)
      → (contents l (e ∷ es) ≡ contents l (f ∷ fs)) ⊎ Collision digest
  chain_determined index previous e f es fs c d h =
      let (y, n, hy) = last_entry index previous e es c in
      let (z, m, hz) = last_entry index previous f fs d in
      elim (content_of_digest (payload y) (payload z) (sym hy ∙ (h ∙ hz))) [
        | inr bad ↦ inr bad
        | inl equal ↦
            elim (same_length index previous previous (e ∷ es) (f ∷ fs)
              (omega (arith, n, m, ap sequence equal)) c d h) [
                | inr bad ↦ inr bad
                | inl (all, _) ↦ inl all
              ]
      ]
