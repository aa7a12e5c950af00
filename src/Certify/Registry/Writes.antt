-- ===== src/Certify/Registry/Writes.antt =====
-- The registry's two writes, as a relation: what any run of them keeps.
use sanhita.Prelude.{
  ℕ, ◌≤◌, String, ◌≡◌, refl, sym, ◌∙◌, ap, Bool, true, List, [], ◌∷◌, ◌++◌, map, none, or_else,
  str_eq, eq_iff, if◌then◌else◌, leb, select, all, arith, append_assoc, append-nil, Bool-cases, inl,
  inr, map-append, select-append,
}
use sanhita.Prelude.Dict.{get, get-put}
use sanhita.Ir.Enums.{status_value}
use sanhita.Ir.Schema.{Version, Obligation}
use sanhita.Certify.Ledger.{AuditEntry, Draft, make_entry, append, verify_chain}
use sanhita.Certify.Ledger.Integrity.{verify_chain-append}
use sanhita.Certify.Registry.{Library, RuleRegistry, history, record_version}

-- The entry and the version of one write agree: same rule, same state, same version number.
pub record Fits (d : Draft) (o : Obligation) : Type 0 where
  pub same_id : d.obligation_id ≡ o.id
  pub same_state : d.to_state ≡ status_value o.status
  pub same_version : d.version ≡ o.version
  pub by_clock : d.at ≡ none

-- From one registry to another by writes dated `since` or later.
pub data Writes (lib : Library) (since : ℕ) (r : RuleRegistry) : RuleRegistry → Type 0 where
  done : Writes lib since r r
  write :
      {s t : RuleRegistry}
      → Writes lib since r s
      → (d : Draft) (now : ℕ) (o : Obligation) → Fits d o
      → since ≤ now
      → t ≡ record_version lib s d now o
      → Writes lib since r t

abbrev pub entries_of : String → List AuditEntry → List AuditEntry
entries_of id ledger = select (λ e. str_eq e.obligation_id id) ledger

-- What a version, and what an entry, says of the rule's state.
abbrev pub version_trace : Obligation → String × Version
version_trace o = (status_value o.status, o.version)

abbrev pub entry_trace : AuditEntry → String × Version
entry_trace e = (e.to_state, e.version)

-- The N-th entry for a rule produced the N-th version of it.
pub record IsTraced (r : RuleRegistry) : Type 0 where
  pub at_id :
      (id : String) → map version_trace (history r id) ≡ map entry_trace (entries_of id r.ledger)

-- Every version is filed under its own id.
pub record IsFiled (r : RuleRegistry) : Type 0 where
  pub at_id : (id : String) → all (λ o. str_eq o.id id) (history r id) ≡ true

module _ (lib : Library) (r : RuleRegistry) (d : Draft) (now : ℕ) (o : Obligation) where
  pub history-record_version :
      (id : String)
      → history (record_version lib r d now o) id
        ≡ (if str_eq o.id id then history r id ++ o ∷ [] else history r id)
  unfolding history record_version
  history-record_version id = ground (
    arith,
    eq_iff o.id id,
    get-put o.id id (or_else (get o.id r.versions) [] ++ o ∷ []) r.versions,
  )

  pub ledger-record_version :
      (record_version lib r d now o).ledger
      ≡ r.ledger ++ make_entry lib.sha256_entry r.ledger d now ∷ []
  unfolding record_version append
  ledger-record_version = refl

  pub make_entry_fields :
      (d.at ≡ none)
      → ((make_entry lib.sha256_entry r.ledger d now).obligation_id ≡ d.obligation_id)
        × ((make_entry lib.sha256_entry r.ledger d now).to_state ≡ d.to_state)
        × ((make_entry lib.sha256_entry r.ledger d now).version ≡ d.version)
        × ((make_entry lib.sha256_entry r.ledger d now).at ≡ now)
  unfolding make_entry
  make_entry_fields h = (refl, refl, refl, rw h)

all-append :
    {A : Type 0} (p : A → Bool) (xs : List A) (x : A)
    → all p xs ≡ true
    → p x ≡ true
    → all p (xs ++ x ∷ []) ≡ true
all-append p [] x h k = ground arith
all-append p (y ∷ ys) x h k = ground (arith, all-append p ys x)

record_version-IsFiled :
    (lib : Library) (r : RuleRegistry) (d : Draft) (now : ℕ) (o : Obligation)
    → IsFiled r
    → IsFiled (record_version lib r d now o)
record_version-IsFiled lib r d now o f = record {
  at_id = λ id. rw (history-record_version lib r d now o id) (elim (Bool-cases (str_eq o.id id)) [
    | inl e ↦ rw e (all-append (λ p. str_eq p.id id) (history r id) o (f.at_id id) e)
    | inr n ↦ rw n (f.at_id id)
  ]);
}

map_snoc :
    {A B C : Type 0} (f : A → C) (g : B → C) (xs : List A) (ys : List B) (x : A) (y : B)
    → map f xs ≡ map g ys
    → f x ≡ g y
    → map f (xs ++ x ∷ []) ≡ map g (ys ++ y ∷ [])
map_snoc f g xs ys x y h k =
    rw (map-append f xs (x ∷ []), map-append g ys (y ∷ [])) (λ i. h i ++ k i ∷ [])

record_version-IsTraced :
    (lib : Library) (r : RuleRegistry) (d : Draft) (now : ℕ) (o : Obligation)
    → Fits d o
    → IsTraced r
    → IsTraced (record_version lib r d now o)
record_version-IsTraced lib r d now o fits t = record {
  at_id = λ id.
      let e = make_entry lib.sha256_entry r.ledger d now in
      let (eid, est, ever, _) = make_entry_fields lib r d now o fits.by_clock in
      let same_test : str_eq e.obligation_id id ≡ str_eq o.id id =
        ap (λ j. str_eq j id) (eid ∙ fits.same_id) in
      let same_trace : version_trace o ≡ entry_trace e =
        λ i. (sym (est ∙ fits.same_state) i, sym (ever ∙ fits.same_version) i) in
      rw
        (
          history-record_version lib r d now o id,
          ledger-record_version lib r d now o,
          select-append (λ (e : AuditEntry). str_eq e.obligation_id id) r.ledger (e ∷ []),
          same_test,
        )
        (elim (Bool-cases (str_eq o.id id)) [
          | inl h ↦ rw h (
              map_snoc version_trace entry_trace (history r id) (entries_of id r.ledger) o e
                (t.at_id id) same_trace)
          | inr h ↦ rw (h, append-nil) (t.at_id id)
        ]);
}

verify_chain-record_version :
    (lib : Library) (r : RuleRegistry) (d : Draft) (now : ℕ) (o : Obligation)
    → verify_chain lib.sha256_entry (record_version lib r d now o).ledger
      ≡ verify_chain lib.sha256_entry r.ledger
unfolding record_version
verify_chain-record_version lib r d now o = verify_chain-append lib.sha256_entry r.ledger d now

module _ {lib : Library} {since : ℕ} {r : RuleRegistry} where
  pub Writes-IsFiled : {s : RuleRegistry} → IsFiled r → Writes lib since r s → IsFiled s
  Writes-IsFiled f done = f
  Writes-IsFiled f (write {s = m} w d now o _ _ e) =
      rw e (record_version-IsFiled lib m d now o (Writes-IsFiled f w))

  pub Writes-IsTraced : {s : RuleRegistry} → IsTraced r → Writes lib since r s → IsTraced s
  Writes-IsTraced t done = t
  Writes-IsTraced t (write {s = m} w d now o fits _ e) =
      rw e (record_version-IsTraced lib m d now o fits (Writes-IsTraced t w))

  -- Writing never changes what `verify_chain` reports.
  pub verify_chain-Writes :
      {s : RuleRegistry}
      → Writes lib since r s
      → verify_chain lib.sha256_entry s.ledger ≡ verify_chain lib.sha256_entry r.ledger
  verify_chain-Writes done = refl
  verify_chain-Writes (write {s = m} w d now o _ _ e) =
      rw e (verify_chain-record_version lib m d now o ∙ verify_chain-Writes w)

  -- Nothing is dropped or changed: the old ledger and the old versions stand in front.
  pub ledger-Writes :
      {s : RuleRegistry}
      → Writes lib since r s
      → (new : List AuditEntry) × (s.ledger ≡ r.ledger ++ new)
        × (all (λ e. leb since e.at) new ≡ true)
  ledger-Writes done = ([], sym (append-nil r.ledger), refl)
  ledger-Writes (write {s = m} w d now o fits late e) =
      let (new, h, k) = ledger-Writes w in
      let entry = make_entry lib.sha256_entry m.ledger d now in
      let (_, _, _, dated) = make_entry_fields lib m d now o fits.by_clock in
      (
        new ++ entry ∷ [],
        ap (λ (s : RuleRegistry). s.ledger) e
            ∙ (ledger-record_version lib m d now o
                ∙ (ap (λ l. l ++ entry ∷ []) h ∙ append_assoc r.ledger new (entry ∷ []))),
        all-append (λ (e : AuditEntry). leb since e.at) new entry k (rw dated (ground arith)),
      )

  pub history-Writes :
      {s : RuleRegistry} (id : String)
      → Writes lib since r s
      → (new : List Obligation) × (history s id ≡ history r id ++ new)
  history-Writes id done = ([], sym (append-nil (history r id)))
  history-Writes id (write {s = m} w d now o _ _ e) =
      let (new, h) = history-Writes id w in
      elim (Bool-cases (str_eq o.id id)) [
        | inl k ↦ (
          new ++ o ∷ [],
          rw (e, history-record_version lib m d now o id, k, h)
              (append_assoc (history r id) new (o ∷ [])),
        )
        | inr k ↦ (new, rw (e, history-record_version lib m d now o id, k) h)
      ]
