-- ===== src/Certify/Registry/Invariant.antt =====
-- The registry after any sequence of transitions, those that raise included.
use sanhita.Prelude.{
  not, Bool, true, none, ℕ, ◌≤◌, String, ◌≡◌, ◌≢◌, refl, ◌∙◌, ap, false, ◌&&◌, List, [], ◌∷◌, ◌++◌,
  Option, some, ok, err, str_eq, if◌then◌else◌, arith, get_last?-append, Bool-cases, inl, inr,
}
use sanhita.Prelude.Dict.{get}
use sanhita.Ir.Enums.{same_status, RuleStatus, is_certified}
use sanhita.Ir.Schema.{Obligation}
use sanhita.Ir.Validate.{model_validate-ok}
use sanhita.Ir.Signing.{certify-eq-ok}
use sanhita.Certify.Ledger.{Draft, verify_chain}
use sanhita.Certify.Registry.{
  Library, RuleRegistry, Outcome, empty, history, current, record_version, propose, certify_rule,
  reject, amend, supersede, amended_copy, supersede_draft,
}
use sanhita.Certify.Registry.Edits.{Edit}
use sanhita.Certify.Registry.Writes.{
  Writes, done, IsFiled, IsTraced, Writes-IsFiled, Writes-IsTraced, verify_chain-Writes,
  history-record_version,
}
use sanhita.Certify.Registry.Outcomes.{propose-eq-ok, certify_rule-eq-ok, reject-eq-ok, amend-eq-ok}
use sanhita.Certify.Registry.Steps.{
  propose-Writes, certify_rule-Writes, reject-Writes, amend-Writes, amended_copy_fields,
}

-- A call of one of the four transitions, with the readings of the clock during it.
pub data Call : Type 0 where
  call_propose : Obligation → String → ℕ → Call
  call_certify : String → String → String → Option String → Option ℕ → ℕ → Call
  call_reject : String → String → String → ℕ → Call
  call_amend : String → List Edit → String → String → Option String → ℕ → ℕ → Call

unfoldable pub perform : Library → RuleRegistry → Call → Outcome
perform lib r (call_propose o by now) = propose lib r o by now
perform lib r (call_certify id by key note at now) = certify_rule lib r id by key note at now
perform lib r (call_reject id by reason now) = reject lib r id by reason now
perform lib r (call_amend id edits by level note now₁ now₂) =
    amend lib r id edits by level note now₁ now₂

-- The registry after a call: a call that raises leaves it alone.
abbrev pub settle : RuleRegistry → Outcome → RuleRegistry
settle r (ok (s, _)) = s
settle r (err _) = r

unfoldable pub run : Library → RuleRegistry → List Call → RuleRegistry
unfolding perform
run lib r [] = r
run lib r (c ∷ cs) = run lib (settle r (perform lib r c)) cs

-- Every reading of the clock in the call is `since` or later.
abbrev pub IsSince : ℕ → Call → Type 0
IsSince since (call_propose _ _ now) = since ≤ now
IsSince since (call_certify _ _ _ _ _ now) = since ≤ now
IsSince since (call_reject _ _ _ now) = since ≤ now
IsSince since (call_amend _ _ _ _ _ now₁ now₂) = (since ≤ now₁) × (since ≤ now₂)

-- No rule's latest version is a superseded one.
abbrev pub is_live : Option Obligation → Bool
is_live none = true
is_live (some o) = not (same_status o.status RuleStatus.superseded)

pub record IsLive (r : RuleRegistry) : Type 0 where
  pub at_id : (id : String) → is_live (current r id) ≡ true

pub perform-Writes :
    (lib : Library) (since : ℕ) (r : RuleRegistry) (c : Call) {s : RuleRegistry} {v : Obligation}
    → IsFiled r
    → IsSince since c
    → perform lib r c ≡ ok (s, v)
    → Writes lib since r s
unfolding perform
perform-Writes lib since r (call_propose o by now) f late h =
    propose-Writes lib since r o by now late h
perform-Writes lib since r (call_certify id by key remark at now) f late h =
    certify_rule-Writes lib since r id by key remark at now f late h
perform-Writes lib since r (call_reject id by reason now) f late h =
    reject-Writes lib since r id by reason now f late h
perform-Writes lib since r (call_amend id edits by level remark now₁ now₂) f late h =
    amend-Writes lib since r id edits by level remark now₁ now₂ f late.0 late.1 h

pub settle-Writes :
    (lib : Library) (since : ℕ) (r : RuleRegistry) (c : Call)
    → IsFiled r
    → IsSince since c
    → Writes lib since r (settle r (perform lib r c))
settle-Writes lib since r c f late = go (perform lib r c) refl
  where
    go : (x : Outcome) → perform lib r c ≡ x → Writes lib since r (settle r x)
    go (ok (s, v)) e = perform-Writes lib since r c f late e
    go (err x) e = done

pub current-record_version :
    (lib : Library) (m : RuleRegistry) (d : Draft) (now : ℕ) (v : Obligation) (id : String)
    → current (record_version lib m d now v) id ≡ (if str_eq v.id id then some v else current m id)
unfolding current
current-record_version lib m d now v id =
    rw (history-record_version lib m d now v id) (elim (Bool-cases (str_eq v.id id)) [
      | inl e ↦ rw e (get_last?-append (history m id) v)
      | inr n ↦ rw n
    ])

pub history-supersede :
    (lib : Library) (r : RuleRegistry) (id : String) (b v : Obligation) (by : String) (now : ℕ)
    (j : String)
    → history (supersede lib r id b v by now) j ≡ (
        if is_certified b.status && str_eq b.id j
        then history r j ++ record b { status = RuleStatus.superseded } ∷ []
        else history r j)
unfolding supersede
history-supersede lib r id b v by now j = ground (
  arith,
  history-record_version lib r (supersede_draft lib id b v by) now
      (record b { status = RuleStatus.superseded }) j,
)

IsLive-write :
    (lib : Library) (r m : RuleRegistry) (d : Draft) (now : ℕ) (v : Obligation)
    → ((j : String) → str_eq v.id j ≡ false → history m j ≡ history r j)
    → v.status ≢ RuleStatus.superseded
    → IsLive r
    → IsLive (record_version lib m d now v)
IsLive-write lib r m d now v same fine live = record {
  at_id = λ id. elim (Bool-cases (str_eq v.id id)) [
    | inl e ↦ ground (arith, current-record_version lib m d now v id)
    | inr n ↦
        unfold current in
        ground (arith, current-record_version lib m d now v id, same id n, live.at_id id)
  ];
}

perform-IsLive :
    (lib : Library) (r : RuleRegistry) (c : Call) {s : RuleRegistry} {v : Obligation}
    → IsFiled r
    → IsLive r
    → perform lib r c ≡ ok (s, v)
    → IsLive s
unfolding perform
perform-IsLive lib r (call_propose o by now) f l h =
    let (st, _, _, e) = propose-eq-ok lib r o by now h in
    rw e (IsLive-write lib r r _ now o (λ j n. refl) (λ x. ground arith) l)
perform-IsLive lib r (call_certify id by key remark at now) {v = v} f l h =
    let (b, c, k, e) = certify_rule-eq-ok lib r id by key remark at now h in
    let (_, _, _, _, _, q) = certify-eq-ok lib.hmac b by key at remark now k in
    rw e (IsLive-write lib r r _ now v (λ j n. refl) (λ x. ground arith) l)
perform-IsLive lib r (call_reject id by reason now) {v = v} f l h =
    let (b, c, _, _, k, e) = reject-eq-ok lib r id by reason now h in
    rw e (IsLive-write lib r r _ now v (λ j n. refl) (λ x. ground arith) l)
perform-IsLive lib r (call_amend id edits by level remark now₁ now₂) {v = v} f l h =
    let (b, c, n, k, e) = amend-eq-ok lib r id edits by level remark now₁ now₂ h in
    let (same, _, _) = model_validate-ok lib.sha256_text (amended_copy lib b edits level) v k in
    let (same_id, st, _, _) = amended_copy_fields lib b edits level n in
    let vid : v.id ≡ b.id = ap (λ (o : Obligation). o.id) same ∙ same_id in
    let vst : v.status ≡ RuleStatus.proposed = ap (λ (o : Obligation). o.status) same ∙ st in
    rw e (
      IsLive-write lib r (supersede lib r id b v by now₁) _ now₂ v
        (λ j n. ground (arith, history-supersede lib r id b v by now₁ j, rw vid at n))
        (λ x. ground arith) l)

-- What holds of a registry at all times.
pub record IsSound (lib : Library) (r : RuleRegistry) : Type 0 where
  pub traced : IsTraced r
  pub filed : IsFiled r
  pub live : IsLive r
  pub intact : verify_chain lib.sha256_entry r.ledger ≡ []

settle-IsSound :
    (lib : Library) (r : RuleRegistry) (c : Call)
    → IsSound lib r
    → IsSince 0 c
    → IsSound lib (settle r (perform lib r c))
settle-IsSound lib r c s late =
    let w = settle-Writes lib 0 r c s.filed late in
    record {
      traced = Writes-IsTraced s.traced w;
      filed = Writes-IsFiled s.filed w;
      live = go (perform lib r c) refl;
      intact = verify_chain-Writes w ∙ s.intact;
    }
  where
    go : (x : Outcome) → perform lib r c ≡ x → IsLive (settle r x)
    go (ok (t, v)) e = perform-IsLive lib r c s.filed s.live e
    go (err x) e = s.live

IsSince-zero : (c : Call) → IsSince 0 c
IsSince-zero (call_propose o by now) = omega arith
IsSince-zero (call_certify id by key remark at now) = omega arith
IsSince-zero (call_reject id by reason now) = omega arith
IsSince-zero (call_amend id edits by level remark now₁ now₂) = (omega arith, omega arith)

run_from-IsSound :
    (lib : Library) (r : RuleRegistry) (calls : List Call)
    → IsSound lib r
    → IsSound lib (run lib r calls)
unfolding run
run_from-IsSound lib r [] s = s
run_from-IsSound lib r (c ∷ cs) s =
    run_from-IsSound lib (settle r (perform lib r c)) cs (settle-IsSound lib r c s (IsSince-zero c))

empty-IsSound : (lib : Library) → IsSound lib empty
unfolding history current get verify_chain
empty-IsSound lib = record {
  traced = record { at_id = λ id. refl };
  filed = record { at_id = λ id. refl };
  live = record { at_id = λ id. refl };
  intact = refl;
}

-- After any calls of the four transitions on an empty registry, those that raise included: the
-- versions of each rule match its ledger entries one for one, in order, in state and version
-- number; every version is filed under its own id; no rule's latest version is a superseded one;
-- and the ledger's chain verifies.
pub run-IsSound : (lib : Library) (calls : List Call) → IsSound lib (run lib empty calls)
run-IsSound lib calls = run_from-IsSound lib empty calls (empty-IsSound lib)
