-- ===== src/Certify/Registry/AsOf.antt =====
-- certify/lifecycle.py, `as_of`: the rulebook of a moment, replayed from the ledger.
use sanhita.Prelude.{
  ℕ, ◌+◌, ◌-◌, List, [], ◌∷◌, Option, none, some, or_else, length, get_elem?, if◌then◌else◌, leb,
  min,
}
use sanhita.Prelude.Text.{text_le}
use sanhita.Prelude.Dict.{Dict, get, put}
use sanhita.Prelude.Sort.{sort}
use sanhita.Ir.Schema.{Obligation}
use sanhita.Certify.Ledger.{AuditEntry}
use sanhita.Certify.Registry.{RuleRegistry, history}

-- The `transitions` of `as_of`: how many entries of each rule are dated at or before the moment.
unfoldable pub count_entry : ℕ → Dict ℕ → AuditEntry → Dict ℕ
count_entry moment counts e =
    if leb e.at moment
    then put e.obligation_id (or_else (get e.obligation_id counts) 0 + 1) counts
    else counts

unfoldable pub tally : ℕ → Dict ℕ → List AuditEntry → Dict ℕ
unfolding count_entry
tally moment counts [] = counts
tally moment counts (e ∷ es) = tally moment (count_entry moment counts e) es

-- `versions[min(count, len(versions)) - 1]`, skipped where there is no version. A count is never 0.
abbrev pub version_at : List Obligation → ℕ → Option Obligation
version_at versions n = get_elem? versions (min n (length versions) - 1)

unfoldable pub as_of_rules : RuleRegistry → Dict ℕ → List Obligation
unfolding history
as_of_rules r [] = []
as_of_rules r ((id, n) ∷ counts) = elim (version_at (history r id) n) [
  | none ↦ as_of_rules r counts
  | some o ↦ o ∷ as_of_rules r counts
]

unfoldable pub as_of : RuleRegistry → ℕ → List Obligation
unfolding tally as_of_rules sort
as_of r moment = sort (λ o p. text_le o.id p.id) (as_of_rules r (tally moment [] r.ledger))
