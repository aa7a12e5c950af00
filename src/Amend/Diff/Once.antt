-- ===== src/Amend/Diff/Once.antt =====
-- diff/tree_diff.py: one change at most for a clause, what a renumbering keeps, and a document against
-- itself.
use sanhita.Prelude.{
  ◌+◌, ◌≤◌, ◌≡◌, refl, sym, ◌∙◌, String, Bool, true, false, not, ◌&&◌, ◌||◌, List, [], ◌∷◌, ◌++◌,
  Option, none, some, arith, count, all, select, str_eq, eq_iff, if◌then◌else◌,
}
use sanhita.Prelude.Dict.{Dict, get, keys}
use sanhita.Prelude.Sort.{member, sorted_set, member-sorted_set, IsRising, sorted_set-IsRising}
use sanhita.Amend.Clauses.{ClauseNode}
use sanhita.Amend.Diff.{
  ChangeKind, ClauseChange, only_in, sha_of, is_sha, first, landing, landing_of, compared, departed,
  appeared, change_of, change_at, changes_of, diff_bodies,
}
use sanhita.Amend.Diff.Kinds.{change_at-clause_id, is_kind, landings_of}

count_absent : (id : String) (xs : List String) → member id xs ≡ false → count (str_eq id) xs ≡ 0
count_absent id [] h = refl
count_absent id (x ∷ xs) h = ground (arith, count_absent id xs)

count_rising : (id : String) (xs : List String) → IsRising xs → count (str_eq id) xs ≤ 1
count_rising id [] h = omega arith
count_rising id (x ∷ xs) h = ground (arith, eq_iff id x, count_absent id xs, count_rising id xs h.2)

count_step :
    (id j : String) (o : Option ClauseChange) (cs : List ClauseChange)
    → ((c : ClauseChange) → o ≡ some c → c.clause_id ≡ j)
    → count (λ (c : ClauseChange). str_eq c.clause_id id) (elim o [ none ↦ cs | some c ↦ c ∷ cs ])
      ≤ (if str_eq id j then 1 else 0) + count (λ (c : ClauseChange). str_eq c.clause_id id) cs
count_step id j none cs own = omega arith
count_step id j (some c) cs own =
    ground (arith, own c refl, eq_iff c.clause_id id, eq_iff id j, eq_iff id c.clause_id)

count-changes_of :
    (old new : Dict ClauseNode) (landings : List String) (id : String) (ids : List String)
    → count (λ (c : ClauseChange). str_eq c.clause_id id) (changes_of old new landings ids)
      ≤ count (str_eq id) ids
unfolding changes_of
count-changes_of old new landings id [] = omega arith
count-changes_of old new landings id (j ∷ ids) = omega (
  arith,
  count_step id j (change_at old new landings j) (changes_of old new landings ids)
      (change_at-clause_id old new landings j),
  count-changes_of old new landings id ids,
)

-- No clause is reported twice.
pub diff_bodies_once :
    (old new : Dict ClauseNode) (id : String)
    → count (λ (c : ClauseChange). str_eq c.clause_id id) (diff_bodies old new) ≤ 1
unfolding diff_bodies
diff_bodies_once old new id =
    let ids = sorted_set (keys old ++ keys new) in
    omega (
      arith,
      count-changes_of old new (landings_of old new) id ids,
      count_rising id ids (sorted_set-IsRising (keys old ++ keys new)),
    )

abbrev pub is_sha_opt : Option String → Option String → Bool
is_sha_opt none h = false
is_sha_opt (some g) h = is_sha g h

-- The hash before is the hash after, and is the one that the later edition has at the new number.
abbrev pub keeps_text : Dict ClauseNode → ClauseChange → Bool
keeps_text new c =
    is_sha_opt c.before_sha c.after_sha
    && elim c.now_at [ none ↦ false | some t ↦ is_sha_opt c.before_sha (sha_of t new) ]

first_fits :
    (p : String → Bool) (xs : List String) (t : String)
    → first (sorted_set (select p xs)) ≡ some t
    → p t ≡ true
first_fits p xs t h =
    selected p xs t
      (sym (member-sorted_set t (select p xs)) ∙ head_in (sorted_set (select p xs)) t h)
  where
    head_in : (ys : List String) (t : String) → first ys ≡ some t → member t ys ≡ true
    head_in [] t h = cc
    head_in (y ∷ ys) t h = ground (arith, eq_iff t y)

    selected :
        (p : String → Bool) (xs : List String) (t : String)
        → member t (select p xs) ≡ true
        → p t ≡ true
    selected p [] t h = cc
    selected p (x ∷ xs) t h = ground (arith, eq_iff t x, selected p xs t)

departed-keeps_text :
    (new : Dict ClauseNode) (id : String) (o : ClauseNode) (t : Option String)
    → ((target : String) → t ≡ some target → is_sha o.sha256 (sha_of target new) ≡ true)
    → (not (is_kind ChangeKind.renumbered (departed new id o t))
        || keeps_text new (departed new id o t))
      ≡ true
unfolding departed
departed-keeps_text new id o none fits = refl
departed-keeps_text new id o (some target) fits = ground (arith, fits target refl)

change_of-keeps_text :
    (old new : Dict ClauseNode) (landings : List String) (id : String) (o n : Option ClauseNode)
    (c : ClauseChange)
    → change_of old new landings id o n ≡ some c
    → (not (is_kind ChangeKind.renumbered c) || keeps_text new c) ≡ true
unfolding change_of compared appeared landing
change_of-keeps_text old new landings id (some o) (some n) c h = ground arith
change_of-keeps_text old new landings id (some o) none c h = ground (
  arith,
  departed-keeps_text new id o (landing_of old new o) (λ target found.
      first_fits (λ j. is_sha o.sha256 (sha_of j new)) (only_in new old) target found),
)
change_of-keeps_text old new landings id none (some n) c h = ground arith
change_of-keeps_text old new landings id none none c h = ground arith

all-changes_of :
    (p : ClauseChange → Bool) (old new : Dict ClauseNode) (landings : List String)
    (ids : List String)
    → ((id : String) (c : ClauseChange) → change_at old new landings id ≡ some c → p c ≡ true)
    → all p (changes_of old new landings ids) ≡ true
unfolding changes_of
all-changes_of p old new landings [] each = refl
all-changes_of p old new landings (id ∷ ids) each =
    all_step (change_at old new landings id) (changes_of old new landings ids) (each id)
      (all-changes_of p old new landings ids each)
  where
    all_step :
        (o : Option ClauseChange) (cs : List ClauseChange)
        → ((c : ClauseChange) → o ≡ some c → p c ≡ true)
        → all p cs ≡ true
        → all p (elim o [ none ↦ cs | some c ↦ c ∷ cs ]) ≡ true
    all_step none cs each rest = rest
    all_step (some c) cs each rest = ground (arith, each c refl)

-- A renumbering is reported only where the later edition has the very hash at the new number: no
-- clause with other words is taken for a moved one.
pub renumbered_keeps_text :
    (old new : Dict ClauseNode)
    → all (λ c. not (is_kind ChangeKind.renumbered c) || keeps_text new c) (diff_bodies old new)
      ≡ true
unfolding diff_bodies change_at
renumbered_keeps_text old new =
    all-changes_of _ old new (landings_of old new) (sorted_set (keys old ++ keys new)) (λ id c h.
      change_of-keeps_text old new (landings_of old new) id (get id old) (get id new) c h)

same_unchanged :
    (d : Dict ClauseNode) (landings : List String) (id : String) (o : Option ClauseNode)
    (c : ClauseChange)
    → change_of d d landings id o o ≡ some c
    → is_kind ChangeKind.unchanged c ≡ true
unfolding change_of compared
same_unchanged d landings id none c h = ground arith
same_unchanged d landings id (some o) c h = ground (arith, eq_iff o.sha256 o.sha256)

-- Of a document against itself no change is reported but of the kind unchanged.
pub diff_bodies_self :
    (d : Dict ClauseNode) → all (is_kind ChangeKind.unchanged) (diff_bodies d d) ≡ true
unfolding diff_bodies change_at
diff_bodies_self d =
    all-changes_of _ d d (landings_of d d) (sorted_set (keys d ++ keys d))
      (λ id c h. same_unchanged d (landings_of d d) id (get id d) c h)
