-- ===== src/Amend/Diff/Kinds.antt =====
-- diff/tree_diff.py: which change is reported for which clause.
use sanhita.Prelude.{
  ◌≡◌, ◌⊎◌, inl, inr, refl, sym, ◌∙◌, String, Bool, true, false, not, ◌&&◌, ◌||◌, List, [], ◌∷◌,
  ◌++◌, Option, none, some, arith, any, select, str_eq, eq_iff, is_some,
}
use sanhita.Prelude.Dict.{Dict, get, keys, is_some-get}
use sanhita.Prelude.Sort.{member, member-append, sorted_set, member-sorted_set}
use sanhita.Amend.Clauses.{ClauseNode}
use sanhita.Amend.Diff.{
  ChangeKind, same_kind, ClauseChange, only_in, is_sha, landing_of, landed, compared, departed,
  appeared, change_of, change_at, changes_of, diff_bodies,
}

change_of-clause_id :
    (old new : Dict ClauseNode) (landings : List String) (id : String) (o n : Option ClauseNode)
    {c : ClauseChange}
    → change_of old new landings id o n ≡ some c
    → c.clause_id ≡ id
unfolding change_of compared departed appeared
change_of-clause_id old new landings id o n h = ground arith

abbrev holds : (ClauseChange → Bool) → Option ClauseChange → Bool
holds q none = false
holds q (some c) = q c

-- The changes of an id, among all.
abbrev pub has : (ClauseChange → Bool) → String → List ClauseChange → Bool
has q id cs = any (λ (c : ClauseChange). str_eq c.clause_id id && q c) cs

has-cons :
    (q : ClauseChange → Bool) (id j : String) (o : Option ClauseChange) (cs : List ClauseChange)
    → ((c : ClauseChange) → o ≡ some c → c.clause_id ≡ j)
    → has q id (elim o [ none ↦ cs | some c ↦ c ∷ cs ])
      ≡ ((str_eq id j && holds q o) || has q id cs)
has-cons q id j none cs own = ground arith
has-cons q id j (some c) cs own =
    ground (arith, own c refl, eq_iff c.clause_id id, eq_iff id j, eq_iff id c.clause_id)

pub change_at-clause_id :
    (old new : Dict ClauseNode) (landings : List String) (id : String) (c : ClauseChange)
    → change_at old new landings id ≡ some c
    → c.clause_id ≡ id
unfolding change_at
change_at-clause_id old new landings id c h =
    change_of-clause_id old new landings id (get id old) (get id new) h

has-changes_of :
    (q : ClauseChange → Bool) (old new : Dict ClauseNode) (landings : List String) (id : String)
    (ids : List String)
    → has q id (changes_of old new landings ids)
      ≡ (member id ids && holds q (change_at old new landings id))
unfolding changes_of
has-changes_of q old new landings id [] = refl
has-changes_of q old new landings id (j ∷ ids) = ground (
  arith,
  eq_iff id j,
  has-cons q id j (change_at old new landings j) (changes_of old new landings ids)
      (change_at-clause_id old new landings j),
  has-changes_of q old new landings id ids,
)

pub any-has :
    (q : ClauseChange → Bool) (id : String) (cs : List ClauseChange)
    → has q id cs ≡ true
    → any q cs ≡ true
any-has q id [] h = cc
any-has q id (c ∷ cs) h = ground (arith, any-has q id cs)

-- What the two editions say of one clause.
abbrev pub same_text : Option ClauseNode → Option ClauseNode → Bool
same_text (some o) (some n) = str_eq o.sha256 n.sha256
same_text _ _ = false

abbrev pub rewritten : Option ClauseNode → Option ClauseNode → Bool
rewritten (some o) (some n) = not (str_eq o.sha256 n.sha256)
rewritten _ _ = false

abbrev pub left : Option ClauseNode → Option ClauseNode → Bool
left (some o) none = true
left _ _ = false

abbrev pub entered : Option ClauseNode → Option ClauseNode → Bool
entered none (some n) = true
entered _ _ = false

abbrev pub is_kind : ChangeKind → ClauseChange → Bool
is_kind k c = same_kind c.kind k

-- The clause left its number, with its characters or without.
abbrev pub is_gone : ClauseChange → Bool
is_gone c = is_kind ChangeKind.removed c || is_kind ChangeKind.renumbered c

abbrev pub moved_to : String → ClauseChange → Bool
moved_to id c = is_kind ChangeKind.renumbered c && is_sha id c.now_at

abbrev pub landings_of : Dict ClauseNode → Dict ClauseNode → List String
landings_of old new = landed old new (sorted_set (only_in old new))

listed :
    (old new : Dict ClauseNode) (id : String)
    → member id (sorted_set (keys old ++ keys new)) ≡ (is_some (get id old) || is_some (get id new))
listed old new id = ground (
  arith,
  member-sorted_set id (keys old ++ keys new),
  member-append id (keys old) (keys new),
  is_some-get id old,
  is_some-get id new,
)

has-diff_bodies :
    (q : ClauseChange → Bool) (old new : Dict ClauseNode) (id : String)
    → has q id (diff_bodies old new)
      ≡ holds q (change_of old new (landings_of old new) id (get id old) (get id new))
unfolding diff_bodies change_at change_of
has-diff_bodies q old new id = ground (
  arith,
  has-changes_of q old new (landings_of old new) id (sorted_set (keys old ++ keys new)),
  listed old new id,
)

change_of_kinds :
    (old new : Dict ClauseNode) (landings : List String) (id : String) (o n : Option ClauseNode)
    → (holds (is_kind ChangeKind.unchanged) (change_of old new landings id o n) ≡ same_text o n)
      × (holds (is_kind ChangeKind.modified) (change_of old new landings id o n) ≡ rewritten o n)
      × (holds is_gone (change_of old new landings id o n) ≡ left o n)
      × (holds (is_kind ChangeKind.added) (change_of old new landings id o n)
          ≡ (entered o n && not (member id landings)))
unfolding change_of compared departed appeared
change_of_kinds old new landings id (some o) (some n) =
    (ground arith, ground arith, ground arith, ground arith)
change_of_kinds old new landings id (some o) none =
    (ground arith, ground arith, ground arith, ground arith)
change_of_kinds old new landings id none (some n) =
    (ground arith, ground arith, ground arith, ground arith)
change_of_kinds old new landings id none none = (refl, refl, refl, refl)

landed-cases :
    (old new : Dict ClauseNode) (id : String) (ids : List String) (t : String)
    → member t (landed old new (id ∷ ids)) ≡ true
    → ((o : ClauseNode) × (get id old ≡ some o) × (landing_of old new o ≡ some t))
      ⊎ (member t (landed old new ids) ≡ true)
unfolding landed
landed-cases old new id ids t h = grind (arith, eq_iff)

landed-witness :
    (old new : Dict ClauseNode) (ids : List String) (t : String)
    → member t (landed old new ids) ≡ true
    → (id : String) × (o : ClauseNode) × (member id ids ≡ true)
      × (get id old ≡ some o)
      × (landing_of old new o ≡ some t)
unfolding landed
landed-witness old new [] t h = cc
landed-witness old new (id ∷ ids) t h = elim (landed-cases old new id ids t h) [
  | inl (o, found, lands) ↦ (id, o, ground (arith, eq_iff id id), found, lands)
  | inr later ↦
      let (j, o, m, found, lands) = landed-witness old new ids t later in
      (j, o, ground arith, found, lands)
]

member-only_in :
    (old new : Dict ClauseNode) (id : String) (ids : List String)
    → member id (select (λ j. not (member j (keys new))) ids) ≡ true
    → member id (keys new) ≡ false
member-only_in old new id [] h = cc
member-only_in old new id (j ∷ ids) h = ground (arith, eq_iff id j, member-only_in old new id ids)

-- A clause that the loop passes over, as the destination of a renumbering, is the destination of one.
moved-landing :
    (old new : Dict ClauseNode) (id : String)
    → member id (landings_of old new) ≡ true
    → any (moved_to id) (diff_bodies old new) ≡ true
unfolding only_in change_of departed
moved-landing old new id h =
    let (j, o, m, found, lands) = landed-witness old new (sorted_set (only_in old new)) id h in
    let absent =
      member-only_in old new j (keys old) (sym (member-sorted_set j (only_in old new)) ∙ m) in
    any-has (moved_to id) j (diff_bodies old new) (
      ground (
        arith,
        has-diff_bodies (moved_to id) old new j,
        is_some-get j new,
        absent,
        found,
        lands,
        eq_iff id id,
      ))

-- The report of one clause, against what the two editions hold: it is unchanged exactly where both
-- have it with one hash, modified exactly where both have it with two, and removed or renumbered
-- exactly where the earlier alone has it. A clause that is reported as added is in the later alone,
-- and one that is in the later alone is reported as added or as where a renumbered clause went.
pub diff_bodies_lem :
    (old new : Dict ClauseNode) (id : String)
    → (has (is_kind ChangeKind.unchanged) id (diff_bodies old new)
        ≡ same_text (get id old) (get id new))
      × (has (is_kind ChangeKind.modified) id (diff_bodies old new)
          ≡ rewritten (get id old) (get id new))
      × (has is_gone id (diff_bodies old new) ≡ left (get id old) (get id new))
      × ((entered (get id old) (get id new)
            && (has (is_kind ChangeKind.added) id (diff_bodies old new)
                || any (moved_to id) (diff_bodies old new)))
          ≡ entered (get id old) (get id new))
      × ((has (is_kind ChangeKind.added) id (diff_bodies old new)
            && not (entered (get id old) (get id new)))
          ≡ false)
diff_bodies_lem old new id =
    let (same, changed, gone, new_here) =
      change_of_kinds old new (landings_of old new) id (get id old) (get id new) in
    let at_added = has-diff_bodies (is_kind ChangeKind.added) old new id in
    let landing_moves = moved-landing old new id in
    (
      has-diff_bodies (is_kind ChangeKind.unchanged) old new id ∙ same,
      has-diff_bodies (is_kind ChangeKind.modified) old new id ∙ changed,
      has-diff_bodies is_gone old new id ∙ gone,
      arrives (entered (get id old) (get id new)) (member id (landings_of old new)) _ _
          (at_added ∙ new_here) landing_moves,
      not_added (entered (get id old) (get id new)) (member id (landings_of old new)) _
          (at_added ∙ new_here),
    )
  where
    arrives : (e m a v : Bool) → a ≡ (e && not m) → (m ≡ true → v ≡ true) → (e && (a || v)) ≡ e
    arrives true true a v h k = ground (arith, k refl)
    arrives true false a v h k = ground arith
    arrives false m a v h k = refl

    not_added : (e m a : Bool) → a ≡ (e && not m) → (a && not e) ≡ false
    not_added e m a h = ground arith
