-- ===== src/Amend/References/Nearest.antt =====
-- analyse/references.py: the search finds every clause that leans on the given one, and how near.
use sanhita.Prelude.{
  ℕ, zero, suc, ◌+◌, ◌≤◌, ◌≡◌, inl, inr, subst, String, true, false, ◌||◌, List, [], ◌∷◌, some,
  str_eq, eq_iff, arith, Bool-cases, leb, leb→le,
}
use sanhita.Prelude.Dict.{get}
use sanhita.Prelude.Sort.{member}
use sanhita.Amend.References.{
  Citation, ReferenceGraph, citers_of, Search, expand, search_from, dependents_within,
}
use sanhita.Amend.References.Growth.{expand-found, expand-seen, expand-citers, expand-next}
use sanhita.Amend.References.Known.{Leans, itself, citing, IsKnown, expand-IsKnown, in_citers_of}

module _ (cs : List Citation) (id : String) where
  -- The clauses within `d` citations are seen, and found no farther than they are; the citers of what
  -- is seen are seen, but for what comes next.
  record IsReached (d : ℕ) (s : Search) : Type 0 where
    pub reached : (x : String) (m : ℕ) → Leans cs id m x → m ≤ d → member x s.seen ≡ true
    pub near :
        (x : String) (m : ℕ)
        → Leans cs id m x
        → m ≤ d
        → str_eq x id ≡ false
        → (n : ℕ) × (get x s.found ≡ some n) × (n ≤ m)
    pub closed :
        (y x : String)
        → member y s.seen ≡ true
        → member x (citers_of cs y) ≡ true
        → (member x s.seen || member y s.next) ≡ true

  abbrev round : ℕ → Search → Search
  round d s = expand cs (suc d) (record s { next = [] }) s.next

  round-IsKnown : (d : ℕ) (s : Search) → IsKnown cs id d s → IsKnown cs id (suc d) (round d s)
  round-IsKnown d s k =
      expand-IsKnown cs id d (record s { next = [] }) s.next
        (record {
          known = λ x h. elim (k.known x h) [
            | inl same ↦ inl same
            | inr (n, f, le) ↦ inr (n, f, omega arith)
          ];
          listed = k.listed;
          sound = k.sound;
          fresh = λ x h. ground arith;
        })
        k.fresh

  round_sees :
      (d : ℕ) (s : Search) (x y : String)
      → IsReached d s
      → member y s.seen ≡ true
      → member x (citers_of cs y) ≡ true
      → member x (round d s).seen ≡ true
  round_sees d s x y r h c = elim (Bool-cases (member x s.seen)) [
    | inl before ↦ expand-seen cs (suc d) (record s { next = [] }) s.next x before
    | inr new ↦
        expand-citers cs (suc d) (record s { next = [] }) s.next x y
          (ground (arith, r.closed y x h c)) c
  ]

  round_reaches :
      (d : ℕ) (s : Search) (x : String) (m : ℕ)
      → IsReached d s
      → Leans cs id m x
      → m ≤ suc d
      → member x (round d s).seen ≡ true
  round_reaches d s x m r itself le =
      expand-seen cs (suc d) (record s { next = [] }) s.next x (r.reached x 0 itself (omega arith))
  round_reaches d s x m r (citing {n = n} {y = y} c i source target l) le =
      round_sees d s x y r (r.reached y n l (omega arith)) (
        subst (λ z. member z (citers_of cs y) ≡ true) source
          (subst (λ z. member c.source (citers_of cs z) ≡ true) target (in_citers_of cs c i)))

  round_near :
      (d : ℕ) (s : Search) (x : String) (m : ℕ)
      → IsKnown cs id d s
      → IsReached d s
      → Leans cs id m x
      → m ≤ suc d
      → str_eq x id ≡ false
      → (n : ℕ) × (get x (round d s).found ≡ some n) × (n ≤ m)
  round_near d s x m k r l le other = elim (Bool-cases (leb m d)) [
    | inl within ↦
        let (n, f, nm) = r.near x m l (omega (arith, leb→le m d within)) other in
        (n, expand-found cs (suc d) (record s { next = [] }) s.next x n f, nm)
    | inr beyond ↦ elim ((round-IsKnown d s k).known x (round_reaches d s x m r l le)) [
      | inl same ↦ ground (arith, eq_iff x id)
      | inr (n, f, nd) ↦ (n, f, ground arith)
    ]
  ]

  round_closed :
      (d : ℕ) (s : Search) (y x : String)
      → IsReached d s
      → member y (round d s).seen ≡ true
      → member x (citers_of cs y) ≡ true
      → (member x (round d s).seen || member y (round d s).next) ≡ true
  round_closed d s y x r h c = elim (Bool-cases (member y s.seen)) [
    | inl before ↦ ground (arith, round_sees d s x y r before c)
    | inr new ↦
        ground
          (arith, expand-next cs s.seen y (suc d) (record s { next = [] }) s.next (ground arith))
  ]

  round-IsReached :
      (d : ℕ) (s : Search) → IsKnown cs id d s → IsReached d s → IsReached (suc d) (round d s)
  round-IsReached d s k r = record {
    reached = λ x m l le. round_reaches d s x m r l le;
    near = λ x m l le other. round_near d s x m k r l le other;
    closed = λ y x h c. round_closed d s y x r h c;
  }

  search_near :
      (rounds d : ℕ) (s : Search) (x : String) (m : ℕ)
      → IsKnown cs id d s
      → IsReached d s
      → Leans cs id m x
      → m ≤ d + rounds
      → str_eq x id ≡ false
      → (n : ℕ) × (get x (search_from cs rounds (suc d) s) ≡ some n) × (n ≤ m) × Leans cs id n x
  unfolding search_from
  search_near zero d s x m k r l le other =
      let (n, f, nm) = r.near x m l (omega arith) other in (n, f, nm, k.sound x n f)
  search_near (suc rounds) d s x m k r l le other =
      search_near rounds (suc d) (round d s) x m (round-IsKnown d s k) (round-IsReached d s k r) l
        (omega arith) other

  abbrev first_state : Search
  first_state = record { seen = id ∷ []; next = id ∷ []; found = [] }

  first-IsKnown : IsKnown cs id 0 first_state
  unfolding get
  first-IsKnown = record {
    known = λ x h. inl (ground (arith, eq_iff x id));
    listed = λ x n h. ground arith;
    sound = λ x n h. ground arith;
    fresh = λ x h. subst (λ y. Leans cs id 0 y) (ground (arith, eq_iff x id)) itself;
  }

  only_itself : (x : String) (m : ℕ) → Leans cs id m x → m ≤ 0 → str_eq x id ≡ true
  only_itself x m itself le = ground (arith, eq_iff id id)
  only_itself x m (citing c i source target l) le = ground arith

  first-IsReached : IsReached 0 first_state
  first-IsReached = record {
    reached = λ x m l le. ground (arith, only_itself x m l le);
    near = λ x m l le other. ground (arith, only_itself x m l le);
    closed = λ y x h c. ground arith;
  }

-- Every other clause that leans on the given one by a chain of at most `max_depth` citations is among
-- its dependents, with the length of such a chain that is no longer than the one it is asked for: so
-- its distance there is the shortest.
pub dependents_nearest :
    (g : ReferenceGraph) (id x : String) (max_depth m : ℕ)
    → Leans g.citations id m x
    → m ≤ max_depth
    → str_eq x id ≡ false
    → (n : ℕ) × (get x (dependents_within g id max_depth) ≡ some n)
      × (n ≤ m)
      × Leans g.citations id n x
unfolding dependents_within
dependents_nearest g id x max_depth m l le other =
    search_near g.citations id max_depth 0 (first_state g.citations id) x m
      (first-IsKnown g.citations id) (first-IsReached g.citations id) l (omega arith) other
