-- ===== src/Amend/References/Growth.antt =====
-- analyse/references.py: a round only adds to what is seen and found.
use sanhita.Prelude.{
  ℕ, ◌≡◌, inl, inr, subst, String, Bool, true, not, ◌||◌, List, [], ◌∷◌, ◌++◌, some, str_eq, eq_iff,
  if◌then◌else◌, arith, Bool-cases,
}
use sanhita.Prelude.Dict.{get}
use sanhita.Prelude.Sort.{member}
use sanhita.Amend.References.{Citation, citers_of, Search, visit_all, expand}
use sanhita.Amend.References.Known.{get-append}

-- The search state after one citer.
abbrev visited : ℕ → Search → String → Search
visited d s y =
    if member y s.seen
    then s
    else record { seen = y ∷ s.seen; next = y ∷ s.next; found = s.found ++ (y, d) ∷ [] }

visit_all-found :
    (d : ℕ) (s : Search) (citers : List String) (x : String) (n : ℕ)
    → get x s.found ≡ some n
    → get x (visit_all d s citers).found ≡ some n
unfolding visit_all
visit_all-found d s [] x n h = h
visit_all-found d s (y ∷ ys) x n h =
    visit_all-found d (visited d s y) ys x n (ground (arith, get-append x s.found y d))

pub expand-found :
    (cs : List Citation) (d : ℕ) (s : Search) (nodes : List String) (x : String) (n : ℕ)
    → get x s.found ≡ some n
    → get x (expand cs d s nodes).found ≡ some n
unfolding expand
expand-found cs d s [] x n h = h
expand-found cs d s (y ∷ ys) x n h =
    expand-found cs d (visit_all d s (citers_of cs y)) ys x n
      (visit_all-found d s (citers_of cs y) x n h)

visit_all-seen :
    (d : ℕ) (s : Search) (citers : List String) (x : String)
    → (member x s.seen || member x citers) ≡ true
    → member x (visit_all d s citers).seen ≡ true
unfolding visit_all
visit_all-seen d s [] x h = ground arith
visit_all-seen d s (y ∷ ys) x h = visit_all-seen d (visited d s y) ys x (ground (arith, eq_iff x y))

pub expand-seen :
    (cs : List Citation) (d : ℕ) (s : Search) (nodes : List String) (x : String)
    → member x s.seen ≡ true
    → member x (expand cs d s nodes).seen ≡ true
unfolding expand
expand-seen cs d s [] x h = h
expand-seen cs d s (y ∷ ys) x h =
    expand-seen cs d (visit_all d s (citers_of cs y)) ys x
      (visit_all-seen d s (citers_of cs y) x (ground arith))

pub expand-citers :
    (cs : List Citation) (d : ℕ) (s : Search) (nodes : List String) (x y : String)
    → member y nodes ≡ true
    → member x (citers_of cs y) ≡ true
    → member x (expand cs d s nodes).seen ≡ true
unfolding expand
expand-citers cs d s [] x y h c = ground arith
expand-citers cs d s (z ∷ zs) x y h c = elim (Bool-cases (str_eq y z)) [
  | inl e ↦ expand-seen cs d (visit_all d s (citers_of cs z)) zs x (
      visit_all-seen d s (citers_of cs z) x
        (ground (arith, subst (λ w. member x (citers_of cs w) ≡ true) ((eq_iff y z).0 e) c)))
  | inr n ↦ expand-citers cs d (visit_all d s (citers_of cs z)) zs x y (ground arith) c
]

-- What was seen in a round was seen before it, or comes next.
abbrev was_new : List String → String → Search → Bool
was_new before x s = not (member x s.seen) || (member x before || member x s.next)

visit_all-next :
    (before : List String) (x : String) (d : ℕ) (s : Search) (citers : List String)
    → was_new before x s ≡ true
    → was_new before x (visit_all d s citers) ≡ true
unfolding visit_all
visit_all-next before x d s [] h = h
visit_all-next before x d s (y ∷ ys) h = visit_all-next before x d (visited d s y) ys (ground arith)

pub expand-next :
    (cs : List Citation) (before : List String) (x : String) (d : ℕ) (s : Search)
    (nodes : List String)
    → was_new before x s ≡ true
    → was_new before x (expand cs d s nodes) ≡ true
unfolding expand
expand-next cs before x d s [] h = h
expand-next cs before x d s (y ∷ ys) h =
    expand-next cs before x d (visit_all d s (citers_of cs y)) ys
      (visit_all-next before x d s (citers_of cs y) h)
