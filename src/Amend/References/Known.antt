-- ===== src/Amend/References/Known.antt =====
-- analyse/references.py: what the search has found leans on the clause, by a chain of citations.
use sanhita.Prelude.{
  ℕ, suc, ◌≤◌, ◌≡◌, ◌⊎◌, inl, inr, refl, subst, String, Bool, true, false, ◌&&◌, ◌||◌, List, [],
  ◌∷◌, ◌++◌, none, some, str_eq, eq_iff, if◌then◌else◌, arith, Bool-cases, Option-cases,
}
use sanhita.Prelude.Dict.{Dict, get}
use sanhita.Prelude.Members.{IsIn}
use sanhita.Prelude.Sort.{member}
use sanhita.Amend.References.{Citation, citers_of, Search, visit_all, expand}

-- A chain of `n` citations from a clause to `id`.
pub data Leans (cs : List Citation) (id : String) : ℕ → String → Type 0 where
  itself : Leans cs id 0 id
  citing :
      {n : ℕ} {x y : String}
      → (c : Citation) → IsIn c cs
      → c.source ≡ x
      → c.target ≡ y
      → Leans cs id n y
      → Leans cs id (suc n) x

citers_of-IsIn :
    (cs : List Citation) (x y : String)
    → member x (citers_of cs y) ≡ true
    → (c : Citation) × IsIn c cs × (c.source ≡ x) × (c.target ≡ y)
unfolding citers_of
citers_of-IsIn [] x y h = ground arith
citers_of-IsIn (c ∷ cs) x y h = elim (Bool-cases (str_eq c.target y && str_eq c.source x)) [
  | inl e ↦ (c, IsIn.here, ground (arith, eq_iff c.source x), ground (arith, eq_iff c.target y))
  | inr n ↦
      let (d, m, source, target) =
        citers_of-IsIn cs x y (ground (arith, eq_iff c.source x, eq_iff x c.source)) in
      (d, IsIn.there m, source, target)
]

pub in_citers_of :
    (cs : List Citation) (c : Citation) → IsIn c cs → member c.source (citers_of cs c.target) ≡ true
unfolding citers_of
in_citers_of [] c m = elim m [ ]
in_citers_of (_ ∷ cs) c IsIn.here =
    ground (arith, eq_iff c.target c.target, eq_iff c.source c.source)
in_citers_of (d ∷ cs) c (IsIn.there m) = ground (arith, in_citers_of cs c m)

pub get-append :
    (x : String) (d : Dict ℕ) (k : String) (n : ℕ)
    → get x (d ++ (k, n) ∷ [])
      ≡ elim (get x d) [ none ↦ if str_eq k x then some n else none | some m ↦ some m ]
unfolding get
get-append x [] k n = ground arith
get-append x ((j, m) ∷ d) k n = ground (arith, get-append x d k n)

module _ (cs : List Citation) (id : String) where
  -- What is seen is the clause itself or found; what is found at a distance has a chain of that
  -- length; and what comes next has one of the last length.
  pub record IsKnown (d : ℕ) (s : Search) : Type 0 where
    pub known :
        (x : String)
        → member x s.seen ≡ true
        → (x ≡ id) ⊎ ((n : ℕ) × (get x s.found ≡ some n) × (n ≤ d))
    pub listed : (x : String) (n : ℕ) → get x s.found ≡ some n → member x s.seen ≡ true
    pub sound : (x : String) (n : ℕ) → get x s.found ≡ some n → Leans cs id n x
    pub fresh : (x : String) → member x s.next ≡ true → Leans cs id d x

  added-known :
      (d : ℕ) (s : Search) (citer : String)
      → IsKnown d s
      → member citer s.seen ≡ false
      → (x : String) → (str_eq x citer || member x s.seen) ≡ true
      → (x ≡ id) ⊎ ((n : ℕ) × (get x (s.found ++ (citer, d) ∷ []) ≡ some n) × (n ≤ d))
  added-known d s citer k e x h = elim (Bool-cases (member x s.seen)) [
    | inl before ↦ elim (k.known x before) [
      | inl same ↦ inl same
      | inr (n, f, le) ↦ inr (n, ground (arith, get-append x s.found citer d), le)
    ]
    | inr new ↦ elim (Option-cases (get x s.found)) [
      | inl nothing ↦ inr (
        d,
        ground (arith, get-append x s.found citer d, eq_iff x citer, eq_iff citer x),
        omega arith,
      )
      | inr (n, f) ↦ ground (arith, k.listed x n f)
    ]
  ]

  added_sound :
      (d : ℕ) (s : Search) (citer : String)
      → IsKnown d s
      → Leans cs id d citer
      → (x : String) (n : ℕ) → get x (s.found ++ (citer, d) ∷ []) ≡ some n
      → Leans cs id n x
  added_sound d s citer k l x n h = elim (Option-cases (get x s.found)) [
    | inr (m, f) ↦ k.sound x n (ground (arith, get-append x s.found citer d))
    | inl nothing ↦
        let same : citer ≡ x = ground (arith, get-append x s.found citer d, eq_iff citer x) in
        let depth : d ≡ n = ground (arith, get-append x s.found citer d) in
        subst (λ y. Leans cs id n y) same (subst (λ m. Leans cs id m citer) depth l)
  ]

  added-listed :
      (d : ℕ) (s : Search) (citer : String)
      → IsKnown d s
      → (x : String) (n : ℕ) → get x (s.found ++ (citer, d) ∷ []) ≡ some n
      → (str_eq x citer || member x s.seen) ≡ true
  added-listed d s citer k x n h = elim (Option-cases (get x s.found)) [
    | inr (m, f) ↦ ground (arith, k.listed x m f)
    | inl nothing ↦ ground (arith, get-append x s.found citer d, eq_iff citer x, eq_iff x citer)
  ]

  added-fresh :
      (d : ℕ) (s : Search) (citer : String)
      → IsKnown d s
      → Leans cs id d citer
      → (x : String) → (str_eq x citer || member x s.next) ≡ true
      → Leans cs id d x
  added-fresh d s citer k l x h = elim (Bool-cases (member x s.next)) [
    | inl before ↦ k.fresh x before
    | inr new ↦ subst (λ y. Leans cs id d y) (ground (arith, eq_iff x citer)) l
  ]

  visited-IsKnown :
      (d : ℕ) (s : Search) (citer : String)
      → IsKnown d s
      → Leans cs id d citer
      → (b : Bool) → member citer s.seen ≡ b
      → IsKnown d (
          if b then s else record {
            seen = citer ∷ s.seen;
            next = citer ∷ s.next;
            found = s.found ++ (citer, d) ∷ [];
          })
  visited-IsKnown d s citer k l true e = k
  visited-IsKnown d s citer k l false e = record {
    known = added-known d s citer k e;
    listed = added-listed d s citer k;
    sound = added_sound d s citer k l;
    fresh = added-fresh d s citer k l;
  }

  visit_all-IsKnown :
      (d : ℕ) (s : Search) (citers : List String)
      → IsKnown d s
      → ((x : String) → member x citers ≡ true → Leans cs id d x)
      → IsKnown d (visit_all d s citers)
  unfolding visit_all
  visit_all-IsKnown d s [] k each = k
  visit_all-IsKnown d s (x ∷ xs) k each =
      visit_all-IsKnown d
        (if member x s.seen
          then s
          else record { seen = x ∷ s.seen; next = x ∷ s.next; found = s.found ++ (x, d) ∷ [] })
        xs (visited-IsKnown d s x k (each x (ground (arith, eq_iff x x))) (member x s.seen) refl)
        (λ y h. each y (ground arith))

  citer-Leans :
      (d : ℕ) (x y : String)
      → Leans cs id d y
      → member x (citers_of cs y) ≡ true
      → Leans cs id (suc d) x
  citer-Leans d x y l h =
      let (c, m, source, target) = citers_of-IsIn cs x y h in citing c m source target l

  pub expand-IsKnown :
      (d : ℕ) (s : Search) (nodes : List String)
      → IsKnown (suc d) s
      → ((y : String) → member y nodes ≡ true → Leans cs id d y)
      → IsKnown (suc d) (expand cs (suc d) s nodes)
  unfolding expand
  expand-IsKnown d s [] k each = k
  expand-IsKnown d s (y ∷ ys) k each =
      expand-IsKnown d (visit_all (suc d) s (citers_of cs y)) ys
        (visit_all-IsKnown (suc d) s (citers_of cs y) k
          (λ x h. citer-Leans d x y (each y (ground (arith, eq_iff y y))) h))
        (λ z h. each z (ground arith))
