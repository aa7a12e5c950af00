-- ===== src/Attention/Priority/Order.antt =====
-- priority.py: the list is in order, and has every item of the open work.
use sanhita.Prelude.{
  ℕ, ◌+◌, ◌≡◌, refl, ◌∙◌, String, Bool, true, false, not, ◌&&◌, ◌||◌, List, [], ◌∷◌, ◌++◌, Option,
  count, count-append, all, all-append, map, select, eq_iff, arith, ltb, leb, ◌==◌,
}
use sanhita.Prelude.Order.{text_le_total, text_le_trans, text_le_antisymm}
use sanhita.Prelude.Sort.{sort, IsSorted, sort-IsSorted, count-sort, all-sort}
use sanhita.Prelude.Text.{text_le}
use sanhita.Dates.{Date}
use sanhita.Remediate.Task.{RemediationTask, is_open}
use sanhita.Attention.Health.{needs_attention, RuleHealth, EvidenceHealth}
use sanhita.Attention.Priority.{
  Band, same_band, band_of, Ranked, of_band, task_item, health_item, texts_le, texts_of, ranked_le,
  rules_of, open_items, rank_open_work,
}

texts_le_total : (xs ys : List String) → texts_le xs ys ≡ false → texts_le ys xs ≡ true
texts_le_total [] ys h = ground arith
texts_le_total (x ∷ xs) [] h = refl
texts_le_total (x ∷ xs) (y ∷ ys) h =
    ground (arith, eq_iff x y, eq_iff y x, text_le_total x y, texts_le_total xs ys)

texts_le_trans :
    (xs ys zs : List String) → texts_le xs ys ≡ true → texts_le ys zs ≡ true → texts_le xs zs ≡ true
texts_le_trans [] ys zs h k = refl
texts_le_trans (x ∷ xs) [] zs h k = ground arith
texts_le_trans (x ∷ xs) (y ∷ ys) [] h k = ground arith
texts_le_trans (x ∷ xs) (y ∷ ys) (z ∷ zs) h k = ground (
  arith,
  eq_iff x y,
  eq_iff y z,
  eq_iff x z,
  text_le_trans x y z,
  text_le_antisymm x y,
  texts_le_trans xs ys zs,
)

ranked_le_total : (a b : Ranked) → ranked_le a b ≡ false → ranked_le b a ≡ true
ranked_le_total a b h = score_total a.score b.score (texts_of a) (texts_of b) h
  where
    score_total :
        (m n : ℕ) (xs ys : List String)
        → (ltb n m || ((m == n) && texts_le xs ys)) ≡ false
        → (ltb m n || ((n == m) && texts_le ys xs)) ≡ true
    score_total m n xs ys h = ground (arith, texts_le_total xs ys)

ranked_le_trans :
    (a b c : Ranked) → ranked_le a b ≡ true → ranked_le b c ≡ true → ranked_le a c ≡ true
ranked_le_trans a b c h k =
    score_trans a.score b.score c.score (texts_of a) (texts_of b) (texts_of c) h k
  where
    score_trans :
        (m n o : ℕ) (xs ys zs : List String)
        → (ltb n m || ((m == n) && texts_le xs ys)) ≡ true
        → (ltb o n || ((n == o) && texts_le ys zs)) ≡ true
        → (ltb o m || ((m == o) && texts_le xs zs)) ≡ true
    score_trans m n o xs ys zs h k = ground (arith, texts_le_trans xs ys zs)

-- The higher score comes first, and of two items with one score the earlier clause.
abbrev pub IsInOrder : List Ranked → Type 0
IsInOrder [] = Unit
IsInOrder (x ∷ xs) =
    (all (λ (y : Ranked). leb y.score x.score) xs ≡ true)
    × (all (λ (y : Ranked). not (x.score == y.score) || text_le x.clause_id y.clause_id) xs ≡ true)
    × IsInOrder xs

clause_le :
    (c d : String) (xs ys : List String) → texts_le (c ∷ xs) (d ∷ ys) ≡ true → text_le c d ≡ true
clause_le c d xs ys h = ground (arith, eq_iff c d, text_le_total c d)

tie :
    (m n : ℕ) (texts clauses : Bool)
    → (ltb n m || ((m == n) && texts)) ≡ true
    → (texts ≡ true → clauses ≡ true)
    → (leb n m ≡ true) × ((not (m == n) || clauses) ≡ true)
tie m n texts clauses h le = ground (arith, le)

clause_first :
    (x y : Ranked)
    → ranked_le x y ≡ true
    → (leb y.score x.score ≡ true)
      × ((not (x.score == y.score) || text_le x.clause_id y.clause_id) ≡ true)
clause_first x y h =
    tie x.score y.score (texts_le (texts_of x) (texts_of y)) (text_le x.clause_id y.clause_id) h (
      clause_le x.clause_id y.clause_id (x.obligation_id ∷ x.title ∷ [])
        (y.obligation_id ∷ y.title ∷ []))

first_of :
    (x : Ranked) (xs : List Ranked)
    → all (ranked_le x) xs ≡ true
    → (all (λ (y : Ranked). leb y.score x.score) xs ≡ true)
      × (all (λ (y : Ranked). not (x.score == y.score) || text_le x.clause_id y.clause_id) xs
          ≡ true)
first_of x [] h = (refl, refl)
first_of x (y ∷ ys) h = ground (arith, clause_first x y, first_of x ys)

IsSorted-IsInOrder : (xs : List Ranked) → IsSorted ranked_le xs → IsInOrder xs
IsSorted-IsInOrder [] s = tt
IsSorted-IsInOrder (x ∷ xs) s =
    let (scores, clauses) = first_of x xs s.0 in (scores, clauses, IsSorted-IsInOrder xs s.1)

abbrev is_banded : Ranked → Bool
is_banded i = same_band i.band (band_of i.score)

abbrev in_band : Band → List Ranked → List Ranked
in_band b xs = select (λ (i : Ranked). same_band i.band b) xs

-- No item below a score has a band above that score's.
none_now :
    (n : ℕ) (xs : List Ranked)
    → all is_banded xs ≡ true
    → all (λ (y : Ranked). leb y.score n) xs ≡ true
    → leb 55 n ≡ false
    → in_band Band.now xs ≡ []
none_now n [] b h l = refl
none_now n (x ∷ xs) b h l = ground (arith, none_now n xs)

none_soon :
    (n : ℕ) (xs : List Ranked)
    → all is_banded xs ≡ true
    → all (λ (y : Ranked). leb y.score n) xs ≡ true
    → leb 25 n ≡ false
    → in_band Band.soon xs ≡ []
none_soon n [] b h l = refl
none_soon n (x ∷ xs) b h l = ground (arith, none_soon n xs)

by_band :
    (xs : List Ranked)
    → all is_banded xs ≡ true
    → IsInOrder xs
    → xs ≡ in_band Band.now xs ++ (in_band Band.soon xs ++ in_band Band.when_you_can xs)
by_band [] b o = refl
by_band (x ∷ xs) b o = ground (arith, none_now x.score xs, none_soon x.score xs, by_band xs)

count-map-select :
    {A : Type 0} (p : Ranked → Bool) (f : A → Ranked) (q : A → Bool) (xs : List A)
    → count p (map f (select q xs)) ≡ count (λ x. q x && p (f x)) xs
count-map-select p f q [] = refl
count-map-select p f q (x ∷ xs) = ground (arith, count-map-select p f q xs)

all-map :
    {A : Type 0} (p : Ranked → Bool) (f : A → Ranked) (xs : List A)
    → ((x : A) → p (f x) ≡ true)
    → all p (map f xs) ≡ true
all-map p f [] h = refl
all-map p f (x ∷ xs) h = ground (arith, h x, all-map p f xs)

same_band_refl : (b : Band) → same_band b b ≡ true
same_band_refl Band.now = refl
same_band_refl Band.soon = refl
same_band_refl Band.when_you_can = refl

open_items_banded :
    (tasks : List RemediationTask) (health : Option EvidenceHealth) (base : String) (today : Date)
    → all is_banded (open_items tasks health base today) ≡ true
unfolding open_items task_item health_item
open_items_banded tasks health base today =
    let open_tasks = select (λ (t : RemediationTask). is_open t.status) tasks in
    let needing = select (λ (r : RuleHealth). needs_attention r.signal) (rules_of health) in
    ground (
      arith,
      all-append is_banded (map (task_item base today) open_tasks) (map (health_item base) needing),
      all-map is_banded (task_item base today) open_tasks (λ t. same_band_refl _),
      all-map is_banded (health_item base) needing (λ r. same_band_refl _),
    )

-- The list has the higher score first, and of two items with one score the earlier clause first. It
-- is its three bands one after the other, the most urgent first. It has an item for each open task and
-- for each rule whose records need attention, as often as there are such, and no other.
pub rank_open_work_lem :
    (tasks : List RemediationTask) (health : Option EvidenceHealth) (base : String) (today : Date)
    (p : Ranked → Bool)
    → let w = rank_open_work tasks health base today in
      IsInOrder w.items
      × (w.items ≡ of_band w Band.now ++ (of_band w Band.soon ++ of_band w Band.when_you_can))
      × (count p w.items
          ≡ count (λ (t : RemediationTask). is_open t.status && p (task_item base today t)) tasks
            + count
                (λ (r : RuleHealth). needs_attention r.signal && p (health_item base r))
                (rules_of health))
unfolding rank_open_work open_items of_band
rank_open_work_lem tasks health base today p =
    let items = open_items tasks health base today in
    let open_tasks = select (λ (t : RemediationTask). is_open t.status) tasks in
    let needing = select (λ (r : RuleHealth). needs_attention r.signal) (rules_of health) in
    let in_order =
      IsSorted-IsInOrder (sort ranked_le items)
        (sort-IsSorted ranked_le ranked_le_total ranked_le_trans items) in
    let banded = all-sort ranked_le is_banded items ∙ open_items_banded tasks health base today in
    (
      in_order,
      by_band (sort ranked_le items) banded in_order,
      omega (
        arith,
        count-sort ranked_le p items,
        count-append p (map (task_item base today) open_tasks) (map (health_item base) needing),
        count-map-select p (task_item base today) (λ t. is_open t.status) tasks,
        count-map-select p (health_item base) (λ r. needs_attention r.signal) (rules_of health),
      ),
    )
