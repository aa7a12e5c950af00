-- ===== src/Remediate/Store/Lifecycle.antt =====
-- What a re-check, a hand-made change and a second request do to a store.
use sanhita.Prelude.{
  if_again, ℕ, ◌+◌, String, ◌≡◌, refl, sym, ◌∙◌, ap, Bool, true, false, ◌&&◌, List, [], ◌∷◌, ◌++◌,
  map, Option, some, ok, or_else, str_eq, eq_iff, if◌then◌else◌, arith, Bool-cases, inl, inr, find,
  append_assoc, map-append,
}
use sanhita.Prelude.Dict.{Dict, get, put, values, get-put}
use sanhita.Remediate.Log.{EntryPayload, TaskEntry, Transition, Draft, append, make_entry}
use sanhita.Remediate.Task.{reopened, closed, is_open, RemediationTask}
use sanhita.Remediate.Store.{
  RemediationStore, GapRequest, set_task, log_entry, open_task, new_task, open_for_gap,
}
use sanhita.Remediate.Store.Recheck.{recheck, rechecked_task}
use sanhita.Remediate.Store.Writes.{write_pair}
use sanhita.Remediate.Store.Outcomes.{open_for_gap_cases, concluded}

pub transitions : List TaskEntry → List Transition
transitions es = map (λ e. e.transition) es

-- The transitions that a re-check logs.
abbrev pub recheck_transitions : Bool → List Transition
recheck_transitions true = Transition.rechecked ∷ Transition.reopened ∷ []
recheck_transitions false = Transition.rechecked ∷ Transition.verified ∷ Transition.closed ∷ []

module _ (sha256_hex : EntryPayload → String) (s : RemediationStore) where
  get-write_pair :
      (s : RemediationStore) (id : String) (t : RemediationTask) (d : Draft) (now : ℕ) (j : String)
      → get j (write_pair sha256_hex s id t d now).tasks
        ≡ (if str_eq id j then some t else get j s.tasks)
  unfolding log_entry set_task
  get-write_pair s id t d now j = get-put id j t s.tasks

  transitions-write_pair :
      (s : RemediationStore) (id : String) (t : RemediationTask) (d : Draft) (now : ℕ)
      → transitions (write_pair sha256_hex s id t d now).log
        ≡ transitions s.log ++ d.transition ∷ []
  unfolding log_entry set_task append make_entry transitions
  transitions-write_pair s id t d now = map-append (λ (e : TaskEntry). e.transition) s.log _

  concluded-get :
      (id : String) (t : RemediationTask) (still_failing : Bool) (by : String) (moment : ℕ)
      (j : String)
      → get j (concluded sha256_hex s id t still_failing by moment).0.tasks ≡ (
          if str_eq id j
          then some (concluded sha256_hex s id t still_failing by moment).1
          else get j s.tasks)
  concluded-get id t true by moment j = simp (get-write_pair, if_again)
  concluded-get id t false by moment j = simp (get-write_pair, if_again)

  concluded-transitions :
      (id : String) (t : RemediationTask) (still_failing : Bool) (by : String) (moment : ℕ)
      → transitions (concluded sha256_hex s id t still_failing by moment).0.log
        ≡ transitions s.log ++ recheck_transitions still_failing
  concluded-transitions id t true by moment = simp (transitions-write_pair, append_assoc)
  concluded-transitions id t false by moment = simp (transitions-write_pair, append_assoc)

  -- A re-check of a task that exists always concludes: it reopens the task while the rule still
  -- finds a breach, and closes it otherwise, at the moment of the re-check; it counts the run; it
  -- logs exactly the transitions of that outcome; and it leaves every other task alone.
  pub recheck_lem :
      (id : String) (still_failing : Bool) (by detail : String) (at : Option ℕ) (now : ℕ)
      (b : RemediationTask)
      → get id s.tasks ≡ some b
      → (s' : RemediationStore) × (v : RemediationTask) × (recheck sha256_hex s id still_failing by
            detail at now
          ≡ ok (s', v))
        × (v.status ≡ (if still_failing then reopened else closed))
        × (v.closed_at ≡ (if still_failing then b.closed_at else some (or_else at now)))
        × (v.recheck_count ≡ b.recheck_count + 1)
        × ((j : String) → get j s'.tasks ≡ (if str_eq id j then some v else get j s.tasks))
        × (transitions s'.log ≡ transitions s.log ++ recheck_transitions still_failing)
  recheck_lem id still_failing by detail at now b h =
      let t = rechecked_task sha256_hex b still_failing detail (or_else at now) in
      let r = concluded sha256_hex s id t still_failing by (or_else at now) in
      (
        r.0,
        r.1,
        (unfold recheck in ground arith),
        ground arith,
        ground arith,
        ground arith,
        λ j. concluded-get id t still_failing by (or_else at now) j,
        concluded-transitions id t still_failing by (or_else at now),
      )

  find-put :
      (p : RemediationTask → Bool) (id : String) (t : RemediationTask) (d : Dict RemediationTask)
      → p t ≡ true
      → (u : RemediationTask) × (find p (values (put id t d)) ≡ some u)
  unfolding put values
  find-put p id t [] h = (t, ground arith)
  find-put p id t ((k, w) ∷ d) h = elim (Bool-cases (str_eq k id)) [
    | inl e ↦ (t, rw (e, h))
    | inr n ↦ elim (Bool-cases (p w)) [
      | inl f ↦ (w, rw (n, f))
      | inr f ↦ let (u, g) = find-put p id t d h in (u, rw (n, f) g)
    ]
  ]

find_holds : {A : Type 0} (p : A → Bool) (xs : List A) (x : A) → find p xs ≡ some x → p x ≡ true
find_holds p [] x h = cc
find_holds p (y ∷ ys) x h = ground (arith, find_holds p ys x)

open_task_fits :
    (s : RemediationStore) (gap : String) (t : RemediationTask)
    → open_task s gap ≡ some t
    → (t.gap_id ≡ gap) × (is_open t.status ≡ true)
unfolding open_task
open_task_fits s gap t h = ground (
  arith,
  find_holds (λ (t : RemediationTask). str_eq t.gap_id gap && is_open t.status) (values s.tasks) t
      h,
  eq_iff t.gap_id gap,
)

opens_new :
    (sha256_hex : EntryPayload → String) (s : RemediationStore) (q : GapRequest) (moment : ℕ)
    (d : Draft)
    → (t : RemediationTask) × (open_task
          (write_pair sha256_hex s (new_task s q moment).task_id (new_task s q moment) d moment)
          q.gap_id
        ≡ some t)
unfolding open_task log_entry set_task
opens_new sha256_hex s q moment d =
    find-put sha256_hex s (λ (t : RemediationTask). str_eq t.gap_id q.gap_id && is_open t.status)
      (new_task s q moment).task_id (new_task s q moment) s.tasks
      (unfold new_task in ground (arith, (eq_iff q.gap_id q.gap_id).1 refl))

open_after :
    (sha256_hex : EntryPayload → String) (s : RemediationStore) (q : GapRequest) (now : ℕ)
    → (t : RemediationTask) × (open_task (open_for_gap sha256_hex s q now).0 q.gap_id ≡ some t)
open_after sha256_hex s q now = elim (open_for_gap_cases sha256_hex s q now) [
  | inl (t, h, e) ↦
      (t, ap (λ (x : RemediationStore × RemediationTask). open_task x.0 q.gap_id) e ∙ h)
  | inr (_, e) ↦
      let (t, h) = opens_new sha256_hex s q (or_else q.at now) _ in
      (t, ap (λ (x : RemediationStore × RemediationTask). open_task x.0 q.gap_id) e ∙ h)
]

returns_open :
    (sha256_hex : EntryPayload → String) (s : RemediationStore) (q : GapRequest) (now : ℕ)
    (t : RemediationTask)
    → open_task s q.gap_id ≡ some t
    → open_for_gap sha256_hex s q now ≡ (s, t)
unfolding open_for_gap
returns_open sha256_hex s q now t h = ground arith

-- Raising a gap leaves an open task for it, so raising the same gap again, in whatever words and at
-- whatever time, changes nothing and returns an open task of that gap.
pub open_for_gap_twice :
    (sha256_hex : EntryPayload → String) (s : RemediationStore) (q r : GapRequest) (now later : ℕ)
    → q.gap_id ≡ r.gap_id
    → ((open_for_gap sha256_hex (open_for_gap sha256_hex s q now).0 r later).0
        ≡ (open_for_gap sha256_hex s q now).0)
      × ((open_for_gap sha256_hex (open_for_gap sha256_hex s q now).0 r later).1.gap_id ≡ q.gap_id)
      × (is_open (open_for_gap sha256_hex (open_for_gap sha256_hex s q now).0 r later).1.status
          ≡ true)
open_for_gap_twice sha256_hex s q r now later same =
    let (t, e) = open_after sha256_hex s q now in
    let again : open_task (open_for_gap sha256_hex s q now).0 r.gap_id ≡ some t =
      ap (open_task (open_for_gap sha256_hex s q now).0) (sym same) ∙ e in
    let (gap, still) = open_task_fits (open_for_gap sha256_hex s q now).0 q.gap_id t e in
    let returned : open_for_gap sha256_hex (open_for_gap sha256_hex s q now).0 r later
        ≡ ((open_for_gap sha256_hex s q now).0, t) =
      returns_open sha256_hex (open_for_gap sha256_hex s q now).0 r later t again in
    (
      ap (λ (x : RemediationStore × RemediationTask). x.0) returned,
      ap (λ (x : RemediationStore × RemediationTask). x.1.gap_id) returned ∙ gap,
      ap (λ (x : RemediationStore × RemediationTask). is_open x.1.status) returned ∙ still,
    )
