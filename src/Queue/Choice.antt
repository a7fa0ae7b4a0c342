-- ===== src/Queue/Choice.antt =====
-- How the selections of src/development_conveyor/queue.py fit together.
use mathlib.Core.Path.{subst}
use development_conveyor.Base.{
  are_unique, ℕ, zero, suc, String, Bool, true, false, not, Option, none, some, List, [], ◌∷◌, ◌==◌,
  string_eq, ◌≡◌, refl, sym, ap, ◌∙◌, inl, inr, Bool-cases, &&-true, some-eq, eq_of_beq, beq_refl,
  not-true, ok, select, contains, get_elem?, all-get_elem?, all-contains_names,
}
use development_conveyor.Json.{Fields}
use development_conveyor.Queue.Names.{Casing, complete_statuses, blocked_statuses}
use development_conveyor.Queue.Item.{Milestone, Feature, Files, single}
use development_conveyor.Queue.Load.{FeatureQueue, load}
use development_conveyor.Queue.Query.{
  milestone, feature, features_of, features_for_milestone, dependencies_complete, specified,
  requires_human_decision,
}
use development_conveyor.Queue.Select.{
  Selection, selection_of, as_requested, Readiness, is_eligible, blocked_reason_of, readiness,
  select_next, select_exact, is_in,
}
use development_conveyor.Queue.WellFormed.{feature_ids, load-IsWellFormed, IsWellFormed}
use development_conveyor.Queue.Order.{IsLeast, select_next-IsLeast}

-- The readiness report calls a feature ready exactly if the loop of `ready` takes it.
pub readiness-is_eligible :
    (c : Casing) (files : Files) (q : FeatureQueue) (f : Feature)
    → Readiness.ready (readiness c files q f) ≡ is_eligible c files q f
unfolding readiness blocked_reason_of is_eligible
readiness-is_eligible c files q f = elim (Bool-cases (f.status == "ready")) [
  | inl h ↦
      let e = eq_of_beq {a = f.status} {b = "ready"} h in
      rw (h, ap (λ s. contains s complete_statuses) e, ap (λ s. contains s blocked_statuses) e)
        (elim (Bool-cases (requires_human_decision f)) [
          | inl human ↦ rw human refl
          | inr human ↦ rw human (elim (Bool-cases (dependencies_complete c q f)) [
            | inr depends ↦ rw depends refl
            | inl depends ↦ rw depends (elim (Bool-cases (specified files q f)) [
              | inl written ↦ rw written refl
              | inr written ↦ rw written refl
            ])
          ])
        ])
  | inr h ↦ rw h (elim (Bool-cases (contains f.status complete_statuses)) [
    | inl done ↦ rw done refl
    | inr done ↦ rw done (elim (Bool-cases (contains f.status blocked_statuses)) [
      | inl held ↦ rw held refl
      | inr held ↦ rw held refl
    ])
  ])
]

here_or_later :
    {A : Type 0} (p : A → Bool) (x : A) (xs : List A)
    → p x ≡ true
    → (i : ℕ) {y : A} → get_elem? (x ∷ select p xs) i ≡ some y
    → ((k : ℕ) (z : A)
        → get_elem? (select p xs) k ≡ some z
        → (j : ℕ) × (get_elem? xs j ≡ some z) × (p z ≡ true))
    → (j : ℕ) × (get_elem? (x ∷ xs) j ≡ some y) × (p y ≡ true)
here_or_later p x xs k zero h next = (0, h, ap p (sym (some-eq h)) ∙ k)
here_or_later p x xs k (suc i) {y} h next =
    let (j, found, passes) = next i y h in (suc j, found, passes)

get_elem?-select :
    {A : Type 0} (p : A → Bool) (xs : List A) (i : ℕ) {x : A}
    → get_elem? (select p xs) i ≡ some x
    → (j : ℕ) × (get_elem? xs j ≡ some x) × (p x ≡ true)
get_elem?-select p [] i h = cc h
get_elem?-select p (x ∷ xs) i h = elim (Bool-cases (p x)) [
  | inl k ↦ here_or_later p x xs k i (rw k at h) (λ k z e. get_elem?-select p xs k e)
  | inr k ↦ let (j, found, passes) = get_elem?-select p xs i (rw k at h) in (suc j, found, passes)
]

contains-get_elem? :
    (fs : List Feature) (i : ℕ) {f : Feature}
    → get_elem? fs i ≡ some f
    → contains f.id (feature_ids fs) ≡ true
contains-get_elem? fs i h =
    all-get_elem? (λ f. contains (Feature.id f) (feature_ids fs)) fs i
      (all-contains_names (λ f. Feature.id f) fs) h

-- A name that is not among the IDs selects nothing.
select-absent :
    (name : String) (fs : List Feature)
    → contains name (feature_ids fs) ≡ false
    → select (λ g. Feature.id g == name) fs ≡ []
select-absent name [] h = refl
select-absent name (f ∷ fs) h = elim (Bool-cases (f.id == name)) [
  | inl k ↦ cc (rw k at h)
  | inr k ↦ rw k (select-absent name fs (rw k at h))
]

unique-single :
    (fs : List Feature) (i : ℕ) {f : Feature}
    → are_unique (feature_ids fs) ≡ true
    → get_elem? fs i ≡ some f
    → single (select (λ g. Feature.id g == f.id) fs) ≡ some f
unique-single [] i u h = cc h
unique-single (x ∷ xs) zero {f} u h =
    let (first, later) =
      &&-true (not (contains x.id (feature_ids xs))) (are_unique (feature_ids xs)) u in
    subst (λ g. single (select (λ y. Feature.id y == Feature.id g) (x ∷ xs)) ≡ some g) (some-eq h)
      (rw (beq_refl x.id)
        (rw (select-absent x.id xs (not-true (contains x.id (feature_ids xs)) first)) refl))
unique-single (x ∷ xs) (suc i) {f} u h =
    let (first, later) =
      &&-true (not (contains x.id (feature_ids xs))) (are_unique (feature_ids xs)) u in
    elim (Bool-cases (x.id == f.id)) [
      | inl k ↦ cc (
        not-true (contains x.id (feature_ids xs)) first,
        ap (λ s. contains s (feature_ids xs)) (eq_of_beq {a = x.id} {b = f.id} k)
            ∙ contains-get_elem? xs i h,
      )
      | inr k ↦ rw k (unique-single xs i later h)
    ]

features_of-in :
    (q : FeatureQueue) (m : Option Milestone) (i : ℕ) {f : Feature}
    → get_elem? (features_of q m) i ≡ some f
    → (j : ℕ) × (get_elem? q.features j ≡ some f) × (is_in f m ≡ true)
features_of-in q none i h = cc h
features_of-in q (some m) i h = get_elem?-select (λ f. Feature.milestone f == m.id) q.features i h

features_for_milestone-in :
    (c : Casing) (q : FeatureQueue) (m : String) (i : ℕ) {f : Feature}
    → get_elem? (features_for_milestone c q m) i ≡ some f
    → (j : ℕ) × (get_elem? q.features j ≡ some f) × (is_in f (milestone c q m) ≡ true)
unfolding features_for_milestone
features_for_milestone-in c q m i h = features_of-in q (milestone c q m) i h

-- In a queue that `FeatureQueue` accepts, what `select_next` selects in a milestone can also be requested by
-- its ID: `select_exact` accepts it there and selects the same feature.
pub select_next-select_exact :
    (c : Casing) (files : Files) (path root : Option String) (document : Fields) (q : FeatureQueue)
    (m : String) {s : Selection}
    → load c files path root document ≡ ok q
    → select_next c files q m ≡ some s
    → select_exact c files q m s.feature_id ≡ ok (selection_of as_requested s.feature)
unfolding select_exact feature IsWellFormed IsLeast selection_of
select_next-select_exact c files path root document q m {s} loaded h =
    let (distinct, clear, valid, unique, known) =
      load-IsWellFormed c files path root document loaded in
    let (i, chosen, placed, eligible, least) = select_next-IsLeast c files q m h in
    let (j, listed, inside) = features_for_milestone-in c q m i placed in
    let found =
      ap (λ name. single (select (λ g. Feature.id g == name) q.features))
        (ap (λ t. Selection.feature_id t) chosen)
      ∙ unique-single q.features j unique listed in
    rw found
      (rw inside (rw (readiness-is_eligible c files q (Selection.feature s) ∙ eligible) refl))
