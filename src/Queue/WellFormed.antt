-- ===== src/Queue/WellFormed.antt =====
-- What holds of every queue that `FeatureQueue` of src/development_conveyor/queue.py accepts.
use mathlib.Core.Path.{subst}
use development_conveyor.Base.{
  are_unique, ℕ, suc, String, Bool, true, false, not, ◌&&◌, Option, none, some, List, [], ◌∷◌, map,
  ◌==◌, string_eq, ◌≡◌, refl, sym, ap, ◌∙◌, inl, inr, Bool-cases, &&-true, some-eq, if◌then◌else◌,
  Result, ok, err, bind-ok, guard-bind-ok, require-bind-ok, ok-eq, all, select, contains, is_nil,
  is_nil_lem, none-select, all-select, all-contains_names, all-weaken, is_some, is_blank, strip,
  sorted_set, all-sorted_set,
}
use development_conveyor.Json.{
  Json, arr, Items, nil, cons, Fields, get_field, null, bool, int, fraction, str, obj,
}
use development_conveyor.Queue.Names.{
  Casing, normalize_status, normalized_status, supported_statuses, normalize_milestone_name,
}
use development_conveyor.Queue.Item.{
  not_object, empty_id, empty_title, bad_status, empty_milestone, unknown_milestone, bad_criteria,
  bad_human_decision, filled, object_of, get_either, are_criteria, is_human_decision,
  read_dependencies, read_commit, check_policy, check_specification, specification_of, Milestone,
  Feature, Files, ItemError, single, find_milestone, read_feature,
}
use development_conveyor.Queue.Load.{
  FeatureQueue, QueueError, tell, bad_feature, read_milestones, read_features, unknown_in,
  check_dependencies, load, array_in, milestones_not_array, features_not_array,
  duplicate_milestones, ambiguous_milestones, duplicate_features, unknown_dependencies,
}

abbrev pub milestone_ids : List Milestone → List String
milestone_ids ms = map (λ m. m.id) ms

abbrev pub feature_ids : List Feature → List String
feature_ids fs = map (λ f. f.id) fs

-- The status is supported and the milestone is one of the queue's.
abbrev pub is_valid_in : List Milestone → Feature → Bool
is_valid_in ms f = contains f.status supported_statuses && contains f.milestone (milestone_ids ms)

-- IDs are unique, also the normalized IDs of milestones; every feature has a supported status, a milestone
-- of the queue, and only features of the queue as dependencies.
unfoldable pub IsWellFormed : FeatureQueue → Type 0
IsWellFormed q =
    (are_unique (milestone_ids q.milestones) ≡ true)
    × (are_unique (map (λ m. m.normalized_id) q.milestones) ≡ true)
    × (all (is_valid_in q.milestones) q.features ≡ true)
    × (are_unique (feature_ids q.features) ≡ true)
    × (all (λ f. all (λ d. contains d (feature_ids q.features)) f.dependencies) q.features ≡ true)

chosen :
    (s : String) (b : Bool) {t : String}
    → (if b then some s else none) ≡ some t
    → contains s supported_statuses ≡ b
    → contains t supported_statuses ≡ true
chosen s b h k = elim (Bool-cases b) [
  | inl taken ↦ ap (λ z. contains z supported_statuses) (sym (some-eq (rw taken at h))) ∙ k ∙ taken
  | inr taken ↦ cc (rw taken at h)
]

normalize_status-contains :
    (c : Casing) (v : Option Json) {s : String}
    → normalize_status c v ≡ some s
    → contains s supported_statuses ≡ true
unfolding normalize_status
normalize_status-contains c none h = cc h
normalize_status-contains c (some (str t)) h = elim (Bool-cases (is_blank t)) [
  | inl blank ↦ cc (rw blank at h)
  | inr filled ↦
      chosen (normalized_status c t) (contains (normalized_status c t) supported_statuses)
        (rw filled at h) refl
]
normalize_status-contains c (some null) h = cc h
normalize_status-contains c (some (bool b)) h = cc h
normalize_status-contains c (some (int n)) h = cc h
normalize_status-contains c (some (fraction n p)) h = cc h
normalize_status-contains c (some (arr xs)) h = cc h
normalize_status-contains c (some (obj d)) h = cc h

pub single-all {ℓ} :
    {A : Type ℓ} (p : A → Bool) (xs : List A) {x : A}
    → all p xs ≡ true
    → single xs ≡ some x
    → p x ≡ true
single-all p [] h e = cc e
single-all p (x ∷ []) h e = cc (e, (&&-true (p x) true h).0)
single-all p (x ∷ y ∷ xs) h e = cc e

single-contains :
    (test : Milestone → Bool) (ms : List Milestone) {m : Milestone}
    → single (select test ms) ≡ some m
    → contains m.id (milestone_ids ms) ≡ true
single-contains test ms =
    single-all (λ m. contains (Milestone.id m) (milestone_ids ms)) (select test ms)
      (all-select (λ m. contains (Milestone.id m) (milestone_ids ms)) test ms
        (all-contains_names (λ m. Milestone.id m) ms))

find_milestone-contains :
    (c : Casing) (ms : List Milestone) (name : String) {m : Milestone}
    → find_milestone c ms name ≡ some m
    → contains m.id (milestone_ids ms) ≡ true
unfolding find_milestone
find_milestone-contains c ms name h =
    elim (Bool-cases (is_some (single (select (λ m. Milestone.id m == name) ms)))) [
      | inl exact ↦ single-contains (λ m. Milestone.id m == name) ms (rw exact at h)
      | inr other ↦
          single-contains (λ m. Milestone.normalized_id m == normalize_milestone_name c name) ms
            (rw other at h)
    ]

is_nil-unknown_in :
    (known dependencies : List String)
    → is_nil (unknown_in known dependencies) ≡ all (λ d. not (not (contains d known))) dependencies
unfolding unknown_in
is_nil-unknown_in known dependencies =
    is_nil_lem (sorted_set (select (λ d. not (contains d known)) dependencies))
    ∙ all-sorted_set (λ d. false) (select (λ d. not (contains d known)) dependencies)
    ∙ none-select (λ d. not (contains d known)) dependencies

double_negation : (b : Bool) → not (not b) ≡ true → b ≡ true
double_negation true h = refl
double_negation false h = cc

check_dependencies-all :
    (known : List String) (i : ℕ) (fs : List Feature)
    → check_dependencies known i fs ≡ ok tt
    → all (λ f. all (λ d. contains d known) (Feature.dependencies f)) fs ≡ true
unfolding check_dependencies
check_dependencies-all known i [] h = refl
check_dependencies-all known i (f ∷ fs) h =
    let (first, later) =
      guard-bind-ok (is_nil (unknown_in known f.dependencies))
        (unknown_dependencies i (unknown_in known f.dependencies)) _ h in
    rw
      (all-weaken (λ d. not (not (contains d known))) (λ d. contains d known) f.dependencies
        (λ d. double_negation (contains d known))
        (sym (is_nil-unknown_in known f.dependencies) ∙ first))
      (check_dependencies-all known (suc i) fs later)

read_feature-is_valid_in :
    (c : Casing) (files : Files) (root : Option String) (ms : List Milestone) (raw : Json)
    {f : Feature}
    → read_feature c files root ms raw ≡ ok f
    → is_valid_in ms f ≡ true
unfolding read_feature
read_feature-is_valid_in c files root ms raw h =
    let (item, is_object, h1) = require-bind-ok (object_of raw) not_object _ h in
    let (feature_id, identified, h2) =
      require-bind-ok (filled (get_field "id" item)) empty_id _ h1 in
    let (title, titled, h3) =
      require-bind-ok (filled (some (get_either "title" "name" (str (strip feature_id)) item)))
        empty_title _ h2 in
    let (status, read, h4) =
      require-bind-ok (normalize_status c (get_field "status" item)) bad_status _ h3 in
    let (milestone_id, named, h5) =
      require-bind-ok (filled (get_field "milestone" item)) empty_milestone _ h4 in
    let (m, found, h6) =
      require-bind-ok (find_milestone c ms milestone_id) unknown_milestone _ h5 in
    let (dependencies, depends, h7) = bind-ok (read_dependencies item) _ h6 in
    let (commit, committed, h8) = bind-ok (read_commit item) _ h7 in
    let (criteria, h9) =
      guard-bind-ok (are_criteria (get_field "acceptance_criteria" item)) bad_criteria _ h8 in
    let (human, h10) =
      guard-bind-ok (is_human_decision (get_field "requires_human_decision" item))
        bad_human_decision _ h9 in
    let (policy, checked, h11) =
      bind-ok (check_policy c (get_field "execution_policy" item)) _ h10 in
    let (specification, specified, out) =
      bind-ok (check_specification files root (specification_of item)) _ h11 in
    subst (λ f. is_valid_in ms f ≡ true) (ok-eq out)
      (rw (normalize_status-contains c (get_field "status" item) read)
        (find_milestone-contains c ms milestone_id found))

tell-ok :
    {A : Type 0} (which : ItemError → QueueError) (m : Result ItemError A) {a : A}
    → tell which m ≡ ok a
    → m ≡ ok a
tell-ok which (ok a) h = ap ok (ok-eq h)
tell-ok which (err e) h = cc h

read_features-all :
    (c : Casing) (files : Files) (root : Option String) (ms : List Milestone) (i : ℕ) (raw : Items)
    {fs : List Feature}
    → read_features c files root ms i raw ≡ ok fs
    → all (is_valid_in ms) fs ≡ true
unfolding read_features
read_features-all c files root ms i nil h = ap (all (is_valid_in ms)) (sym (ok-eq h))
read_features-all c files root ms i (cons raw rest) h =
    let (f, read, h1) = bind-ok (tell (bad_feature i) (read_feature c files root ms raw)) _ h in
    let (later, remaining, out) =
      bind-ok (read_features c files root ms (suc i) rest) (λ later. ok (f ∷ later)) h1 in
    ap (all (is_valid_in ms)) (sym (ok-eq out))
    ∙ rw
        (read_feature-is_valid_in c files root ms raw
          (tell-ok (bad_feature i) (read_feature c files root ms raw) read))
        (read_features-all c files root ms (suc i) rest remaining)

-- Every queue that `FeatureQueue` accepts has unique feature IDs, unique milestone IDs, also when normalized,
-- and each of its features has a supported status, a milestone of the queue, and dependencies that are all
-- features of the queue.
pub load-IsWellFormed :
    (c : Casing) (files : Files) (path root : Option String) (document : Fields) {q : FeatureQueue}
    → load c files path root document ≡ ok q
    → IsWellFormed q
unfolding load IsWellFormed
load-IsWellFormed c files path root document h =
    let (raw_milestones, is_array, h1) =
      require-bind-ok (array_in (get_field "milestones" document)) milestones_not_array _ h in
    let (raw_features, is_array_too, h2) =
      require-bind-ok (array_in (get_field "features" document)) features_not_array _ h1 in
    let (ms, milestones_read, h3) = bind-ok (read_milestones c 0 raw_milestones) _ h2 in
    let (distinct, h4) = guard-bind-ok (are_unique (milestone_ids ms)) duplicate_milestones _ h3 in
    let (clear, h5) =
      guard-bind-ok (are_unique (map (λ m. Milestone.normalized_id m) ms)) ambiguous_milestones _
        h4 in
    let (fs, features_read, h6) = bind-ok (read_features c files root ms 0 raw_features) _ h5 in
    let (unique, h7) = guard-bind-ok (are_unique (feature_ids fs)) duplicate_features _ h6 in
    let (done, checked, out) = bind-ok (check_dependencies (feature_ids fs) 0 fs) _ h7 in
    subst IsWellFormed (ok-eq out) (
      distinct,
      clear,
      read_features-all c files root ms 0 raw_features features_read,
      unique,
      check_dependencies-all (feature_ids fs) 0 fs checked,
    )
