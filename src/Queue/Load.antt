-- ===== src/Queue/Load.antt =====
-- `FeatureQueue._validate_and_normalize` of src/development_conveyor/queue.py.
use development_conveyor.Base.{
  are_unique, ℕ, suc, String, not, Option, none, some, List, [], ◌∷◌, map, string_eq, Result, ok,
  err, ◌>>=◌, ◌>>◌, guard, require, contains, select, is_nil, sorted_set,
}
use development_conveyor.Json.{Json, arr, Items, nil, cons, Fields, get_field}
use development_conveyor.Queue.Names.{Casing}
use development_conveyor.Queue.Item.{
  Milestone, Feature, Files, ItemError, read_milestone, read_feature,
}

pub record FeatureQueue : Type 0 where
  pub features : List Feature
  pub milestones : List Milestone
  pub path : Option String
  pub repository_root : Option String

-- The texts of `blocked_reason`, with the values that they show.
pub data BlockedReason : Type 0 where
  completed : String → BlockedReason
  blocked : String → Option Json → BlockedReason
  not_ready : String → BlockedReason
  needs_decision : BlockedReason
  incomplete_dependencies : List String → BlockedReason
  unspecified : BlockedReason

pub data QueueError : Type 0 where
  milestones_not_array features_not_array : QueueError
  bad_milestone : ℕ → ItemError → QueueError
  duplicate_milestones ambiguous_milestones : QueueError
  bad_feature : ℕ → ItemError → QueueError
  duplicate_features : QueueError
  unknown_dependencies : ℕ → List String → QueueError
  -- the raise sites of `select_exact` and `select_integration`
  unknown_feature not_in_milestone : QueueError
  ineligible : Option BlockedReason → QueueError
  several_integrations : List String → QueueError

abbrev pub tell : {A : Type 0} → (ItemError → QueueError) → Result ItemError A → Result QueueError A
tell which m = elim m [ ok a ↦ ok a | err e ↦ err (which e) ]

unfoldable pub read_milestones : Casing → ℕ → Items → Result QueueError (List Milestone)
unfolding read_milestone
read_milestones c i nil = ok []
read_milestones c i (cons raw rest) = do
  item ← tell (bad_milestone i) (read_milestone c raw)
  later ← read_milestones c (suc i) rest
  ok (item ∷ later)

unfoldable pub read_features :
    Casing → Files → Option String → List Milestone → ℕ → Items → Result QueueError (List Feature)
unfolding read_feature
read_features c files root milestones i nil = ok []
read_features c files root milestones i (cons raw rest) = do
  item ← tell (bad_feature i) (read_feature c files root milestones raw)
  later ← read_features c files root milestones (suc i) rest
  ok (item ∷ later)

-- `sorted(set(item["dependencies"]) - feature_set)`
unfoldable pub unknown_in : List String → List String → List String
unfolding sorted_set
unknown_in known dependencies = sorted_set (select (λ d. not (contains d known)) dependencies)

unfoldable pub check_dependencies : List String → ℕ → List Feature → Result QueueError Unit
unfolding unknown_in
check_dependencies known i [] = ok tt
check_dependencies known i (f ∷ fs) = do
  guard (is_nil (unknown_in known f.dependencies))
      (unknown_dependencies i (unknown_in known f.dependencies))
  check_dependencies known (suc i) fs

abbrev pub array_in : Option Json → Option Items
array_in (some (arr xs)) = some xs
array_in _ = none

unfoldable pub load :
    Casing → Files → Option String → Option String → Fields → Result QueueError FeatureQueue
unfolding read_milestones read_features check_dependencies
load c files path root document = do
  raw_milestones ← require (array_in (get_field "milestones" document)) milestones_not_array
  raw_features ← require (array_in (get_field "features" document)) features_not_array
  milestones ← read_milestones c 0 raw_milestones
  guard (are_unique (map (λ m. m.id) milestones)) duplicate_milestones
  guard (are_unique (map (λ m. m.normalized_id) milestones)) ambiguous_milestones
  features ← read_features c files root milestones 0 raw_features
  guard (are_unique (map (λ f. f.id) features)) duplicate_features
  checked ← check_dependencies (map (λ f. f.id) features) 0 features
  ok (record { features = features; milestones = milestones; path = path; repository_root = root })
