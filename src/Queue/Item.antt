-- ===== src/Queue/Item.antt =====
-- One milestone or feature of a queue, as `FeatureQueue._validate_and_normalize` of
-- src/development_conveyor/queue.py checks and normalizes it.
use development_conveyor.Base.{
  String, Bool, true, false, not, ◌&&◌, Option, none, some, List, [], ◌∷◌, map, ◌==◌, string_eq,
  if◌then◌else◌, Result, ok, err, ◌>>=◌, ◌>>◌, guard, require, is_some, contains, select, is_blank,
  strip, is_absolute, path_parts,
}
use development_conveyor.Json.{
  Json, json_eq, json_beq, null, bool, str, arr, obj, Items, nil, Fields, get_field,
}
use development_conveyor.Dict.{or_else}
use development_conveyor.Profiles.Delegation.{filled_texts, ProfileError}
use development_conveyor.Profiles.Policy.{validate_feature_execution_policy}
use development_conveyor.Queue.Names.{Casing, normalize_status, normalize_milestone_name}

pub record Milestone : Type 0 where
  pub id : String
  pub normalized_id : String
  -- the object of the queue
  pub entry : Fields

-- The keys that the validation writes are fields; the others stay in the object of the queue.
pub record Feature : Type 0 where
  pub id : String
  pub title : String
  pub status : String
  pub milestone : String
  pub dependencies : List String
  pub accepted_commit : Option String
  pub entry : Fields

-- What the code asks of the file system, of a repository's root and a path below it: whether the resolved
-- path is inside the root, and whether it is a regular file.
pub record Files : Type 0 where
  pub is_inside : String → String → Bool
  pub is_file : String → String → Bool

pub data ItemError : Type 0 where
  not_object empty_id empty_title bad_status empty_milestone unknown_milestone : ItemError
  disagreeing_dependencies dependencies_not_array empty_dependency : ItemError
  empty_commit bad_criteria bad_human_decision : ItemError
  bad_policy : ProfileError → ItemError
  empty_specification unsafe_specification escaping_specification : ItemError

-- A text that is not blank.
abbrev pub filled : Option Json → Option String
filled (some (str s)) = if is_blank s then none else some s
filled _ = none

abbrev pub object_of : Json → Option Fields
object_of (obj d) = some d
object_of _ = none

unfoldable pub read_milestone : Casing → Json → Result ItemError Milestone
unfolding normalize_milestone_name strip
read_milestone c raw = do
  item ← require (object_of raw) not_object
  milestone_id ← require (filled (get_field "id" item)) empty_id
  ok (record {
    id = strip milestone_id;
    normalized_id = normalize_milestone_name c (strip milestone_id);
    entry = item;
  })

-- The value of a list of exactly one.
abbrev pub single {ℓ} : {A : Type ℓ} → List A → Option A
single [] = none
single (x ∷ []) = some x
single (x ∷ y ∷ xs) = none

-- `milestone`
unfoldable pub find_milestone : Casing → List Milestone → String → Option Milestone
unfolding normalize_milestone_name
find_milestone c milestones milestone_id =
    let exact = single (select (λ m. m.id == milestone_id) milestones) in
    let normalized = normalize_milestone_name c milestone_id in
    let close = single (select (λ m. m.normalized_id == normalized) milestones) in
    if is_some exact then exact else close

-- `item.get(key, item.get(other, default))`
abbrev pub get_either : String → String → Json → Fields → Json
get_either key other default item = elim (get_field key item) [
  | some v ↦ v
  | none ↦ elim (get_field other item) [ some v ↦ v | none ↦ default ]
]

abbrev same_when_both : Option Json → Option Json → Bool
same_when_both (some a) (some b) = json_beq a b
same_when_both _ _ = true

abbrev items_in : Json → Option Items
items_in (arr xs) = some xs
items_in _ = none

unfoldable pub read_dependencies : Fields → Result ItemError (List String)
unfolding json_beq strip
read_dependencies item = do
  guard (same_when_both (get_field "dependencies" item) (get_field "depends_on" item))
      disagreeing_dependencies
  items ←
      require (items_in (get_either "dependencies" "depends_on" (arr nil) item))
        dependencies_not_array
  dependencies ← require (filled_texts items) empty_dependency
  ok (map strip dependencies)

-- An absent key and `null` are one; another value is a text that is not blank.
abbrev optional_text : Json → Result ItemError (Option String)
optional_text null = ok none
optional_text (str s) = if is_blank s then err empty_commit else ok (some s)
optional_text _ = err empty_commit

abbrev strip_some : Option String → Option String
unfolding strip
strip_some none = none
strip_some (some s) = some (strip s)

unfoldable pub read_commit : Fields → Result ItemError (Option String)
unfolding strip_some
read_commit item = do
  commit ← optional_text (get_either "accepted_commit" "commit" null item)
  legacy ← optional_text (get_either "commit" "commit" null item)
  ok (strip_some commit)

abbrev pub are_criteria : Option Json → Bool
are_criteria none = true
are_criteria (some null) = true
are_criteria (some (arr xs)) = is_some (filled_texts xs)
are_criteria _ = false

abbrev pub is_human_decision : Option Json → Bool
is_human_decision none = true
is_human_decision (some null) = true
is_human_decision (some (bool b)) = true
is_human_decision _ = false

unfoldable pub check_policy : Casing → Option Json → Result ItemError Unit
unfolding validate_feature_execution_policy
check_policy c none = ok tt
check_policy c (some v) = elim (validate_feature_execution_policy c.lower v) [
  | ok policy ↦ ok tt
  | err e ↦ err (bad_policy e)
]

-- `item.get("spec") or item.get("specification") or item.get("spec_path")`
abbrev pub specification_of : Fields → Option Json
specification_of item =
    or_else (get_field "spec" item)
      (or_else (get_field "specification" item) (get_field "spec_path" item))

-- The path is relative and has no way up.
unfoldable pub is_relative : String → Bool
unfolding path_parts
is_relative s = not (is_absolute s) && not (contains ".." (path_parts s))

abbrev is_inside_root : Files → Option String → String → Bool
is_inside_root files none s = true
is_inside_root files (some root) s = files.is_inside root s

unfoldable pub check_specification : Files → Option String → Option Json → Result ItemError Unit
unfolding is_relative
check_specification files root none = ok tt
check_specification files root (some null) = ok tt
check_specification files root (some v) = do
  specification ← require (filled (some v)) empty_specification
  guard (is_relative specification) unsafe_specification
  guard (is_inside_root files root specification) escaping_specification

unfoldable pub read_feature :
    Casing → Files → Option String → List Milestone → Json → Result ItemError Feature
unfolding strip normalize_status find_milestone read_dependencies read_commit check_policy
    check_specification
read_feature c files root milestones raw = do
  item ← require (object_of raw) not_object
  feature_id ← require (filled (get_field "id" item)) empty_id
  title ←
      require (filled (some (get_either "title" "name" (str (strip feature_id)) item))) empty_title
  status ← require (normalize_status c (get_field "status" item)) bad_status
  milestone_id ← require (filled (get_field "milestone" item)) empty_milestone
  milestone ← require (find_milestone c milestones milestone_id) unknown_milestone
  dependencies ← read_dependencies item
  commit ← read_commit item
  guard (are_criteria (get_field "acceptance_criteria" item)) bad_criteria
  guard (is_human_decision (get_field "requires_human_decision" item)) bad_human_decision
  policy ← check_policy c (get_field "execution_policy" item)
  specification ← check_specification files root (specification_of item)
  ok (record {
    id = strip feature_id;
    title = strip title;
    status = status;
    milestone = milestone.id;
    dependencies = dependencies;
    accepted_commit = commit;
    entry = item;
  })
