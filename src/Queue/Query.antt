-- ===== src/Queue/Query.antt =====
-- What a queue tells of a milestone and of a feature: the methods of `FeatureQueue` in
-- src/development_conveyor/queue.py before the selections.
use development_conveyor.Base.{
  String, Bool, true, false, not, ◌&&◌, ◌||◌, Option, none, some, List, [], ◌==◌, string_eq,
  if◌then◌else◌, all, contains, select, is_some, is_substring,
}
use development_conveyor.Json.{
  Json, bool, str, arr, obj, Items, nil, cons, get_field, is_text, truthy, keys,
}
use development_conveyor.Dict.{value_or}
use development_conveyor.Queue.Names.{Casing, complete_statuses, active_statuses}
use development_conveyor.Queue.Item.{
  Milestone, Feature, Files, single, find_milestone, specification_of, is_relative,
}
use development_conveyor.Queue.Load.{FeatureQueue}

unfoldable pub milestone : Casing → FeatureQueue → String → Option Milestone
unfolding find_milestone
milestone c q milestone_id = find_milestone c q.milestones milestone_id

unfoldable pub feature : FeatureQueue → String → Option Feature
feature q feature_id = single (select (λ f. f.id == feature_id) q.features)

abbrev pub features_of : FeatureQueue → Option Milestone → List Feature
features_of q none = []
features_of q (some m) = select (λ f. f.milestone == m.id) q.features

unfoldable pub features_for_milestone : Casing → FeatureQueue → String → List Feature
unfolding milestone
features_for_milestone c q milestone_id = features_of q (milestone c q milestone_id)

unfoldable pub active_features : Casing → FeatureQueue → Option String → List Feature
unfolding features_for_milestone
active_features c q none = select (λ f. contains f.status active_statuses) q.features
active_features c q (some m) =
    select (λ f. contains f.status active_statuses) (features_for_milestone c q m)

abbrev is_item : String → Items → Bool
is_item s nil = false
is_item s (cons v rest) = is_text (some v) s || is_item s rest

-- `text in value`; the values on which Python raises (a number, a Boolean, `null`) hold nothing.
unfoldable pub holds_text : String → Json → Bool
unfolding is_substring
holds_text s (arr xs) = is_item s xs
holds_text s (obj d) = contains s (keys d)
holds_text s (str t) = is_substring s t
holds_text s _ = false

abbrev lists_integrated : String → Option Milestone → Bool
unfolding holds_text
lists_integrated s none = false
lists_integrated s (some m) = holds_text s (value_or "integrated_features" (obj m.entry) (arr nil))

abbrev is_text_field : Option Json → Bool
is_text_field (some (str s)) = true
is_text_field _ = false

-- The integration of a dependency is recorded in the feature and in its milestone.
unfoldable pub is_integrated : Casing → FeatureQueue → Feature → Bool
unfolding milestone lists_integrated
is_integrated c q f =
    is_text (get_field "integration_status" f.entry) "passed"
    && is_text_field (get_field "integrated_commit" f.entry)
    && lists_integrated f.id (milestone c q f.milestone)

abbrev is_complete : Casing → FeatureQueue → Option Feature → Bool
unfolding is_integrated
is_complete c q none = false
is_complete c q (some f) =
    contains f.status complete_statuses && (not (f.status == "integrated") || is_integrated c q f)

unfoldable pub dependency_complete : Casing → FeatureQueue → String → Bool
unfolding feature is_complete
dependency_complete c q dependency_id = is_complete c q (feature q dependency_id)

unfoldable pub dependencies_complete : Casing → FeatureQueue → Feature → Bool
unfolding dependency_complete
dependencies_complete c q f = all (dependency_complete c q) f.dependencies

abbrev has_items : Option Json → Bool
has_items (some (arr (cons x xs))) = true
has_items _ = false

abbrev is_specified_at : Files → Option String → Option Json → Bool
unfolding is_relative
is_specified_at files none v = false
is_specified_at files (some root) (some (str s)) =
    not (s == "") && is_relative s && files.is_inside root s && files.is_file root s
is_specified_at files (some root) _ = false

-- `_specified`
unfoldable pub specified : Files → FeatureQueue → Feature → Bool
unfolding is_specified_at
specified files q f =
    let specification = specification_of f.entry in
    let criteria = has_items (get_field "acceptance_criteria" f.entry) in
    if is_some q.path
    then is_specified_at files q.repository_root specification && criteria
    else truthy specification && criteria

abbrev pub requires_human_decision : Feature → Bool
requires_human_decision f = elim (get_field "requires_human_decision" f.entry) [
  | some (bool b) ↦ b
  | _ ↦ false
]
