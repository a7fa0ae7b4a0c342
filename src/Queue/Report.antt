-- ===== src/Queue/Report.antt =====
-- The state of a milestone's work: `milestone_complete`, `reconciliation_classification` and `summary` of
-- src/development_conveyor/queue.py.
use development_conveyor.Base.{
  ℕ, suc, String, Bool, not, ◌&&◌, ◌||◌, Option, none, some, List, [], ◌∷◌, map, ◌==◌, string_eq,
  if◌then◌else◌, Result, ok, ◌>>=◌, any, all, contains, select, is_nil, is_some, length, lookup,
  insert,
}
use development_conveyor.Queue.Names.{Casing, complete_statuses}
use development_conveyor.Queue.Item.{Milestone, Feature, Files}
use development_conveyor.Queue.Load.{FeatureQueue, QueueError}
use development_conveyor.Queue.Query.{
  milestone, features_for_milestone, active_features, dependencies_complete,
  requires_human_decision,
}
use development_conveyor.Queue.Select.{
  Selection, ready, select_next, integration_candidates, select_integration,
}

pub data Classification : Type 0 where
  invalid_queue reconciled_integration_pending reconciled_ready_work milestone_completed :
      Classification
  human_decision_required legitimately_blocked reconciled_no_ready_work : Classification

abbrev pub is_deferred : Feature → Bool
is_deferred f = contains f.status ("deferred" ∷ "rejected" ∷ [])

abbrev pub is_finished : Feature → Bool
is_finished f = contains f.status complete_statuses

unfoldable pub milestone_complete : Casing → FeatureQueue → String → Bool
unfolding features_for_milestone
milestone_complete c q m =
    let features = select (λ f. not (is_deferred f)) (features_for_milestone c q m) in
    not (is_nil features) && all is_finished features

abbrev pub awaits_human : Casing → FeatureQueue → Feature → Bool
unfolding dependencies_complete
awaits_human c q f =
    f.status == "human_decision_required"
    || (requires_human_decision f && dependencies_complete c q f)

abbrev pub actionable : List Feature → List Feature
actionable fs = select (λ f. not (is_finished f || is_deferred f)) fs

unfoldable pub reconciliation_classification :
    Casing → Files → FeatureQueue → String → Classification
unfolding features_for_milestone milestone integration_candidates ready milestone_complete
    awaits_human
reconciliation_classification c files q m =
    let features = features_for_milestone c q m in
    if not (is_some (milestone c q m))
    then invalid_queue
    else if not (is_nil (integration_candidates c q m))
    then reconciled_integration_pending
    else if not (is_nil (ready c files q m))
    then reconciled_ready_work
    else if milestone_complete c q m
    then milestone_completed
    else if any (awaits_human c q) features
    then human_decision_required
    else if not (is_nil (actionable features))
        && all (λ f. f.status == "blocked") (actionable features)
    then legitimately_blocked
    else reconciled_no_ready_work

pub record Summary : Type 0 where
  pub milestone_found : Bool
  pub configured_milestone : String
  pub resolved_milestone : Option String
  pub feature_count : ℕ
  pub total_feature_count : ℕ
  pub global_feature_count : ℕ
  pub global_milestone_count : ℕ
  pub status_counts : List (String × ℕ)
  pub active_features : List String
  pub completed_features : List String
  pub ready_features : List String
  pub selected_feature : Option String
  pub integration_candidates : List String
  pub selected_integration_feature : Option String
  pub milestone_complete : Bool
  pub reconciliation_classification : Classification

abbrev or_zero : Option ℕ → ℕ
or_zero none = 0
or_zero (some n) = n

abbrev count_statuses : List (String × ℕ) → List Feature → List (String × ℕ)
count_statuses counts [] = counts
count_statuses counts (f ∷ fs) =
    count_statuses (insert f.status (suc (or_zero (lookup f.status counts))) counts) fs

abbrev ids_of : List Feature → List String
ids_of fs = map (λ f. f.id) fs

abbrev selected_id : Option Selection → Option String
selected_id none = none
selected_id (some s) = some (Selection.feature_id s)

abbrev id_of : Option Milestone → Option String
id_of none = none
id_of (some m) = some m.id

unfoldable pub summary : Casing → Files → FeatureQueue → String → Result QueueError Summary
unfolding features_for_milestone milestone integration_candidates ready milestone_complete
    select_next select_integration reconciliation_classification active_features
summary c files q m = do
  let features = features_for_milestone c q m
  integration ← select_integration c q m
  ok (record {
    milestone_found = is_some (milestone c q m);
    configured_milestone = m;
    resolved_milestone = id_of (milestone c q m);
    feature_count = length features;
    total_feature_count = length q.features;
    global_feature_count = length q.features;
    global_milestone_count = length q.milestones;
    status_counts = count_statuses [] features;
    active_features = ids_of (active_features c q (some m));
    completed_features = ids_of (select is_finished features);
    ready_features = if is_some (milestone c q m) then ids_of (ready c files q m) else [];
    selected_feature = selected_id (select_next c files q m);
    integration_candidates = ids_of (integration_candidates c q m);
    selected_integration_feature = selected_id integration;
    milestone_complete = milestone_complete c q m;
    reconciliation_classification = reconciliation_classification c files q m;
  })
