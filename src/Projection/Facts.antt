-- ===== src/Projection/Facts.antt =====
-- The loop over the events in `ProjectionEngine.rebuild` of src/development_conveyor/projection.py: its
-- local variables and the branches that change them. A feature identifier keys a `dict` or a `set`.
use development_conveyor.Base.{
  String, ◌&&◌, ◌||◌, none, some, List, [], ◌∷◌, ◌++◌, ◌==◌, string_eq, lookup, insert, contains,
  if◌then◌else◌,
}
use Prim.Native.String.{◌++◌ as string_append}
use development_conveyor.Json.{Json, null, str, obj, int, Fields, end, json_eq, falsy, member}
use development_conveyor.Dict.{dict, or_null, or_else, value_at, value_or, update_fields}
use development_conveyor.Ledger.Event.{Event}
use development_conveyor.Projection.View.{View, view_step}

abbrev pub workflow_active_state : List (String × String)
workflow_active_state =
    ("queue_reconciliation", "queue_reconciliation")
    ∷ ("feature_preparation", "feature_preparing")
    ∷ ("feature_execution", "feature_running")
    ∷ ("feature_acceptance", "feature_review")
    ∷ ("milestone_integration", "integrating")
    ∷ ("milestone_gate", "milestone_gate")
    ∷ ("human_decision_resolution", "human_decision_required")
    ∷ ("recovery", "queue_reconciliation")
    ∷ []

-- An entry of `historical_integration_outcomes`.
abbrev integration_outcome : Event → Json
integration_outcome e =
    let terminal = or_null (or_else (member "terminal_snapshot" e.payload) (some (obj end))) in
    obj (
      dict (
        ("transaction_id", str e.transaction_id)
        ∷ ("classification", value_at "classification" e.payload)
        ∷ ("feature_id", value_at "feature_id" e.payload)
        ∷ ("accepted_commit", value_at "accepted_feature_commit" e.payload)
        ∷ ("integrated_commit", value_at "integrated_commit" e.payload)
        ∷ ("terminal_head", value_at "head" terminal)
        ∷ ("terminal_repository_clean", value_at "clean" terminal)
        ∷ ("sequence", int e.sequence)
        ∷ []))

-- The local variables of `rebuild`. `transactions` keeps the order of `transaction_order`.
pub record Facts : Type 0 where
  pub transactions : List (String × View)
  pub current_state : Json
  pub current_feature : Json
  pub selected_next_feature : Json
  pub selected_feature_starting_commit : Json
  pub accepted_feature_commit : Json
  pub integration_status : Json
  pub planning_status : Json
  pub human_gate : Json
  pub feature_commits : List (Json × Json)
  pub integrated_features : List Json
  pub historical_integration_outcomes : List Json
  pub warnings : List String
  pub projection_facts : Fields

abbrev pub no_facts : Facts
no_facts = record {
  transactions = [];
  current_state = str "discover";
  current_feature = null;
  selected_next_feature = null;
  selected_feature_starting_commit = null;
  accepted_feature_commit = null;
  integration_status = null;
  planning_status = null;
  human_gate = null;
  feature_commits = [];
  integrated_features = [];
  historical_integration_outcomes = [];
  warnings = [];
  projection_facts = end;
}

abbrev active_state : String → Json → Json
active_state workflow current = elim (lookup workflow workflow_active_state) [
  | none ↦ current
  | some s ↦ str s
]

-- A canonical start takes authority from imported projection facts.
abbrev kept_facts : Json → Fields → Fields
kept_facts payload facts =
    if falsy (value_at "legacy_import" payload) && falsy (value_at "migration_batch" payload)
    then end
    else facts

abbrev enter_feature : Json → Facts → Facts
enter_feature feature f = if falsy feature then f else record f {
  current_feature = feature;
  accepted_feature_commit = or_null (lookup feature f.feature_commits);
  integration_status = if contains feature f.integrated_features then str "passed" else null;
}

abbrev start_facts : Event → View → Facts → Facts
start_facts e v f = enter_feature (value_at "feature_id" e.payload) (record f {
  projection_facts = kept_facts e.payload f.projection_facts;
  current_state = active_state e.workflow_type f.current_state;
})

abbrev failed_facts : Event → View → Facts → Facts
failed_facts e v f = record f {
  warnings = f.warnings ++ string_append "validation_failed:" e.transaction_id ∷ [];
}

abbrev gate_facts : Event → View → Facts → Facts
gate_facts e v f = record f {
  human_gate = or_null (or_else (member "gate" e.payload) (some e.payload));
  current_state = str "human_decision_required";
}

abbrev resolved_facts : Event → View → Facts → Facts
resolved_facts e v f = record f { human_gate = null }

-- `payload.get("next_state", current_state)`
abbrev routed_facts : Event → View → Facts → Facts
routed_facts e v f = record f { current_state = value_or "next_state" e.payload f.current_state }

abbrev commit_feature : Json → Json → List (Json × Json) → List (Json × Json)
commit_feature feature commit commits =
    if falsy feature || falsy commit then commits else insert feature commit commits

abbrev add : Json → List Json → List Json
add feature features =
    if falsy feature || contains feature features then features else feature ∷ features

abbrev integrate : Event → View → Facts → Facts
integrate e v f =
    if e.workflow_type == "milestone_integration"
    then record f {
      integrated_features =
          add (or_null (or_else (member "feature_id" e.payload) (some v.feature_id)))
            f.integrated_features;
      historical_integration_outcomes =
          f.historical_integration_outcomes ++ integration_outcome e ∷ [];
    }
    else f

abbrev completed_facts : Event → View → Facts → Facts
completed_facts e v f = integrate e v (record f {
  current_state = value_or "next_state" e.payload f.current_state;
  current_feature = value_or "feature_id" e.payload f.current_feature;
  selected_next_feature = value_or "selected_feature" e.payload f.selected_next_feature;
  selected_feature_starting_commit =
      value_or "selected_feature_starting_commit" e.payload f.selected_feature_starting_commit;
  accepted_feature_commit = value_or "accepted_feature_commit" e.payload f.accepted_feature_commit;
  feature_commits =
      commit_feature v.feature_id (value_at "accepted_feature_commit" e.payload) f.feature_commits;
  integration_status = value_or "integration_status" e.payload f.integration_status;
  planning_status = value_or "planning_status" e.payload f.planning_status;
  human_gate = value_or "human_merge_gate" e.payload f.human_gate;
})

abbrev merged_facts : Json → Fields → Fields
merged_facts (obj d) facts = update_fields facts d
merged_facts _ facts = facts

abbrev updated_facts : Event → View → Facts → Facts
updated_facts e v f = record f {
  current_state = value_or "current_state" e.payload f.current_state;
  selected_next_feature = value_or "selected_feature" e.payload f.selected_next_feature;
  current_feature = value_or "current_feature" e.payload f.current_feature;
  projection_facts = merged_facts (value_at "projection_facts" e.payload) f.projection_facts;
}

-- The branches of the loop that change a variable.
abbrev pub fact_branches : List (String × (Event → View → Facts → Facts))
fact_branches =
    ("TransactionStarted", start_facts)
    ∷ ("ValidationFailed", failed_facts)
    ∷ ("HumanGateRaised", gate_facts)
    ∷ ("HumanGateResolved", resolved_facts)
    ∷ ("TransactionBlocked", routed_facts)
    ∷ ("TransactionSuperseded", routed_facts)
    ∷ ("TransactionCompleted", completed_facts)
    ∷ ("ProjectionUpdated", updated_facts)
    ∷ []

unfoldable pub fact_step : Event → View → Facts → Facts
fact_step e v f = elim (lookup e.event_type fact_branches) [ none ↦ f | some branch ↦ branch e v f ]

-- One iteration.
unfoldable pub project_event : Facts → Event → Facts
project_event f e =
    let v = view_step e (lookup e.transaction_id f.transactions) in
    record (fact_step e v f) { transactions = insert e.transaction_id v f.transactions }

unfoldable pub project_events : Facts → List Event → Facts
unfolding project_event fact_step view_step
project_events f [] = f
project_events f (e ∷ es) = project_events (project_event f e) es
