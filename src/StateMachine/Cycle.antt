-- ===== src/StateMachine/Cycle.antt =====
-- CYCLE_STATES and CYCLE_TRANSITIONS of src/development_conveyor/state_machine.py.
use development_conveyor.Base.{String, List, [], ◌∷◌}

abbrev pub cycle_states : List String
cycle_states =
    "idle" ∷ "preflight" ∷ "feature_selected" ∷ "branch_preparing" ∷ "feature_in_progress"
    ∷ "feature_review" ∷ "feature_repair" ∷ "feature_accepted" ∷ "integration_pending"
    ∷ "integration_ready" ∷ "integrating" ∷ "integration_validation" ∷ "feature_integrated"
    ∷ "next_feature_selection" ∷ "milestone_gate" ∷ "completed" ∷ "blocked"
    ∷ "human_decision_required" ∷ "failed" ∷ []

abbrev pub cycle_transitions : List (String × List String)
cycle_transitions =
    ("idle", "preflight" ∷ [])
    ∷ (
      "preflight",
      "feature_selected" ∷ "milestone_gate" ∷ "blocked" ∷ "human_decision_required" ∷ "failed" ∷ [],
    )
    ∷ ("feature_selected", "branch_preparing" ∷ "human_decision_required" ∷ "failed" ∷ [])
    ∷ ("branch_preparing", "feature_in_progress" ∷ "human_decision_required" ∷ "failed" ∷ [])
    ∷ (
      "feature_in_progress",
      "feature_review" ∷ "feature_repair" ∷ "feature_accepted" ∷ "human_decision_required"
          ∷ "failed" ∷ [],
    )
    ∷ (
      "feature_review",
      "feature_repair" ∷ "feature_accepted" ∷ "human_decision_required" ∷ "failed" ∷ [],
    )
    ∷ (
      "feature_repair",
      "feature_in_progress" ∷ "feature_review" ∷ "integration_validation"
          ∷ "human_decision_required" ∷ "failed" ∷ [],
    )
    ∷ ("feature_accepted", "integration_pending" ∷ "human_decision_required" ∷ "failed" ∷ [])
    ∷ (
      "integration_pending",
      "integration_ready" ∷ "integrating" ∷ "human_decision_required" ∷ "failed" ∷ [],
    )
    ∷ ("integration_ready", "integrating" ∷ "human_decision_required" ∷ "failed" ∷ [])
    ∷ ("integrating", "integration_validation" ∷ "human_decision_required" ∷ "failed" ∷ [])
    ∷ (
      "integration_validation",
      "feature_integrated" ∷ "feature_repair" ∷ "human_decision_required" ∷ "failed" ∷ [],
    )
    ∷ ("feature_integrated", "next_feature_selection" ∷ "milestone_gate" ∷ "completed" ∷ [])
    ∷ (
      "next_feature_selection",
      "feature_selected" ∷ "milestone_gate" ∷ "blocked" ∷ "human_decision_required" ∷ "completed"
          ∷ [],
    )
    ∷ ("milestone_gate", "completed" ∷ "human_decision_required" ∷ "failed" ∷ [])
    ∷ ("completed", [])
    ∷ ("blocked", "preflight" ∷ "human_decision_required" ∷ "failed" ∷ [])
    ∷ (
      "human_decision_required",
      "preflight" ∷ "branch_preparing" ∷ "feature_in_progress" ∷ "integration_pending"
          ∷ "integration_ready" ∷ "integrating" ∷ "milestone_gate" ∷ "failed" ∷ [],
    )
    ∷ (
      "failed",
      "preflight" ∷ "feature_in_progress" ∷ "integration_pending" ∷ "milestone_gate"
          ∷ "human_decision_required" ∷ [],
    )
    ∷ []
