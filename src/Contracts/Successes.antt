-- ===== src/Contracts/Successes.antt =====
-- The classifications of src/development_conveyor/contracts.py that end a workflow well, and the tables
-- of commands and of consistency.
use development_conveyor.Base.{
  String, ◌≡◌, refl, Bool, true, false, List, [], ◌∷◌, all, contains, string_eq,
}
use development_conveyor.Contracts.{
  WorkflowType, queue_reconciliation, feature_preparation, feature_execution, feature_acceptance,
  milestone_integration, milestone_gate, human_decision_resolution, recovery,
}
use development_conveyor.Contracts.Envelope.{workflow_classifications}

-- WORKFLOW_SUCCESS_CLASSIFICATIONS
abbrev pub success_classifications : WorkflowType → List String
success_classifications queue_reconciliation =
    "RECONCILED_READY_WORK" ∷ "RECONCILED_NO_READY_WORK" ∷ "MILESTONE_COMPLETE" ∷ []
success_classifications feature_preparation = "FEATURE_PREPARED" ∷ []
success_classifications feature_execution = "FEATURE_ACCEPTED" ∷ []
success_classifications feature_acceptance = "FEATURE_ACCEPTED" ∷ []
success_classifications milestone_integration = "INTEGRATED" ∷ []
success_classifications milestone_gate = "MILESTONE_GATE_PASSED" ∷ []
success_classifications human_decision_resolution = "HUMAN_GATE_RESOLVED" ∷ []
success_classifications recovery = "RECOVERY_APPLIED" ∷ []

-- A success is a classification of its workflow, and a wait for a person is none.
pub successes-classified :
    (w : WorkflowType)
    → (all (λ s. contains s (workflow_classifications w)) (success_classifications w) ≡ true)
      × (contains "HUMAN_DECISION_REQUIRED" (success_classifications w) ≡ false)
successes-classified queue_reconciliation = (refl, refl)
successes-classified feature_preparation = (refl, refl)
successes-classified feature_execution = (refl, refl)
successes-classified feature_acceptance = (refl, refl)
successes-classified milestone_integration = (refl, refl)
successes-classified milestone_gate = (refl, refl)
successes-classified human_decision_resolution = (refl, refl)
successes-classified recovery = (refl, refl)

pub data CommandCategory : Type 0 where
  configured_required_validation kernel_required_finalization : CommandCategory
  workflow_required_evidence optional_diagnostic status_observation unsupported_command :
      CommandCategory

-- AUTHORITATIVE_COMMAND_CATEGORIES
abbrev pub is_authoritative : CommandCategory → Bool
is_authoritative configured_required_validation = true
is_authoritative kernel_required_finalization = true
is_authoritative workflow_required_evidence = true
is_authoritative _ = false

pub data ConsistencyClassification : Type 0 where
  consistent recoverable_inconsistency human_decision_required : ConsistencyClassification
  corrupt_evidence unsafe_repository_state : ConsistencyClassification
