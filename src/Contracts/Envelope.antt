-- ===== src/Contracts/Envelope.antt =====
-- `SessionResultEnvelope` of src/development_conveyor/contracts.py and the classifications of workflows.
use Prim.Native.Nat.{◌^◌}
use development_conveyor.Base.{
  String, Bool, true, false, not, ◌||◌, Option, none, some, List, [], ◌∷◌, ◌==◌, nat_eq, string_eq,
  if◌then◌else◌, Result, ok, err, ◌>>=◌, ◌>>◌, guard, require, all, contains, is_some, same_texts,
}
use development_conveyor.Json.{
  Json, null, bool, int, fraction, pos, str, arr, obj, Items, nil, cons, Fields, get_field, keys,
}
use development_conveyor.Dict.{dict, text_array, text_or_null}
use development_conveyor.Contracts.{
  WorkflowType, queue_reconciliation, feature_preparation, feature_execution, feature_acceptance,
  milestone_integration, milestone_gate, human_decision_resolution, recovery, workflow_value,
  workflow_type,
}
use development_conveyor.Mutation.{MutationError, normalized_paths}
use development_conveyor.Warning.{WarningEvidenceError, normalize_warning_evidence}

-- `WORKFLOW_CLASSIFICATIONS`
abbrev pub workflow_classifications : WorkflowType → List String
workflow_classifications queue_reconciliation =
    "RECONCILED_READY_WORK" ∷ "RECONCILED_NO_READY_WORK" ∷ "HUMAN_DECISION_REQUIRED"
    ∷ "MILESTONE_COMPLETE" ∷ "PLANNING_VALIDATION_FAILED" ∷ "PLANNING_SEMANTIC_CONFLICT"
    ∷ "RETRYABLE_PLANNING_FAILURE" ∷ "TERMINAL_PLANNING_FAILURE" ∷ []
workflow_classifications feature_preparation =
    "FEATURE_PREPARED" ∷ "FEATURE_VALIDATION_FAILED" ∷ "HUMAN_DECISION_REQUIRED"
    ∷ "RETRYABLE_FEATURE_FAILURE" ∷ "TERMINAL_FEATURE_FAILURE" ∷ []
workflow_classifications feature_execution =
    "FEATURE_ACCEPTED" ∷ "FEATURE_REJECTED" ∷ "FEATURE_VALIDATION_FAILED"
    ∷ "HUMAN_DECISION_REQUIRED" ∷ "RETRYABLE_FEATURE_FAILURE" ∷ "TERMINAL_FEATURE_FAILURE" ∷ []
workflow_classifications feature_acceptance =
    "FEATURE_ACCEPTED" ∷ "FEATURE_REJECTED" ∷ "FEATURE_VALIDATION_FAILED"
    ∷ "HUMAN_DECISION_REQUIRED" ∷ "RETRYABLE_FEATURE_FAILURE" ∷ "TERMINAL_FEATURE_FAILURE" ∷ []
workflow_classifications milestone_integration =
    "INTEGRATED" ∷ "VALIDATION_FAILED" ∷ "HUMAN_DECISION_REQUIRED" ∷ "SEMANTIC_CONFLICT"
    ∷ "RETRYABLE_INTEGRATION_FAILURE" ∷ "TERMINAL_INTEGRATION_FAILURE" ∷ []
workflow_classifications milestone_gate =
    "MILESTONE_GATE_PASSED" ∷ "MILESTONE_GATE_FAILED" ∷ "HUMAN_DECISION_REQUIRED"
    ∷ "RETRYABLE_GATE_FAILURE" ∷ "TERMINAL_GATE_FAILURE" ∷ []
workflow_classifications human_decision_resolution =
    "HUMAN_GATE_RESOLVED" ∷ "HUMAN_DECISION_REQUIRED" ∷ "TERMINAL_RESOLUTION_FAILURE" ∷ []
workflow_classifications recovery =
    "RECOVERY_APPLIED" ∷ "TRANSACTION_SUPERSEDED" ∷ "HUMAN_DECISION_REQUIRED"
    ∷ "RETRYABLE_RECOVERY_FAILURE" ∷ "TERMINAL_RECOVERY_FAILURE" ∷ []

pub record SessionResultEnvelope : Type 0 where
  pub workflow_type : WorkflowType
  pub classification : String
  pub project_id : String
  pub repository_identity : String
  pub transaction_id : String
  pub run_id : String
  pub session_id : String
  pub starting_branch : String
  pub starting_commit : String
  pub current_commit : String
  pub feature_id : Option String
  pub changed_paths : List String
  pub evidence : Fields
  pub next_state : String

pub data SchemaValidationError : Type 0 where
  missing_fields invalid_workflow wrong_version invalid_classification : SchemaValidationError
  paths_not_texts paths_not_normalized evidence_not_object validation_not_object :
      SchemaValidationError
  bad_path : MutationError → SchemaValidationError
  bad_warnings : WarningEvidenceError → SchemaValidationError
  empty_identity invalid_feature missing_feature : SchemaValidationError

abbrev pub required_fields : List String
required_fields =
    "schema_version" ∷ "workflow_type" ∷ "classification" ∷ "project_id" ∷ "repository_identity"
    ∷ "transaction_id" ∷ "run_id" ∷ "session_id" ∷ "starting_branch" ∷ "starting_commit"
    ∷ "current_commit" ∷ "changed_paths" ∷ "evidence" ∷ "next_state" ∷ []

-- `value == 1`, which also holds of `True` and of `1.0`.
abbrev pub is_one : Option Json → Bool
is_one (some (int (pos n))) = n == 1
is_one (some (bool b)) = b
is_one (some (fraction (pos n) p)) = n == 10 ^ p
is_one _ = false

abbrev pub named_workflow : Option Json → Option WorkflowType
named_workflow (some (str s)) = development_conveyor.Contracts.workflow_type s
named_workflow _ = none

abbrev pub classified : WorkflowType → Option Json → Option String
classified w (some (str s)) = if contains s (workflow_classifications w) then some s else none
classified w _ = none

abbrev pub add_path : String → Option (List String) → Option (List String)
add_path s none = none
add_path s (some rest) = some (s ∷ rest)

abbrev pub paths_in : Items → Option (List String)
paths_in nil = some []
paths_in (cons (str s) rest) = add_path s (paths_in rest)
paths_in (cons _ rest) = none

abbrev pub path_list : Option Json → Option (List String)
path_list (some (arr items)) = paths_in items
path_list _ = none

abbrev pub tell_path :
    Result MutationError (List String) → Result SchemaValidationError (List String)
tell_path (ok a) = ok a
tell_path (err e) = err (bad_path e)

unfoldable pub check_paths : List String → Result SchemaValidationError (List String)
unfolding normalized_paths
check_paths changed = do
  normalized ← tell_path (normalized_paths changed)
  guard (same_texts changed normalized) paths_not_normalized
  ok normalized

abbrev pub object_at : Option Json → Option Fields
object_at (some (obj d)) = some d
object_at _ = none

unfoldable pub check_validation : Option Json → Result SchemaValidationError Unit
unfolding normalize_warning_evidence
check_validation (some (obj d)) = elim (normalize_warning_evidence "structured" none (obj d)) [
  | ok evidence ↦ ok tt
  | err e ↦ err (bad_warnings e)
]
check_validation _ = err validation_not_object

-- The evidence of a queue reconciliation has a consistent validation of the queue.
unfoldable pub check_evidence : WorkflowType → Fields → Result SchemaValidationError Unit
unfolding check_validation
check_evidence queue_reconciliation evidence =
    check_validation (get_field "queue_validation" evidence)
check_evidence w evidence = ok tt

abbrev pub identity_fields : List String
identity_fields =
    "project_id" ∷ "repository_identity" ∷ "transaction_id" ∷ "run_id" ∷ "session_id"
    ∷ "starting_branch" ∷ "starting_commit" ∷ "current_commit" ∷ "next_state" ∷ []

-- The value is a text that is not empty.
abbrev pub is_filled : Option Json → Bool
is_filled (some (str s)) = not (s == "")
is_filled _ = false

-- A value that is known to be a text.
abbrev pub text_at : Option Json → String
text_at (some (str s)) = s
text_at _ = ""

abbrev pub needs_feature : WorkflowType → Bool
needs_feature feature_preparation = true
needs_feature feature_execution = true
needs_feature feature_acceptance = true
needs_feature milestone_integration = true
needs_feature _ = false

abbrev pub feature_of : Option Json → Result SchemaValidationError (Option String)
feature_of none = ok none
feature_of (some null) = ok none
feature_of (some (str s)) = if s == "" then err invalid_feature else ok (some s)
feature_of (some v) = err invalid_feature

unfoldable pub check_feature :
    WorkflowType → Option Json → Result SchemaValidationError (Option String)
check_feature w v = do
  feature ← feature_of v
  guard (not (needs_feature w) || is_some feature) missing_feature
  ok feature

unfoldable pub from_dict : Fields → Result SchemaValidationError SessionResultEnvelope
unfolding check_paths check_evidence check_feature
from_dict value = do
  guard (all (λ k. contains k (keys value)) required_fields) missing_fields
  workflow ← require (named_workflow (get_field "workflow_type" value)) invalid_workflow
  guard (is_one (get_field "schema_version" value)) wrong_version
  classification ←
      require (classified workflow (get_field "classification" value)) invalid_classification
  changed ← require (path_list (get_field "changed_paths" value)) paths_not_texts
  normalized ← check_paths changed
  evidence ← require (object_at (get_field "evidence" value)) evidence_not_object
  validated ← check_evidence workflow evidence
  guard (all (λ k. is_filled (get_field k value)) identity_fields) empty_identity
  feature ← check_feature workflow (get_field "feature_id" value)
  ok (record {
    workflow_type = workflow;
    classification = classification;
    project_id = text_at (get_field "project_id" value);
    repository_identity = text_at (get_field "repository_identity" value);
    transaction_id = text_at (get_field "transaction_id" value);
    run_id = text_at (get_field "run_id" value);
    session_id = text_at (get_field "session_id" value);
    starting_branch = text_at (get_field "starting_branch" value);
    starting_commit = text_at (get_field "starting_commit" value);
    current_commit = text_at (get_field "current_commit" value);
    feature_id = feature;
    changed_paths = normalized;
    evidence = evidence;
    next_state = text_at (get_field "next_state" value);
  })

-- `schema_version` is always 1.
unfoldable pub to_dict : SessionResultEnvelope → Fields
to_dict e = dict (
    ("schema_version", int (pos 1))
    ∷ ("workflow_type", str (workflow_value e.workflow_type))
    ∷ ("classification", str e.classification)
    ∷ ("project_id", str e.project_id)
    ∷ ("repository_identity", str e.repository_identity)
    ∷ ("transaction_id", str e.transaction_id)
    ∷ ("run_id", str e.run_id)
    ∷ ("session_id", str e.session_id)
    ∷ ("starting_branch", str e.starting_branch)
    ∷ ("starting_commit", str e.starting_commit)
    ∷ ("current_commit", str e.current_commit)
    ∷ ("feature_id", text_or_null e.feature_id)
    ∷ ("changed_paths", arr (text_array e.changed_paths))
    ∷ ("evidence", obj e.evidence)
    ∷ ("next_state", str e.next_state)
    ∷ [])
