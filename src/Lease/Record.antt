-- ===== src/Lease/Record.antt =====
-- `WorkflowLeaseRecord` of src/development_conveyor/workflow_lease.py and its JSON form.
-- `from_dict` types two fields only, so the others hold any JSON value; an absent one is null.
use development_conveyor.Base.{
  String, Option, none, [], ◌∷◌, string_eq, Result, ok, guard, require, ◌>>=◌, ◌>>◌, not,
}
use development_conveyor.Json.{Json, bool, str, arr, obj, Fields, get_field, falsy}
use development_conveyor.Contracts.{
  WorkflowType, LeaseType, workflow_type as workflow_named, workflow_value,
  lease_type as lease_named, lease_value, queue_reconciliation, feature_preparation,
  feature_execution, feature_acceptance, milestone_integration, milestone_gate,
  human_decision_resolution, recovery,
}
use development_conveyor.Dict.{dict, or_null, or_else, text_array, text_or_null}
use development_conveyor.Transaction.{MutationPolicy}

-- The raises of workflow_lease.py; the last three are the uncaught `TypeError`s on untyped fields.
pub data LeaseError : Type 0 where
  untyped_lease not_an_object unreadable linked_path unsafe_ancestor : LeaseError
  irregular_file hard_linked cannot_open : LeaseError
  wrong_lease_type lease_exists appeared_concurrently path_mismatch lease_absent identity_mismatch :
      LeaseError
  incomplete_identity bound_to_session owner_host_differs owner_dead owner_start_differs :
      LeaseError
  incomplete_project incomplete_refs binding_changed unproven_release : LeaseError
  untyped_path untyped_pid : LeaseError

pub record WorkflowLeaseRecord : Type 0 where
  pub schema_version : Json
  pub lease_id : Json
  pub lease_type : LeaseType
  pub repository_identity : Json
  pub repository_path_fingerprint : Json
  pub repository_path : Json
  pub project_id : Json
  pub controller_project_id : Json
  pub adapter_project_id : Json
  pub transaction_id : Json
  pub workflow_type : WorkflowType
  pub milestone : Json
  pub feature_id : Json
  pub feature_branch : Json
  pub accepted_commit : Json
  pub starting_branch : Json
  pub starting_head : Json
  pub run_id : Json
  pub session_id : Json
  pub owner_pid : Json
  pub owner_process_start : Json
  pub owner_host : Json
  pub created_at : Json
  pub last_heartbeat : Json
  pub allowed_mutations : Json

abbrev pub purpose : WorkflowType → String
purpose queue_reconciliation = "development-conveyor-planning"
purpose feature_preparation = "development-conveyor-feature-preparation"
purpose feature_execution = "development-conveyor-feature"
purpose feature_acceptance = "development-conveyor-feature-acceptance"
purpose milestone_integration = "development-conveyor-integration"
purpose milestone_gate = "development-conveyor-milestone-gate"
purpose human_decision_resolution = "development-conveyor-recovery"
purpose recovery = "development-conveyor-recovery"

unfoldable pub to_dict : WorkflowLeaseRecord → Fields
to_dict r = dict (
    ("schema_version", r.schema_version)
    ∷ ("lease_id", r.lease_id)
    ∷ ("lease_type", str (lease_value r.lease_type))
    ∷ ("repository_identity", r.repository_identity)
    ∷ ("repository_path_fingerprint", r.repository_path_fingerprint)
    ∷ ("repository_path", r.repository_path)
    ∷ ("project_id", r.project_id)
    ∷ ("controller_project_id", r.controller_project_id)
    ∷ ("adapter_project_id", r.adapter_project_id)
    ∷ ("transaction_id", r.transaction_id)
    ∷ ("workflow_type", str (workflow_value r.workflow_type))
    ∷ ("milestone", r.milestone)
    ∷ ("feature_id", r.feature_id)
    ∷ ("feature_branch", r.feature_branch)
    ∷ ("accepted_commit", r.accepted_commit)
    ∷ ("starting_branch", r.starting_branch)
    ∷ ("starting_head", r.starting_head)
    ∷ ("run_id", r.run_id)
    ∷ ("session_id", r.session_id)
    ∷ ("owner_pid", r.owner_pid)
    ∷ ("owner_process_start", r.owner_process_start)
    ∷ ("owner_host", r.owner_host)
    ∷ ("created_at", r.created_at)
    ∷ ("last_heartbeat", r.last_heartbeat)
    ∷ ("allowed_mutations", r.allowed_mutations)
    ∷ ("repository", r.repository_path)
    ∷ ("worktree", r.repository_path)
    ∷ ("branch", r.starting_branch)
    ∷ ("agent_run", r.run_id)
    ∷ ("phase", str (workflow_value r.workflow_type))
    ∷ ("purpose", str (purpose r.workflow_type))
    ∷ [])

abbrev lease_type_of : Json → Option LeaseType
lease_type_of (str s) = lease_named s
lease_type_of _ = none

abbrev workflow_type_of : Json → Option WorkflowType
workflow_type_of (str s) = workflow_named s
workflow_type_of _ = none

abbrev needed : String → Fields → Result LeaseError Json
needed k d = require (get_field k d) untyped_lease

abbrev optional : String → Fields → Json
optional k d = or_null (get_field k d)

-- The constructor call of `from_dict`.
unfoldable pub fields_of : Fields → Result LeaseError WorkflowLeaseRecord
fields_of d = do
  version ← needed "schema_version" d
  lease_id ← needed "lease_id" d
  raw_type ← needed "lease_type" d
  lease_type ← require (lease_type_of raw_type) untyped_lease
  identity ← needed "repository_identity" d
  path_fingerprint ← needed "repository_path_fingerprint" d
  let path = or_null (
      or_else (get_field "repository_path" d)
        (or_else (get_field "repository" d) (get_field "worktree" d)))
  project_id ← needed "project_id" d
  transaction_id ← needed "transaction_id" d
  raw_workflow ← needed "workflow_type" d
  workflow ← require (workflow_type_of raw_workflow) untyped_lease
  branch ← needed "starting_branch" d
  head ← needed "starting_head" d
  run_id ← needed "run_id" d
  owner_pid ← needed "owner_pid" d
  owner_start ← needed "owner_process_start" d
  owner_host ← needed "owner_host" d
  created_at ← needed "created_at" d
  heartbeat ← needed "last_heartbeat" d
  mutations ← needed "allowed_mutations" d
  ok (record {
    schema_version = version;
    lease_id = lease_id;
    lease_type = lease_type;
    repository_identity = identity;
    repository_path_fingerprint = path_fingerprint;
    repository_path = path;
    project_id = project_id;
    controller_project_id = optional "controller_project_id" d;
    adapter_project_id = optional "adapter_project_id" d;
    transaction_id = transaction_id;
    workflow_type = workflow;
    milestone = optional "milestone" d;
    feature_id = optional "feature_id" d;
    feature_branch = optional "feature_branch" d;
    accepted_commit = optional "accepted_commit" d;
    starting_branch = branch;
    starting_head = head;
    run_id = run_id;
    session_id = optional "session_id" d;
    owner_pid = owner_pid;
    owner_process_start = owner_start;
    owner_host = owner_host;
    created_at = created_at;
    last_heartbeat = heartbeat;
    allowed_mutations = mutations;
  })

abbrev pub with_path : WorkflowLeaseRecord → Result LeaseError WorkflowLeaseRecord
with_path r = do guard (not (falsy r.repository_path)) untyped_lease; ok r

unfoldable pub from_dict : Fields → Result LeaseError WorkflowLeaseRecord
unfolding fields_of
from_dict d = fields_of d >>= with_path

-- `MutationPolicy.to_dict`, as the lease file holds it: tuples are arrays, keys are sorted.
unfoldable pub policy_to_dict : MutationPolicy → Json
policy_to_dict p = obj (
    dict (
      ("allow_untracked", bool p.allow_untracked)
      ∷ ("allowed_paths", arr (text_array p.allowed_paths))
      ∷ ("allowed_prefixes", arr (text_array p.allowed_prefixes))
      ∷ ("commit_subject", text_or_null p.commit_subject)
      ∷ ("denied_paths", arr (text_array p.denied_paths))
      ∷ ("denied_prefixes", arr (text_array p.denied_prefixes))
      ∷ ("require_clean_start", bool p.require_clean_start)
      ∷ []))
