-- ===== src/Lease/Writer.antt =====
-- The methods of `WorkflowWriterLease` in src/development_conveyor/workflow_lease.py.
-- A method that may write returns its result beside the new site.
use Prim.Native.String.{◌++◌}
use development_conveyor.Base.{
  ℕ, String, Bool, true, false, Option, none, some, List, ◌==◌, string_eq, is_empty, Result, ok,
  err, guard, ◌>>◌, if◌then◌else◌,
}
use development_conveyor.Json.{Json, null, bool, int, str, ℤ, pos, json_eq}
use development_conveyor.Contracts.{
  WorkflowType, LeaseType, workflow_value, lease_value, workflow_lease,
}
use development_conveyor.Transaction.{MutationPolicy}
use development_conveyor.Dict.{text_or_null}
use development_conveyor.Lease.Record.{
  LeaseError, WorkflowLeaseRecord, to_dict, policy_to_dict, wrong_lease_type, lease_exists,
  path_mismatch, untyped_path, untyped_pid,
}
use development_conveyor.Lease.Site.{
  Node, missing, Site, derive_confinement_root, reject_links, make_parents, create_exclusive,
}

-- What the operating system answers: paths, SHA-256 of a text, and processes.
pub record System : Type 0 where
  pub join : List String → String
  pub expand_user : String → String
  pub resolve : String → String
  pub text_digest : String → String
  pub process_alive : ℤ → Option Bool
  pub ps_lstart : Json → String
  pub str_of : Json → String

-- The process that makes a call.
pub record Process : Type 0 where
  pub host : String
  pub pid : ℕ

abbrev pub pid_of : Process → Json
pid_of p = int (pos p.pid)

-- An argument that may be left out, `_UNSET`, or given as a text or None.
pub data Wanted : Type 0 where
  unset : Wanted
  wanted : Option String → Wanted

pub record Acquisition : Type 0 where
  pub lease_type : LeaseType
  pub repository_identity : String
  pub repository_path_fingerprint : String
  pub repository_path : Option String
  pub project_id : String
  pub transaction_id : String
  pub workflow_type : WorkflowType
  pub milestone : Option String
  pub feature_id : Option String
  pub starting_branch : String
  pub starting_head : String
  pub run_id : String
  pub session_id : Option String
  pub policy : MutationPolicy
  pub stamp : String
  pub fresh_id : String

-- The arguments of `revalidate`.
pub record Expectation : Type 0 where
  pub transaction_id : String
  pub workflow_type : WorkflowType
  pub repository_identity : String
  pub project_id : String
  pub lease_type : Option LeaseType
  pub repository_path_fingerprint : Option String
  pub repository_path : Option String
  pub lease_id : Option String
  pub milestone : Wanted
  pub feature_id : Wanted
  pub starting_branch : Option String
  pub starting_head : Option String
  pub run_id : Option String
  pub session_id : Wanted
  pub policy : Option MutationPolicy

abbrev pub unconstrained : String → WorkflowType → String → String → Expectation
unconstrained t w identity project = record {
  transaction_id = t;
  workflow_type = w;
  repository_identity = identity;
  project_id = project;
  lease_type = none;
  repository_path_fingerprint = none;
  repository_path = none;
  lease_id = none;
  milestone = unset;
  feature_id = unset;
  starting_branch = none;
  starting_head = none;
  run_id = none;
  session_id = unset;
  policy = none;
}

abbrev pub same_lease : LeaseType → LeaseType → Bool
same_lease a b = lease_value a == lease_value b

abbrev pub same_workflow : WorkflowType → WorkflowType → Bool
same_workflow a b = workflow_value a == workflow_value b

-- `expected is None or value == expected`
abbrev pub matches : Option String → Json → Bool
matches none v = true
matches (some s) v = v == str s

abbrev pub meets : Wanted → Json → Bool
meets unset v = true
meets (wanted t) v = v == text_or_null t

abbrev pub meets_policy : Option MutationPolicy → Json → Bool
meets_policy none v = true
meets_policy (some p) v = v == policy_to_dict p

abbrev pub is_missing : Node → Bool
is_missing missing = true
is_missing _ = false

module _ (system : System) where
  -- `Path(value).resolve()`; a value that is no text raises.
  abbrev pub resolved : Json → Result LeaseError String
  resolved (str s) = ok (system.resolve s)
  resolved _ = err untyped_path

  abbrev pub process_start_evidence : Json → String
  process_start_evidence pid =
      let value = system.ps_lstart pid in
      if is_empty value then "process-start-unavailable:" ++ system.str_of pid else value

  -- `process_alive(pid)`; `os.kill` takes integers, and Booleans as integers.
  abbrev pub alive : Json → Result LeaseError (Option Bool)
  alive (int n) = ok (system.process_alive n)
  alive (bool b) = ok (system.process_alive (if b then pos 1 else pos 0))
  alive _ = err untyped_pid

  abbrev pub root : List String → String
  root path = system.resolve (system.join (derive_confinement_root path))

  abbrev pub invoking_worktree : List String → Option String → String
  invoking_worktree path none = root path
  invoking_worktree path (some given) = system.resolve (system.expand_user given)

  abbrev pub path_agrees : Option String → String → String → Bool
  path_agrees none worktree claimed = true
  path_agrees (some given) worktree claimed = system.text_digest worktree == claimed

  unfoldable pub new_record : Process → Acquisition → String → WorkflowLeaseRecord
  new_record p a worktree = record {
    schema_version = int (pos 1);
    lease_id = str a.fresh_id;
    lease_type = a.lease_type;
    repository_identity = str a.repository_identity;
    repository_path_fingerprint = str a.repository_path_fingerprint;
    repository_path = str worktree;
    project_id = str a.project_id;
    controller_project_id = null;
    adapter_project_id = null;
    transaction_id = str a.transaction_id;
    workflow_type = a.workflow_type;
    milestone = text_or_null a.milestone;
    feature_id = text_or_null a.feature_id;
    feature_branch = null;
    accepted_commit = null;
    starting_branch = str a.starting_branch;
    starting_head = str a.starting_head;
    run_id = str a.run_id;
    session_id = text_or_null a.session_id;
    owner_pid = pid_of p;
    owner_process_start = str (process_start_evidence (pid_of p));
    owner_host = str p.host;
    created_at = str a.stamp;
    last_heartbeat = str a.stamp;
    allowed_mutations = policy_to_dict a.policy;
  }

  -- The first half of `acquire`: its guards and the record that it is to write.
  unfoldable pub prepare :
      List String → Process → Acquisition → Site → Result LeaseError WorkflowLeaseRecord
  unfolding new_record
  prepare path p a s = do
    guard (same_lease a.lease_type (workflow_lease a.workflow_type)) wrong_lease_type
    reject_links s
    guard (is_missing s.target) lease_exists
    let worktree = invoking_worktree path a.repository_path
    guard (path_agrees a.repository_path worktree a.repository_path_fingerprint) path_mismatch
    ok (new_record p a worktree)

  -- `acquire`: the directories stay when the exclusive open fails.
  abbrev answered :
      WorkflowLeaseRecord
      → Site
      → Result LeaseError Site
      → Result LeaseError WorkflowLeaseRecord × Site
  answered r s (ok s') = (ok r, s')
  answered r s (err e) = (err e, s)

  unfoldable pub write_new :
      WorkflowLeaseRecord → Site → Result LeaseError WorkflowLeaseRecord × Site
  write_new r s = answered r (make_parents s) (create_exclusive (to_dict r) (make_parents s))

  abbrev pub completed :
      Result LeaseError WorkflowLeaseRecord → Site → Result LeaseError WorkflowLeaseRecord × Site
  completed (ok r) s = write_new r s
  completed (err e) s = (err e, s)

  unfoldable pub acquire :
      List String → Process → Acquisition → Site → Result LeaseError WorkflowLeaseRecord × Site
  unfolding prepare write_new
  acquire path p a s = completed (prepare path p a s) s
