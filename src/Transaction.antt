-- ===== src/Transaction.antt =====
-- PhaseTransaction of src/development_conveyor/contracts.py: creation, transitions and the terminal
-- outcome. A method that raises leaves the object as it was, so it returns the new object or an error.
pub mod State
pub mod Order
pub mod Outcome
pub mod Progress
mod Witnesses
use development_conveyor.Base.{
  ℕ, String, ◌≡◌, refl, Bool, true, false, not, ◌||◌, Option, none, some, List, [], ◌∷◌, ◌==◌,
  string_eq, contains, is_empty, is_nil, ◌&&◌, is_some, Result, ok, err, guard, ◌>>=◌, ◌>>◌,
  if◌then◌else◌,
}
use development_conveyor.Contracts.{WorkflowType, safe_identifier}
use development_conveyor.Transaction.State.{
  TransactionState, created, state_eq, is_terminal_state, allowed_transitions,
}

pub data TransactionError : Type 0 where
  invalid_project_id invalid_run_id invalid_transition terminal_is_immutable : TransactionError
  not_a_terminal_state already_terminal : TransactionError

pub record MutationPolicy : Type 0 where
  pub allowed_paths : List String
  pub allowed_prefixes : List String
  pub denied_paths : List String
  pub denied_prefixes : List String
  pub allow_untracked : Bool
  pub require_clean_start : Bool
  pub commit_subject : Option String

pub record RepositorySnapshot : Type 0 where
  pub repository_identity : String
  pub repository_path_fingerprint : String
  pub branch : String
  pub head : String
  pub queue_fingerprint : Option String
  pub tracked_diff_fingerprint : String
  pub untracked_fingerprint : String
  pub tracked_changed_paths : List String
  pub untracked_paths : List String
  pub git_operations : List (String × Bool)

abbrev pub is_clean : RepositorySnapshot → Bool
is_clean s = is_nil s.tracked_changed_paths && is_nil s.untracked_paths

pub record PhaseTransaction : Type 0 where
  pub schema_version : ℕ
  pub transaction_id : String
  pub workflow_type : WorkflowType
  pub project_id : String
  pub repository_identity : String
  pub repository_path_fingerprint : String
  pub milestone : Option String
  pub feature_id : Option String
  pub run_id : String
  pub session_ids : List String
  pub starting_branch : String
  pub starting_head : String
  pub starting_queue_fingerprint : Option String
  pub starting_tracked_diff_fingerprint : String
  pub starting_untracked_fingerprint : String
  pub allowed_mutation_policy : MutationPolicy
  pub lease_identity : Option String
  pub current_state : TransactionState
  pub terminal_classification : Option String
  pub terminal_reference : Option String
  pub next_project_state : Option String

-- The arguments of `create`; `fresh_id` is what `uuid.uuid4()` returns.
pub record Creation : Type 0 where
  pub workflow_type : WorkflowType
  pub project_id : String
  pub snapshot : RepositorySnapshot
  pub milestone : Option String
  pub feature_id : Option String
  pub run_id : String
  pub policy : MutationPolicy
  pub transaction_id : Option String
  pub fresh_id : String

-- `transaction_id or str(uuid.uuid4())`
abbrev or_fresh : Option String → String → String
or_fresh none fresh = fresh
or_fresh (some given) fresh = if is_empty given then fresh else given

unfoldable pub create : Creation → Result TransactionError PhaseTransaction
create c = do
  guard (safe_identifier c.project_id) invalid_project_id
  guard (safe_identifier c.run_id) invalid_run_id
  ok (record {
    schema_version = 1;
    transaction_id = or_fresh c.transaction_id c.fresh_id;
    workflow_type = c.workflow_type;
    project_id = c.project_id;
    repository_identity = c.snapshot.repository_identity;
    repository_path_fingerprint = c.snapshot.repository_path_fingerprint;
    milestone = c.milestone;
    feature_id = c.feature_id;
    run_id = c.run_id;
    session_ids = [];
    starting_branch = c.snapshot.branch;
    starting_head = c.snapshot.head;
    starting_queue_fingerprint = c.snapshot.queue_fingerprint;
    starting_tracked_diff_fingerprint = c.snapshot.tracked_diff_fingerprint;
    starting_untracked_fingerprint = c.snapshot.untracked_fingerprint;
    allowed_mutation_policy = c.policy;
    lease_identity = none;
    current_state = created;
    terminal_classification = none;
    terminal_reference = none;
    next_project_state = none;
  })

-- `transition`
unfoldable pub advance :
    TransactionState → PhaseTransaction → Result TransactionError PhaseTransaction
advance target p = if target == p.current_state then ok p else (do
  guard (contains target (allowed_transitions p.current_state)) invalid_transition
  guard (not (is_terminal_state p.current_state)) terminal_is_immutable
  ok (record p { current_state = target }))

unfoldable pub terminate :
    TransactionState
    → String
    → Option String
    → PhaseTransaction
    → Result TransactionError PhaseTransaction
terminate state classification reference p = do
  guard (is_terminal_state state) not_a_terminal_state
  guard (not (is_some p.terminal_classification || is_terminal_state p.current_state))
      already_terminal
  moved ← advance state p
  ok (record moved {
    terminal_classification = some classification;
    terminal_reference = reference;
  })
