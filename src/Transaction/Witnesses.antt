-- ===== src/Transaction/Witnesses.antt =====
-- A transaction that comes to completion, and the theorems of the transaction at it.
use development_conveyor.Base.{◌≡◌, refl, true, false, none, some, List, [], ◌∷◌}
use development_conveyor.Contracts.{feature_execution}
use development_conveyor.Transaction.{PhaseTransaction, MutationPolicy, advance, terminate}
use development_conveyor.Transaction.State.{
  created, lease_pending, active, result_pending, validating, finalizing, completed,
}
use development_conveyor.Transaction.Order.{Operation, to, end_with, run, states_of_run}
use development_conveyor.Transaction.Outcome.{ended}
use development_conveyor.Transaction.Progress.{path_to_completion, completed_in_order}

abbrev policy : MutationPolicy
policy = record {
  allowed_paths = "app.py" ∷ [];
  allowed_prefixes = [];
  denied_paths = [];
  denied_prefixes = [];
  allow_untracked = false;
  require_clean_start = true;
  commit_subject = none;
}

abbrev fresh_transaction : PhaseTransaction
fresh_transaction = record {
  schema_version = 1;
  transaction_id = "t1";
  workflow_type = feature_execution;
  project_id = "demo";
  repository_identity = "identity";
  repository_path_fingerprint = "path";
  milestone = none;
  feature_id = some "F-1";
  run_id = "run-1";
  session_ids = [];
  starting_branch = "main";
  starting_head = "abc";
  starting_queue_fingerprint = none;
  starting_tracked_diff_fingerprint = "diff";
  starting_untracked_fingerprint = "untracked";
  allowed_mutation_policy = policy;
  lease_identity = none;
  current_state = created;
  terminal_classification = none;
  terminal_reference = none;
  next_project_state = none;
}

abbrev finished : PhaseTransaction
finished = ended completed "FEATURE_ACCEPTED" none fresh_transaction

-- The third call raises, and changes nothing.
abbrev calls : List Operation
calls =
    to lease_pending
    ∷ to active
    ∷ to completed
    ∷ to result_pending
    ∷ to validating
    ∷ to finalizing
    ∷ end_with completed "FEATURE_ACCEPTED" none
    ∷ []

calls_complete : (run calls fresh_transaction).current_state ≡ completed
unfolding advance terminate
calls_complete = refl

completed_in_order_example : states_of_run calls fresh_transaction ≡ path_to_completion created
completed_in_order_example = completed_in_order calls fresh_transaction calls_complete
