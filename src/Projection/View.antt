-- ===== src/Projection/View.antt =====
-- One entry of `transactions` in `ProjectionEngine.rebuild` of
-- src/development_conveyor/projection.py, and what an event of the transaction does to it.
use development_conveyor.Base.{
  String, ◌||◌, Option, none, some, List, [], ◌∷◌, ◌++◌, string_eq, lookup, contains, if◌then◌else◌,
}
use development_conveyor.Json.{Json, null, str, obj, ℤ, int, json_eq, falsy}
use development_conveyor.Dict.{dict, value_at, value_or, array}
use development_conveyor.Ledger.Event.{Event}

pub record View : Type 0 where
  pub transaction_id : String
  pub workflow_type : String
  pub state : Json
  pub feature_id : Json
  pub milestone : Json
  pub run_id : Json
  pub session_ids : List Json
  pub terminal_classification : Json
  pub terminal_reference : Json
  pub starting_snapshot : Json
  pub terminal_snapshot : Json
  pub last_sequence : ℤ
  pub deterministic_plan_fingerprint : Option Json
  pub deterministic_result_classification : Option Json

-- The entry that `setdefault` makes at the first event of a transaction.
abbrev pub new_view : Event → View
new_view e = record {
  transaction_id = e.transaction_id;
  workflow_type = e.workflow_type;
  state = str "created";
  feature_id = value_at "feature_id" e.payload;
  milestone = value_at "milestone" e.payload;
  run_id = value_at "run_id" e.payload;
  session_ids = [];
  terminal_classification = null;
  terminal_reference = null;
  starting_snapshot = null;
  terminal_snapshot = null;
  last_sequence = e.sequence;
  deterministic_plan_fingerprint = none;
  deterministic_result_classification = none;
}

abbrev pub in_state : String → Json → View → View
in_state s payload v = record v { state = str s }

abbrev start_view : Json → View → View
start_view payload v = record v {
  state = str "lease_pending";
  feature_id = value_at "feature_id" payload;
  milestone = value_at "milestone" payload;
  run_id = value_at "run_id" payload;
}

abbrev snapshot_view : Json → View → View
snapshot_view payload v = record v {
  starting_snapshot = value_at "snapshot" payload;
  state = str "active";
}

-- `if session and session not in session_ids`
abbrev with_session : Json → List Json → List Json
with_session session ids =
    if falsy session || contains session ids then ids else ids ++ session ∷ []

abbrev launch_view : Json → View → View
launch_view payload v = record v {
  session_ids = with_session (value_at "session_id" payload) v.session_ids;
  state = str "result_pending";
}

abbrev execution_view : Json → View → View
execution_view payload v = record v {
  state = str "result_pending";
  deterministic_plan_fingerprint = some (value_at "plan_fingerprint" payload);
}

abbrev result_view : Json → View → View
result_view payload v = record v {
  state = str "validating";
  deterministic_result_classification = some (value_at "classification" payload);
}

-- `transaction.update` of the four terminal events.
abbrev ended_view : Json → Json → Json → Json → View → View
ended_view state classification reference payload v = record v {
  state = state;
  terminal_classification = classification;
  terminal_reference = reference;
  terminal_snapshot = value_at "terminal_snapshot" payload;
}

abbrev gate_view : Json → View → View
gate_view payload =
    ended_view (str "human_decision_required")
      (value_or "classification" payload (str "HUMAN_DECISION_REQUIRED"))
      (value_at "gate_id" payload) payload

abbrev blocked_view : Json → View → View
blocked_view payload =
    ended_view (value_or "terminal_state" payload (str "blocked"))
      (value_at "classification" payload) (value_at "reference" payload) payload

abbrev superseded_view : Json → View → View
superseded_view payload =
    ended_view (str "superseded") (value_or "classification" payload (str "TRANSACTION_SUPERSEDED"))
      (value_at "superseded_by" payload) payload

abbrev completed_view : Json → View → View
completed_view payload =
    ended_view (str "completed") (value_at "classification" payload) (value_at "reference" payload)
      payload

-- The branches of the loop that change the entry.
abbrev pub view_branches : List (String × (Json → View → View))
view_branches =
    ("TransactionStarted", start_view)
    ∷ ("LeaseAcquired", in_state "active")
    ∷ ("SnapshotCaptured", snapshot_view)
    ∷ ("SessionLaunched", launch_view)
    ∷ ("DeterministicExecutionStarted", execution_view)
    ∷ ("SessionResultAccepted", in_state "validating")
    ∷ ("DeterministicResultAccepted", result_view)
    ∷ ("ValidationStarted", in_state "validating")
    ∷ ("ValidationPassed", in_state "finalizing")
    ∷ ("CommitFinalized", in_state "finalizing")
    ∷ ("HumanGateRaised", gate_view)
    ∷ ("TransactionBlocked", blocked_view)
    ∷ ("TransactionSuperseded", superseded_view)
    ∷ ("TransactionCompleted", completed_view)
    ∷ []

abbrev pub branched : Option (Json → View → View) → Json → View → View
branched none payload v = v
branched (some branch) payload v = branch payload v

unfoldable pub branch_of : String → Json → View → View
branch_of kind payload v = branched (lookup kind view_branches) payload v

-- What an event does to the entry of its transaction, which it may find or make.
unfoldable pub view_step : Event → Option View → View
unfolding branch_of
view_step e found =
    branch_of e.event_type e.payload
      (record (elim found [ none ↦ new_view e | some v ↦ v ]) { last_sequence = e.sequence })

abbrev optional_key : String → Option Json → List (String × Json)
optional_key k none = []
optional_key k (some v) = (k, v) ∷ []

-- The entry as the projection holds it.
unfoldable pub view_json : View → Json
view_json v = obj (
    dict (
      (("transaction_id", str v.transaction_id)
        ∷ ("workflow_type", str v.workflow_type)
        ∷ ("state", v.state)
        ∷ ("feature_id", v.feature_id)
        ∷ ("milestone", v.milestone)
        ∷ ("run_id", v.run_id)
        ∷ ("session_ids", array v.session_ids)
        ∷ ("terminal_classification", v.terminal_classification)
        ∷ ("terminal_reference", v.terminal_reference)
        ∷ ("starting_snapshot", v.starting_snapshot)
        ∷ ("terminal_snapshot", v.terminal_snapshot)
        ∷ ("last_sequence", int v.last_sequence)
        ∷ [])
      ++ optional_key "deterministic_plan_fingerprint" v.deterministic_plan_fingerprint
      ++ optional_key "deterministic_result_classification" v.deterministic_result_classification))
