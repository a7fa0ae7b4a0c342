-- ===== src/Ledger/Event.antt =====
-- Ledger records: the fields of one event, its fingerprint, and the typed reading of a JSON record.
use development_conveyor.Base.{
  ℕ, String, Bool, true, false, ◌&&◌, ◌||◌, Option, none, some, List, [], ◌∷◌, leb, ◌==◌, nat_eq,
  string_eq, all, contains, length, codes, Result, ok, err, guard, require, ◌>>=◌, ◌>>◌, lookup,
}
use development_conveyor.Json.{
  Json, null, bool, int, str, arr, obj, Fields, end, field, ℤ, int_eq, get_field, keys, member,
}

-- The raises of `_decode`, `_validate`, `_verify_head`, `_validate_append` and `append`.
pub data LedgerError : Type 0 where
  record_not_object missing_fields unexpected_fields invalid_integers invalid_strings : LedgerError
  payload_not_object invalid_payload_field short_identity invalid_fingerprint : LedgerError
  sequence_mismatch duplicate_event_id unsupported_event_type : LedgerError
  project_mismatch repository_mismatch path_mismatch invalid_workflow invalid_transaction :
      LedgerError
  workflow_changed duplicate_start invalid_resolution_binding precedes_start : LedgerError
  conflicting_terminals invalid_gate duplicate_gate gate_mismatch unbound_resolution : LedgerError
  terminal_mutated invalid_checkpoint broken_chain fingerprint_mismatch : LedgerError
  no_start lease_without_recovery invalid_order result_without_session : LedgerError
  passed_without_start commit_without_validation projected_before_terminal : LedgerError
  skipped_lifecycle missing_predecessor : LedgerError
  shorter_than_head no_head contradicts_head payload_invalid : LedgerError
  -- the last record is no whole line; a write came up short, or failed in the operating system
  truncated_record short_append write_failed : LedgerError

pub record Event : Type 0 where
  pub schema_version : ℤ
  pub sequence : ℤ
  pub event_id : String
  pub event_type : String
  pub timestamp : String
  pub project_id : String
  pub repository_identity : String
  pub repository_path_fingerprint : String
  pub transaction_id : String
  pub workflow_type : String
  pub previous_fingerprint : String
  pub fingerprint : String
  pub payload : Json

-- The record without its fingerprint, keys in canonical order.
unfoldable pub event_body : Event → Json
event_body e = obj (
    field "event_id" (str e.event_id) (
      field "event_type" (str e.event_type) (
        field "payload" e.payload (
          field "previous_fingerprint" (str e.previous_fingerprint) (
            field "project_id" (str e.project_id) (
              field "repository_identity" (str e.repository_identity) (
                field "repository_path_fingerprint" (str e.repository_path_fingerprint) (
                  field "schema_version" (int e.schema_version) (
                    field "sequence" (int e.sequence) (
                      field "timestamp" (str e.timestamp) (
                        field "transaction_id" (str e.transaction_id)
                          (field "workflow_type" (str e.workflow_type) end))))))))))))

abbrev pub event_types : List String
event_types =
    "TransactionStarted" ∷ "LeaseAcquired" ∷ "LeaseReleased" ∷ "SnapshotCaptured"
    ∷ "SessionLaunched" ∷ "SessionResultAccepted" ∷ "ChangesDetected" ∷ "ValidationStarted"
    ∷ "DeterministicExecutionStarted" ∷ "DeterministicResultAccepted" ∷ "ValidationPassed"
    ∷ "ValidationFailed" ∷ "CommitFinalized" ∷ "HumanGateRaised" ∷ "HumanGateResolved"
    ∷ "TransactionBlocked" ∷ "TransactionCompleted" ∷ "TransactionSuperseded" ∷ "RecoveryApplied"
    ∷ "ProjectionUpdated" ∷ "LegacyEvidenceImported" ∷ "CheckpointRecorded" ∷ []

abbrev pub terminal_event_types : List String
terminal_event_types =
    "TransactionBlocked" ∷ "TransactionCompleted" ∷ "TransactionSuperseded" ∷ "HumanGateRaised" ∷ []

-- What may follow a terminal event of the same transaction.
abbrev pub post_terminal_event_types : List String
post_terminal_event_types =
    "LeaseReleased" ∷ "RecoveryApplied" ∷ "ProjectionUpdated" ∷ "LegacyEvidenceImported"
    ∷ "CheckpointRecorded" ∷ []

-- The Python types that a payload field may have.
pub data Kind : Type 0 where
  is_str is_dict is_list is_bool is_str_or_none : Kind

abbrev pub has_kind : Kind → Json → Bool
has_kind is_str (str s) = true
has_kind is_dict (obj d) = true
has_kind is_list (arr xs) = true
has_kind is_bool (bool b) = true
has_kind is_str_or_none (str s) = true
has_kind is_str_or_none null = true
has_kind _ _ = false

abbrev pub payload_contracts : List (String × List (String × Kind))
payload_contracts =
    (
      "TransactionStarted",
      ("run_id", is_str)
          ∷ ("starting_branch", is_str)
          ∷ ("starting_head", is_str)
          ∷ ("allowed_mutation_policy", is_dict)
          ∷ [],
    )
    ∷ ("LeaseAcquired", ("lease_id", is_str) ∷ ("lease_type", is_str) ∷ [])
    ∷ ("SnapshotCaptured", ("snapshot", is_dict) ∷ [])
    ∷ ("SessionLaunched", ("session_id", is_str) ∷ [])
    ∷ (
      "SessionResultAccepted",
      ("classification", is_str)
          ∷ ("session_id", is_str)
          ∷ ("changed_paths", is_list)
          ∷ ("envelope", is_dict)
          ∷ [],
    )
    ∷ (
      "DeterministicExecutionStarted",
      ("plan_fingerprint", is_str) ∷ ("model_session_launched", is_bool) ∷ [],
    )
    ∷ (
      "DeterministicResultAccepted",
      ("classification", is_str)
          ∷ ("plan_fingerprint", is_str)
          ∷ ("changed_paths", is_list)
          ∷ ("model_session_launched", is_bool)
          ∷ [],
    )
    ∷ ("ChangesDetected", ("changed_paths", is_list) ∷ ("diff_fingerprint", is_str) ∷ [])
    ∷ ("ValidationFailed", ("diagnostic", is_str) ∷ [])
    ∷ ("CommitFinalized", ("commit", is_str) ∷ ("changed_paths", is_list) ∷ [])
    ∷ ("LeaseReleased", ("lease_id", is_str_or_none) ∷ [])
    ∷ ("ProjectionUpdated", ("current_state", is_str) ∷ [])
    ∷ []

abbrev kept : Kind → Option Json → Bool
kept k none = true
kept k (some v) = has_kind k v

abbrev contract_of : String → List (String × Kind)
contract_of t = elim (lookup t payload_contracts) [ none ↦ [] | some c ↦ c ]

-- Every contracted field that is present has its type.
unfoldable pub meets_contract : Event → Bool
meets_contract e = all (λ entry. kept entry.1 (member entry.0 e.payload)) (contract_of e.event_type)

abbrev pub event_keys : List String
event_keys =
    "schema_version" ∷ "sequence" ∷ "event_id" ∷ "event_type" ∷ "timestamp" ∷ "project_id"
    ∷ "repository_identity" ∷ "repository_path_fingerprint" ∷ "transaction_id" ∷ "workflow_type"
    ∷ "previous_fingerprint" ∷ "fingerprint" ∷ "payload" ∷ []

abbrev subset : List String → List String → Bool
subset xs ys = all (λ x. contains x ys) xs

abbrev as_int : Option Json → Option ℤ
as_int (some (int n)) = some n
as_int _ = none

abbrev as_str : Option Json → Option String
as_str (some (str s)) = some s
as_str _ = none

text_field : String → Fields → Result LedgerError String
text_field k d = require (as_str (get_field k d)) invalid_strings

-- The shape checks that open the loop of `_validate`, on one decoded record.
unfoldable pub decode_event : Json → Result LedgerError Event
unfolding text_field
decode_event (obj d) = do
  guard (subset event_keys (keys d)) missing_fields
  guard (subset (keys d) event_keys) unexpected_fields
  version ← require (as_int (get_field "schema_version" d)) invalid_integers
  sequence ← require (as_int (get_field "sequence" d)) invalid_integers
  event_id ← text_field "event_id" d
  event_type ← text_field "event_type" d
  timestamp ← text_field "timestamp" d
  project_id ← text_field "project_id" d
  repository_identity ← text_field "repository_identity" d
  path_fingerprint ← text_field "repository_path_fingerprint" d
  transaction_id ← text_field "transaction_id" d
  workflow_type ← text_field "workflow_type" d
  previous ← text_field "previous_fingerprint" d
  fingerprint ← text_field "fingerprint" d
  payload ← require (get_field "payload" d) missing_fields
  ok (record {
    schema_version = version;
    sequence = sequence;
    event_id = event_id;
    event_type = event_type;
    timestamp = timestamp;
    project_id = project_id;
    repository_identity = repository_identity;
    repository_path_fingerprint = path_fingerprint;
    transaction_id = transaction_id;
    workflow_type = workflow_type;
    previous_fingerprint = previous;
    fingerprint = fingerprint;
    payload = payload;
  })
decode_event _ = err record_not_object

-- A lower-case hexadecimal digit.
abbrev is_hex : ℕ → Bool
is_hex c = (leb b'0' c && leb c b'9') || (leb b'a' c && leb c b'f')

unfoldable pub is_fingerprint : String → Bool
is_fingerprint s = length (codes s) == 64 && all is_hex (codes s)

abbrev pub long_identity : String → Bool
long_identity s = leb 64 (length (codes s))
