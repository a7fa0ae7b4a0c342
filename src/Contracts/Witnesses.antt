-- ===== src/Contracts/Witnesses.antt =====
-- A session's result is read, written and read of a stream of events.
use development_conveyor.Base.{
  none, [], ◌∷◌, ◌≡◌, refl, ok, err, Option, some, String, ◌==◌, string_eq, if◌then◌else◌, ◌↔◌,
}
use development_conveyor.Json.{Json, str, arr, obj, int, pos, Fields}
use development_conveyor.Dict.{dict, text_array}
use development_conveyor.Contracts.{queue_reconciliation, feature_preparation}
use development_conveyor.Contracts.Envelope.{
  SessionResultEnvelope, missing_fields, from_dict, to_dict,
}
use development_conveyor.Contracts.RoundTrip.{from_dict-to_dict_again}
use development_conveyor.Contracts.Terminal.{schema, corroboration_of, extract_terminal_envelope}
use development_conveyor.Contracts.Accepted.{IsOfSession, extract_terminal_envelope-IsOfSession}
use development_conveyor.Contracts.Complete.{extract_terminal_envelope_iff}

abbrev evidence : Fields
evidence = dict (("queue_validation", obj (dict (("warning_count", int (pos 0)) ∷ []))) ∷ [])

abbrev result : Fields
result = dict (
    ("schema_version", int (pos 1))
    ∷ ("workflow_type", str "queue_reconciliation")
    ∷ ("classification", str "RECONCILED_READY_WORK")
    ∷ ("project_id", str "p1")
    ∷ ("repository_identity", str "r1")
    ∷ ("transaction_id", str "t1")
    ∷ ("run_id", str "run")
    ∷ ("session_id", str "s1")
    ∷ ("starting_branch", str "main")
    ∷ ("starting_commit", str "a")
    ∷ ("current_commit", str "b")
    ∷ ("changed_paths", arr (text_array ("docs/a.md" ∷ "queue.json" ∷ [])))
    ∷ ("evidence", obj evidence)
    ∷ ("next_state", str "feature_ready")
    ∷ [])

abbrev envelope : SessionResultEnvelope
envelope = record {
  workflow_type = queue_reconciliation;
  classification = "RECONCILED_READY_WORK";
  project_id = "p1";
  repository_identity = "r1";
  transaction_id = "t1";
  run_id = "run";
  session_id = "s1";
  starting_branch = "main";
  starting_commit = "a";
  current_commit = "b";
  feature_id = none;
  changed_paths = "docs/a.md" ∷ "queue.json" ∷ [];
  evidence = evidence;
  next_state = "feature_ready";
}

from_dict-to_dict_again_example : from_dict (to_dict envelope) ≡ ok envelope
unfolding from_dict
from_dict-to_dict_again_example = from_dict-to_dict_again result refl

-- A reconciliation that uses the older names, and a preparation of a feature.
abbrev older : Fields
older = dict (
    ("schema_version", int (pos 1))
    ∷ ("workflow_type", str "queue_reconciliation")
    ∷ ("result", str "RECONCILED_READY_WORK")
    ∷ ("repository", str "r1")
    ∷ ("transaction_id", str "t1")
    ∷ ("run_id", str "run")
    ∷ ("session_id", str "s1")
    ∷ ("starting_branch", str "main")
    ∷ ("starting_commit", str "a")
    ∷ ("current_commit", str "b")
    ∷ ("changed_paths", arr (text_array ("docs/a.md" ∷ "queue.json" ∷ [])))
    ∷ ("evidence", obj evidence)
    ∷ ("next_state", str "feature_preparing")
    ∷ [])

abbrev prepared : Fields
prepared = dict (
    ("schema_version", int (pos 1))
    ∷ ("workflow_type", str "feature_preparation")
    ∷ ("classification", str "FEATURE_PREPARED")
    ∷ ("project_id", str "p1")
    ∷ ("repository_identity", str "r1")
    ∷ ("transaction_id", str "t1")
    ∷ ("run_id", str "run")
    ∷ ("session_id", str "s1")
    ∷ ("starting_branch", str "main")
    ∷ ("starting_commit", str "a")
    ∷ ("current_commit", str "b")
    ∷ ("feature_id", str "f1")
    ∷ ("changed_paths", arr (text_array []))
    ∷ ("evidence", obj (dict []))
    ∷ ("next_state", str "feature_executing")
    ∷ [])

abbrev prepared_envelope : SessionResultEnvelope
prepared_envelope = record {
  workflow_type = feature_preparation;
  classification = "FEATURE_PREPARED";
  project_id = "p1";
  repository_identity = "r1";
  transaction_id = "t1";
  run_id = "run";
  session_id = "s1";
  starting_branch = "main";
  starting_commit = "a";
  current_commit = "b";
  feature_id = some "f1";
  changed_paths = [];
  evidence = dict [];
  next_state = "feature_executing";
}

abbrev known : String → Fields
known workflow = dict (
    ("workflow_type", str workflow)
    ∷ ("project_id", str "p1")
    ∷ ("repository_identity", str "r1")
    ∷ ("transaction_id", str "t1")
    ∷ ("run_id", str "run")
    ∷ ("session_id", str "s1")
    ∷ ("starting_branch", str "main")
    ∷ ("starting_commit", str "a")
    ∷ [])

abbrev event : String → Json
event text = obj (
    dict (
      ("type", str "item.completed")
      ∷ ("item", obj (dict (("type", str "agent_message") ∷ ("text", str text) ∷ [])))
      ∷ []))

-- `json.loads` of four texts.
abbrev loads_sample : String → Option Json
loads_sample line =
    if line == "E1"
    then some (event "done\r\nCONVEYOR_TRANSACTION_RESULT=R1\n\n")
    else if line == "E2"
    then some (event "CONVEYOR_TRANSACTION_RESULT=R2")
    else if line == "R1"
    then some (obj older)
    else if line == "R2"
    then some (obj prepared)
    else none

older-accepted :
    extract_terminal_envelope loads_sample "E2\nnoise\nE1\n" (some (known "queue_reconciliation"))
    ≡ ok envelope
unfolding extract_terminal_envelope
older-accepted = refl

older-refused :
    extract_terminal_envelope loads_sample "E2\nnoise\nE1\n" none ≡ err (schema missing_fields)
unfolding extract_terminal_envelope
older-refused = refl

extract_terminal_envelope-IsOfSession_example :
    IsOfSession (corroboration_of (known "queue_reconciliation")) envelope
extract_terminal_envelope-IsOfSession_example =
    extract_terminal_envelope-IsOfSession loads_sample "E2\nnoise\nE1\n"
      (known "queue_reconciliation") older-accepted

extract_terminal_envelope_iff_example :
    (extract_terminal_envelope loads_sample "E1\nE2" (some (known "feature_preparation"))
      ≡ ok prepared_envelope)
    ↔ ((extract_terminal_envelope loads_sample "E1\nE2" none ≡ ok prepared_envelope)
        × IsOfSession (corroboration_of (known "feature_preparation")) prepared_envelope)
extract_terminal_envelope_iff_example =
    extract_terminal_envelope_iff loads_sample "E1\nE2" (known "feature_preparation")
      prepared_envelope refl refl

prepared-accepted :
    extract_terminal_envelope loads_sample "E1\nE2" (some (known "feature_preparation"))
    ≡ ok prepared_envelope
unfolding extract_terminal_envelope
prepared-accepted = refl
