-- ===== src/Contracts/Blockers.antt =====
-- A blocker is bound to a transaction.
use development_conveyor.Base.{String, ◌≡◌, refl, some, [], ◌∷◌, ok}
use development_conveyor.Json.{Json, str, obj, Fields}
use development_conveyor.Dict.{dict}
use development_conveyor.Contracts.{feature_execution}
use development_conveyor.Contracts.Gate.{GateContext, bind_human_gate}
use development_conveyor.Contracts.Bound.{is_named, IsBound, bind_human_gate-IsBound}
use development_conveyor.Contracts.Rebound.{bind_human_gate-again}

abbrev context : GateContext
context = record {
  transaction_id = "t1";
  project_id = "p1";
  repository_identity = "r1";
  repository_path_fingerprint = "path";
  workflow_type = feature_execution;
  approved_next_state = "feature_ready";
  terminal_classification = "HUMAN_DECISION_REQUIRED";
}

abbrev blocker : Json
blocker = obj (
    dict (
      ("decision", str "which schema?")
      ∷ ("options", str "a or b")
      ∷ ("transaction_id", str "other")
      ∷ []))

abbrev fixed_digest : Json → String
fixed_digest v = "00112233445566778899aabbccddeeff00112233445566778899aabbccddeeff"

abbrev gate : Fields
gate = dict (
    ("decision", str "which schema?")
    ∷ ("options", str "a or b")
    ∷ ("transaction_id", str "t1")
    ∷ ("project_id", str "p1")
    ∷ ("repository_identity", str "r1")
    ∷ ("repository_path_fingerprint", str "path")
    ∷ ("workflow_type", str "feature_execution")
    ∷ ("approved_next_state", str "feature_ready")
    ∷ ("gate_id", str "gate-00112233445566778899aabbccddeeff")
    ∷ ("classification", str "HUMAN_DECISION_REQUIRED")
    ∷ ("reason", str "which schema?")
    ∷ [])

blocker-bound : bind_human_gate fixed_digest context (some blocker) ≡ ok gate
unfolding bind_human_gate
blocker-bound = refl

bind_human_gate-IsBound_example :
    (g : Fields) × (bind_human_gate fixed_digest context (some blocker) ≡ ok g)
    × IsBound context (some blocker) g
bind_human_gate-IsBound_example =
    bind_human_gate-IsBound fixed_digest context (some blocker) (λ v. refl)
      (unfold is_named in refl)

bind_human_gate-again_example : bind_human_gate fixed_digest context (some (obj gate)) ≡ ok gate
bind_human_gate-again_example =
    bind_human_gate-again fixed_digest context (some blocker) blocker-bound
