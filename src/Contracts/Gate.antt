-- ===== src/Contracts/Gate.antt =====
-- `bind_human_gate` of src/development_conveyor/contracts.py.
use Prim.Native.String.{◌++◌ as text_append}
use development_conveyor.Base.{
  String, Option, some, List, [], ◌∷◌, is_blank, if◌then◌else◌, take_text, Result, ◌++◌,
}
use development_conveyor.Json.{Json, str, obj, Fields, end, get_field}
use development_conveyor.Dict.{dict, or_else, update_fields}
use development_conveyor.Contracts.{WorkflowType, workflow_value, GateError, validate_human_gate}

-- The keyword arguments.
pub record GateContext : Type 0 where
  pub transaction_id : String
  pub project_id : String
  pub repository_identity : String
  pub repository_path_fingerprint : String
  pub workflow_type : WorkflowType
  pub approved_next_state : String
  pub terminal_classification : String

-- `dict(value) if isinstance(value, dict) else {}`
abbrev pub source_of : Option Json → Fields
source_of (some (obj d)) = d
source_of _ = end

-- `value` if it is a text that is not blank.
abbrev pub text_or : String → Option Json → String
text_or default (some (str s)) = if is_blank s then default else s
text_or default _ = default

unfoldable pub gate_reason : Fields → String
gate_reason source =
    text_or "workflow requires an explicit human decision"
      (or_else (get_field "reason" source) (get_field "decision" source))

unfoldable pub gate_classification : GateContext → Fields → String
gate_classification c source = text_or "HUMAN_DECISION_REQUIRED" (
    or_else (get_field "classification" source)
      (or_else (get_field "gate_classification" source) (some (str c.terminal_classification))))

abbrev pub gate_bindings : GateContext → List (String × Json)
gate_bindings c =
    ("transaction_id", str c.transaction_id)
    ∷ ("project_id", str c.project_id)
    ∷ ("repository_identity", str c.repository_identity)
    ∷ ("repository_path_fingerprint", str c.repository_path_fingerprint)
    ∷ ("workflow_type", str (workflow_value c.workflow_type))
    ∷ ("approved_next_state", str c.approved_next_state)
    ∷ []

-- `fingerprint` is SHA-256 over canonical JSON, in hexadecimal digits.
module _ (fingerprint : Json → String) where
  unfoldable pub gate_id_of : GateContext → (classification reason : String) → String
  gate_id_of c classification reason = text_append "gate-" (
      take_text 32 (
        fingerprint (
          obj (
            dict (
              gate_bindings c
              ++ ("classification", str classification) ∷ ("reason", str reason) ∷ [])))))

  -- What is written over the blocker's own entries.
  unfoldable pub gate_entries : GateContext → (classification reason : String) → Fields
  unfolding gate_id_of
  gate_entries c classification reason = dict (
      gate_bindings c
      ++ ("gate_id", str (gate_id_of c classification reason))
        ∷ ("classification", str classification)
        ∷ ("reason", str reason)
        ∷ [])

  unfoldable pub bind_human_gate : GateContext → Option Json → Result GateError Fields
  unfolding gate_reason gate_classification gate_entries validate_human_gate
  bind_human_gate c value =
      let source = source_of value in
      validate_human_gate (
        some (
          obj (
            update_fields source
              (gate_entries c (gate_classification c source) (gate_reason source)))))
