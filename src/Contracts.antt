-- ===== src/Contracts.antt =====
-- The typed contracts of src/development_conveyor/contracts.py: workflows, leases, transaction states,
-- and the human gate. A `str` enumeration is a data type with its value beside it.
use mathlib.Core.Path.{subst}
use development_conveyor.Base.{
  Bool-cases, inl, inr, some-eq, eq_of_beq, if◌then◌else◌, ℕ, String, ◌≡◌, refl, Bool, true, false,
  not, ◌&&◌, ◌||◌, Option, none, some, List, [], ◌∷◌, leb, ◌==◌, nat_eq, string_eq, all, contains,
  length, codes, is_blank, map, Result, ok, err, guard, guard-bind-ok, ok-eq, ◌>>◌,
}
use development_conveyor.Json.{Json, str, obj, Fields, get_field}
pub mod Envelope
pub mod Gate
pub mod GateId
pub mod Successes
pub mod Bound
pub mod Rebound
pub mod Legacy
pub mod Terminal
pub mod Corroborated
pub mod Accepted
pub mod Complete
pub mod RoundTrip
mod Witnesses
mod Blockers

pub data WorkflowType : Type 0 where
  queue_reconciliation feature_preparation feature_execution feature_acceptance : WorkflowType
  milestone_integration milestone_gate human_decision_resolution recovery : WorkflowType

abbrev pub workflow_value : WorkflowType → String
workflow_value queue_reconciliation = "queue_reconciliation"
workflow_value feature_preparation = "feature_preparation"
workflow_value feature_execution = "feature_execution"
workflow_value feature_acceptance = "feature_acceptance"
workflow_value milestone_integration = "milestone_integration"
workflow_value milestone_gate = "milestone_gate"
workflow_value human_decision_resolution = "human_decision_resolution"
workflow_value recovery = "recovery"

abbrev pub workflow_types : List WorkflowType
workflow_types =
    queue_reconciliation ∷ feature_preparation ∷ feature_execution ∷ feature_acceptance
    ∷ milestone_integration ∷ milestone_gate ∷ human_decision_resolution ∷ recovery ∷ []

abbrev first_with {ℓ} : {A : Type ℓ} → (A → Bool) → List A → Option A
first_with p [] = none
first_with p (x ∷ xs) = let later = first_with p xs in if p x then some x else later

-- `WorkflowType(value)`; `none` is the `ValueError`.
abbrev pub workflow_type : String → Option WorkflowType
workflow_type s = first_with (λ w. workflow_value w == s) workflow_types

abbrev pub is_workflow_type : String → Bool
is_workflow_type s = contains s (map workflow_value workflow_types)

pub workflow_type-workflow_value : (w : WorkflowType) → workflow_type (workflow_value w) ≡ some w
workflow_type-workflow_value queue_reconciliation = refl
workflow_type-workflow_value _ = refl

first_with-passes {ℓ} :
    {A : Type ℓ} (p : A → Bool) (xs : List A) {a : A} → first_with p xs ≡ some a → p a ≡ true
first_with-passes p [] h = cc h
first_with-passes p (x ∷ xs) h = elim (Bool-cases (p x)) [
  | inl passes ↦ subst (λ y. p y ≡ true) (some-eq (rw passes at h)) passes
  | inr fails ↦ first_with-passes p xs (rw fails at h)
]

pub workflow_value-workflow_type :
    (s : String) {w : WorkflowType} → workflow_type s ≡ some w → workflow_value w ≡ s
workflow_value-workflow_type s {w} h =
    eq_of_beq {a = workflow_value w} {b = s}
      (first_with-passes (λ v. workflow_value v == s) workflow_types h)

pub data LeaseType : Type 0 where
  planning_writer feature_writer integration_writer : LeaseType
  milestone_gate_writer recovery_writer : LeaseType

abbrev pub lease_value : LeaseType → String
lease_value planning_writer = "planning_writer"
lease_value feature_writer = "feature_writer"
lease_value integration_writer = "integration_writer"
lease_value milestone_gate_writer = "milestone_gate_writer"
lease_value recovery_writer = "recovery_writer"

abbrev pub lease_types : List LeaseType
lease_types =
    planning_writer ∷ feature_writer ∷ integration_writer ∷ milestone_gate_writer ∷ recovery_writer
    ∷ []

-- `LeaseType(value)`
abbrev pub lease_type : String → Option LeaseType
lease_type s = first_with (λ t. lease_value t == s) lease_types

pub lease_type-lease_value : (t : LeaseType) → lease_type (lease_value t) ≡ some t
lease_type-lease_value planning_writer = refl
lease_type-lease_value _ = refl

-- WORKFLOW_LEASE
abbrev pub workflow_lease : WorkflowType → LeaseType
workflow_lease queue_reconciliation = planning_writer
workflow_lease feature_preparation = feature_writer
workflow_lease feature_execution = feature_writer
workflow_lease feature_acceptance = feature_writer
workflow_lease milestone_integration = integration_writer
workflow_lease milestone_gate = milestone_gate_writer
workflow_lease human_decision_resolution = recovery_writer
workflow_lease recovery = recovery_writer

pub is_alphanumeric : ℕ → Bool
is_alphanumeric c =
    (leb b'a' c && leb c b'z') || (leb b'A' c && leb c b'Z') || (leb b'0' c && leb c b'9')

pub is_identifier_tail : ℕ → Bool
is_identifier_tail c = is_alphanumeric c || c == b'.' || c == b'_' || c == b':' || c == b'-'

pub safe_codes : List ℕ → Bool
safe_codes [] = false
safe_codes (c ∷ cs) = is_alphanumeric c && all is_identifier_tail cs && leb (length cs) 255

-- `SAFE_IDENTIFIER.fullmatch(value)`
unfoldable pub safe_identifier : String → Bool
unfolding is_alphanumeric is_identifier_tail safe_codes
safe_identifier s = safe_codes (codes s)

-- The raises of `validate_human_gate`.
pub data GateError : Type 0 where
  not_an_object unsafe_gate_id missing_text missing_next_state missing_binding bad_workflow :
      GateError

-- A text that is not blank; a text that is not empty.
abbrev pub filled : Option Json → Bool
filled (some (str s)) = not (is_blank s)
filled _ = false

abbrev pub nonempty : Option Json → Bool
nonempty (some (str s)) = not (s == "")
nonempty _ = false

safe_text : Option Json → Bool
unfolding safe_identifier
safe_text (some (str s)) = safe_identifier s
safe_text _ = false

abbrev names_workflow : Option Json → Bool
names_workflow (some (str s)) = is_workflow_type s
names_workflow _ = false

abbrev gate_identities : List String
gate_identities =
    "transaction_id" ∷ "project_id" ∷ "repository_identity" ∷ "repository_path_fingerprint"
    ∷ "workflow_type" ∷ []

gate_checks : Fields → Result GateError Fields
unfolding safe_text
gate_checks gate = do
  guard (safe_text (get_field "gate_id" gate)) unsafe_gate_id
  guard (all (λ k. filled (get_field k gate)) ("classification" ∷ "reason" ∷ [])) missing_text
  guard (nonempty (get_field "approved_next_state" gate)) missing_next_state
  guard (all (λ k. nonempty (get_field k gate)) gate_identities) missing_binding
  guard (names_workflow (get_field "workflow_type" gate)) bad_workflow
  ok gate

unfoldable pub validate_human_gate : Option Json → Result GateError Fields
unfolding gate_checks
validate_human_gate (some (obj gate)) = gate_checks gate
validate_human_gate _ = err not_an_object

-- A gate that is accepted is returned as it is.
pub validate_human_gate-same :
    (d : Fields) {g : Fields} → validate_human_gate (some (obj d)) ≡ ok g → d ≡ g
unfolding validate_human_gate
validate_human_gate-same d h =
    let (_, h1) = guard-bind-ok (safe_text (get_field "gate_id" d)) unsafe_gate_id _ h in
    let (_, h2) =
      guard-bind-ok (all (λ k. filled (get_field k d)) ("classification" ∷ "reason" ∷ []))
        missing_text _ h1 in
    let (_, h3) =
      guard-bind-ok (nonempty (get_field "approved_next_state" d)) missing_next_state _ h2 in
    let (_, h4) =
      guard-bind-ok (all (λ k. nonempty (get_field k d)) gate_identities) missing_binding _ h3 in
    ok-eq (guard-bind-ok (names_workflow (get_field "workflow_type" d)) bad_workflow _ h4).1
