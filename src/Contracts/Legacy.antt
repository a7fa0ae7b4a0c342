-- ===== src/Contracts/Legacy.antt =====
-- `_normalize_corroborated_terminal_envelope` of src/development_conveyor/contracts.py: an envelope with
-- older names is given the names of today, if it agrees with what the controller knows of the session.
use development_conveyor.Base.{
  String, Option, none, some, List, [], ◌∷◌, Bool, true, false, not, ◌&&◌, ◌==◌, string_eq,
  if◌then◌else◌, contains, Result, ok, err, ◌>>=◌, fold_result,
}
use development_conveyor.Json.{
  Json, null, str, arr, obj, json_eq, Fields, get_field, set_field, is_text,
}
use development_conveyor.Dict.{remove_field, or_null}
use development_conveyor.Contracts.{queue_reconciliation, workflow_value}

-- What the controller knows of the session.
pub record Corroboration : Type 0 where
  pub workflow_type : String
  pub project_id : String
  pub repository_identity : String
  pub transaction_id : String
  pub run_id : String
  pub session_id : String
  pub starting_branch : String
  pub starting_commit : String

-- `unhashable_state` is the `TypeError` of a list or a `dict` that is looked up in a set.
pub data LegacyError : Type 0 where
  conflicting_names : (canonical alias : String) → LegacyError
  absent conflicting : (key : String) → LegacyError
  absent_workflow conflicting_workflow unhashable_state : LegacyError

-- The value is not `None`.
abbrev pub is_given : Option Json → Bool
is_given (some null) = false
is_given (some v) = true
is_given none = false

abbrev pub aliases : Bool → List (String × String)
aliases true =
    ("repository_identity", "repository")
    ∷ ("classification", "result")
    ∷ ("feature_id", "feature")
    ∷ []
aliases false = []

-- Both values are given and differ.
abbrev pub disagree : Option Json → Option Json → Bool
disagree a b = is_given a && is_given b && not (or_null a == or_null b)

abbrev pub take_over : String → Option Json → Option Json → Fields → Fields
take_over canonical none (some v) d = set_field canonical v d
take_over canonical _ _ d = d

unfoldable pub rename : Fields → String × String → Result LegacyError Fields
rename d (canonical, alias) =
    if disagree (get_field canonical d) (get_field alias d)
    then err (conflicting_names canonical alias)
    else ok (remove_field alias (take_over canonical (get_field canonical d) (get_field alias d) d))

abbrev pub expected_identity : Corroboration → List (String × String)
expected_identity c =
    ("project_id", c.project_id)
    ∷ ("repository_identity", c.repository_identity)
    ∷ ("transaction_id", c.transaction_id)
    ∷ ("run_id", c.run_id)
    ∷ ("session_id", c.session_id)
    ∷ ("starting_branch", c.starting_branch)
    ∷ ("starting_commit", c.starting_commit)
    ∷ []

-- What an entry of the envelope has to be: given and as expected, or absent where that is allowed.
unfoldable pub settle :
    (optional : Bool) (missing differing : LegacyError) (key expected : String)
    → Fields
    → Result LegacyError Fields
settle optional missing differing key expected d =
    if is_given (get_field key d)
    then if is_text (get_field key d) expected then ok d else err differing
    else if optional
    then ok (set_field key (str expected) d)
    else err missing

unfoldable pub confirm : Bool → Fields → String × String → Result LegacyError Fields
unfolding settle
confirm compatible d (key, expected) =
    settle (compatible && key == "project_id") (absent key) (conflicting key) key expected d

abbrev pub is_hashable : Option Json → Bool
is_hashable (some (arr xs)) = false
is_hashable (some (obj d)) = false
is_hashable _ = true

abbrev pub names_ready : Option Json → Bool
names_ready (some (str s)) =
    contains s ("feature_preparation" ∷ "feature_preparing" ∷ "feature_ready" ∷ [])
names_ready _ = false

-- The states that a ready reconciliation led to are one state.
unfoldable pub normalize_state : Bool → Fields → Result LegacyError Fields
normalize_state compatible d =
    if compatible && is_text (get_field "classification" d) "RECONCILED_READY_WORK"
    then if is_hashable (get_field "next_state" d)
      then ok (
          if names_ready (get_field "next_state" d)
          then set_field "next_state" (str "feature_ready") d
          else d)
      else err unhashable_state
    else ok d

unfoldable pub normalize_envelope : Corroboration → Fields → Result LegacyError Fields
unfolding rename confirm settle normalize_state
normalize_envelope c value = do
  let compatible = c.workflow_type == workflow_value queue_reconciliation
  renamed ← fold_result rename value (aliases compatible)
  confirmed ← fold_result (confirm compatible) renamed (expected_identity c)
  invoked ←
      settle compatible absent_workflow conflicting_workflow "workflow_type" c.workflow_type
        confirmed
  normalize_state compatible invoked
