-- ===== src/Profiles/Policy.antt =====
-- `validate_feature_execution_policy` of src/development_conveyor/execution_profiles.py.
use development_conveyor.Base.{
  ℕ, String, not, ◌&&◌, Option, none, some, List, [], ◌∷◌, ◌==◌, string_eq, if◌then◌else◌, Result,
  ok, err, ◌>>=◌, ◌>>◌, guard, require, leb, is_some, all, contains, is_blank, strip, nat_eq,
}
use development_conveyor.Json.{Json, null, str, obj, Fields, get_field, keys}
use development_conveyor.Profiles.Delegation.{
  ProfileError, policy_not_object, unsupported_keys, unsupported_profile, invalid_parent_sessions,
  invalid_child_sessions, too_many_children, unexpected_delegation, missing_delegation,
  malformed_escalation, empty_trigger, unsupported_escalation, unchanged_profile, profile_of,
  natural_of, same_keys, validate_child_delegation,
}

pub record FeatureExecutionPolicy : Type 0 where
  pub profile : String
  pub parent_sessions : ℕ
  pub child_sessions : ℕ
  pub escalation_trigger : Option String
  pub escalation_profile : Option String
  pub child_delegation : Option Fields

-- `value.get(key)` where a missing key and `null` are one.
abbrev pub present : Option Json → Option Json
present (some null) = none
present v = v

abbrev pub fields_of : Json → Option Fields
fields_of (obj d) = some d
fields_of _ = none

abbrev pub filled_text : Option Json → Option String
filled_text (some (str s)) = if is_blank s then none else some s
filled_text _ = none

-- The trigger, stripped, and the profile of an escalation.
unfoldable pub check_escalation :
    String → Option Json → Result ProfileError (Option (String × String))
unfolding strip
check_escalation profile none = ok none
check_escalation profile (some (obj d)) = do
  guard (same_keys d ("trigger" ∷ "profile" ∷ [])) malformed_escalation
  trigger ← require (filled_text (get_field "trigger" d)) empty_trigger
  next ← require (profile_of (get_field "profile" d)) unsupported_escalation
  guard (not (next == profile)) unchanged_profile
  ok (some (strip trigger, next))
check_escalation profile (some v) = err malformed_escalation

unfoldable pub delegation_or_none :
    (String → String) → Option Json → Result ProfileError (Option Fields)
unfolding validate_child_delegation
delegation_or_none lower none = ok none
delegation_or_none lower (some v) =
    validate_child_delegation lower (fields_of v) >>= λ d. ok (some d)

abbrev pub policy_keys : List String
policy_keys =
    "profile" ∷ "parent_sessions" ∷ "child_sessions" ∷ "escalation" ∷ "child_delegation" ∷ []

abbrev pub first_of : Option (String × String) → Option String
first_of none = none
first_of (some (trigger, next)) = some trigger

abbrev pub second_of : Option (String × String) → Option String
second_of none = none
second_of (some (trigger, next)) = some next

unfoldable pub validate_feature_execution_policy :
    (String → String) → Json → Result ProfileError FeatureExecutionPolicy
unfolding check_escalation delegation_or_none
validate_feature_execution_policy lower policy = do
  value ← require (fields_of policy) policy_not_object
  guard (all (λ k. contains k policy_keys) (keys value)) unsupported_keys
  profile ← require (profile_of (get_field "profile" value)) unsupported_profile
  parent ← require (natural_of (get_field "parent_sessions" value)) invalid_parent_sessions
  guard (leb 1 parent) invalid_parent_sessions
  child ← require (natural_of (get_field "child_sessions" value)) invalid_child_sessions
  guard (leb child 1) too_many_children
  let delegation = present (get_field "child_delegation" value)
  guard (not (child == 0 && is_some delegation)) unexpected_delegation
  guard (not (child == 1 && not (is_some delegation))) missing_delegation
  normalized_child ← delegation_or_none lower delegation
  escalation ← check_escalation profile (present (get_field "escalation" value))
  ok (record {
    profile = profile;
    parent_sessions = parent;
    child_sessions = child;
    escalation_trigger = first_of escalation;
    escalation_profile = second_of escalation;
    child_delegation = normalized_child;
  })
