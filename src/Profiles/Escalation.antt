-- ===== src/Profiles/Escalation.antt =====
-- `_eligible_escalation` of src/development_conveyor/execution_profiles.py.
use development_conveyor.Base.{
  ℕ, String, Bool, false, not, ◌&&◌, Option, none, some, List, [], ◌∷◌, ◌==◌, string_eq, nat_eq,
  option_eq, if◌then◌else◌, all, contains, is_some, is_blank, lookup, leb,
}
use development_conveyor.Json.{
  Json, json_eq, bool, int, pos, str, Fields, get_field, is_text, keys, text_of,
}
use development_conveyor.Profiles.Delegation.{natural_of}
use development_conveyor.Profiles.Policy.{FeatureExecutionPolicy, present}
use development_conveyor.Profiles.Configuration.{default_profiles}

abbrev pub model_of : Option (String × String) → Option String
model_of none = none
model_of (some (model, reasoning)) = some model

abbrev pub reasoning_of : Option (String × String) → Option String
reasoning_of none = none
reasoning_of (some (model, reasoning)) = some reasoning

-- The comparison of a field with a text that may be missing.
abbrev pub same_text : Option Json → Option String → Bool
same_text v (some s) = is_text v s
same_text v none = not (is_some (present v))

abbrev pub is_number : Option Json → ℕ → Bool
is_number (some (int (pos a))) b = a == b
is_number _ b = false

abbrev pub is_true : Option Json → Bool
is_true (some (bool b)) = b
is_true _ = false

abbrev pub is_filled : Option Json → Bool
is_filled (some (str s)) = not (is_blank s)
is_filled _ = false

abbrev pub at_least : ℕ → Option ℕ → Bool
at_least least none = false
at_least least (some n) = leb least n

abbrev record_keys : List String
record_keys =
    "previous_profile" ∷ "previous_model" ∷ "previous_reasoning"
    ∷ "failed_command_or_unresolved_evidence" ∷ "escalation_trigger" ∷ "new_profile" ∷ "new_model"
    ∷ "new_reasoning" ∷ "expected_resolution" ∷ "attempt_number" ∷ []

-- The conditions on the evidence of an escalation from one profile to another at a trigger.
unfoldable pub is_escalation : String → String → String → Fields → Bool
is_escalation profile trigger next e =
    let previous = lookup profile default_profiles in
    let following = lookup next default_profiles in
    let attempt = natural_of (get_field "attempt_number" e) in
    all (λ condition. condition)
      (is_true (get_field "recorded" e)
        ∷ is_text (get_field "trigger" e) trigger
        ∷ is_text (get_field "escalation_trigger" e) trigger
        ∷ is_true (get_field "context_complete" e)
        ∷ not (is_true (get_field "missing_context" e))
        ∷ not (is_true (get_field "environment_failure" e))
        ∷ not (is_true (get_field "localized_test_omission" e))
        ∷ all (λ k. contains k (keys e)) record_keys
        ∷ is_text (get_field "previous_profile" e) profile
        ∷ same_text (get_field "previous_model" e) (model_of previous)
        ∷ same_text (get_field "previous_reasoning" e) (reasoning_of previous)
        ∷ is_text (get_field "new_profile" e) next
        ∷ same_text (get_field "new_model" e) (model_of following)
        ∷ same_text (get_field "new_reasoning" e) (reasoning_of following)
        ∷ is_filled (get_field "failed_command_or_unresolved_evidence" e)
        ∷ is_filled (get_field "expected_resolution" e)
        ∷ at_least 1 attempt
        ∷ not (next == "unresolved_after_high" && not (at_least 2 attempt))
        ∷ is_filled (get_field "evidence_id" e)
        ∷ [])

abbrev pub nonempty : Option String → Option String
nonempty none = none
nonempty (some s) = if s == "" then none else some s

abbrev pub object_in : Option Json → Option Fields
object_in (some (Json.obj d)) = some d
object_in _ = none

unfoldable pub eligible_by : String → Option String → Option String → Option Fields → Option String
unfolding is_escalation
eligible_by profile (some trigger) (some next) (some e) =
    if is_escalation profile trigger next e then text_of (get_field "evidence_id" e) else none
eligible_by profile _ _ _ = none

-- `_eligible_escalation`: the identifier of the evidence, if it justifies the policy's escalation.
unfoldable pub eligible_escalation : FeatureExecutionPolicy → Option Json → Option String
unfolding eligible_by
eligible_escalation p evidence =
    eligible_by p.profile (nonempty p.escalation_trigger) (nonempty p.escalation_profile)
      (object_in evidence)
