-- ===== src/Profiles/Binding.antt =====
-- `validate_authenticated_profile_binding` of src/development_conveyor/execution_profiles.py.
use development_conveyor.Base.{
  Bool, ◌&&◌, Option, [], ◌∷◌, string_eq, nat_eq, option_eq, option_beq, if◌then◌else◌, Result, ok,
  ◌>>=◌, guard, require, all,
}
use development_conveyor.Json.{Json, json_eq, json_beq, Fields, get_field}
use development_conveyor.Profiles.Delegation.{natural_of}
use development_conveyor.Profiles.Policy.{present}
use development_conveyor.Profiles.Configuration.{
  ConfigurationError, no_escalation_record, invalid_escalation_record,
}
use development_conveyor.Profiles.Escalation.{same_text, is_number, is_filled, at_least, object_in}
use development_conveyor.Profiles.Resolve.{ResolvedExecutionProfile}

-- The five values that a profile is bound by, of an authenticated record and of a resolved profile.
abbrev is_bound_to : Fields → ResolvedExecutionProfile → Bool
is_bound_to d r =
    same_text (get_field "profile" d) r.profile
    && same_text (get_field "model" d) r.model
    && same_text (get_field "reasoning" d) r.reasoning
    && is_number (get_field "parent_sessions" d) r.parent_sessions
    && is_number (get_field "child_sessions" d) r.child_sessions

-- Two fields that are equal, a missing one and `null` being one.
abbrev same_field : Option Json → Option Json → Bool
unfolding json_beq
same_field v w = option_beq (present v) (present w)

unfoldable pub validate_authenticated_profile_binding :
    Fields → ResolvedExecutionProfile → Option Json → Result ConfigurationError Unit
unfolding same_field
validate_authenticated_profile_binding prior current evidence =
    if is_bound_to prior current
    then ok tt
    else (require (object_in evidence) no_escalation_record >>= λ e.
        guard
          (all (λ condition. condition)
            (same_field (get_field "previous_profile" e) (get_field "profile" prior)
              ∷ same_field (get_field "previous_model" e) (get_field "model" prior)
              ∷ same_field (get_field "previous_reasoning" e) (get_field "reasoning" prior)
              ∷ same_text (get_field "new_profile" e) current.profile
              ∷ same_text (get_field "new_model" e) current.model
              ∷ same_text (get_field "new_reasoning" e) current.reasoning
              ∷ is_filled (get_field "escalation_trigger" e)
              ∷ is_filled (get_field "failed_command_or_unresolved_evidence" e)
              ∷ is_filled (get_field "expected_resolution" e)
              ∷ at_least 1 (natural_of (get_field "attempt_number" e))
              ∷ []))
          invalid_escalation_record)
