-- ===== src/Profiles/Resolution.antt =====
-- `resolve_feature_execution_policy` of src/development_conveyor/execution_profiles.py.
use development_conveyor.Base.{
  String, Bool, true, false, ◌&&◌, Option, none, some, ◌==◌, nat_eq, string_eq, option_eq, Result,
  ok, err, ◌>>=◌, ◌>>◌, guard, all, is_some, leb,
}
use development_conveyor.Json.{Json, json_eq, json_beq, obj, Fields, get_field, set_field}
use development_conveyor.Contracts.Envelope.{is_filled, text_at}
use development_conveyor.Profiles.Delegation.{ProfileError, required_keys}
use development_conveyor.Profiles.Policy.{
  FeatureExecutionPolicy, present, validate_feature_execution_policy,
}
use development_conveyor.Profiles.Written.{execution_policy_fields}
use development_conveyor.Profiles.Configuration.{ConfigurationError}
use development_conveyor.Profiles.Resolve.{
  ResolutionSource, workflow_fallback, feature_profile, ResolvedExecutionProfile, Request,
  resolve_execution_profile,
}

-- The arguments of `resolve_feature_execution_policy`.
pub record FeatureRequest : Type 0 where
  pub feature : Fields
  pub project_id : String
  pub specification_policy : Option Json
  pub configuration : Option Json

pub data ResolutionError : Type 0 where
  missing_feature_id disagreeing_metadata not_executable : ResolutionError
  invalid_queue_policy invalid_specification_policy invalid_result : ProfileError → ResolutionError
  unresolved : ConfigurationError → ResolutionError

pub record FeatureResolution : Type 0 where
  pub feature_id : String
  pub execution_policy : Fields
  pub resolved_execution_profile : ResolvedExecutionProfile
  pub policy_source : ResolutionSource
  pub explicit_policy_preserved : Bool

-- A call that raises an error of another type.
abbrev pub raise_as {ℓ} : {E F A : Type ℓ} → (E → F) → Result E A → Result F A
raise_as f (ok a) = ok a
raise_as f (err e) = err (f e)

unfoldable pub validate_given :
    (String → String) → Option Json → Result ProfileError (Option FeatureExecutionPolicy)
unfolding validate_feature_execution_policy
validate_given lower none = ok none
validate_given lower (some v) = validate_feature_execution_policy lower v >>= λ p. ok (some p)

-- Two validated delegations have the same keys.
abbrev pub same_delegation : Option Fields → Option Fields → Bool
same_delegation none none = true
same_delegation (some d) (some e) = all (λ k. get_field k d == get_field k e) required_keys
same_delegation _ _ = false

-- The `dict`s of two validated policies are equal.
abbrev pub same_policy : FeatureExecutionPolicy → FeatureExecutionPolicy → Bool
same_policy p q =
    p.profile == q.profile
    && p.parent_sessions == q.parent_sessions
    && p.child_sessions == q.child_sessions
    && p.escalation_trigger == q.escalation_trigger
    && p.escalation_profile == q.escalation_profile
    && same_delegation p.child_delegation q.child_delegation

-- `queue_policy or specification_policy`, if they agree.
abbrev pub agreed :
    Option FeatureExecutionPolicy
    → Option FeatureExecutionPolicy
    → Result ResolutionError (Option FeatureExecutionPolicy)
agreed (some p) (some q) = guard (same_policy p q) disagreeing_metadata >> ok (some p)
agreed (some p) none = ok (some p)
agreed none q = ok q

unfoldable pub explicit_policy :
    (String → String) → FeatureRequest → Result ResolutionError (Option FeatureExecutionPolicy)
unfolding validate_given json_beq
explicit_policy lower request = do
  queued ←
      raise_as invalid_queue_policy
        (validate_given lower (present (get_field "execution_policy" request.feature)))
  specified ←
      raise_as invalid_specification_policy (validate_given lower request.specification_policy)
  agreed queued specified

unfoldable pub with_policy : Fields → Option FeatureExecutionPolicy → Fields
unfolding execution_policy_fields
with_policy feature none = feature
with_policy feature (some p) =
    set_field "execution_policy" (obj (execution_policy_fields p)) feature

unfoldable pub profile_request : FeatureRequest → Option FeatureExecutionPolicy → Request
unfolding with_policy
profile_request request explicit = record {
  workflow = "application_feature";
  deterministic = false;
  feature = some (with_policy request.feature explicit);
  project_id = some request.project_id;
  configuration = request.configuration;
  override_profile = none;
  escalation_evidence = none;
}

abbrev pub is_route : ResolutionSource → Bool
is_route (feature_profile source) = true
is_route workflow_fallback = true
is_route _ = false

abbrev pub is_executable : ResolvedExecutionProfile → Bool
is_executable r =
    is_some r.profile
    && is_some r.model
    && is_some r.reasoning
    && leb 1 r.parent_sessions
    && is_route r.resolution_source

abbrev pub or_empty : Option String → String
or_empty none = ""
or_empty (some s) = s

-- `explicit_policy or FeatureExecutionPolicy(...)`; a resolution that is executable has a profile.
abbrev pub effective_policy :
    Option FeatureExecutionPolicy → ResolvedExecutionProfile → FeatureExecutionPolicy
effective_policy (some p) r = p
effective_policy none r = record {
  profile = or_empty r.profile;
  parent_sessions = r.parent_sessions;
  child_sessions = r.child_sessions;
  escalation_trigger = r.escalation_trigger;
  escalation_profile = r.escalation_profile;
  child_delegation = none;
}

unfoldable pub resolution_of :
    String → Option FeatureExecutionPolicy → ResolvedExecutionProfile → FeatureResolution
unfolding execution_policy_fields
resolution_of name explicit r = record {
  feature_id = name;
  execution_policy = execution_policy_fields (effective_policy explicit r);
  resolved_execution_profile = r;
  policy_source = r.resolution_source;
  explicit_policy_preserved = is_some explicit;
}

unfoldable pub resolve_feature_execution_policy :
    (String → String) → FeatureRequest → Result ResolutionError FeatureResolution
unfolding explicit_policy profile_request resolve_execution_profile resolution_of
resolve_feature_execution_policy lower request = do
  guard (is_filled (get_field "id" request.feature)) missing_feature_id
  explicit ← explicit_policy lower request
  resolved ←
      raise_as unresolved (resolve_execution_profile lower (profile_request request explicit))
  guard (is_executable resolved) not_executable
  checked ← raise_as invalid_result (
      validate_feature_execution_policy lower
        (obj (execution_policy_fields (effective_policy explicit resolved))))
  ok (resolution_of (text_at (get_field "id" request.feature)) explicit resolved)
