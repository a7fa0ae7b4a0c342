-- ===== src/Profiles/Resolve.antt =====
-- `resolve_execution_profile` of src/development_conveyor/execution_profiles.py.
use development_conveyor.Base.{
  ℕ, String, Bool, true, false, Option, none, some, List, [], ◌∷◌, ◌==◌, string_eq, nat_eq,
  option_eq, if◌then◌else◌, Result, ok, err, ◌>>=◌, ◌>>◌, guard, require, contains, is_some, lookup,
  ltb,
}
use development_conveyor.Json.{Json, json_eq, null, str, Fields, get_field, set_field, text_of}
use development_conveyor.Profiles.Delegation.{profile_names, profile_of}
use development_conveyor.Profiles.Policy.{FeatureExecutionPolicy}
use development_conveyor.Profiles.Configuration.{
  ConfigurationError, unsupported_override, no_fallback, child_not_cheaper,
  missing_child_delegation, default_profiles, Configuration, configuration_of, PolicySource,
  feature_policy,
}
use development_conveyor.Profiles.Escalation.{model_of, reasoning_of, eligible_escalation}

pub data ResolutionSource : Type 0 where
  deterministic_zero_model explicit_run_override workflow_fallback evidence_based_escalation :
      ResolutionSource
  feature_profile : PolicySource → ResolutionSource

pub record ResolvedExecutionProfile : Type 0 where
  pub profile : Option String
  pub resolution_source : ResolutionSource
  pub model : Option String
  pub reasoning : Option String
  pub parent_sessions : ℕ
  pub child_sessions : ℕ
  pub escalation_trigger : Option String
  pub escalation_profile : Option String
  pub escalated : Bool
  pub escalation_evidence_id : Option String
  pub child_delegation : Option Fields

-- The arguments of `resolve_execution_profile`.
pub record Request : Type 0 where
  pub workflow : String
  pub deterministic : Bool
  pub feature : Option Fields
  pub project_id : Option String
  pub configuration : Option Json
  pub override_profile : Option String
  pub escalation_evidence : Option Json

-- A policy without escalation and child sessions.
abbrev pub single_session : String → FeatureExecutionPolicy
single_session profile = record {
  profile = profile;
  parent_sessions = 1;
  child_sessions = 0;
  escalation_trigger = none;
  escalation_profile = none;
  child_delegation = none;
}

abbrev pub overridden :
    String → Option (FeatureExecutionPolicy × PolicySource) → FeatureExecutionPolicy
overridden profile none = single_session profile
overridden profile (some (p, source)) = record p { profile = profile }

unfoldable pub decide :
    Configuration
    → String
    → Option String
    → Option (FeatureExecutionPolicy × PolicySource)
    → Result ConfigurationError (FeatureExecutionPolicy × ResolutionSource)
decide c workflow (some profile) found = do
  guard (contains profile profile_names) unsupported_override
  ok (overridden profile found, explicit_run_override)
decide c workflow none (some (p, source)) = ok (p, feature_profile source)
decide c workflow none none = do
  fallback ← require (profile_of (get_field workflow c.workflow_fallbacks)) no_fallback
  ok (single_session fallback, workflow_fallback)

-- `_MODEL_COST_RANK`
abbrev pub cost_ranks : List (String × ℕ)
cost_ranks = ("gpt-5.6-luna", 0) ∷ ("gpt-5.6-terra", 1) ∷ ("gpt-5.6-sol", 2) ∷ []

abbrev pub rank_of : Option String → Option ℕ
rank_of none = none
rank_of (some model) = lookup model cost_ranks

abbrev less_rank : Option ℕ → Option ℕ → Bool
less_rank (some a) (some b) = ltb a b
less_rank _ _ = false

abbrev pub is_cheaper : Option String → Option String → Bool
is_cheaper child parent = less_rank (rank_of child) (rank_of parent)

-- The entry of `DEFAULT_PROFILES`; every name that is looked up is one of its names.
abbrev pub entry_of : Option String → Option (String × String)
entry_of none = none
entry_of (some profile) = lookup profile default_profiles

abbrev pub add_text : String → Option String → Fields → Fields
add_text key none d = set_field key null d
add_text key (some s) d = set_field key (str s) d

-- The delegation with the model of the child, if there is a child session.
unfoldable pub with_child :
    ℕ → Option String → Option Fields → Result ConfigurationError (Option Fields)
with_child child model none = if child == 0 then ok none else err missing_child_delegation
with_child child model (some d) =
    let entry = entry_of (text_of (get_field "profile" d)) in
    if child == 0
    then ok (some d)
    else (guard (is_cheaper (model_of entry) model) child_not_cheaper
        >> ok (
            some (add_text "reasoning" (reasoning_of entry) (add_text "model" (model_of entry) d))))

abbrev pub is_override : ResolutionSource → Bool
is_override explicit_run_override = true
is_override _ = false

-- An explicit choice is not escalated.
unfoldable pub evidence_for :
    ResolutionSource → FeatureExecutionPolicy → Option Json → Option String
unfolding eligible_escalation
evidence_for source p evidence = if is_override source then none else eligible_escalation p evidence

unfoldable pub resolve_policy :
    FeatureExecutionPolicy
    → ResolutionSource
    → Option String
    → Result ConfigurationError ResolvedExecutionProfile
unfolding with_child
resolve_policy p source evidence_id = do
  let escalated = is_some evidence_id
  let profile = if escalated then p.escalation_profile else some p.profile
  delegation ← with_child p.child_sessions (model_of (entry_of profile)) p.child_delegation
  ok (record {
    profile = profile;
    resolution_source = if escalated then evidence_based_escalation else source;
    model = model_of (entry_of profile);
    reasoning = reasoning_of (entry_of profile);
    parent_sessions = p.parent_sessions;
    child_sessions = p.child_sessions;
    escalation_trigger = p.escalation_trigger;
    escalation_profile = p.escalation_profile;
    escalated = escalated;
    escalation_evidence_id = evidence_id;
    child_delegation = delegation;
  })

abbrev pub zero_model : ResolvedExecutionProfile
zero_model = record {
  profile = none;
  resolution_source = deterministic_zero_model;
  model = none;
  reasoning = none;
  parent_sessions = 0;
  child_sessions = 0;
  escalation_trigger = none;
  escalation_profile = none;
  escalated = false;
  escalation_evidence_id = none;
  child_delegation = none;
}

unfoldable pub resolve_with :
    (String → String) → Request → Configuration → Result ConfigurationError ResolvedExecutionProfile
unfolding feature_policy decide evidence_for resolve_policy
resolve_with lower request configured = do
  found ← feature_policy lower request.feature request.project_id configured
  decided ← decide configured request.workflow request.override_profile found
  resolve_policy decided.0 decided.1 (evidence_for decided.1 decided.0 request.escalation_evidence)

unfoldable pub resolve_execution_profile :
    (String → String) → Request → Result ConfigurationError ResolvedExecutionProfile
unfolding configuration_of resolve_with
resolve_execution_profile lower request =
    configuration_of lower request.configuration >>= λ configured.
    if request.deterministic then ok zero_model else resolve_with lower request configured
