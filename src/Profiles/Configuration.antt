-- ===== src/Profiles/Configuration.antt =====
-- The configuration of execution profiles and the policy of a feature: `_configuration` and
-- `_feature_policy` of src/development_conveyor/execution_profiles.py.
use development_conveyor.Base.{
  String, Bool, true, not, ◌&&◌, Option, none, some, List, [], ◌∷◌, ◌==◌, string_eq, nat_eq,
  if◌then◌else◌, Result, ok, err, ◌>>=◌, ◌>>◌, guard, require, any, is_some, is_empty,
}
use development_conveyor.Json.{
  Json, json_eq, json_beq, null, str, arr, Items, nil, cons, Fields, end, field, get_field, is_text,
}
use development_conveyor.Dict.{value_or}
use development_conveyor.Profiles.Delegation.{ProfileError, profile_names, profile_of, same_keys}
use development_conveyor.Profiles.Policy.{
  FeatureExecutionPolicy, present, fields_of, filled_text, validate_feature_execution_policy,
}

pub data ConfigurationError : Type 0 where
  not_object wrong_profile_names wrong_profile_keys wrong_profile : ConfigurationError
  fallbacks_not_object unsupported_fallback policies_not_array malformed_policy : ConfigurationError
  empty_project empty_feature duplicate_policy : ConfigurationError
  invalid_policy : ProfileError → ConfigurationError
  disagreeing_policies : ConfigurationError
  -- the raise sites of `resolve_execution_profile` and `validate_authenticated_profile_binding`
  unsupported_override no_fallback child_not_cheaper missing_child_delegation : ConfigurationError
  no_escalation_record invalid_escalation_record : ConfigurationError

-- `DEFAULT_PROFILES`: the model and the reasoning of a profile.
abbrev pub default_profiles : List (String × (String × String))
default_profiles =
    ("mechanical", ("gpt-5.6-luna", "medium"))
    ∷ ("repository_aware", ("gpt-5.6-luna", "high"))
    ∷ ("bounded_precise", ("gpt-5.6-terra", "medium"))
    ∷ ("multi_module_precise", ("gpt-5.6-terra", "high"))
    ∷ ("application_feature_implementation", ("gpt-5.6-terra", "medium"))
    ∷ ("generic_or_architectural", ("gpt-5.6-sol", "medium"))
    ∷ ("ambiguous_or_authoritative", ("gpt-5.6-sol", "high"))
    ∷ ("unresolved_after_high", ("gpt-5.6-sol", "xhigh"))
    ∷ []

-- `DEFAULT_WORKFLOW_FALLBACKS`
abbrev pub default_fallbacks : Fields
default_fallbacks = field "queue_reconciliation" (str "repository_aware") (
    field "application_feature" (str "bounded_precise") (
      field "controller_repair" (str "generic_or_architectural")
        (field "metadata" (str "mechanical") end)))

pub record FeaturePolicy : Type 0 where
  pub project_id : String
  pub feature_id : String
  pub execution_policy : Json

-- A valid configuration; its profiles are always `default_profiles`.
pub record Configuration : Type 0 where
  pub workflow_fallbacks : Fields
  pub feature_policies : List FeaturePolicy

abbrev pub tell : {A : Type 0} → Result ProfileError A → Result ConfigurationError A
tell m = elim m [ ok a ↦ ok a | err e ↦ err (invalid_policy e) ]

abbrev object_in : Option Json → Option Fields
object_in none = none
object_in (some v) = fields_of v

unfoldable pub check_profiles :
    Fields → List (String × (String × String)) → Result ConfigurationError Unit
check_profiles profiles [] = ok tt
check_profiles profiles ((name, (model, reasoning)) ∷ rest) = do
  configured ← require (object_in (get_field name profiles)) wrong_profile_keys
  guard (same_keys configured ("model" ∷ "reasoning" ∷ [])) wrong_profile_keys
  guard
      (is_text (get_field "model" configured) model
        && is_text (get_field "reasoning" configured) reasoning)
      wrong_profile
  check_profiles profiles rest

abbrev are_fallbacks : Fields → Bool
are_fallbacks end = true
are_fallbacks (field workflow profile rest) =
    is_some (profile_of (some profile)) && are_fallbacks rest

abbrev has_policy : String → String → List FeaturePolicy → Bool
has_policy project name policies =
    any (λ p. FeaturePolicy.project_id p == project && FeaturePolicy.feature_id p == name) policies

abbrev or_null : Option Json → Json
or_null none = null
or_null (some v) = v

abbrev policy_entry : String → String → Json → FeaturePolicy
policy_entry project name policy = record {
  project_id = project;
  feature_id = name;
  execution_policy = policy;
}

-- `earlier` are the policies before, the last one first.
unfoldable pub read_policies :
    (String → String) → List FeaturePolicy → Items → Result ConfigurationError (List FeaturePolicy)
unfolding validate_feature_execution_policy
read_policies lower earlier nil = ok []
read_policies lower earlier (cons raw rest) = do
  item ← require (fields_of raw) malformed_policy
  guard (same_keys item ("project_id" ∷ "feature_id" ∷ "execution_policy" ∷ [])) malformed_policy
  project ← require (filled_text (get_field "project_id" item)) empty_project
  name ← require (filled_text (get_field "feature_id" item)) empty_feature
  guard (not (has_policy project name earlier)) duplicate_policy
  policy ←
      tell (validate_feature_execution_policy lower (or_null (get_field "execution_policy" item)))
  let read = policy_entry project name (or_null (get_field "execution_policy" item))
  later ← read_policies lower (read ∷ earlier) rest
  ok (read ∷ later)

abbrev items_in : Json → Option Items
items_in (arr xs) = some xs
items_in _ = none

unfoldable pub validate_configuration :
    (String → String) → Json → Result ConfigurationError Configuration
unfolding check_profiles read_policies
validate_configuration lower configuration = do
  value ← require (fields_of configuration) not_object
  profiles ← require (object_in (get_field "profiles" value)) wrong_profile_names
  guard (same_keys profiles profile_names) wrong_profile_names
  checked ← check_profiles profiles default_profiles
  fallbacks ← require (object_in (get_field "workflow_fallbacks" value)) fallbacks_not_object
  guard (are_fallbacks fallbacks) unsupported_fallback
  items ←
      require (items_in (value_or "feature_policies" configuration (arr nil))) policies_not_array
  policies ← read_policies lower [] items
  ok (record { workflow_fallbacks = fallbacks; feature_policies = policies })

-- `_configuration`
unfoldable pub configuration_of :
    (String → String) → Option Json → Result ConfigurationError Configuration
unfolding validate_configuration
configuration_of lower none =
    ok (record { workflow_fallbacks = default_fallbacks; feature_policies = [] })
configuration_of lower (some value) = validate_configuration lower value

pub data PolicySource : Type 0 where
  selected_feature_profile reconciled_feature_profile : PolicySource

-- The policy that the configuration has for a feature of a project.
unfoldable pub configured_policy : String → Option Json → List FeaturePolicy → Option Json
configured_policy project name [] = none
configured_policy project name (p ∷ ps) =
    let rest = configured_policy project name ps in
    if p.project_id == project && is_text name p.feature_id then some p.execution_policy else rest

unfoldable pub policy_for : Option Fields → Option String → Configuration → Option Json
unfolding configured_policy
policy_for (some feature) (some project) configuration =
    if is_empty project
    then none
    else configured_policy project (get_field "id" feature) configuration.feature_policies
policy_for _ _ configuration = none

abbrev pub embedded_policy : Option Fields → Option Json
embedded_policy none = none
embedded_policy (some feature) = present (get_field "execution_policy" feature)

unfoldable pub choose_policy :
    (String → String)
    → Option Json
    → Option Json
    → Result ConfigurationError (Option (FeatureExecutionPolicy × PolicySource))
unfolding json_beq validate_feature_execution_policy
choose_policy lower none none = ok none
choose_policy lower (some embedded) none = do
  policy ← tell (validate_feature_execution_policy lower embedded)
  ok (some (policy, selected_feature_profile))
choose_policy lower none (some configured) = do
  policy ← tell (validate_feature_execution_policy lower configured)
  ok (some (policy, reconciled_feature_profile))
choose_policy lower (some embedded) (some configured) = do
  guard (json_beq embedded configured) disagreeing_policies
  policy ← tell (validate_feature_execution_policy lower embedded)
  ok (some (policy, selected_feature_profile))

-- `_feature_policy`
unfoldable pub feature_policy :
    (String → String)
    → Option Fields
    → Option String
    → Configuration
    → Result ConfigurationError (Option (FeatureExecutionPolicy × PolicySource))
unfolding policy_for choose_policy
feature_policy lower feature project configuration =
    choose_policy lower (embedded_policy feature) (policy_for feature project configuration)
