-- ===== src/Profiles/Features.antt =====
-- Execution policies are written and read again, and features are resolved with and without metadata.
use development_conveyor.Base.{false, none, some, String, [], ◌∷◌, ◌≡◌, refl, ok, err, map, Option}
use development_conveyor.Json.{Json, bool, str, arr, obj, int, pos, nil, Fields}
use development_conveyor.Dict.{dict, array, text_array}
use development_conveyor.Profiles.Delegation.{missing_delegation}
use development_conveyor.Profiles.Policy.{FeatureExecutionPolicy, validate_feature_execution_policy}
use development_conveyor.Profiles.Written.{execution_policy_fields}
use development_conveyor.Profiles.Canonical.{validate_feature_execution_policy-again}
use development_conveyor.Profiles.Configuration.{default_profiles}
use development_conveyor.Profiles.Resolution.{
  FeatureRequest, with_policy, explicit_policy, profile_request, invalid_result,
  resolve_feature_execution_policy,
}
use development_conveyor.Profiles.Resolve.{resolve_execution_profile}
use development_conveyor.Profiles.Outcome.{resolve_feature_execution_policy_outcome}

-- The delegation of a policy; its paths are sorted when it is validated.
abbrev delegation_with : Json → Fields
delegation_with paths = dict (
    ("role", str "tester")
    ∷ ("profile", str "mechanical")
    ∷ ("cost_saving_justification", str "runs the long suite at a lower rate")
    ∷ ("task_boundary", str "only the test files")
    ∷ ("expected_input_context_bytes", int (pos 10))
    ∷ ("parent_context_bytes", int (pos 100))
    ∷ ("expected_output_contract", str "a list of failures")
    ∷ ("read_only", bool false)
    ∷ ("owned_paths", paths)
    ∷ ("parent_owned_paths", arr nil)
    ∷ [])

abbrev delegating : Json → Json
delegating paths = obj (
    dict (
      ("profile", str "generic_or_architectural")
      ∷ ("parent_sessions", int (pos 1))
      ∷ ("child_sessions", int (pos 1))
      ∷ ("child_delegation", obj (delegation_with paths))
      ∷ []))

abbrev delegating_policy : FeatureExecutionPolicy
delegating_policy = record {
  profile = "generic_or_architectural";
  parent_sessions = 1;
  child_sessions = 1;
  escalation_trigger = none;
  escalation_profile = none;
  child_delegation = some (delegation_with (arr (text_array ("tests/a.py" ∷ "tests/b.py" ∷ []))));
}

validate_feature_execution_policy-again_example :
    validate_feature_execution_policy (λ s. s) (obj (execution_policy_fields delegating_policy))
    ≡ ok delegating_policy
unfolding validate_feature_execution_policy
validate_feature_execution_policy-again_example =
    validate_feature_execution_policy-again (λ s. s)
      (delegating (arr (text_array ("tests/b.py" ∷ "tests/a.py" ∷ [])))) refl

abbrev profile_entry : String × (String × String) → String × Json
profile_entry (name, (model, reasoning)) =
    (name, obj (dict (("model", str model) ∷ ("reasoning", str reasoning) ∷ [])))

-- A configuration with a policy for the feature `f1` of the project `p1`.
abbrev configuration : Json
configuration = obj (
    dict (
      ("profiles", obj (dict (map profile_entry default_profiles)))
      ∷ ("workflow_fallbacks", obj (dict []))
      ∷ (
        "feature_policies",
        array (
            obj (
              dict (
                ("project_id", str "p1")
                ∷ ("feature_id", str "f1")
                ∷ (
                  "execution_policy",
                  delegating (arr (text_array ("tests/a.py" ∷ "tests/b.py" ∷ []))),
                )
                ∷ []))
            ∷ []),
      )
      ∷ []))

abbrev configured : Option Json → FeatureRequest
configured specification = record {
  feature = dict (("id", str "f1") ∷ []);
  project_id = "p1";
  specification_policy = specification;
  configuration = some configuration;
}

-- The configured policy has a child session, and its delegation is lost.
resolve_feature_execution_policy_outcome_example :
    resolve_feature_execution_policy (λ s. s) (configured none)
    ≡ err (invalid_result missing_delegation)
unfolding explicit_policy resolve_execution_profile profile_request with_policy
resolve_feature_execution_policy_outcome_example =
    resolve_feature_execution_policy_outcome (λ s. s) (configured none) {m = none} refl refl refl
