-- ===== src/Profiles/Witnesses.antt =====
-- The properties of execution policies and of their resolution, at policies with an escalation.
use development_conveyor.Base.{true, false, none, some, [], ◌∷◌, refl}
use development_conveyor.Json.{bool, str, arr, obj, int, pos, nil, Fields, set_field}
use development_conveyor.Dict.{dict}
use development_conveyor.Profiles.Policy.{FeatureExecutionPolicy, validate_feature_execution_policy}
use development_conveyor.Profiles.Bounds.{IsBounded, validate_feature_execution_policy-IsBounded}
use development_conveyor.Profiles.Resolve.{
  ResolvedExecutionProfile, Request, evidence_based_escalation, resolve_execution_profile,
}
use development_conveyor.Profiles.Affordable.{IsAffordable, resolve_execution_profile-IsAffordable}
use development_conveyor.Profiles.Escalated.{IsEvidenced, resolve_execution_profile-IsEvidenced}

abbrev escalating : FeatureExecutionPolicy
escalating = record {
  profile = "mechanical";
  parent_sessions = 1;
  child_sessions = 0;
  escalation_trigger = some "tests keep failing";
  escalation_profile = some "repository_aware";
  child_delegation = none;
}

validate_feature_execution_policy-IsBounded_example : IsBounded escalating
unfolding validate_feature_execution_policy
validate_feature_execution_policy-IsBounded_example =
    validate_feature_execution_policy-IsBounded (λ s. s)
      (obj (
        dict (
          ("profile", str "mechanical")
          ∷ ("parent_sessions", int (pos 1))
          ∷ ("child_sessions", int (pos 0))
          ∷ (
            "escalation",
            obj (
                dict (
                  ("trigger", str " tests keep failing")
                  ∷ ("profile", str "repository_aware")
                  ∷ [])),
          )
          ∷ [])))
      refl

abbrev evidence : Fields
evidence = dict (
    ("recorded", bool true)
    ∷ ("trigger", str "tests keep failing")
    ∷ ("escalation_trigger", str "tests keep failing")
    ∷ ("context_complete", bool true)
    ∷ ("previous_profile", str "generic_or_architectural")
    ∷ ("previous_model", str "gpt-5.6-sol")
    ∷ ("previous_reasoning", str "medium")
    ∷ ("new_profile", str "ambiguous_or_authoritative")
    ∷ ("new_model", str "gpt-5.6-sol")
    ∷ ("new_reasoning", str "high")
    ∷ ("failed_command_or_unresolved_evidence", str "pytest")
    ∷ ("expected_resolution", str "the tests pass")
    ∷ ("attempt_number", int (pos 2))
    ∷ ("evidence_id", str "e-1")
    ∷ [])

abbrev delegation : Fields
delegation = dict (
    ("role", str "tester")
    ∷ ("profile", str "mechanical")
    ∷ ("cost_saving_justification", str "runs the long suite at a lower rate")
    ∷ ("task_boundary", str "only the test files")
    ∷ ("expected_input_context_bytes", int (pos 10))
    ∷ ("parent_context_bytes", int (pos 100))
    ∷ ("expected_output_contract", str "a list of failures")
    ∷ ("read_only", bool true)
    ∷ ("owned_paths", arr nil)
    ∷ ("parent_owned_paths", arr nil)
    ∷ [])

abbrev request : Request
request = record {
  workflow = "application_feature";
  deterministic = false;
  feature = some (
      dict (
        ("id", str "f1")
        ∷ (
          "execution_policy",
          obj (
              dict (
                ("profile", str "generic_or_architectural")
                ∷ ("parent_sessions", int (pos 1))
                ∷ ("child_sessions", int (pos 1))
                ∷ ("child_delegation", obj delegation)
                ∷ (
                  "escalation",
                  obj (
                      dict (
                        ("trigger", str "tests keep failing")
                        ∷ ("profile", str "ambiguous_or_authoritative")
                        ∷ [])),
                )
                ∷ [])),
        )
        ∷ []));
  project_id = some "p1";
  configuration = none;
  override_profile = none;
  escalation_evidence = some (obj evidence);
}

abbrev resolved : ResolvedExecutionProfile
resolved = record {
  profile = some "ambiguous_or_authoritative";
  resolution_source = evidence_based_escalation;
  model = some "gpt-5.6-sol";
  reasoning = some "high";
  parent_sessions = 1;
  child_sessions = 1;
  escalation_trigger = some "tests keep failing";
  escalation_profile = some "ambiguous_or_authoritative";
  escalated = true;
  escalation_evidence_id = some "e-1";
  child_delegation =
      some
        (set_field "reasoning" (str "medium") (set_field "model" (str "gpt-5.6-luna") delegation));
}

resolve_execution_profile-IsAffordable_example : IsAffordable resolved
unfolding resolve_execution_profile
resolve_execution_profile-IsAffordable_example =
    resolve_execution_profile-IsAffordable (λ s. s) request refl

resolve_execution_profile-IsEvidenced_example : IsEvidenced (λ s. s) request resolved
unfolding resolve_execution_profile
resolve_execution_profile-IsEvidenced_example =
    resolve_execution_profile-IsEvidenced (λ s. s) request refl refl
