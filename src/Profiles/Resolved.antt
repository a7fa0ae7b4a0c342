-- ===== src/Profiles/Resolved.antt =====
-- The policies that `resolve_execution_profile` of src/development_conveyor/execution_profiles.py decides
-- on without an override are valid, and their profiles can be executed.
use mathlib.Core.Path.{subst}
use development_conveyor.Base.{
  String, ◌≡◌, refl, Bool-cases, inl, inr, true, nat_eq, string_eq, Option, none, some, ok, ◌>>=◌,
  guard-bind-ok, require-bind-ok, bind-ok, ok-eq, contains, all-contains, is_some, arith,
}
use development_conveyor.Json.{Json, json_beq, obj, get_field}
use development_conveyor.Profiles.Delegation.{profile_names, profile_of}
use development_conveyor.Profiles.Policy.{
  FeatureExecutionPolicy, check_escalation, delegation_or_none, validate_feature_execution_policy,
}
use development_conveyor.Profiles.Bounds.{
  IsBounded, profile_of-contains, validate_feature_execution_policy-IsBounded,
}
use development_conveyor.Profiles.Written.{execution_policy_fields, profile_of-again}
use development_conveyor.Profiles.Canonical.{policy-pass, validate_feature_execution_policy-again}
use development_conveyor.Profiles.Configuration.{
  disagreeing_policies, no_fallback, tell, Configuration, configuration_of, PolicySource,
  selected_feature_profile, reconciled_feature_profile, choose_policy, policy_for, embedded_policy,
  feature_policy,
}
use development_conveyor.Profiles.Affordable.{tell-ok}
use development_conveyor.Profiles.Escalation.{
  model_of, reasoning_of, nonempty, eligible_by, eligible_escalation,
}
use development_conveyor.Profiles.Resolve.{
  ResolutionSource, ResolvedExecutionProfile, Request, single_session, decide, entry_of, with_child,
  is_override, evidence_for, resolve_policy, resolve_with, resolve_execution_profile,
}
use development_conveyor.Profiles.Resolution.{
  FeatureRequest, profile_request, is_route, is_executable,
}

module _ (lower : String → String) where
  -- The policy keeps the bounds, and what is written of it is validated as the policy.
  abbrev pub IsValid : FeatureExecutionPolicy → Type 0
  IsValid p =
      IsBounded p
      × (validate_feature_execution_policy lower (obj (execution_policy_fields p)) ≡ ok p)

  pub validated-IsValid :
      (v : Json) {p : FeatureExecutionPolicy}
      → validate_feature_execution_policy lower v ≡ ok p
      → IsValid p
  validated-IsValid v h = (
    validate_feature_execution_policy-IsBounded lower v h,
    validate_feature_execution_policy-again lower v h,
  )

  single_session-IsValid :
      (v : Option Json) {profile : String}
      → profile_of v ≡ some profile
      → IsValid (single_session profile)
  unfolding IsBounded check_escalation delegation_or_none
  single_session-IsValid v {profile} h = (
    (profile_of-contains v h, omega arith, omega arith, refl, refl, refl),
    policy-pass lower profile 1 0 none none (profile_of-again v h) refl refl refl refl refl refl,
  )

  abbrev AllValid : Option (FeatureExecutionPolicy × PolicySource) → Type 0
  AllValid none = Unit
  AllValid (some (p, source)) = IsValid p

  tell-AllValid :
      (v : Json) (source : PolicySource) {found : Option (FeatureExecutionPolicy × PolicySource)}
      → (tell (validate_feature_execution_policy lower v) >>= λ p. ok (some (p, source))) ≡ ok found
      → AllValid found
  tell-AllValid v source h =
      let (p, read, out) =
        bind-ok (tell (validate_feature_execution_policy lower v)) (λ p. ok (some (p, source))) h in
      subst AllValid (ok-eq out)
        (validated-IsValid v (tell-ok (validate_feature_execution_policy lower v) read))

  choose_policy-AllValid :
      (embedded configured : Option Json) {found : Option (FeatureExecutionPolicy × PolicySource)}
      → choose_policy lower embedded configured ≡ ok found
      → AllValid found
  unfolding choose_policy
  choose_policy-AllValid none none h = subst AllValid (ok-eq h) tt
  choose_policy-AllValid (some v) none h = tell-AllValid v selected_feature_profile h
  choose_policy-AllValid none (some w) h = tell-AllValid w reconciled_feature_profile h
  choose_policy-AllValid (some v) (some w) h =
      let (same, rest) = guard-bind-ok (json_beq v w) disagreeing_policies _ h in
      tell-AllValid v selected_feature_profile rest

  decide-route :
      (c : Configuration) (workflow : String)
      (found : Option (FeatureExecutionPolicy × PolicySource))
      {d : FeatureExecutionPolicy × ResolutionSource}
      → AllValid found
      → decide c workflow none found ≡ ok d
      → IsValid d.0 × (is_route d.1 ≡ true)
  unfolding decide
  decide-route c workflow (some (p, source)) valid h =
      subst (λ d. IsValid d.0 × (is_route d.1 ≡ true)) (ok-eq h) (valid, refl)
  decide-route c workflow none valid h =
      let (fallback, named, out) =
        require-bind-ok (profile_of (get_field workflow c.workflow_fallbacks)) no_fallback _ h in
      subst (λ d. IsValid d.0 × (is_route d.1 ≡ true)) (ok-eq out)
        (single_session-IsValid (get_field workflow c.workflow_fallbacks) named, refl)

-- The resolution is that of the policy, which was not escalated.
pub record IsResolved (p : FeatureExecutionPolicy) (r : ResolvedExecutionProfile) : Type 0 where
  pub same_profile : r.profile ≡ some p.profile
  pub same_parents : r.parent_sessions ≡ p.parent_sessions
  pub same_children : r.child_sessions ≡ p.child_sessions
  pub same_trigger : r.escalation_trigger ≡ p.escalation_trigger
  pub same_escalation : r.escalation_profile ≡ p.escalation_profile
  pub executable : is_executable r ≡ true

-- Every supported profile has a model and a reasoning.
supported_entry :
    (profile : String)
    → contains profile profile_names ≡ true
    → (is_some (model_of (entry_of (some profile))) ≡ true)
      × (is_some (reasoning_of (entry_of (some profile))) ≡ true)
supported_entry profile h = (
  all-contains (λ name. is_some (model_of (entry_of (some name)))) profile_names profile refl h,
  all-contains (λ name. is_some (reasoning_of (entry_of (some name)))) profile_names profile refl h,
)

resolve_policy-IsResolved :
    (p : FeatureExecutionPolicy) (source : ResolutionSource) {r : ResolvedExecutionProfile}
    → IsBounded p
    → is_route source ≡ true
    → resolve_policy p source none ≡ ok r
    → IsResolved p r
unfolding resolve_policy IsBounded
resolve_policy-IsResolved p source (named, parents, few, delegated, paired, changed) route h =
    let (delegation, made, out) =
      bind-ok
        (with_child p.child_sessions (model_of (entry_of (some p.profile))) p.child_delegation) _
        h in
    let (model, reasoning) = supported_entry p.profile named in
    subst (IsResolved p) (ok-eq out) (record {
      same_profile = refl;
      same_parents = refl;
      same_children = refl;
      same_trigger = refl;
      same_escalation = refl;
      executable = rw (model, reasoning, route) (ground (arith, parents));
    })

eligible_by-none :
    (profile : String) (trigger next : Option String) → eligible_by profile trigger next none ≡ none
unfolding eligible_by
eligible_by-none profile none next = refl
eligible_by-none profile (some trigger) none = refl
eligible_by-none profile (some trigger) (some next) = refl

no_evidence :
    (source : ResolutionSource) (p : FeatureExecutionPolicy) → evidence_for source p none ≡ none
unfolding evidence_for eligible_escalation
no_evidence source p = elim (Bool-cases (is_override source)) [
  | inl h ↦ rw h refl
  | inr h ↦
      rw h
        (eligible_by-none p.profile (nonempty p.escalation_trigger) (nonempty p.escalation_profile))
]

-- A profile that is resolved for a feature without an override is that of a valid policy.
pub profile_request-IsResolved :
    (lower : String → String) (request : FeatureRequest) (explicit : Option FeatureExecutionPolicy)
    {r : ResolvedExecutionProfile}
    → resolve_execution_profile lower (profile_request request explicit) ≡ ok r
    → (p : FeatureExecutionPolicy) × IsValid lower p × IsResolved p r
unfolding resolve_execution_profile profile_request resolve_with feature_policy evidence_for
profile_request-IsResolved lower request explicit {r} h =
    let (configured, read, h1) = bind-ok (configuration_of lower request.configuration) _ h in
    let given = embedded_policy (Request.feature (profile_request request explicit)) in
    let kept =
      policy_for (Request.feature (profile_request request explicit)) (some request.project_id)
        configured in
    let (found, chosen, h2) = bind-ok (choose_policy lower given kept) _ h1 in
    let (decided, settled, h3) =
      bind-ok (decide configured "application_feature" none found) _ h2 in
    let (valid, route) =
      decide-route lower configured "application_feature" found
        (choose_policy-AllValid lower given kept chosen) settled in
    (
      decided.0,
      valid,
      resolve_policy-IsResolved decided.0 decided.1 valid.0 route (
          subst (λ m. resolve_policy decided.0 decided.1 m ≡ ok r) (no_evidence decided.1 decided.0)
            h3),
    )
