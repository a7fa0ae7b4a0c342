-- ===== src/Profiles/Affordable.antt =====
-- What a resolved execution profile costs: its model is the configured one and a child's model is cheaper.
use mathlib.Core.Path.{subst}
use development_conveyor.Base.{
  ℕ, ◌≤◌, String, true, ◌||◌, Option, none, some, ◌==◌, string_eq, nat_eq, ◌≡◌, refl, sym, ap, ◌∙◌,
  inl, inr, arith, Bool-cases, ok-eq, if◌then◌else◌, contains, is_some, Result, ok, err, ◌>>=◌,
  bind-ok, guard-bind-ok, require-bind-ok,
}
use development_conveyor.Json.{
  Json, json_beq, str, Fields, get_field, set_field, text_of, get_field-set_field_self,
  get_field-set_field_ne,
}
use development_conveyor.Profiles.Delegation.{ProfileError, profile_names, profile_of}
use development_conveyor.Profiles.Policy.{FeatureExecutionPolicy, validate_feature_execution_policy}
use development_conveyor.Profiles.Bounds.{IsBounded, validate_feature_execution_policy-IsBounded}
use development_conveyor.Profiles.Configuration.{
  child_not_cheaper, disagreeing_policies, no_fallback, unsupported_override, tell, Configuration,
  configuration_of, PolicySource, selected_feature_profile, reconciled_feature_profile, policy_for,
  embedded_policy, choose_policy, feature_policy,
}
use development_conveyor.Profiles.Escalation.{model_of, reasoning_of}
use development_conveyor.Profiles.Resolve.{
  ResolutionSource, ResolvedExecutionProfile, Request, decide, is_cheaper, entry_of, add_text,
  with_child, evidence_for, resolve_policy, resolve_with, resolve_execution_profile,
}

abbrev pub child_model : Option Fields → Option String
child_model none = none
child_model (some d) = text_of (get_field "model" d)

-- Model and reasoning are those of the profile's entry; there is at most one child session, and a child's
-- model has a strictly lower cost rank.
pub IsAffordable : ResolvedExecutionProfile → Type 0
IsAffordable r =
    (r.model ≡ model_of (entry_of r.profile))
    × (r.reasoning ≡ reasoning_of (entry_of r.profile))
    × (r.child_sessions ≤ 1)
    × ((r.child_sessions == 0 || is_cheaper (child_model r.child_delegation) r.model) ≡ true)

model_kept :
    (model reasoning : Option String) (d : Fields) (parent : Option String)
    → is_cheaper model parent ≡ true
    → is_cheaper
        (child_model (some (add_text "reasoning" reasoning (add_text "model" model d))))
        parent
      ≡ true
model_kept none reasoning d parent h = cc h
model_kept (some m) none d parent h =
    ap (λ v. is_cheaper (text_of v) parent)
      (get_field-set_field_ne "reasoning" "model" Json.null (set_field "model" (str m) d) refl
        ∙ get_field-set_field_self "model" (str m) d)
    ∙ h
model_kept (some m) (some r) d parent h =
    ap (λ v. is_cheaper (text_of v) parent)
      (get_field-set_field_ne "reasoning" "model" (str r) (set_field "model" (str m) d) refl
        ∙ get_field-set_field_self "model" (str m) d)
    ∙ h

with_child-is_cheaper :
    (child : ℕ) (model : Option String) (d : Option Fields) {e : Option Fields}
    → with_child child model d ≡ ok e
    → (child == 0 || is_cheaper (child_model e) model) ≡ true
unfolding with_child
with_child-is_cheaper child model none h = elim (Bool-cases (child == 0)) [
  | inl k ↦ rw k refl
  | inr k ↦ cc (rw k at h)
]
with_child-is_cheaper child model (some d) h = elim (Bool-cases (child == 0)) [
  | inl k ↦ rw k refl
  | inr k ↦
      let entry = entry_of (text_of (get_field "profile" d)) in
      let (cheaper, out) =
        guard-bind-ok (is_cheaper (model_of entry) model) child_not_cheaper _ (rw k at h) in
      rw k (
        ap (λ e. is_cheaper (child_model e) model) (sym (ok-eq out))
        ∙ model_kept (model_of entry) (reasoning_of entry) d model cheaper)
]

abbrev HasFewChildren : Option (FeatureExecutionPolicy × PolicySource) → Type 0
HasFewChildren none = Unit
HasFewChildren (some (p, source)) = p.child_sessions ≤ 1

pub tell-ok : {A : Type 0} (m : Result ProfileError A) {a : A} → tell m ≡ ok a → m ≡ ok a
tell-ok (ok a) h = ap ok (ok-eq h)
tell-ok (err e) h = cc h

IsBounded-few : (p : FeatureExecutionPolicy) → IsBounded p → p.child_sessions ≤ 1
unfolding IsBounded
IsBounded-few p bounded = bounded.2

tell-HasFewChildren :
    (lower : String → String) (v : Json) (source : PolicySource)
    {found : Option (FeatureExecutionPolicy × PolicySource)}
    → (tell (validate_feature_execution_policy lower v) >>= λ p. ok (some (p, source))) ≡ ok found
    → HasFewChildren found
tell-HasFewChildren lower v source h =
    let (p, read, out) =
      bind-ok (tell (validate_feature_execution_policy lower v)) (λ p. ok (some (p, source))) h in
    subst HasFewChildren (ok-eq out) (
      IsBounded-few p (
        validate_feature_execution_policy-IsBounded lower v
          (tell-ok (validate_feature_execution_policy lower v) read)))

choose_policy-HasFewChildren :
    (lower : String → String) (embedded configured : Option Json)
    {found : Option (FeatureExecutionPolicy × PolicySource)}
    → choose_policy lower embedded configured ≡ ok found
    → HasFewChildren found
unfolding choose_policy
choose_policy-HasFewChildren lower none none h = subst HasFewChildren (ok-eq h) tt
choose_policy-HasFewChildren lower (some v) none h =
    tell-HasFewChildren lower v selected_feature_profile h
choose_policy-HasFewChildren lower none (some w) h =
    tell-HasFewChildren lower w reconciled_feature_profile h
choose_policy-HasFewChildren lower (some v) (some w) h =
    let (same, rest) = guard-bind-ok (json_beq v w) disagreeing_policies _ h in
    tell-HasFewChildren lower v selected_feature_profile rest

none_few : 0 ≤ 1
none_few = omega arith

decide-few :
    (c : Configuration) (workflow : String) (choice : Option String)
    (found : Option (FeatureExecutionPolicy × PolicySource))
    {d : FeatureExecutionPolicy × ResolutionSource}
    → HasFewChildren found
    → decide c workflow choice found ≡ ok d
    → d.0.child_sessions ≤ 1
unfolding decide
decide-few c workflow (some profile) none few h =
    let (named, out) = guard-bind-ok (contains profile profile_names) unsupported_override _ h in
    subst (λ d. FeatureExecutionPolicy.child_sessions d.0 ≤ 1) (ok-eq out) none_few
decide-few c workflow (some profile) (some (p, source)) few h =
    let (named, out) = guard-bind-ok (contains profile profile_names) unsupported_override _ h in
    subst (λ d. FeatureExecutionPolicy.child_sessions d.0 ≤ 1) (ok-eq out) few
decide-few c workflow none (some (p, source)) few h =
    subst (λ d. FeatureExecutionPolicy.child_sessions d.0 ≤ 1) (ok-eq h) few
decide-few c workflow none none few h =
    let (fallback, named, out) =
      require-bind-ok (profile_of (get_field workflow c.workflow_fallbacks)) no_fallback _ h in
    subst (λ d. FeatureExecutionPolicy.child_sessions d.0 ≤ 1) (ok-eq out) none_few

resolve_policy-IsAffordable :
    (p : FeatureExecutionPolicy) (source : ResolutionSource) (evidence : Option String)
    {r : ResolvedExecutionProfile}
    → p.child_sessions ≤ 1
    → resolve_policy p source evidence ≡ ok r
    → IsAffordable r
unfolding resolve_policy IsAffordable
resolve_policy-IsAffordable p source evidence few h =
    let profile = if is_some evidence then p.escalation_profile else some p.profile in
    let (delegation, made, out) =
      bind-ok (with_child p.child_sessions (model_of (entry_of profile)) p.child_delegation) _ h in
    subst IsAffordable (ok-eq out) (
      refl,
      refl,
      few,
      with_child-is_cheaper p.child_sessions (model_of (entry_of profile)) p.child_delegation made,
    )

resolve_with-IsAffordable :
    (lower : String → String) (request : Request) (configured : Configuration)
    {r : ResolvedExecutionProfile}
    → resolve_with lower request configured ≡ ok r
    → IsAffordable r
unfolding resolve_with feature_policy
resolve_with-IsAffordable lower request configured h =
    let (found, chosen, h1) =
      bind-ok
        (choose_policy lower (embedded_policy request.feature)
          (policy_for request.feature request.project_id configured))
        _ h in
    let few =
      choose_policy-HasFewChildren lower (embedded_policy request.feature)
        (policy_for request.feature request.project_id configured) chosen in
    let (decided, settled, h2) =
      bind-ok (decide configured request.workflow request.override_profile found) _ h1 in
    resolve_policy-IsAffordable decided.0 decided.1
      (evidence_for decided.1 decided.0 request.escalation_evidence)
      (decide-few configured request.workflow request.override_profile found few settled) h2

-- Every execution profile that is resolved has the model and the reasoning of its entry in the table of
-- profiles and at most one child session, and a child session runs a model of a strictly lower cost rank.
pub resolve_execution_profile-IsAffordable :
    (lower : String → String) (request : Request) {r : ResolvedExecutionProfile}
    → resolve_execution_profile lower request ≡ ok r
    → IsAffordable r
unfolding resolve_execution_profile IsAffordable
resolve_execution_profile-IsAffordable lower request h =
    let (configured, read, h1) = bind-ok (configuration_of lower request.configuration) _ h in
    elim (Bool-cases request.deterministic) [
      | inl fixed ↦ subst IsAffordable (ok-eq (rw fixed at h1)) (refl, refl, none_few, refl)
      | inr free ↦ resolve_with-IsAffordable lower request configured (rw free at h1)
    ]
