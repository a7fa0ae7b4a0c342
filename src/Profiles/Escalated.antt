-- ===== src/Profiles/Escalated.antt =====
-- When a resolved execution profile is an escalated one.
use development_conveyor.Base.{
  String, true, false, Option, none, some, ◌==◌, string_eq, ◌≡◌, refl, sym, ap, ◌∙◌, inl, inr,
  Bool-cases, ok-eq, some-eq, contains, is_some, ok, bind-ok, guard-bind-ok, require-bind-ok,
}
use development_conveyor.Json.{Json, null, bool, int, fraction, str, arr, obj, Fields, get_field}
use development_conveyor.Profiles.Delegation.{profile_names, profile_of}
use development_conveyor.Profiles.Policy.{FeatureExecutionPolicy}
use development_conveyor.Profiles.Configuration.{
  no_fallback, unsupported_override, Configuration, configuration_of, PolicySource, feature_policy,
}
use development_conveyor.Profiles.Escalation.{
  is_escalation, nonempty, object_in, eligible_by, eligible_escalation, model_of,
}
use development_conveyor.Profiles.Resolve.{
  ResolutionSource, ResolvedExecutionProfile, Request, decide, is_override, evidence_for,
  with_child, entry_of, resolve_policy, resolve_with, resolve_execution_profile,
}

-- The policy of the feature names a trigger and the profile that is resolved, and the evidence of the request is
-- a record of the escalation from the policy's profile, at that trigger, to that profile.
pub IsEscalationOf : FeatureExecutionPolicy → Request → ResolvedExecutionProfile → Type 0
IsEscalationOf p request r =
    (e : Fields) × (trigger : String) × (next : String) × (p.escalation_trigger ≡ some trigger)
    × (p.escalation_profile ≡ some next)
    × (request.escalation_evidence ≡ some (obj e))
    × (r.profile ≡ some next)
    × (is_escalation p.profile trigger next e ≡ true)

-- No profile was chosen for the run, and the policy found for the feature justifies the resolved profile.
pub IsEvidenced : (String → String) → Request → ResolvedExecutionProfile → Type 0
IsEvidenced lower request r =
    (request.override_profile ≡ none)
    × ((configured : Configuration) × (p : FeatureExecutionPolicy) × (source : PolicySource)
        × (configuration_of lower request.configuration ≡ ok configured)
        × (feature_policy lower request.feature request.project_id configured
            ≡ ok (some (p, source)))
        × IsEscalationOf p request r)

object_in-obj : (v : Option Json) {e : Fields} → object_in v ≡ some e → v ≡ some (obj e)
object_in-obj none h = cc h
object_in-obj (some (obj d)) h = ap (λ d. some (obj d)) (some-eq h)
object_in-obj (some null) h = cc h
object_in-obj (some (bool b)) h = cc h
object_in-obj (some (int n)) h = cc h
object_in-obj (some (fraction n p)) h = cc h
object_in-obj (some (str s)) h = cc h
object_in-obj (some (arr xs)) h = cc h

nonempty-some : (v : Option String) {s : String} → nonempty v ≡ some s → v ≡ some s
nonempty-some none h = cc h
nonempty-some (some t) h = elim (Bool-cases (t == "")) [
  | inl k ↦ cc (rw k at h)
  | inr k ↦ rw k at h
]

eligible_by-is_escalation :
    (profile : String) (trigger next : Option String) (e : Option Fields)
    → is_some (eligible_by profile trigger next e) ≡ true
    → (d : Fields) × (t : String) × (n : String) × (e ≡ some d)
      × (trigger ≡ some t)
      × (next ≡ some n)
      × (is_escalation profile t n d ≡ true)
unfolding eligible_by
eligible_by-is_escalation profile (some t) (some n) (some d) h =
    elim (Bool-cases (is_escalation profile t n d)) [
      | inl k ↦ (d, t, n, refl, refl, refl, k)
      | inr k ↦ cc (rw k at h)
    ]
eligible_by-is_escalation profile none next e h = cc h
eligible_by-is_escalation profile (some t) none e h = cc h
eligible_by-is_escalation profile (some t) (some n) none h = cc h

decide-is_override :
    (c : Configuration) (workflow : String) (choice : Option String)
    (found : Option (FeatureExecutionPolicy × PolicySource))
    {d : FeatureExecutionPolicy × ResolutionSource}
    → decide c workflow choice found ≡ ok d
    → is_override d.1 ≡ is_some choice
unfolding decide
decide-is_override c workflow (some profile) found h =
    let (named, out) = guard-bind-ok (contains profile profile_names) unsupported_override _ h in
    ap (λ d. is_override d.1) (sym (ok-eq out))
decide-is_override c workflow none (some (p, source)) h = ap (λ d. is_override d.1) (sym (ok-eq h))
decide-is_override c workflow none none h =
    let (fallback, named, out) =
      require-bind-ok (profile_of (get_field workflow c.workflow_fallbacks)) no_fallback _ h in
    ap (λ d. is_override d.1) (sym (ok-eq out))

-- Where no profile is chosen, a policy with a trigger is the feature's.
decide-found :
    (c : Configuration) (workflow : String) (choice : Option String)
    (found : Option (FeatureExecutionPolicy × PolicySource))
    {d : FeatureExecutionPolicy × ResolutionSource} {t : String}
    → choice ≡ none
    → decide c workflow choice found ≡ ok d
    → FeatureExecutionPolicy.escalation_trigger d.0 ≡ some t
    → (source : PolicySource) × (found ≡ some (d.0, source))
unfolding decide
decide-found c workflow (some profile) found unchosen h k = cc unchosen
decide-found c workflow none (some (p, source)) unchosen h k =
    (source, ap (λ p. some (p, source)) (ap (λ d. d.0) (ok-eq h)))
decide-found c workflow none none unchosen h k =
    let (fallback, named, out) =
      require-bind-ok (profile_of (get_field workflow c.workflow_fallbacks)) no_fallback _ h in
    cc (ap (λ d. FeatureExecutionPolicy.escalation_trigger d.0) (ok-eq out), k)

not_chosen : (choice : Option String) → is_some choice ≡ false → choice ≡ none
not_chosen none h = refl
not_chosen (some s) h = cc

resolve_policy-escalated :
    (p : FeatureExecutionPolicy) (source : ResolutionSource) (evidence : Option String)
    {r : ResolvedExecutionProfile}
    → resolve_policy p source evidence ≡ ok r
    → r.escalated ≡ true
    → (is_some evidence ≡ true) × (r.profile ≡ p.escalation_profile)
unfolding resolve_policy
resolve_policy-escalated p source none h k =
    let (delegation, made, out) =
      bind-ok
        (with_child p.child_sessions (model_of (entry_of (some p.profile))) p.child_delegation) _
        h in
    cc (k, ok-eq out)
resolve_policy-escalated p source (some id) h k =
    let (delegation, made, out) =
      bind-ok
        (with_child p.child_sessions (model_of (entry_of p.escalation_profile)) p.child_delegation)
        _ h in
    (refl, ap (λ r. ResolvedExecutionProfile.profile r) (sym (ok-eq out)))

evidence_for-is_escalation :
    (source : ResolutionSource) (p : FeatureExecutionPolicy) (evidence : Option Json)
    → is_some (evidence_for source p evidence) ≡ true
    → (is_override source ≡ false)
      × ((d : Fields) × (t : String) × (n : String) × (object_in evidence ≡ some d)
          × (nonempty p.escalation_trigger ≡ some t)
          × (nonempty p.escalation_profile ≡ some n)
          × (is_escalation p.profile t n d ≡ true))
unfolding evidence_for eligible_escalation
evidence_for-is_escalation source p evidence h = elim (Bool-cases (is_override source)) [
  | inl k ↦ cc (rw k at h)
  | inr k ↦ (
    k,
    eligible_by-is_escalation p.profile (nonempty p.escalation_trigger)
        (nonempty p.escalation_profile) (object_in evidence) (rw k at h),
  )
]

resolve_with-IsEvidenced :
    (lower : String → String) (request : Request) (configured : Configuration)
    {r : ResolvedExecutionProfile}
    → configuration_of lower request.configuration ≡ ok configured
    → resolve_with lower request configured ≡ ok r
    → r.escalated ≡ true
    → IsEvidenced lower request r
unfolding resolve_with IsEvidenced IsEscalationOf
resolve_with-IsEvidenced lower request configured read h k =
    let workflow = request.workflow in
    let choice = request.override_profile in
    let (found, chosen, h1) =
      bind-ok (feature_policy lower request.feature request.project_id configured) _ h in
    let (decided, settled, h2) = bind-ok (decide configured workflow choice found) _ h1 in
    let p = decided.0 in
    let evidence = request.escalation_evidence in
    let (there, profile) =
      resolve_policy-escalated p decided.1 (evidence_for decided.1 p evidence) h2 k in
    let (free, (d, t, n, given, triggered, named, met)) =
      evidence_for-is_escalation decided.1 p evidence there in
    let unchosen =
      not_chosen choice
        (sym (decide-is_override configured workflow choice found settled) ∙ free) in
    let trigger = nonempty-some (FeatureExecutionPolicy.escalation_trigger p) triggered in
    let next = nonempty-some (FeatureExecutionPolicy.escalation_profile p) named in
    let (source, own) = decide-found configured workflow choice found unchosen settled trigger in
    (
      unchosen,
      (
        configured,
        p,
        source,
        read,
        chosen ∙ ap (λ found. ok found) own,
        (d, t, n, trigger, next, object_in-obj evidence given, profile ∙ next, met),
      ),
    )

-- A resolved execution profile is escalated only if no profile was chosen for the run, a policy is found for the
-- feature in the read configuration, that policy names the trigger and the resolved profile, and the request
-- carries a record that meets every condition of the escalation from the policy's profile, at the policy's
-- trigger, to that profile.
pub resolve_execution_profile-IsEvidenced :
    (lower : String → String) (request : Request) {r : ResolvedExecutionProfile}
    → resolve_execution_profile lower request ≡ ok r
    → r.escalated ≡ true
    → IsEvidenced lower request r
unfolding resolve_execution_profile
resolve_execution_profile-IsEvidenced lower request h k =
    let (configured, read, h1) = bind-ok (configuration_of lower request.configuration) _ h in
    elim (Bool-cases request.deterministic) [
      | inl fixed ↦ cc (k, ap (λ r. ResolvedExecutionProfile.escalated r) (ok-eq (rw fixed at h1)))
      | inr free ↦ resolve_with-IsEvidenced lower request configured read (rw free at h1) k
    ]
