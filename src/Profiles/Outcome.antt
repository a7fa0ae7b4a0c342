-- ===== src/Profiles/Outcome.antt =====
-- How `resolve_feature_execution_policy` of src/development_conveyor/execution_profiles.py ends once the
-- metadata are valid and a profile is resolved.
use mathlib.Core.Path.{subst}
use development_conveyor.Base.{
  ℕ, String, ◌≡◌, refl, sym, ap, ◌∙◌, inl, inr, Bool, true, false, ◌||◌, ◌==◌, nat_eq, string_eq,
  if◌then◌else◌, Option, none, some, Bool-cases, Result, ok, err, ◌>>=◌, guard-bind-ok, bind-ok,
  ok-eq, contains, is_some, leb, arith,
}
use development_conveyor.Json.{Json, obj, get_field, Fields}
use development_conveyor.Contracts.Envelope.{is_filled, text_at}
use development_conveyor.Profiles.Delegation.{missing_delegation, profile_names}
use development_conveyor.Profiles.Policy.{
  FeatureExecutionPolicy, present, validate_feature_execution_policy,
}
use development_conveyor.Profiles.Bounds.{IsBounded}
use development_conveyor.Profiles.Written.{execution_policy_fields}
use development_conveyor.Profiles.Canonical.{validate_feature_execution_policy-again}
use development_conveyor.Profiles.Resolve.{ResolvedExecutionProfile, resolve_execution_profile}
use development_conveyor.Profiles.Resolution.{
  FeatureRequest, disagreeing_metadata, invalid_queue_policy, invalid_specification_policy,
  invalid_result, raise_as, validate_given, same_policy, agreed, explicit_policy, profile_request,
  or_empty, effective_policy, resolution_of, resolve_feature_execution_policy,
}
use development_conveyor.Profiles.Resolved.{IsValid, IsResolved, profile_request-IsResolved}

raise_as-ok {ℓ} :
    {E F A : Type ℓ} (f : E → F) (m : Result E A) {a : A} → raise_as f m ≡ ok a → m ≡ ok a
raise_as-ok f (ok a) h = ap ok (ok-eq h)
raise_as-ok f (err e) h = cc h

-- What is written of the policy is validated as the policy.
abbrev IsCanonical : (String → String) → Option FeatureExecutionPolicy → Type 0
IsCanonical lower none = Unit
IsCanonical lower (some p) =
    validate_feature_execution_policy lower (obj (execution_policy_fields p)) ≡ ok p

validate_given-IsCanonical :
    (lower : String → String) (v : Option Json) {m : Option FeatureExecutionPolicy}
    → validate_given lower v ≡ ok m
    → IsCanonical lower m
unfolding validate_given
validate_given-IsCanonical lower none h = subst (IsCanonical lower) (ok-eq h) tt
validate_given-IsCanonical lower (some v) h =
    let (p, read, out) = bind-ok (validate_feature_execution_policy lower v) _ h in
    subst (IsCanonical lower) (ok-eq out) (validate_feature_execution_policy-again lower v read)

agreed-IsCanonical :
    (lower : String → String) (a b : Option FeatureExecutionPolicy)
    {m : Option FeatureExecutionPolicy}
    → IsCanonical lower a
    → IsCanonical lower b
    → agreed a b ≡ ok m
    → IsCanonical lower m
agreed-IsCanonical lower none b x y h = subst (IsCanonical lower) (ok-eq h) y
agreed-IsCanonical lower (some p) none x y h = subst (IsCanonical lower) (ok-eq h) x
agreed-IsCanonical lower (some p) (some q) x y h =
    subst (IsCanonical lower) (ok-eq (guard-bind-ok (same_policy p q) disagreeing_metadata _ h).1) x

explicit_policy-IsCanonical :
    (lower : String → String) (request : FeatureRequest) {m : Option FeatureExecutionPolicy}
    → explicit_policy lower request ≡ ok m
    → IsCanonical lower m
unfolding explicit_policy
explicit_policy-IsCanonical lower request h =
    let queue = present (get_field "execution_policy" request.feature) in
    let (queued, q, h1) =
      bind-ok (raise_as invalid_queue_policy (validate_given lower queue)) _ h in
    let (specified, s, h2) =
      bind-ok
        (raise_as invalid_specification_policy (validate_given lower request.specification_policy))
        _ h1 in
    agreed-IsCanonical lower queued specified
      (validate_given-IsCanonical lower queue
        (raise_as-ok invalid_queue_policy (validate_given lower queue) q))
      (validate_given-IsCanonical lower request.specification_policy (
        raise_as-ok invalid_specification_policy (validate_given lower request.specification_policy)
          s))
      h2

-- The policy without its delegation.
abbrev bare : FeatureExecutionPolicy → FeatureExecutionPolicy
bare p = record p { child_delegation = none }

no_delegation :
    (child : ℕ) (m : Option Fields) → is_some m ≡ (child == 1) → (child == 0) ≡ true → m ≡ none
no_delegation child none h z = refl
no_delegation child (some d) h z = let other : (child == 1) ≡ false = ground arith in cc (h, other)

bare-refused :
    (lower : String → String) (profile : String) (parent child : ℕ) (trigger next : Option String)
    → contains profile profile_names ≡ true
    → leb 1 parent ≡ true
    → leb child 1 ≡ true
    → (child == 0) ≡ false
    → (child == 1) ≡ true
    → validate_feature_execution_policy lower (
        obj (
          execution_policy_fields (record {
            profile = profile;
            parent_sessions = parent;
            child_sessions = child;
            escalation_trigger = trigger;
            escalation_profile = next;
            child_delegation = none;
          })))
      ≡ err missing_delegation
unfolding validate_feature_execution_policy execution_policy_fields
bare-refused lower profile parent child none next n p c z o = rw (n, p, c, z, o) refl
bare-refused lower profile parent child (some t) none n p c z o = rw (n, p, c, z, o) refl
bare-refused lower profile parent child (some t) (some q) n p c z o = rw (n, p, c, z, o) refl

one_child : (child : ℕ) → leb child 1 ≡ true → (child == 0) ≡ false → (child == 1) ≡ true
one_child child h z = ground arith

-- How the last validation of a policy without its delegation ends.
bare-outcome :
    (lower : String → String) (p : FeatureExecutionPolicy)
    → IsValid lower p
    → validate_feature_execution_policy lower (obj (execution_policy_fields (bare p)))
      ≡ (if p.child_sessions == 0 then ok (bare p) else err missing_delegation)
unfolding IsBounded
bare-outcome lower p ((named, parents, few, delegated, paired, changed), canonical) =
    elim (Bool-cases (p.child_sessions == 0)) [
      | inl z ↦
          let absent = no_delegation p.child_sessions p.child_delegation delegated z in
          rw z (
            subst
              (λ q.
                validate_feature_execution_policy lower (obj (execution_policy_fields q)) ≡ ok q)
              (λ i. record p { child_delegation = absent i }) canonical)
      | inr z ↦ rw z (
          bare-refused lower p.profile p.parent_sessions p.child_sessions p.escalation_trigger
            p.escalation_profile named (ground arith) (ground arith) z
            (one_child p.child_sessions (ground arith) z))
    ]

resolved-bare :
    (p : FeatureExecutionPolicy) (r : ResolvedExecutionProfile)
    → IsResolved p r
    → effective_policy none r ≡ bare p
resolved-bare p r s = λ i. record {
  profile = or_empty (s.same_profile i);
  parent_sessions = s.same_parents i;
  child_sessions = s.same_children i;
  escalation_trigger = s.same_trigger i;
  escalation_profile = s.same_escalation i;
  child_delegation = none;
}

-- The last validation of a resolution.
last_validation :
    (lower : String → String) (m : Option FeatureExecutionPolicy) (p : FeatureExecutionPolicy)
    (r : ResolvedExecutionProfile)
    → IsCanonical lower m
    → IsValid lower p
    → IsResolved p r
    → validate_feature_execution_policy lower (obj (execution_policy_fields (effective_policy m r)))
      ≡ (if is_some m || r.child_sessions == 0
          then ok (effective_policy m r)
          else err missing_delegation)
last_validation lower (some q) p r canonical valid s = canonical
last_validation lower none p r canonical valid s =
    ap (λ q. validate_feature_execution_policy lower (obj (execution_policy_fields q)))
      (resolved-bare p r s)
    ∙ (bare-outcome lower p valid
        ∙ sym (λ i.
          if s.same_children i == 0 then ok (resolved-bare p r s i) else err missing_delegation))

raised :
    {A : Type 0} (b : Bool) (q : FeatureExecutionPolicy) (a : A)
    → (raise_as invalid_result (if b then ok q else err missing_delegation) >>= λ checked. ok a)
      ≡ (if b then ok a else err (invalid_result missing_delegation))
raised true q a = refl
raised false q a = refl

-- Once a feature has an identifier, its metadata are valid and agree, and a profile is resolved, the
-- resolution is returned, but for one case: without metadata of its own, a feature whose resolved
-- profile has a child session is refused for the delegation that is missing.
pub resolve_feature_execution_policy_outcome :
    (lower : String → String) (request : FeatureRequest) {m : Option FeatureExecutionPolicy}
    {r : ResolvedExecutionProfile}
    → is_filled (get_field "id" request.feature) ≡ true
    → explicit_policy lower request ≡ ok m
    → resolve_execution_profile lower (profile_request request m) ≡ ok r
    → resolve_feature_execution_policy lower request ≡ (
        if is_some m || r.child_sessions == 0
        then ok (resolution_of (text_at (get_field "id" request.feature)) m r)
        else err (invalid_result missing_delegation))
unfolding resolve_feature_execution_policy
resolve_feature_execution_policy_outcome lower request {m} {r} named given resolved =
    let (p, valid, s) = profile_request-IsResolved lower request m resolved in
    rw
      (
        named,
        given,
        resolved,
        s.executable,
        last_validation lower m p r (explicit_policy-IsCanonical lower request given) valid s,
      )
      (raised (is_some m || r.child_sessions == 0) (effective_policy m r)
        (resolution_of (text_at (get_field "id" request.feature)) m r))
