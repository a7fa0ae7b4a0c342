-- ===== src/Profiles/Canonical.antt =====
-- Execution policies of src/development_conveyor/execution_profiles.py that were validated, written as
-- `to_dict` does and validated again.
use mathlib.Core.Path.{subst}
use development_conveyor.Base.{
  ℕ, String, ◌≡◌, refl, sym, true, not, ◌&&◌, Option, none, some, ◌==◌, nat_eq, string_eq, ok,
  bind-ok, guard-bind-ok, require-bind-ok, ok-eq, leb, all, contains, is_some,
}
use development_conveyor.Json.{Json, obj, Fields, keys, get_field, str}
use development_conveyor.Profiles.Delegation.{
  policy_not_object, unsupported_keys, unsupported_profile, invalid_parent_sessions,
  invalid_child_sessions, too_many_children, unexpected_delegation, missing_delegation, profile_of,
  natural_of,
}
use development_conveyor.Profiles.Policy.{
  FeatureExecutionPolicy, present, fields_of, check_escalation, delegation_or_none, policy_keys,
  first_of, second_of, validate_feature_execution_policy,
}
use development_conveyor.Profiles.Bounds.{delegation_or_none-some}
use development_conveyor.Profiles.Written.{
  execution_policy_fields, escalation_json, delegation_json, profile_of-again,
  check_escalation-again, delegation_or_none-again,
}

abbrev policy_of :
    String → ℕ → ℕ → Option (String × String) → Option Fields → FeatureExecutionPolicy
policy_of profile parent child escalation delegation = record {
  profile = profile;
  parent_sessions = parent;
  child_sessions = child;
  escalation_trigger = first_of escalation;
  escalation_profile = second_of escalation;
  child_delegation = delegation;
}

-- A policy whose parts pass the checks.
pub policy-pass :
    (lower : String → String) (profile : String) (parent child : ℕ)
    (escalation : Option (String × String)) (delegation : Option Fields)
    → profile_of (some (str profile)) ≡ some profile
    → leb 1 parent ≡ true
    → leb child 1 ≡ true
    → not (child == 0 && is_some delegation) ≡ true
    → not (child == 1 && not (is_some delegation)) ≡ true
    → delegation_or_none lower (delegation_json delegation) ≡ ok delegation
    → check_escalation profile (escalation_json escalation) ≡ ok escalation
    → validate_feature_execution_policy lower
        (obj (execution_policy_fields (policy_of profile parent child escalation delegation)))
      ≡ ok (policy_of profile parent child escalation delegation)
unfolding validate_feature_execution_policy execution_policy_fields
policy-pass lower profile parent child none none n p c a t d e = rw (n, p, c, a, t) refl
policy-pass lower profile parent child none (some g) n p c a t d e = rw (n, p, c, a, t, d) refl
policy-pass lower profile parent child (some (trigger, next)) none n p c a t d e =
    rw (n, p, c, a, t, e) refl
policy-pass lower profile parent child (some (trigger, next)) (some g) n p c a t d e =
    rw (n, p, c, a, t, d, e) refl

-- A policy that was validated is written as one that is validated as the same policy.
pub validate_feature_execution_policy-again :
    (lower : String → String) (policy : Json) {p : FeatureExecutionPolicy}
    → validate_feature_execution_policy lower policy ≡ ok p
    → validate_feature_execution_policy lower (obj (execution_policy_fields p)) ≡ ok p
unfolding validate_feature_execution_policy
validate_feature_execution_policy-again lower policy h =
    let (value, is_object, h1) = require-bind-ok (fields_of policy) policy_not_object _ h in
    let (known, h2) =
      guard-bind-ok (all (λ k. contains k policy_keys) (keys value)) unsupported_keys _ h1 in
    let (profile, named, h3) =
      require-bind-ok (profile_of (get_field "profile" value)) unsupported_profile _ h2 in
    let (parent, parents, h4) =
      require-bind-ok (natural_of (get_field "parent_sessions" value)) invalid_parent_sessions _
        h3 in
    let (positive, h5) = guard-bind-ok (leb 1 parent) invalid_parent_sessions _ h4 in
    let (child, children, h6) =
      require-bind-ok (natural_of (get_field "child_sessions" value)) invalid_child_sessions _ h5 in
    let (few, h7) = guard-bind-ok (leb child 1) too_many_children _ h6 in
    let delegation = present (get_field "child_delegation" value) in
    let (absent, h8) =
      guard-bind-ok (not (child == 0 && is_some delegation)) unexpected_delegation _ h7 in
    let (there, h9) =
      guard-bind-ok (not (child == 1 && not (is_some delegation))) missing_delegation _ h8 in
    let (normalized, delegated, h10) = bind-ok (delegation_or_none lower delegation) _ h9 in
    let (escalation, escalated, h11) =
      bind-ok (check_escalation profile (present (get_field "escalation" value))) _ h10 in
    let same = delegation_or_none-some lower delegation delegated in
    subst (λ p. validate_feature_execution_policy lower (obj (execution_policy_fields p)) ≡ ok p)
      (ok-eq h11)
      (policy-pass lower profile parent child escalation normalized
        (profile_of-again (get_field "profile" value) named) positive few
        (subst (λ b. not (child == 0 && b) ≡ true) (sym same) absent)
        (subst (λ b. not (child == 1 && not b) ≡ true) (sym same) there)
        (delegation_or_none-again lower delegation delegated)
        (check_escalation-again profile (present (get_field "escalation" value)) escalated))
