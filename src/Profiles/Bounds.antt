-- ===== src/Profiles/Bounds.antt =====
-- The bounds of a feature's execution policy.
use mathlib.Core.Path.{subst}
use development_conveyor.Base.{
  ℕ, ◌≤◌, String, Bool, true, not, ◌&&◌, Option, none, some, [], ◌∷◌, ◌==◌, string_eq, nat_eq, ◌≡◌,
  refl, sym, ap, ◌∙◌, inl, inr, arith, Bool-cases, some-eq, ok, if◌then◌else◌, strip, bind-ok,
  guard-bind-ok, le_of_leb, ok-eq, require-bind-ok, leb, is_some, contains, all,
}
use development_conveyor.Json.{
  Json, null, bool, int, fraction, str, arr, obj, Fields, get_field, keys,
}
use development_conveyor.Profiles.Delegation.{
  policy_not_object, unsupported_keys, unsupported_profile, invalid_parent_sessions,
  invalid_child_sessions, too_many_children, unexpected_delegation, missing_delegation,
  malformed_escalation, empty_trigger, unsupported_escalation, unchanged_profile, profile_names,
  profile_of, natural_of, same_keys, validate_child_delegation,
}
use development_conveyor.Profiles.Policy.{
  FeatureExecutionPolicy, present, fields_of, check_escalation, delegation_or_none, first_of,
  second_of, validate_feature_execution_policy, policy_keys, filled_text,
}

-- A change of profile, if there is one, is to another supported profile.
abbrev pub is_change_of : String → Option String → Bool
is_change_of profile none = true
is_change_of profile (some next) = contains next profile_names && not (next == profile)

-- At least one parent session, at most one child session, which has a delegation exactly if it is there.
unfoldable pub IsBounded : FeatureExecutionPolicy → Type 0
IsBounded p =
    (contains p.profile profile_names ≡ true)
    × (1 ≤ p.parent_sessions)
    × (p.child_sessions ≤ 1)
    × (is_some p.child_delegation ≡ (p.child_sessions == 1))
    × (is_some p.escalation_trigger ≡ is_some p.escalation_profile)
    × (is_change_of p.profile p.escalation_profile ≡ true)

abbrev IsChange : String → Option (String × String) → Type 0
IsChange profile e =
    (is_some (first_of e) ≡ is_some (second_of e)) × (is_change_of profile (second_of e) ≡ true)

supported :
    (s : String) (b : Bool) {t : String}
    → (if b then some s else none) ≡ some t
    → contains s profile_names ≡ b
    → contains t profile_names ≡ true
supported s b h k = elim (Bool-cases b) [
  | inl taken ↦ ap (λ z. contains z profile_names) (sym (some-eq (rw taken at h))) ∙ k ∙ taken
  | inr taken ↦ cc (rw taken at h)
]

pub profile_of-contains :
    (v : Option Json) {s : String} → profile_of v ≡ some s → contains s profile_names ≡ true
profile_of-contains none h = cc h
profile_of-contains (some (str t)) h = supported t (contains t profile_names) h refl
profile_of-contains (some null) h = cc h
profile_of-contains (some (bool b)) h = cc h
profile_of-contains (some (int n)) h = cc h
profile_of-contains (some (fraction n p)) h = cc h
profile_of-contains (some (arr xs)) h = cc h
profile_of-contains (some (obj d)) h = cc h

pub delegation_or_none-some :
    (lower : String → String) (v : Option Json) {d : Option Fields}
    → delegation_or_none lower v ≡ ok d
    → is_some d ≡ is_some v
unfolding delegation_or_none
delegation_or_none-some lower none h = ap is_some (sym (ok-eq h))
delegation_or_none-some lower (some v) {d} h =
    let (read, made, out) =
      bind-ok (validate_child_delegation lower (fields_of v)) (λ x. ok (some x)) h in
    ap is_some (sym (ok-eq out))

check_escalation-change :
    (profile : String) (v : Option Json) {e : Option (String × String)}
    → check_escalation profile v ≡ ok e
    → (is_some (first_of e) ≡ is_some (second_of e)) × (is_change_of profile (second_of e) ≡ true)
unfolding check_escalation strip
check_escalation-change profile none h = subst (IsChange profile) (ok-eq h) (refl, refl)
check_escalation-change profile (some (obj d)) h =
    let (closed, h1) =
      guard-bind-ok (same_keys d ("trigger" ∷ "profile" ∷ [])) malformed_escalation _ h in
    let (trigger, read, h2) =
      require-bind-ok (filled_text (get_field "trigger" d)) empty_trigger _ h1 in
    let (next, named, h3) =
      require-bind-ok (profile_of (get_field "profile" d)) unsupported_escalation _ h2 in
    let (changed, h4) = guard-bind-ok (not (next == profile)) unchanged_profile _ h3 in
    subst (IsChange profile) (ok-eq h4)
      (refl, rw (profile_of-contains (get_field "profile" d) named) changed)
check_escalation-change profile (some null) h = cc h
check_escalation-change profile (some (bool b)) h = cc h
check_escalation-change profile (some (int n)) h = cc h
check_escalation-change profile (some (fraction n p)) h = cc h
check_escalation-change profile (some (str s)) h = cc h
check_escalation-change profile (some (arr xs)) h = cc h

one_delegation :
    (child : ℕ) (given : Bool)
    → leb child 1 ≡ true
    → not (child == 0 && given) ≡ true
    → not (child == 1 && not given) ≡ true
    → given ≡ (child == 1)
one_delegation child given h i j = ground arith

-- A policy that the validation returns names a supported profile, has at least one parent session and at
-- most one child session, has a delegation exactly if there is a child session, and has a trigger exactly
-- if it has a profile to escalate to, which is a supported profile other than its own.
pub validate_feature_execution_policy-IsBounded :
    (lower : String → String) (policy : Json) {p : FeatureExecutionPolicy}
    → validate_feature_execution_policy lower policy ≡ ok p
    → IsBounded p
unfolding validate_feature_execution_policy IsBounded
validate_feature_execution_policy-IsBounded lower policy h =
    let (value, is_object, h1) = require-bind-ok (fields_of policy) policy_not_object _ h in
    let (known, h2) =
      guard-bind-ok (all (λ k. contains k policy_keys) (keys value)) unsupported_keys _ h1 in
    let (profile, named, h3) =
      require-bind-ok (profile_of (get_field "profile" value)) unsupported_profile _ h2 in
    let (parent, parents, h4) =
      require-bind-ok (natural_of (get_field "parent_sessions" value)) invalid_parent_sessions _
        h3 in
    let (positive, h5) = guard-bind-ok (leb 1 parent) invalid_parent_sessions _ h4 in
    let (child, children, h6) =
      require-bind-ok (natural_of (get_field "child_sessions" value)) invalid_child_sessions _ h5 in
    let (few, h7) = guard-bind-ok (leb child 1) too_many_children _ h6 in
    let delegation = present (get_field "child_delegation" value) in
    let (absent, h8) =
      guard-bind-ok (not (child == 0 && is_some delegation)) unexpected_delegation _ h7 in
    let (there, h9) =
      guard-bind-ok (not (child == 1 && not (is_some delegation))) missing_delegation _ h8 in
    let (normalized, delegated, h10) = bind-ok (delegation_or_none lower delegation) _ h9 in
    let (escalation, escalated, h11) =
      bind-ok (check_escalation profile (present (get_field "escalation" value))) _ h10 in
    let (paired, changed) =
      check_escalation-change profile (present (get_field "escalation" value)) escalated in
    subst IsBounded (ok-eq h11) (
      profile_of-contains (get_field "profile" value) named,
      le_of_leb positive,
      le_of_leb few,
      delegation_or_none-some lower delegation delegated
          ∙ one_delegation child (is_some delegation) few absent there,
      paired,
      changed,
    )
