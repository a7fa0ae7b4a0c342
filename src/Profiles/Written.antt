-- ===== src/Profiles/Written.antt =====
-- `FeatureExecutionPolicy.to_dict` of src/development_conveyor/execution_profiles.py, and the parts of a
-- policy that are read of it.
use mathlib.Core.Path.{subst}
use development_conveyor.Base.{
  String, ◌≡◌, refl, inl, inr, true, not, Option, none, some, some-eq, List, [], ◌∷◌, ◌++◌, ◌==◌,
  nat_eq, string_eq, Bool-cases, ok, bind-ok, guard-bind-ok, require-bind-ok, ok-eq, contains,
  is_blank, strip,
}
use development_conveyor.Base.Stripped.{strip-again, is_blank-strip}
use development_conveyor.Json.{
  Json, null, bool, int, pos, fraction, str, arr, obj, Fields, get_field,
}
use development_conveyor.Dict.{dict}
use development_conveyor.Profiles.Delegation.{
  malformed_escalation, empty_trigger, unsupported_escalation, unchanged_profile, profile_names,
  profile_of, same_keys, validate_child_delegation,
}
use development_conveyor.Profiles.Delegated.{validate_child_delegation-again}
use development_conveyor.Profiles.Policy.{
  FeatureExecutionPolicy, fields_of, filled_text, check_escalation, delegation_or_none,
}

abbrev pub escalation_entry : Option String → Option String → List (String × Json)
escalation_entry (some trigger) (some profile) =
    ("escalation", obj (dict (("trigger", str trigger) ∷ ("profile", str profile) ∷ []))) ∷ []
escalation_entry _ _ = []

abbrev pub delegation_entry : Option Fields → List (String × Json)
delegation_entry none = []
delegation_entry (some d) = ("child_delegation", obj d) ∷ []

-- `FeatureExecutionPolicy.to_dict`
unfoldable pub execution_policy_fields : FeatureExecutionPolicy → Fields
execution_policy_fields p = dict (
    ("profile", str p.profile)
    ∷ ("parent_sessions", int (pos p.parent_sessions))
    ∷ ("child_sessions", int (pos p.child_sessions))
    ∷ (escalation_entry p.escalation_trigger p.escalation_profile
        ++ delegation_entry p.child_delegation))

abbrev pub escalation_json : Option (String × String) → Option Json
escalation_json none = none
escalation_json (some (trigger, profile)) =
    some (obj (dict (("trigger", str trigger) ∷ ("profile", str profile) ∷ [])))

abbrev pub delegation_json : Option Fields → Option Json
delegation_json none = none
delegation_json (some d) = some (obj d)

pub profile_of-again :
    (v : Option Json) {s : String} → profile_of v ≡ some s → profile_of (some (str s)) ≡ some s
profile_of-again none h = cc h
profile_of-again (some (str t)) h = elim (Bool-cases (contains t profile_names)) [
  | inl k ↦ subst (λ s. profile_of (some (str s)) ≡ some s) (some-eq (rw k at h)) (rw k refl)
  | inr k ↦ cc (rw k at h)
]
profile_of-again (some null) h = cc h
profile_of-again (some (bool b)) h = cc h
profile_of-again (some (int i)) h = cc h
profile_of-again (some (fraction i p)) h = cc h
profile_of-again (some (arr xs)) h = cc h
profile_of-again (some (obj d)) h = cc h

-- A text that is not blank is one that is filled.
filled_text-strip :
    (v : Option Json) {s : String}
    → filled_text v ≡ some s
    → filled_text (some (str (strip s))) ≡ some (strip s)
filled_text-strip none h = cc h
filled_text-strip (some (str t)) h = elim (Bool-cases (is_blank t)) [
  | inl k ↦ cc (rw k at h)
  | inr k ↦
      subst (λ s. filled_text (some (str (strip s))) ≡ some (strip s)) (some-eq (rw k at h))
        (rw (is_blank-strip t, k) refl)
]
filled_text-strip (some null) h = cc h
filled_text-strip (some (bool b)) h = cc h
filled_text-strip (some (int i)) h = cc h
filled_text-strip (some (fraction i p)) h = cc h
filled_text-strip (some (arr xs)) h = cc h
filled_text-strip (some (obj d)) h = cc h

pub check_escalation-again :
    (profile : String) (v : Option Json) {e : Option (String × String)}
    → check_escalation profile v ≡ ok e
    → check_escalation profile (escalation_json e) ≡ ok e
unfolding check_escalation
check_escalation-again profile none h =
    subst (λ e. check_escalation profile (escalation_json e) ≡ ok e) (ok-eq h) refl
check_escalation-again profile (some (obj d)) h =
    let (known, h1) =
      guard-bind-ok (same_keys d ("trigger" ∷ "profile" ∷ [])) malformed_escalation _ h in
    let (trigger, t, h2) =
      require-bind-ok (filled_text (get_field "trigger" d)) empty_trigger _ h1 in
    let (next, n, h3) =
      require-bind-ok (profile_of (get_field "profile" d)) unsupported_escalation _ h2 in
    let (other, out) = guard-bind-ok (not (next == profile)) unchanged_profile _ h3 in
    subst (λ e. check_escalation profile (escalation_json e) ≡ ok e) (ok-eq out)
      (escalation-pass profile (strip trigger) next (filled_text-strip (get_field "trigger" d) t)
        (strip-again trigger) (profile_of-again (get_field "profile" d) n) other)
  where
    escalation-pass :
        (profile trigger next : String)
        → filled_text (some (str trigger)) ≡ some trigger
        → strip trigger ≡ trigger
        → profile_of (some (str next)) ≡ some next
        → not (next == profile) ≡ true
        → check_escalation profile (escalation_json (some (trigger, next)))
          ≡ ok (some (trigger, next))
    escalation-pass profile trigger next t s n other = rw (t, n, other, s) refl
check_escalation-again profile (some (str s)) h = cc h
check_escalation-again profile (some null) h = cc h
check_escalation-again profile (some (bool b)) h = cc h
check_escalation-again profile (some (int i)) h = cc h
check_escalation-again profile (some (fraction i p)) h = cc h
check_escalation-again profile (some (arr xs)) h = cc h

pub delegation_or_none-again :
    (lower : String → String) (v : Option Json) {m : Option Fields}
    → delegation_or_none lower v ≡ ok m
    → delegation_or_none lower (delegation_json m) ≡ ok m
unfolding delegation_or_none
delegation_or_none-again lower none h =
    subst (λ m. delegation_or_none lower (delegation_json m) ≡ ok m) (ok-eq h) refl
delegation_or_none-again lower (some v) h =
    let (d, found, out) = bind-ok (validate_child_delegation lower (fields_of v)) _ h in
    subst (λ m. delegation_or_none lower (delegation_json m) ≡ ok m) (ok-eq out)
      (rw (validate_child_delegation-again lower (fields_of v) found) refl)
