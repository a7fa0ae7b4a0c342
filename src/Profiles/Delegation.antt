-- ===== src/Profiles/Delegation.antt =====
-- `_validate_child_delegation` of src/development_conveyor/execution_profiles.py.
use Prim.Native.Nat.{◌*◌}
use development_conveyor.Base.{
  ℕ, String, Bool, not, ◌&&◌, ◌||◌, Option, none, some, List, [], ◌∷◌, string_eq, if◌then◌else◌,
  Result, ok, err, ◌>>=◌, ◌>>◌, guard, require, leb, ltb, length, any, all, contains, sort_by,
  text_ltb, codes, is_blank, strip, is_substring, word_count, is_nil, are_unique,
}
use development_conveyor.Json.{
  Json, bool, int, pos, str, arr, Items, nil, cons, Fields, get_field, keys,
}
use development_conveyor.Dict.{text_array, dict, update_fields}

pub data ProfileError : Type 0 where
  policy_not_object unsupported_keys unsupported_profile : ProfileError
  invalid_parent_sessions invalid_child_sessions too_many_children : ProfileError
  unexpected_delegation missing_delegation : ProfileError
  malformed_escalation empty_trigger unsupported_escalation unchanged_profile : ProfileError
  delegation_not_object wrong_delegation_keys : ProfileError
  short_text : String → ProfileError
  generic_justification unsuitable_boundary unsupported_child_profile : ProfileError
  not_positive : String → ProfileError
  large_child_context read_only_not_boolean : ProfileError
  invalid_paths : String → ProfileError
  missing_owned_paths overlapping_ownership : ProfileError

-- `PROFILE_NAMES`
abbrev pub profile_names : List String
profile_names =
    "mechanical" ∷ "repository_aware" ∷ "bounded_precise" ∷ "multi_module_precise"
    ∷ "application_feature_implementation" ∷ "generic_or_architectural"
    ∷ "ambiguous_or_authoritative" ∷ "unresolved_after_high" ∷ []

-- `value in PROFILE_NAMES`
abbrev pub profile_of : Option Json → Option String
profile_of (some (str s)) = if contains s profile_names then some s else none
profile_of _ = none

-- `isinstance(value, int) and not isinstance(value, bool)`, and not negative.
abbrev pub natural_of : Option Json → Option ℕ
natural_of (some (int (pos n))) = some n
natural_of _ = none

-- `_GENERIC_CHILD_JUSTIFICATIONS`
abbrev generic_justifications : List String
generic_justifications =
    "save tokens" ∷ "cost saving" ∷ "cheaper child" ∷ "reduce cost" ∷ "use a child" ∷ []

-- `_UNSUITABLE_CHILD_BOUNDARY_TERMS`
abbrev pub unsuitable_boundary_terms : List String
unsuitable_boundary_terms =
    "whole application" ∷ "architecture decision" ∷ "durable state" ∷ "integration decision"
    ∷ "recovery decision" ∷ "dispatch policy" ∷ "repository-wide contradiction" ∷ []

abbrev pub required_keys : List String
required_keys =
    "role" ∷ "profile" ∷ "cost_saving_justification" ∷ "task_boundary"
    ∷ "expected_input_context_bytes" ∷ "parent_context_bytes" ∷ "expected_output_contract"
    ∷ "read_only" ∷ "owned_paths" ∷ "parent_owned_paths" ∷ []

-- `set(value) == names`
abbrev pub same_keys : Fields → List String → Bool
same_keys d names = all (λ k. contains k names) (keys d) && all (λ k. contains k (keys d)) names

abbrev pub long_text : ℕ → Option Json → Option String
long_text minimum (some (str s)) =
    if ltb (length (codes (strip s))) minimum then none else some (strip s)
long_text minimum _ = none

abbrev pub positive_of : Option Json → Option ℕ
positive_of (some (int (pos n))) = if leb 1 n then some n else none
positive_of _ = none

abbrev pub boolean_of : Option Json → Option Bool
boolean_of (some (bool b)) = some b
boolean_of _ = none

abbrev pub add_filled : String → Option (List String) → Option (List String)
add_filled s none = none
add_filled s (some later) = if is_blank s then none else some (s ∷ later)

-- The items of an array of texts that are not blank.
abbrev pub filled_texts : Items → Option (List String)
filled_texts nil = some []
filled_texts (cons (str s) rest) = add_filled s (filled_texts rest)
filled_texts (cons _ rest) = none

abbrev pub unique_paths : Option (List String) → Option (List String)
unique_paths none = none
unique_paths (some paths) = if are_unique paths then some paths else none

abbrev pub paths_of : Option Json → Option (List String)
paths_of (some (arr items)) = unique_paths (filled_texts items)
paths_of _ = none

-- `sorted(texts)`
unfoldable pub sorted_texts : List String → List String
unfolding sort_by
sorted_texts = sort_by (λ s t. not (text_ltb t s))

abbrev pub is_generic : String → Bool
is_generic justification =
    contains justification generic_justifications
    || (any (λ term. is_substring term justification) generic_justifications
        && leb (word_count justification) 6)

-- The texts of a delegation, stripped.
pub record DelegationTexts : Type 0 where
  pub role : String
  pub justification : String
  pub boundary : String
  pub contract : String

-- `lower` is `str.lower`.
unfoldable pub delegation_texts : (String → String) → Fields → Result ProfileError DelegationTexts
unfolding is_substring word_count strip
delegation_texts lower value = do
  role ← require (long_text 1 (get_field "role" value)) (short_text "role")
  justification ←
      require (long_text 20 (get_field "cost_saving_justification" value))
        (short_text "cost_saving_justification")
  boundary ← require (long_text 12 (get_field "task_boundary" value)) (short_text "task_boundary")
  contract ←
      require (long_text 12 (get_field "expected_output_contract" value))
        (short_text "expected_output_contract")
  guard (not (is_generic (lower justification))) generic_justification
  guard (not (any (λ term. is_substring term (lower boundary)) unsuitable_boundary_terms))
      unsuitable_boundary
  ok (record {
    role = role;
    justification = justification;
    boundary = boundary;
    contract = contract;
  })

-- The child's profile, the sizes of the contexts and whether the child only reads.
unfoldable pub delegation_access : Fields → Result ProfileError Bool
delegation_access value = do
  profile ← require (profile_of (get_field "profile" value)) unsupported_child_profile
  child ←
      require (positive_of (get_field "expected_input_context_bytes" value))
        (not_positive "expected_input_context_bytes")
  parent ←
      require (positive_of (get_field "parent_context_bytes" value))
        (not_positive "parent_context_bytes")
  guard (leb (child * 2) parent) large_child_context
  require (boolean_of (get_field "read_only" value)) read_only_not_boolean

-- The paths of the child and those of the parent, sorted.
unfoldable pub delegation_paths : Bool → Fields → Result ProfileError (List String × List String)
unfolding sorted_texts
delegation_paths read_only value = do
  owned ← require (paths_of (get_field "owned_paths" value)) (invalid_paths "owned_paths")
  parent_owned ←
      require (paths_of (get_field "parent_owned_paths" value)) (invalid_paths "parent_owned_paths")
  guard (read_only || not (is_nil owned)) missing_owned_paths
  guard (not (any (λ path. contains path parent_owned) owned)) overlapping_ownership
  ok (sorted_texts owned, sorted_texts parent_owned)

abbrev pub delegation_entries : DelegationTexts → List String → List String → Fields
delegation_entries t owned parent_owned = dict (
    ("role", str t.role)
    ∷ ("cost_saving_justification", str t.justification)
    ∷ ("task_boundary", str t.boundary)
    ∷ ("expected_output_contract", str t.contract)
    ∷ ("owned_paths", arr (text_array owned))
    ∷ ("parent_owned_paths", arr (text_array parent_owned))
    ∷ [])

unfoldable pub validate_child_delegation :
    (String → String) → Option Fields → Result ProfileError Fields
unfolding delegation_texts delegation_access delegation_paths
validate_child_delegation lower none = err delegation_not_object
validate_child_delegation lower (some value) = do
  guard (same_keys value required_keys) wrong_delegation_keys
  texts ← delegation_texts lower value
  read_only ← delegation_access value
  paths ← delegation_paths read_only value
  ok (update_fields value (delegation_entries texts paths.0 paths.1))
