-- ===== src/Profiles/Delegated.antt =====
-- A delegation that `_validate_child_delegation` of src/development_conveyor/execution_profiles.py returns
-- is in normal form: it is validated again as it is.
use mathlib.Core.Path.{subst}
use development_conveyor.Base.{
  String, ◌≡◌, refl, sym, ap, ◌∙◌, Bool, true, false, not, ◌||◌, &&-true, Option, none, some, List,
  string_eq, ok, bind-ok, guard-bind-ok, require-bind-ok, ok-eq, any, all, all-weaken, all-contains,
  contains, is_substring, is_nil, is_nil_lem, sort_by, text_ltb, all-sort_by, any-sort_by,
  contains-sort_by,
}
use development_conveyor.Json.{str, arr, Fields, get_field, keys}
use development_conveyor.Dict.{text_array, update_fields}
use development_conveyor.Dict.Updates.{
  Has, are_distinct, update_fields-Has, update_fields-same, get_field-update_fields,
  keys-update_fields,
}
use development_conveyor.Profiles.Normal.{long_text-again, sorted_texts-again, paths_of-again}
use development_conveyor.Profiles.Delegation.{
  wrong_delegation_keys, invalid_paths, missing_owned_paths, overlapping_ownership, short_text,
  generic_justification, unsuitable_boundary, is_generic, unsuitable_boundary_terms,
  DelegationTexts, long_text, paths_of, sorted_texts, delegation_texts, delegation_access,
  delegation_paths, delegation_entries, validate_child_delegation, same_keys, required_keys,
}

-- What is read of entries that pass the checks.
texts-pass :
    (lower : String → String) (d : Fields) (t : DelegationTexts) (owned parent_owned : List String)
    → Has d (delegation_entries t owned parent_owned)
    → long_text 1 (some (str t.role)) ≡ some t.role
    → long_text 20 (some (str t.justification)) ≡ some t.justification
    → long_text 12 (some (str t.boundary)) ≡ some t.boundary
    → long_text 12 (some (str t.contract)) ≡ some t.contract
    → not (is_generic (lower t.justification)) ≡ true
    → not (any (λ term. is_substring term (lower t.boundary)) unsuitable_boundary_terms) ≡ true
    → delegation_texts lower d ≡ ok t
unfolding delegation_texts
texts-pass lower d t owned parent_owned (role, (just, (bound, (contract, _)))) r j b c specific
      suitable =
    rw (role, r, just, j, bound, b, contract, c, specific, suitable) refl

texts-again :
    (lower : String → String) (value d : Fields) (owned parent_owned : List String)
    {t : DelegationTexts}
    → delegation_texts lower value ≡ ok t
    → Has d (delegation_entries t owned parent_owned)
    → delegation_texts lower d ≡ ok t
unfolding delegation_texts
texts-again lower value d owned parent_owned {t} h =
    let (r, r1, h1) =
      require-bind-ok (long_text 1 (get_field "role" value)) (short_text "role") _ h in
    let (j, j1, h2) =
      require-bind-ok (long_text 20 (get_field "cost_saving_justification" value))
        (short_text "cost_saving_justification") _ h1 in
    let (b, b1, h3) =
      require-bind-ok (long_text 12 (get_field "task_boundary" value)) (short_text "task_boundary")
        _ h2 in
    let (c, c1, h4) =
      require-bind-ok (long_text 12 (get_field "expected_output_contract" value))
        (short_text "expected_output_contract") _ h3 in
    let (specific, h5) = guard-bind-ok (not (is_generic (lower j))) generic_justification _ h4 in
    let (suitable, out) =
      guard-bind-ok (not (any (λ term. is_substring term (lower b)) unsuitable_boundary_terms))
        unsuitable_boundary _ h5 in
    subst (λ t. Has d (delegation_entries t owned parent_owned) → delegation_texts lower d ≡ ok t)
      (ok-eq out)
      (λ has.
        texts-pass lower d (record { role = r; justification = j; boundary = b; contract = c })
          owned parent_owned has (long_text-again 1 (get_field "role" value) r1)
          (long_text-again 20 (get_field "cost_saving_justification" value) j1)
          (long_text-again 12 (get_field "task_boundary" value) b1)
          (long_text-again 12 (get_field "expected_output_contract" value) c1) specific suitable)

-- The entries that are not written are read as before.
access-again :
    (value : Fields) (t : DelegationTexts) (owned parent_owned : List String)
    → delegation_access (update_fields value (delegation_entries t owned parent_owned))
      ≡ delegation_access value
unfolding delegation_access
access-again value t owned parent_owned =
    let entries = delegation_entries t owned parent_owned in
    rw
      (
        get_field-update_fields "profile" value entries refl,
        get_field-update_fields "expected_input_context_bytes" value entries refl,
        get_field-update_fields "parent_context_bytes" value entries refl,
        get_field-update_fields "read_only" value entries refl,
      )
      refl

is_nil-sorted_texts : (xs : List String) → is_nil (sorted_texts xs) ≡ is_nil xs
unfolding sorted_texts
is_nil-sorted_texts xs =
    let le : String → String → Bool = λ s t. not (text_ltb t s) in
    is_nil_lem (sort_by le xs) ∙ (all-sort_by le (λ x. false) xs ∙ sym (is_nil_lem xs))

shared-sorted_texts :
    (xs ys : List String)
    → any (λ path. contains path (sorted_texts ys)) (sorted_texts xs)
      ≡ any (λ path. contains path ys) xs
unfolding sorted_texts
shared-sorted_texts xs ys =
    let le : String → String → Bool = λ s t. not (text_ltb t s) in
    any-sort_by le (λ path. contains path (sort_by le ys)) xs
    ∙ (λ i. any (λ path. contains-sort_by le path ys i) xs)

paths-pass :
    (read_only : Bool) (d : Fields) (t : DelegationTexts) (owned parent_owned : List String)
    → Has d (delegation_entries t (sorted_texts owned) (sorted_texts parent_owned))
    → paths_of (some (arr (text_array (sorted_texts owned)))) ≡ some (sorted_texts owned)
    → paths_of (some (arr (text_array (sorted_texts parent_owned))))
      ≡ some (sorted_texts parent_owned)
    → (read_only || not (is_nil owned)) ≡ true
    → not (any (λ path. contains path parent_owned) owned) ≡ true
    → delegation_paths read_only d ≡ ok (sorted_texts owned, sorted_texts parent_owned)
unfolding delegation_paths
paths-pass read_only d t owned parent_owned (_, (_, (_, (_, (own, (parent, _)))))) o p given apart =
    rw
      (
        own,
        o,
        parent,
        p,
        is_nil-sorted_texts owned,
        given,
        shared-sorted_texts owned parent_owned,
        apart,
        sorted_texts-again owned,
        sorted_texts-again parent_owned,
      )
      refl

paths-again :
    (read_only : Bool) (value d : Fields) (t : DelegationTexts) {paths : List String × List String}
    → delegation_paths read_only value ≡ ok paths
    → Has d (delegation_entries t paths.0 paths.1)
    → delegation_paths read_only d ≡ ok paths
unfolding delegation_paths
paths-again read_only value d t h =
    let (owned, o, h1) =
      require-bind-ok (paths_of (get_field "owned_paths" value)) (invalid_paths "owned_paths") _
        h in
    let (parent_owned, p, h2) =
      require-bind-ok (paths_of (get_field "parent_owned_paths" value))
        (invalid_paths "parent_owned_paths") _ h1 in
    let (given, h3) = guard-bind-ok (read_only || not (is_nil owned)) missing_owned_paths _ h2 in
    let (apart, out) =
      guard-bind-ok (not (any (λ path. contains path parent_owned) owned)) overlapping_ownership _
        h3 in
    subst
      (λ paths.
        Has d (delegation_entries t paths.0 paths.1) → delegation_paths read_only d ≡ ok paths)
      (ok-eq out)
      (λ has.
        paths-pass read_only d t owned parent_owned has
          (paths_of-again (get_field "owned_paths" value) o)
          (paths_of-again (get_field "parent_owned_paths" value) p) given apart)

same_keys-update_fields :
    (value entries : Fields) (names : List String)
    → all (λ k. contains k names) (keys entries) ≡ true
    → same_keys value names ≡ true
    → same_keys (update_fields value entries) names ≡ true
same_keys-update_fields value entries names known h =
    let (_, all_there) =
      &&-true (all (λ k. contains k names) (keys value)) (all (λ k. contains k (keys value)) names)
        h in
    let there =
      all-weaken (λ k. contains k names) (λ k. contains k (keys value)) (keys entries)
        (λ k named. all-contains (λ k. contains k (keys value)) names k all_there named) known in
    rw (keys-update_fields value entries there) h

delegation-pass :
    (lower : String → String) (value : Fields) (t : DelegationTexts) (read_only : Bool)
    (paths : List String × List String)
    → same_keys value required_keys ≡ true
    → delegation_texts lower value ≡ ok t
    → delegation_access value ≡ ok read_only
    → delegation_paths read_only value ≡ ok paths
    → validate_child_delegation lower
        (some (update_fields value (delegation_entries t paths.0 paths.1)))
      ≡ ok (update_fields value (delegation_entries t paths.0 paths.1))
unfolding validate_child_delegation
delegation-pass lower value t read_only paths known texts access owned =
    let entries = delegation_entries t paths.0 paths.1 in
    let d = update_fields value entries in
    let has = update_fields-Has value entries (unfold are_distinct in refl) in
    rw
      (
        same_keys-update_fields value entries required_keys refl known,
        texts-again lower value d paths.0 paths.1 texts has,
        access-again value t paths.0 paths.1,
        access,
        paths-again read_only value d t owned has,
      )
      (ap ok (update_fields-same d entries has))

-- A delegation that is validated is validated again as it is.
pub validate_child_delegation-again :
    (lower : String → String) (v : Option Fields) {d : Fields}
    → validate_child_delegation lower v ≡ ok d
    → validate_child_delegation lower (some d) ≡ ok d
unfolding validate_child_delegation
validate_child_delegation-again lower none h = cc h
validate_child_delegation-again lower (some value) {d} h =
    let (known, h1) = guard-bind-ok (same_keys value required_keys) wrong_delegation_keys _ h in
    let (t, texts, h2) = bind-ok (delegation_texts lower value) _ h1 in
    let (read_only, access, h3) = bind-ok (delegation_access value) _ h2 in
    let (paths, owned, out) = bind-ok (delegation_paths read_only value) _ h3 in
    subst (λ d. validate_child_delegation lower (some d) ≡ ok d) (ok-eq out)
      (delegation-pass lower value t read_only paths known texts access owned)
