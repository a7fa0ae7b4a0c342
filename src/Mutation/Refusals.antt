-- ===== src/Mutation/Refusals.antt =====
-- What `MutationPolicy.validate` names when it refuses.
use mathlib.Core.Path.{subst}
use development_conveyor.Base.{
  String, true, false, not, ◌&&◌, List, [], ◌∷◌, string_eq, ◌≡◌, refl, sym, ap, ◌∙◌, inl, inr,
  arith, Bool-cases, beq_refl, err, Result-cases, all, contains, is_nil, sorted_set, all-sorted_set,
  is_safe_path,
}
use development_conveyor.Transaction.{MutationPolicy}
use development_conveyor.Mutation.{
  MutationError, unsafe_path, denied_mutation, unauthorized_mutation, safe_relative_path,
  safe_paths, normalized_paths, is_denied, is_unauthorized, sorted_where, validate,
}
use development_conveyor.Mutation.Authorized.{
  sorted_where-all, sorted_where-none, normalized_paths-ok, all-contains_self, err-eq, all-&&,
}

safe_paths-err :
    (paths : List String) {e : MutationError}
    → safe_paths paths ≡ err e
    → (path : String) × (e ≡ unsafe_path path)
      × (contains path paths ≡ true)
      × (is_safe_path path ≡ false)
unfolding safe_paths safe_relative_path
safe_paths-err [] h = cc
safe_paths-err (x ∷ xs) h = elim (Bool-cases (is_safe_path x)) [
  | inl first ↦ elim (Result-cases (safe_paths xs)) [
    | inl (rest, read) ↦ cc (rw (first, read) at h)
    | inr (f, read) ↦
        let (path, which, found, unsafe) = safe_paths-err xs read in
        (path, sym (err-eq (rw (first, read) at h)) ∙ which, rw found (ground arith), unsafe)
  ]
  | inr first ↦ (x, sym (err-eq (rw first at h)), rw (beq_refl x) refl, first)
]

normalized_paths-err :
    (paths : List String) {e : MutationError}
    → normalized_paths paths ≡ err e
    → safe_paths paths ≡ err e
unfolding normalized_paths
normalized_paths-err paths h = elim (Result-cases (safe_paths paths)) [
  | inl (items, read) ↦ cc (rw read at h)
  | inr (f, read) ↦ read ∙ ap err (err-eq (rw read at h))
]

-- The refusals of `validate`, each with what makes it right.
pub IsJustified : MutationPolicy → List String → MutationError → Type 0
IsJustified p paths (unsafe_path path) = (contains path paths ≡ true) × (is_safe_path path ≡ false)
IsJustified p paths (denied_mutation found) =
    (all is_safe_path paths ≡ true)
    × (is_nil found ≡ false)
    × (all (λ path. contains path paths && is_denied p path) found ≡ true)
IsJustified p paths (unauthorized_mutation found) =
    (all (λ path. is_safe_path path && not (is_denied p path)) paths ≡ true)
    × (is_nil found ≡ false)
    × (all (λ path. contains path paths && is_unauthorized p path) found ≡ true)
IsJustified p paths _ = ⊥

among :
    (paths observed : List String)
    → observed ≡ sorted_set paths
    → all (λ path. contains path paths) observed ≡ true
among paths observed same =
    ap (all (λ path. contains path paths)) same
    ∙ all-sorted_set (λ path. contains path paths) paths
    ∙ all-contains_self paths

undenied :
    (p : MutationPolicy) (paths observed : List String)
    → observed ≡ sorted_set paths
    → all is_safe_path paths ≡ true
    → is_nil (sorted_where (is_denied p) observed) ≡ true
    → all (λ path. is_safe_path path && not (is_denied p path)) paths ≡ true
undenied p paths observed same safe allowed =
    let none_denied =
      sym (all-sorted_set (λ path. not (is_denied p path)) paths)
      ∙ sym (ap (all (λ path. not (is_denied p path))) same)
      ∙ sym (sorted_where-none (is_denied p) observed)
      ∙ allowed in
    all-&& is_safe_path (λ path. not (is_denied p path)) paths ∙ rw safe none_denied

-- A refusal of changed paths is one of three. It names a path among them that is written unsafely; or all
-- paths are safe, and it names at least one path, each among them and under a deny rule; or no path is
-- unsafe or denied, and it names at least one path, each among them and under no allow rule.
pub validate-IsJustified :
    (p : MutationPolicy) (paths : List String) {e : MutationError}
    → validate p paths ≡ err e
    → IsJustified p paths e
unfolding validate IsJustified
validate-IsJustified p paths {e} h = elim (Result-cases (normalized_paths paths)) [
  | inr (f, read) ↦
      let (path, which, found, unsafe) = safe_paths-err paths (normalized_paths-err paths read) in
      subst (IsJustified p paths) (sym which ∙ err-eq (rw read at h)) (found, unsafe)
  | inl (observed, read) ↦
      let (same, safe) = normalized_paths-ok paths read in
      let listed = among paths observed same in
      let rest = rw read at h in
      elim (Bool-cases (is_nil (sorted_where (is_denied p) observed))) [
        | inr denied ↦ subst (IsJustified p paths) (err-eq (rw denied at rest)) (
          safe,
          denied,
          sorted_where-all (λ path. contains path paths) (is_denied p) observed listed,
        )
        | inl allowed ↦ elim (Bool-cases (is_nil (sorted_where (is_unauthorized p) observed))) [
          | inl authorized ↦ cc (rw (allowed, authorized) at rest)
          | inr refused ↦ subst (IsJustified p paths) (err-eq (rw (allowed, refused) at rest)) (
            undenied p paths observed same safe allowed,
            refused,
            sorted_where-all (λ path. contains path paths) (is_unauthorized p) observed listed,
          )
        ]
      ]
]
