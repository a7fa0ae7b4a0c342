-- ===== src/Mutation/Authorized.antt =====
-- What `MutationPolicy.validate` accepts.
use development_conveyor.Base.{
  String, Bool, true, false, not, ◌&&◌, List, [], ◌∷◌, string_eq, ◌≡◌, refl, sym, ap, ◌∙◌, inl, inr,
  ◌↔◌, arith, Bool-cases, &&-true, beq_refl, Result, ok, err, bind-ok, guard-bind-ok, ok-eq, all,
  contains, select, is_nil, is_nil_lem, none-select, all-weaken, sort_by, text_ltb, sorted_set,
  all-sorted_set, all-sort_by, is_safe_path, all-contains,
}
use development_conveyor.Transaction.{MutationPolicy}
use development_conveyor.Mutation.{
  MutationError, safe_relative_path, safe_paths, normalized_paths, check_policy, is_denied,
  is_unauthorized, sorted_where, validate,
}

-- The path is written safely, no deny rule covers it, and an allow rule does.
abbrev pub is_permitted : MutationPolicy → String → Bool
is_permitted p path = is_safe_path path && (not (is_denied p path) && not (is_unauthorized p path))

pub err-eq :
    {A : Type 0} {a b : MutationError} → ◌≡◌ {A = Result MutationError A} (err a) (err b) → a ≡ b
err-eq h = cc

safe_paths-ok : (paths : List String) → all is_safe_path paths ≡ true → safe_paths paths ≡ ok paths
unfolding safe_paths safe_relative_path
safe_paths-ok [] h = refl
safe_paths-ok (x ∷ xs) h =
    let (first, later) = &&-true (is_safe_path x) (all is_safe_path xs) h in
    rw first (rw (safe_paths-ok xs later) refl)

safe_paths-all :
    (paths : List String) {items : List String}
    → safe_paths paths ≡ ok items
    → (items ≡ paths) × (all is_safe_path paths ≡ true)
unfolding safe_paths safe_relative_path
safe_paths-all [] h = (sym (ok-eq h), refl)
safe_paths-all (x ∷ xs) h = elim (Bool-cases (is_safe_path x)) [
  | inl first ↦
      let (rest, later, out) = bind-ok (safe_paths xs) (λ rest. ok (x ∷ rest)) (rw first at h) in
      let (same, safe) = safe_paths-all xs later in
      (sym (ok-eq out) ∙ ap (λ ys. x ∷ ys) same, rw first safe)
  | inr first ↦ cc (rw first at h)
]

pub all-&& :
    (p q : String → Bool) (xs : List String) → all (λ x. p x && q x) xs ≡ (all p xs && all q xs)
all-&& p q [] = refl
all-&& p q (x ∷ xs) = ground (arith, all-&& p q xs)

pub sorted_where-none :
    (test : String → Bool) (paths : List String)
    → is_nil (sorted_where test paths) ≡ all (λ path. not (test path)) paths
unfolding sorted_where
sorted_where-none test paths =
    is_nil_lem (sort_by (λ s t. not (text_ltb t s)) (select test paths))
    ∙ all-sort_by (λ s t. not (text_ltb t s)) (λ x. false) (select test paths)
    ∙ none-select test paths

all-select_self :
    (q test : String → Bool) (xs : List String)
    → all q xs ≡ true
    → all (λ x. q x && test x) (select test xs) ≡ true
all-select_self q test [] h = refl
all-select_self q test (x ∷ xs) h =
    let (first, later) = &&-true (q x) (all q xs) h in
    elim (Bool-cases (test x)) [
      | inl k ↦ rw k (rw (k, first) (all-select_self q test xs later))
      | inr k ↦ rw k (all-select_self q test xs later)
    ]

-- What is selected is among the paths and passes the test.
pub sorted_where-all :
    (q test : String → Bool) (paths : List String)
    → all q paths ≡ true
    → all (λ x. q x && test x) (sorted_where test paths) ≡ true
unfolding sorted_where
sorted_where-all q test paths h =
    all-sort_by (λ s t. not (text_ltb t s)) (λ x. q x && test x) (select test paths)
    ∙ all-select_self q test paths h

pub normalized_paths-ok :
    (paths : List String) {items : List String}
    → normalized_paths paths ≡ ok items
    → (items ≡ sorted_set paths) × (all is_safe_path paths ≡ true)
unfolding normalized_paths
normalized_paths-ok paths h =
    let (found, read, out) = bind-ok (safe_paths paths) (λ items. ok (sorted_set items)) h in
    let (same, safe) = safe_paths-all paths read in (sym (ok-eq out) ∙ ap sorted_set same, safe)

pub all-contains_self : (xs : List String) → all (λ x. contains x xs) xs ≡ true
all-contains_self [] = refl
all-contains_self (x ∷ xs) = rw (beq_refl x) (
    all-weaken (λ y. contains y xs) (λ y. contains y (x ∷ xs)) xs (λ y h. rw h (ground arith))
      (all-contains_self xs))

all-is_permitted :
    (p : MutationPolicy) (paths : List String)
    → all (is_permitted p) paths ≡ (
        all is_safe_path paths
        && (is_nil (sorted_where (is_denied p) (sorted_set paths))
            && is_nil (sorted_where (is_unauthorized p) (sorted_set paths))))
all-is_permitted p paths =
    rw
      (
        sorted_where-none (is_denied p) (sorted_set paths),
        sorted_where-none (is_unauthorized p) (sorted_set paths),
        all-sorted_set (λ x. not (is_denied p x)) paths,
        all-sorted_set (λ x. not (is_unauthorized p x)) paths,
        all-&& is_safe_path (λ x. not (is_denied p x) && not (is_unauthorized p x)) paths,
        all-&& (λ x. not (is_denied p x)) (λ x. not (is_unauthorized p x)) paths,
      )
      refl

-- The validation of changed paths returns `observed` exactly if `observed` is the sorted set of the paths
-- and each path is written safely, is under no deny rule of the policy, and is under one of its allow rules.
pub validate_iff :
    (p : MutationPolicy) (paths observed : List String)
    → (validate p paths ≡ ok observed)
      ↔ ((observed ≡ sorted_set paths) × (all (is_permitted p) paths ≡ true))
unfolding validate normalized_paths
validate_iff p paths observed = (
  λ h.
      let (found, read, later) = bind-ok (normalized_paths paths) _ h in
      let (same, safe) = normalized_paths-ok paths read in
      let (allowed, rest) = guard-bind-ok (is_nil (sorted_where (is_denied p) found)) _ _ later in
      let (authorized, out) =
        guard-bind-ok (is_nil (sorted_where (is_unauthorized p) found)) _ _ rest in
      (
        sym (ok-eq out) ∙ same,
        all-is_permitted p paths ∙ rw safe (rw (sym same) (rw allowed authorized)),
      ),
  λ h.
      let (safe, later) =
        &&-true (all is_safe_path paths) _ (sym (all-is_permitted p paths) ∙ h.1) in
      let (allowed, authorized) =
        &&-true (is_nil (sorted_where (is_denied p) (sorted_set paths)))
          (is_nil (sorted_where (is_unauthorized p) (sorted_set paths))) later in
      rw (safe_paths-ok paths safe) (rw (allowed, authorized) (ap ok (sym (h.0)))),
)

-- A policy that its constructor accepts lists only safe paths to allow.
check_policy-safe :
    (p : MutationPolicy) → check_policy p ≡ ok tt → all is_safe_path p.allowed_paths ≡ true
unfolding check_policy
check_policy-safe p h =
    let (normalized, read, later) = bind-ok (normalized_paths p.allowed_paths) _ h in
    (normalized_paths-ok p.allowed_paths read).1

-- With a policy that its constructor accepts, changed paths that are all listed as allowed paths and of
-- which none is under a deny rule pass the validation, which returns their sorted set.
pub validate-listed :
    (p : MutationPolicy) (paths : List String)
    → check_policy p ≡ ok tt
    → all (λ path. contains path p.allowed_paths && not (is_denied p path)) paths ≡ true
    → validate p paths ≡ ok (sorted_set paths)
validate-listed p paths checked h = (validate_iff p paths (sorted_set paths)).1 (
  refl,
  all-weaken (λ path. contains path p.allowed_paths && not (is_denied p path)) (is_permitted p)
      paths
      (λ path k.
        let (listed, allowed) =
          &&-true (contains path p.allowed_paths) (not (is_denied p path)) k in
        rw (all-contains is_safe_path p.allowed_paths path (check_policy-safe p checked) listed)
          (rw allowed (rw listed refl)))
      h,
)
