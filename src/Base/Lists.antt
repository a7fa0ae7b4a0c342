-- ===== src/Base/Lists.antt =====
-- Lists measured by native numbers, membership tests, and association lists.
use Prim.Native.Nat.{ℕ, zero, suc, ◌+◌}
use mathlib.Core.Path.{◌≡◌, refl, ap, ◌∙◌, subst}
use mathlib.Core.Logic.{◌⊎◌, inl, inr}
use mathlib.Core.Bool.{Bool, true, false, not, ◌&&◌, ◌||◌}
use mathlib.Core.Option.{Option, none, some}
use mathlib.Core.List.{List, [], ◌∷◌, ◌++◌, map}
use Prim.Native.String.{String}
use native.Mathlib.Omega.{arith}
use development_conveyor.Base.Tests.{
  Eq, ◌==◌, string_eq, if◌then◌else◌, Bool-cases, not-true, &&-true, ||-cases, eq_of_beq, beq_refl,
}

module _ {ℓ} {A : Type ℓ} where
  abbrev pub length : List A → ℕ
  length [] = 0
  length (x ∷ xs) = suc (length xs)

  pub length-append : (xs ys : List A) → length (xs ++ ys) ≡ length xs + length ys
  length-append [] ys = omega arith
  length-append (x ∷ xs) ys = omega (arith, length-append xs ys)

  abbrev pub all : (A → Bool) → List A → Bool
  all p [] = true
  all p (x ∷ xs) = p x && all p xs

  abbrev pub get_elem? : List A → ℕ → Option A
  get_elem? [] i = none
  get_elem? (x ∷ xs) zero = some x
  get_elem? (x ∷ xs) (suc i) = get_elem? xs i

  pub all-get_elem? :
      (p : A → Bool) (xs : List A) (i : ℕ) {x : A}
      → all p xs ≡ true
      → get_elem? xs i ≡ some x
      → p x ≡ true
  all-get_elem? p [] i h e = cc e
  all-get_elem? p (x ∷ xs) zero h e = cc (e, (&&-true (p x) (all p xs) h).0)
  all-get_elem? p (x ∷ xs) (suc i) h e = all-get_elem? p xs i (&&-true (p x) (all p xs) h).1 e

  abbrev pub any : (A → Bool) → List A → Bool
  any p [] = false
  any p (x ∷ xs) = p x || any p xs

  pub any-append : (p : A → Bool) (xs ys : List A) → any p (xs ++ ys) ≡ (any p xs || any p ys)
  any-append p [] ys = refl
  any-append p (x ∷ xs) ys = elim (Bool-cases (p x)) [
    | inl h ↦ rw h refl
    | inr h ↦ rw h (any-append p xs ys)
  ]

  abbrev pub select : (A → Bool) → List A → List A
  select p [] = []
  select p (x ∷ xs) = let rest = select p xs in if p x then x ∷ rest else rest

  pub all-select : (p q : A → Bool) (xs : List A) → all p xs ≡ true → all p (select q xs) ≡ true
  all-select p q [] h = refl
  all-select p q (x ∷ xs) h = elim (Bool-cases (q x)) [
    | inl k ↦ rw k (rw (&&-true (p x) _ h).0 (all-select p q xs (&&-true (p x) _ h).1))
    | inr k ↦ rw k (all-select p q xs (&&-true (p x) _ h).1)
  ]

  abbrev pub is_nil : List A → Bool
  is_nil [] = true
  is_nil (x ∷ xs) = false

  pub is_nil_lem : (xs : List A) → is_nil xs ≡ all (λ x. false) xs
  is_nil_lem [] = refl
  is_nil_lem (x ∷ xs) = refl

  -- Nothing is selected exactly if no element passes.
  pub none-select :
      (test : A → Bool) (xs : List A)
      → all (λ x. false) (select test xs) ≡ all (λ x. not (test x)) xs
  none-select test [] = refl
  none-select test (x ∷ xs) = elim (Bool-cases (test x)) [
    | inl h ↦ rw h refl
    | inr h ↦ rw h (none-select test xs)
  ]

  -- What holds of all selected elements holds of each element or the element does not pass.
  pub all-select_rest :
      (p r : A → Bool) (xs : List A)
      → all r (select p xs) ≡ true
      → all (λ x. not (p x) || r x) xs ≡ true
  all-select_rest p r [] h = refl
  all-select_rest p r (x ∷ xs) h = elim (Bool-cases (p x)) [
    | inl k ↦
        let (first, later) = &&-true (r x) (all r (select p xs)) (rw k at h) in
        rw (k, first) (all-select_rest p r xs later)
    | inr k ↦ rw k (all-select_rest p r xs (rw k at h))
  ]

  pub select-none :
      (test : A → Bool) (xs : List A) → all (λ x. not (test x)) xs ≡ true → select test xs ≡ []
  select-none test [] h = refl
  select-none test (x ∷ xs) h =
      let (first, later) = &&-true (not (test x)) (all (λ x. not (test x)) xs) h in
      rw (not-true (test x) first) (select-none test xs later)

  pub any-none :
      (test : A → Bool) (xs : List A) → all (λ x. not (test x)) xs ≡ true → any test xs ≡ false
  any-none test [] h = refl
  any-none test (x ∷ xs) h =
      let (first, later) = &&-true (not (test x)) (all (λ x. not (test x)) xs) h in
      rw (not-true (test x) first) (any-none test xs later)

  pub all-weaken :
      (p q : A → Bool) (xs : List A)
      → ((x : A) → p x ≡ true → q x ≡ true)
      → all p xs ≡ true
      → all q xs ≡ true
  all-weaken p q [] f h = refl
  all-weaken p q (x ∷ xs) f h =
      let (first, later) = &&-true (p x) (all p xs) h in rw (f x first) (all-weaken p q xs f later)

  abbrev pub last? : List A → Option A
  last? [] = none
  last? (x ∷ []) = some x
  last? (x ∷ y ∷ xs) = last? (y ∷ xs)

  pub last?-snoc : (xs : List A) (x : A) → last? (xs ++ x ∷ []) ≡ some x
  last?-snoc [] x = refl
  last?-snoc (y ∷ []) x = refl
  last?-snoc (y ∷ z ∷ xs) x = last?-snoc (z ∷ xs) x

abbrev pub All {ℓ κ} : {A : Type ℓ} → (A → Type κ) → List A → Type κ
All P [] = Unit
All P (x ∷ xs) = P x × All P xs

pub All-select {ℓ} :
    {A : Type ℓ} (P : A → Type 0) (test : A → Bool) (xs : List A)
    → All P xs
    → All (λ x. P x × (test x ≡ true)) (select test xs)
All-select P test [] a = tt
All-select P test (x ∷ xs) a = elim (Bool-cases (test x)) [
  | inl h ↦ rw h ((a.0, h), All-select P test xs a.1)
  | inr h ↦ rw h (All-select P test xs a.1)
]

pub Option-cases {ℓ} : {A : Type ℓ} (m : Option A) → ((a : A) × (m ≡ some a)) ⊎ (m ≡ none)
Option-cases none = inr refl
Option-cases (some a) = inl (a, refl)

abbrev pub is_some {ℓ} : {A : Type ℓ} → Option A → Bool
is_some none = false
is_some (some a) = true

pub some-eq {ℓ} : {A : Type ℓ} {a b : A} → ◌≡◌ {A = Option A} (some a) (some b) → a ≡ b
some-eq h = cc

module _ {ℓ} {A : Type ℓ} ⦃e : Eq A⦄ where
  abbrev pub contains : A → List A → Bool
  contains a [] = false
  contains a (x ∷ xs) = x == a || contains a xs

  pub all-contains :
      (p : A → Bool) (xs : List A) (a : A) → all p xs ≡ true → contains a xs ≡ true → p a ≡ true
  all-contains p [] a h c = cc
  all-contains p (x ∷ xs) a h c = elim (||-cases (x == a) _ c) [
    | inl e ↦ subst (λ y. p y ≡ true) (eq_of_beq e) (&&-true (p x) _ h).0
    | inr later ↦ all-contains p xs a (&&-true (p x) _ h).1 later
  ]

  pub contains-append :
      (a : A) (xs ys : List A) → contains a (xs ++ ys) ≡ (contains a xs || contains a ys)
  contains-append a [] ys = refl
  contains-append a (x ∷ xs) ys = elim (Bool-cases (x == a)) [
    | inl p ↦ rw p refl
    | inr p ↦ rw p (contains-append a xs ys)
  ]

-- A `dict` read by `get` and written by item assignment.
module _ {ℓ κ} {K : Type ℓ} {V : Type κ} ⦃e : Eq K⦄ where
  abbrev pub lookup : K → List (K × V) → Option V
  lookup k [] = none
  lookup k ((j, v) ∷ m) = if j == k then some v else lookup k m

  abbrev pub insert : K → V → List (K × V) → List (K × V)
  insert k v [] = (k, v) ∷ []
  insert k v ((j, w) ∷ m) = if j == k then (k, v) ∷ m else (j, w) ∷ insert k v m

  -- What holds of every entry holds of the one that is found.
  pub All-lookup :
      (P : K → V → Type 0) (k : K) (m : List (K × V)) {v : V}
      → All (λ entry. P entry.0 entry.1) m
      → lookup k m ≡ some v
      → P k v
  All-lookup P k [] h e = cc e
  All-lookup P k ((j, w) ∷ m) {v} h e = elim (Bool-cases (j == k)) [
    | inl p ↦ subst (λ i. P i v) (eq_of_beq p) (subst (P j) (some-eq (rw p at e)) h.0)
    | inr p ↦ All-lookup P k m h.1 (rw p at e)
  ]

  pub lookup-insert_self : (k : K) (v : V) (m : List (K × V)) → lookup k (insert k v m) ≡ some v
  lookup-insert_self k v [] = rw (beq_refl k) refl
  lookup-insert_self k v ((j, w) ∷ m) = elim (Bool-cases (j == k)) [
    | inl p ↦ rw p (rw (beq_refl k) refl)
    | inr p ↦ rw p (rw p (lookup-insert_self k v m))
  ]

  pub lookup-insert_ne :
      (k j : K) (v : V) (m : List (K × V)) → (k == j) ≡ false → lookup j (insert k v m) ≡ lookup j m
  lookup-insert_ne k j v [] h = rw h refl
  lookup-insert_ne k j v ((i, w) ∷ m) h = elim (Bool-cases (i == k)) [
    | inl p ↦ rw (p, h, ap (λ x. x == j) (eq_of_beq p) ∙ h) refl
    | inr p ↦ rw p (elim (Bool-cases (i == j)) [
      | inl q ↦ rw q refl
      | inr q ↦ rw q (lookup-insert_ne k j v m h)
    ])
  ]

-- The names of a list's elements are among its names.
pub all-contains_names {ℓ} :
    {A : Type ℓ} (name : A → String) (xs : List A)
    → all (λ x. contains (name x) (map name xs)) xs ≡ true
all-contains_names name [] = refl
all-contains_names name (x ∷ xs) = rw (beq_refl (name x)) (
    all-weaken (λ y. contains (name y) (map name xs)) (λ y. contains (name y) (map name (x ∷ xs)))
      xs (λ y h. rw h (ground arith)) (all-contains_names name xs))

abbrev pub same_texts : List String → List String → Bool
same_texts [] [] = true
same_texts (x ∷ xs) (y ∷ ys) = x == y && same_texts xs ys
same_texts _ _ = false

pub same_texts-eq : (xs ys : List String) → same_texts xs ys ≡ true → xs ≡ ys
same_texts-eq [] [] h = refl
same_texts-eq [] (y ∷ ys) h = cc
same_texts-eq (x ∷ xs) [] h = cc
same_texts-eq (x ∷ xs) (y ∷ ys) h =
    let (first, later) = &&-true (x == y) (same_texts xs ys) h in
    let e = eq_of_beq {a = x} {b = y} first in let f = same_texts-eq xs ys later in λ i. e i ∷ f i

abbrev pub are_unique : List String → Bool
are_unique [] = true
are_unique (x ∷ xs) = not (contains x xs) && are_unique xs
