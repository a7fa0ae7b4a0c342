-- ===== src/Base/Sorting.antt =====
-- Python's `sorted` by a key order, and `sorted(set(texts))`.
use Prim.Native.Nat.{Ordering}
use Prim.Native.String.{String, compare}
use mathlib.Core.Path.{◌≡◌, refl, sym, ap, ◌∙◌, subst}
use mathlib.Core.Logic.{inl, inr}
use mathlib.Core.Bool.{Bool, true, false, ◌&&◌, ◌||◌}
use mathlib.Core.List.{List, [], ◌∷◌}
use native.Mathlib.Omega.{arith}
use development_conveyor.Base.Tests.{◌==◌, string_eq, if◌then◌else◌, Bool-cases, &&-true, eq_of_beq}
use development_conveyor.Base.Lists.{All, all, any}

module _ {ℓ} {A : Type ℓ} (le : A → A → Bool) where
  unfoldable pub insert_by : A → List A → List A
  insert_by x [] = x ∷ []
  insert_by x (y ∷ ys) = let rest = insert_by x ys in if le x y then x ∷ y ∷ ys else y ∷ rest

  -- Stable: an element goes before the first one that it does not exceed.
  unfoldable pub sort_by : List A → List A
  unfolding insert_by
  sort_by [] = []
  sort_by (x ∷ xs) = insert_by x (sort_by xs)

  -- Each element is at most every later one.
  abbrev pub is_sorted : List A → Bool
  is_sorted [] = true
  is_sorted (x ∷ xs) = all (le x) xs && is_sorted xs

  all-insert_by : (p : A → Bool) (x : A) (xs : List A) → all p (insert_by x xs) ≡ (p x && all p xs)
  unfolding insert_by
  all-insert_by p x [] = refl
  all-insert_by p x (y ∷ ys) = ground (arith, all-insert_by p x ys)

  -- What holds of all sorted elements is what holds of all elements.
  pub all-sort_by : (p : A → Bool) (xs : List A) → all p (sort_by xs) ≡ all p xs
  unfolding sort_by
  all-sort_by p [] = refl
  all-sort_by p (x ∷ xs) = all-insert_by p x (sort_by xs) ∙ ap (λ b. p x && b) (all-sort_by p xs)

  any-insert_by : (p : A → Bool) (x : A) (xs : List A) → any p (insert_by x xs) ≡ (p x || any p xs)
  unfolding insert_by
  any-insert_by p x [] = refl
  any-insert_by p x (y ∷ ys) = ground (arith, any-insert_by p x ys)

  pub any-sort_by : (p : A → Bool) (xs : List A) → any p (sort_by xs) ≡ any p xs
  unfolding sort_by
  any-sort_by p [] = refl
  any-sort_by p (x ∷ xs) = any-insert_by p x (sort_by xs) ∙ ap (λ b. p x || b) (any-sort_by p xs)

  All-insert_by : (P : A → Type 0) (x : A) (xs : List A) → P x → All P xs → All P (insert_by x xs)
  unfolding insert_by
  All-insert_by P x [] h a = (h, tt)
  All-insert_by P x (y ∷ ys) h a = elim (Bool-cases (le x y)) [
    | inl k ↦ rw k (h, a)
    | inr k ↦ rw k (a.0, All-insert_by P x ys h a.1)
  ]

  pub All-sort_by : (P : A → Type 0) (xs : List A) → All P xs → All P (sort_by xs)
  unfolding sort_by
  All-sort_by P [] a = a
  All-sort_by P (x ∷ xs) a = All-insert_by P x (sort_by xs) a.0 (All-sort_by P xs a.1)

  module _ (total : (x y : A) → le x y ≡ false → le y x ≡ true)
      (trans : (x y z : A) → le x y ≡ true → le y z ≡ true → le x z ≡ true) where
    all-le : (x y : A) (ys : List A) → le x y ≡ true → all (le y) ys ≡ true → all (le x) ys ≡ true
    all-le x y [] h a = refl
    all-le x y (z ∷ zs) h a =
        let (first, later) = &&-true (le y z) (all (le y) zs) a in
        rw (trans x y z h first) (all-le x y zs h later)

    is_sorted-insert_by :
        (x : A) (xs : List A) → is_sorted xs ≡ true → is_sorted (insert_by x xs) ≡ true
    unfolding insert_by
    is_sorted-insert_by x [] s = refl
    is_sorted-insert_by x (y ∷ ys) s =
        let (first, later) = &&-true (all (le y) ys) (is_sorted ys) s in
        elim (Bool-cases (le x y)) [
          | inl h ↦ rw h (rw (h, all-le x y ys h first, first) later)
          | inr h ↦
              rw h (
                rw (all-insert_by (le y) x ys, total x y h, first) (is_sorted-insert_by x ys later))
        ]

    pub is_sorted-sort_by : (xs : List A) → is_sorted (sort_by xs) ≡ true
    unfolding sort_by
    is_sorted-sort_by [] = refl
    is_sorted-sort_by (x ∷ xs) = is_sorted-insert_by x (sort_by xs) (is_sorted-sort_by xs)

-- Python orders texts by their code points.
abbrev pub text_ltb : String → String → Bool
text_ltb s t = elim (compare s t) [ Ordering.lt ↦ true | _ ↦ false ]

unfoldable pub insert_new : String → List String → List String
insert_new x [] = x ∷ []
insert_new x (y ∷ ys) =
    let rest = insert_new x ys in
    if x == y then y ∷ ys else if text_ltb x y then x ∷ y ∷ ys else y ∷ rest

-- `sorted(set(texts))`
unfoldable pub sorted_set : List String → List String
unfolding insert_new
sorted_set [] = []
sorted_set (x ∷ xs) = insert_new x (sorted_set xs)

&&-again : (a b : Bool) → (a && b) ≡ (a && (a && b))
&&-again true b = refl
&&-again false b = refl

all-insert_new :
    (p : String → Bool) (x : String) (xs : List String)
    → all p (insert_new x xs) ≡ (p x && all p xs)
unfolding insert_new
all-insert_new p x [] = refl
all-insert_new p x (y ∷ ys) = elim (Bool-cases (x == y)) [
  | inl h ↦ rw h (
      subst (λ z. (p y && all p ys) ≡ (p z && (p y && all p ys)))
        (sym (eq_of_beq {a = x} {b = y} h)) (&&-again (p y) (all p ys)))
  | inr h ↦ rw h (elim (Bool-cases (text_ltb x y)) [
    | inl k ↦ rw k (ground arith)
    | inr k ↦ rw k (ground (arith, all-insert_new p x ys))
  ])
]

pub all-sorted_set : (p : String → Bool) (xs : List String) → all p (sorted_set xs) ≡ all p xs
unfolding sorted_set
all-sorted_set p [] = refl
all-sorted_set p (x ∷ xs) =
    all-insert_new p x (sorted_set xs) ∙ ap (λ b. p x && b) (all-sorted_set p xs)
