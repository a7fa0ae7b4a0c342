-- ===== src/Base/Unique.antt =====
-- Sorting keeps what a list contains and whether its elements differ.
use Prim.Native.String.{String}
use mathlib.Core.Path.{◌≡◌, refl, sym, ap, ◌∙◌}
use mathlib.Core.Logic.{inl, inr}
use mathlib.Core.Bool.{Bool, not, ◌&&◌, ◌||◌}
use mathlib.Core.List.{List, [], ◌∷◌}
use native.Mathlib.Omega.{arith}
use development_conveyor.Base.Tests.{◌==◌, string_eq, Bool-cases, eq_of_beq, beq_refl, ne_of_beq}
use development_conveyor.Base.Lists.{contains, are_unique}
use development_conveyor.Base.Sorting.{insert_by, sort_by}

pub beq_sym : (a b : String) → (a == b) ≡ (b == a)
beq_sym a b = elim (Bool-cases (a == b)) [
  | inl h ↦ h ∙ sym (ap (λ z. b == z) (eq_of_beq {a = a} {b = b} h) ∙ beq_refl b)
  | inr h ↦ elim (Bool-cases (b == a)) [
    | inl k ↦ absurd (ne_of_beq {a = a} {b = b} h (sym (eq_of_beq {a = b} {b = a} k)))
    | inr k ↦ h ∙ sym k
  ]
]

contains-insert_by :
    (le : String → String → Bool) (a x : String) (xs : List String)
    → contains a (insert_by le x xs) ≡ (x == a || contains a xs)
unfolding insert_by
contains-insert_by le a x [] = refl
contains-insert_by le a x (y ∷ ys) = elim (Bool-cases (le x y)) [
  | inl h ↦ rw h refl
  | inr h ↦ rw (h, contains-insert_by le a x ys) (ground arith)
]

apart_swap :
    (xy yx cx cy ux : Bool)
    → xy ≡ yx
    → (not (xy || cy) && (not cx && ux)) ≡ (not (yx || cx) && (not cy && ux))
apart_swap xy yx cx cy ux e = ground arith

are_unique-insert_by :
    (le : String → String → Bool) (x : String) (xs : List String)
    → are_unique (insert_by le x xs) ≡ (not (contains x xs) && are_unique xs)
unfolding insert_by
are_unique-insert_by le x [] = refl
are_unique-insert_by le x (y ∷ ys) = elim (Bool-cases (le x y)) [
  | inl h ↦ rw h refl
  | inr h ↦
      rw (h, contains-insert_by le y x ys, are_unique-insert_by le x ys)
        (apart_swap (x == y) (y == x) (contains x ys) (contains y ys) (are_unique ys) (beq_sym x y))
]

pub contains-sort_by :
    (le : String → String → Bool) (a : String) (xs : List String)
    → contains a (sort_by le xs) ≡ contains a xs
unfolding sort_by
contains-sort_by le a [] = refl
contains-sort_by le a (x ∷ xs) =
    contains-insert_by le a x (sort_by le xs) ∙ ap (λ b. x == a || b) (contains-sort_by le a xs)

pub are_unique-sort_by :
    (le : String → String → Bool) (xs : List String) → are_unique (sort_by le xs) ≡ are_unique xs
unfolding sort_by
are_unique-sort_by le [] = refl
are_unique-sort_by le (x ∷ xs) =
    are_unique-insert_by le x (sort_by le xs)
    ∙ rw (contains-sort_by le x xs, are_unique-sort_by le xs) refl
