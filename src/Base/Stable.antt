-- ===== src/Base/Stable.antt =====
-- A text that was stripped and a list that was sorted stay as they are.
use Prim.Native.Nat.{ℕ, zero, suc, compare, Ordering}
use Prim.Native.Nat.compare
use Prim.Native.Char.{code}
use Prim.Native.String.{String, then as and_then, compare as compare_text}
use Prim.Native.String.compare as compare_text
use mathlib.Core.Path.{◌≡◌, refl, sym, ap, ◌∙◌}
use mathlib.Core.Logic.{inl, inr}
use mathlib.Core.Bool.{Bool, true, false, not, ◌&&◌}
use mathlib.Core.List.{List, [], ◌∷◌}
use development_conveyor.Base.Tests.{string_eq, Bool-cases, &&-true}
use development_conveyor.Base.Sorting.{insert_by, sort_by, text_ltb}

abbrev flip : Ordering → Ordering
flip Ordering.lt = Ordering.gt
flip Ordering.eq = Ordering.eq
flip Ordering.gt = Ordering.lt

flip-and_then : (o r : Ordering) → flip (and_then o r) ≡ and_then (flip o) (flip r)
flip-and_then Ordering.lt r = refl
flip-and_then Ordering.eq r = refl
flip-and_then Ordering.gt r = refl

nat-flip : (m n : ℕ) → compare n m ≡ flip (compare m n)
nat-flip zero zero = refl
nat-flip zero (suc n) = compare.suc-zero n ∙ sym (ap flip (compare.zero-suc n))
nat-flip (suc m) zero = compare.zero-suc m ∙ sym (ap flip (compare.suc-zero m))
nat-flip (suc m) (suc n) =
    compare.suc-suc n m ∙ (nat-flip m n ∙ sym (ap flip (compare.suc-suc m n)))

text-flip : (s t : String) → compare_text t s ≡ flip (compare_text s t)
text-flip String.[] String.[] = refl
text-flip String.[] (String.◌∷◌ d t) =
    compare_text.cons-nil d t ∙ sym (ap flip (compare_text.nil-cons d t))
text-flip (String.◌∷◌ c s) String.[] =
    compare_text.nil-cons c s ∙ sym (ap flip (compare_text.cons-nil c s))
text-flip (String.◌∷◌ c s) (String.◌∷◌ d t) =
    compare_text.cons-cons d c t s
    ∙ (rw (nat-flip (code c) (code d), text-flip s t)
        (sym (
          ap flip (compare_text.cons-cons c d s t)
          ∙ flip-and_then (compare (code c) (code d)) (compare_text s t))))

-- Of two texts one is at most the other.
pub text_total : (s t : String) → not (text_ltb t s) ≡ false → not (text_ltb s t) ≡ true
text_total s t h = lt_is_not_gt (compare_text t s) (compare_text s t) (text-flip t s) h
  where
    lt_is_not_gt :
        (o r : Ordering)
        → r ≡ flip o
        → not (elim o [ Ordering.lt ↦ true | _ ↦ false ]) ≡ false
        → not (elim r [ Ordering.lt ↦ true | _ ↦ false ]) ≡ true
    lt_is_not_gt Ordering.lt r e k = rw e refl
    lt_is_not_gt Ordering.eq r e k = cc k
    lt_is_not_gt Ordering.gt r e k = cc k

module _ {ℓ} {A : Type ℓ} (le : A → A → Bool) where
  abbrev starts : A → List A → Bool
  starts x [] = true
  starts x (y ∷ ys) = le x y

  -- Each element is at most the next one.
  abbrev is_chain : List A → Bool
  is_chain [] = true
  is_chain (x ∷ xs) = starts x xs && is_chain xs

  insert_by-starts :
      (y x : A) (xs : List A)
      → le y x ≡ true
      → starts y xs ≡ true
      → starts y (insert_by le x xs) ≡ true
  unfolding insert_by
  insert_by-starts y x [] h s = h
  insert_by-starts y x (z ∷ zs) h s = elim (Bool-cases (le x z)) [ inl k ↦ rw k h | inr k ↦ rw k s ]

  module _ (total : (x y : A) → le x y ≡ false → le y x ≡ true) where
    insert_by-chain :
        (x : A) (xs : List A) → is_chain xs ≡ true → is_chain (insert_by le x xs) ≡ true
    unfolding insert_by
    insert_by-chain x [] h = refl
    insert_by-chain x (y ∷ ys) h = elim (Bool-cases (le x y)) [
      | inl k ↦ rw (k, k) h
      | inr k ↦
          let (first, later) = &&-true (starts y ys) (is_chain ys) h in
          rw k (rw (insert_by-starts y x ys (total x y k) first) (insert_by-chain x ys later))
    ]

    sort_by-chain : (xs : List A) → is_chain (sort_by le xs) ≡ true
    unfolding sort_by
    sort_by-chain [] = refl
    sort_by-chain (x ∷ xs) = insert_by-chain x (sort_by le xs) (sort_by-chain xs)

    insert_by-first : (x : A) (xs : List A) → starts x xs ≡ true → insert_by le x xs ≡ x ∷ xs
    unfolding insert_by
    insert_by-first x [] h = refl
    insert_by-first x (y ∷ ys) h = rw h refl

    chain-sort_by : (xs : List A) → is_chain xs ≡ true → sort_by le xs ≡ xs
    unfolding sort_by
    chain-sort_by [] h = refl
    chain-sort_by (x ∷ xs) h =
        let (first, later) = &&-true (starts x xs) (is_chain xs) h in
        rw (chain-sort_by xs later) (insert_by-first x xs first)

    pub sort_by-sort_by : (xs : List A) → sort_by le (sort_by le xs) ≡ sort_by le xs
    sort_by-sort_by xs = chain-sort_by (sort_by le xs) (sort_by-chain xs)
