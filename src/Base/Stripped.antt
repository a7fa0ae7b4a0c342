-- ===== src/Base/Stripped.antt =====
-- A text that was stripped is left as it is by another `strip`.
use Prim.Native.Nat.{ℕ}
use Prim.Native.Char.{code}
use Prim.Native.String.{String}
use mathlib.Core.Path.{◌≡◌, refl, sym, ap, ◌∙◌}
use mathlib.Core.Logic.{inl, inr}
use mathlib.Core.Bool.{Bool, true, not, ◌&&◌}
use development_conveyor.Base.Tests.{◌==◌, string_eq, Bool-cases, not-true, &&-true, eq_of_beq}
use development_conveyor.Base.Lists.{all}
use development_conveyor.Base.Texts.{
  strip_left, strip_right, strip_where, strip, is_space, is_blank, codes,
}

module _ (test : ℕ → Bool) where
  -- The text does not begin with a character of the test.
  abbrev is_headed : String → Bool
  is_headed String.[] = true
  is_headed (String.◌∷◌ c s) = not (test (code c))

  strip_left-is_headed : (s : String) → is_headed (strip_left test s) ≡ true
  strip_left-is_headed String.[] = refl
  strip_left-is_headed (String.◌∷◌ c s) = elim (Bool-cases (test (code c))) [
    | inl h ↦ rw h (strip_left-is_headed s)
    | inr h ↦ rw h (rw h refl)
  ]

  is_headed-strip_left : (s : String) → is_headed s ≡ true → strip_left test s ≡ s
  is_headed-strip_left String.[] h = refl
  is_headed-strip_left (String.◌∷◌ c s) h = rw (not-true (test (code c)) h) refl

  strip_right-is_headed : (s : String) → is_headed s ≡ true → is_headed (strip_right test s) ≡ true
  strip_right-is_headed String.[] h = refl
  strip_right-is_headed (String.◌∷◌ c s) h = rw (not-true (test (code c)) h) h

  strip_right-again : (s : String) → strip_right test (strip_right test s) ≡ strip_right test s
  strip_right-again String.[] = refl
  strip_right-again (String.◌∷◌ c s) =
      elim (Bool-cases (test (code c) && strip_right test s == "")) [
        | inl h ↦ rw h refl
        | inr h ↦ rw h (rw (strip_right-again s) (rw h refl))
      ]

  strip_where-again : (s : String) → strip_where test (strip_where test s) ≡ strip_where test s
  unfolding strip_where
  strip_where-again s =
      ap (strip_right test) (
        is_headed-strip_left (strip_right test (strip_left test s))
          (strip_right-is_headed (strip_left test s) (strip_left-is_headed s)))
      ∙ strip_right-again (strip_left test s)

  blank-strip_left : (s : String) → all test (codes (strip_left test s)) ≡ all test (codes s)
  blank-strip_left String.[] = refl
  blank-strip_left (String.◌∷◌ c s) = elim (Bool-cases (test (code c))) [
    | inl h ↦ rw h (blank-strip_left s)
    | inr h ↦ rw h (rw h refl)
  ]

  blank-strip_right : (s : String) → all test (codes (strip_right test s)) ≡ all test (codes s)
  blank-strip_right String.[] = refl
  blank-strip_right (String.◌∷◌ c s) =
      elim (Bool-cases (test (code c) && strip_right test s == "")) [
        | inl h ↦
            let (first, last) = &&-true (test (code c)) (strip_right test s == "") h in
            let empty = eq_of_beq {a = strip_right test s} {b = ""} last in
            rw h (rw first (sym (sym (blank-strip_right s) ∙ ap (λ t. all test (codes t)) empty)))
        | inr h ↦ rw h (ap (λ b. test (code c) && b) (blank-strip_right s))
      ]

pub is_blank-strip : (s : String) → is_blank (strip s) ≡ is_blank s
unfolding strip strip_where
is_blank-strip s = blank-strip_right is_space (strip_left is_space s) ∙ blank-strip_left is_space s

pub strip-again : (s : String) → strip (strip s) ≡ strip s
unfolding strip
strip-again s = strip_where-again is_space s
