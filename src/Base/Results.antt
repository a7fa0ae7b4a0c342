-- ===== src/Base/Results.antt =====
-- A Python call that returns or raises: `E` tells the raise sites apart.
use mathlib.Core.Path.{◌≡◌, refl}
use mathlib.Core.Logic.{◌⊎◌, inl, inr}
use mathlib.Core.Bool.{Bool, true, false}
use mathlib.Core.Option.{Option, none, some}
use mathlib.Core.List.{List, [], ◌∷◌}

pub data Result {ℓ} (E A : Type ℓ) : Type ℓ where
  ok : A → Result E A
  err : E → Result E A

infixl 5 ◌>>=◌ ◌>>◌
abbrev pub ◌>>=◌ {ℓ} : {E A B : Type ℓ} → Result E A → (A → Result E B) → Result E B
ok a >>= f = f a
err e >>= f = err e

abbrev pub ◌>>◌ {ℓ} : {E B : Type ℓ} → Result E (Unit {ℓ}) → Result E B → Result E B
m >> k = m >>= λ _. k

-- `if not test: raise error`
abbrev pub guard {ℓ} : {E : Type ℓ} → Bool → E → Result E (Unit {ℓ})
guard true e = ok tt
guard false e = err e

abbrev pub require {ℓ} : {E A : Type ℓ} → Option A → E → Result E A
require none e = err e
require (some a) e = ok a

-- To split on a computed result and keep the equation.
pub Result-cases {ℓ} :
    {E A : Type ℓ} (m : Result E A) → ((a : A) × (m ≡ ok a)) ⊎ ((e : E) × (m ≡ err e))
Result-cases (ok a) = inl (a, refl)
Result-cases (err e) = inr (e, refl)

pub guard-bind-ok {ℓ} :
    {E B : Type ℓ} (t : Bool) (e : E) (m : Result E B) {b : B}
    → (guard t e >> m) ≡ ok b
    → (t ≡ true) × (m ≡ ok b)
guard-bind-ok true e m h = (refl, h)
guard-bind-ok false e m h = cc

pub guard-ok {ℓ} : {E : Type ℓ} (t : Bool) (e : E) → guard t e ≡ ok tt → t ≡ true
guard-ok true e h = refl
guard-ok false e h = cc

pub ok-injective {ℓ} : {E A : Type ℓ} {a b : A} → ◌≡◌ {A = Result E A} (ok a) (ok b) → a ≡ b
ok-injective h = cc

module _ {ℓ} {E A B : Type ℓ} where
  pub bind-ok :
      (m : Result E A) (f : A → Result E B) {b : B}
      → (m >>= f) ≡ ok b
      → (a : A) × (m ≡ ok a) × (f a ≡ ok b)
  bind-ok (ok a) f h = (a, refl, h)
  bind-ok (err e) f h = cc

module _ {ℓ} {E A B : Type ℓ} where
  -- `for x in xs: s = step(s, x)`
  abbrev pub fold_result : (A → B → Result E A) → A → List B → Result E A
  fold_result step s [] = ok s
  fold_result step s (x ∷ xs) = step s x >>= λ t. fold_result step t xs

pub err-eq {ℓ} : {E A : Type ℓ} {a b : E} → ◌≡◌ {A = Result E A} (err a) (err b) → a ≡ b
err-eq h = cc

pub ok-eq {ℓ} : {E A : Type ℓ} {a b : A} → ◌≡◌ {A = Result E A} (ok a) (ok b) → a ≡ b
ok-eq h = cc

pub guard-pass {ℓ} :
    {E B : Type ℓ} (t : Bool) (e : E) (m : Result E B) → t ≡ true → (guard t e >> m) ≡ m
guard-pass true e m h = refl
guard-pass false e m h = cc h

pub require-bind-ok {ℓ} :
    {E A B : Type ℓ} (m : Option A) (e : E) (f : A → Result E B) {b : B}
    → (require m e >>= f) ≡ ok b
    → (a : A) × (m ≡ some a) × (f a ≡ ok b)
require-bind-ok none e f h = cc
require-bind-ok (some a) e f h = (a, refl, h)
