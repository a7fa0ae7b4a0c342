-- ===== src/Base/Tests.antt =====
-- Boolean tests on numbers, and an interface for types with a decidable equality test.
use Prim.Native.Nat.{ℕ, compare, Ordering, ◌≤◌}
use Prim.Native.String.{String}
use mathlib.Core.Path.{◌≡◌, refl, ap}
use mathlib.Core.Logic.{◌↔◌, ◌⊎◌, inl, inr, ◌≢◌}
use mathlib.Core.Bool.{Bool, true, false, not, ◌&&◌, ◌||◌}
use mathlib.Core.Option.{Option, none, some}
use native.Mathlib.Omega.{arith}
use text.Mathlib.Text.{◌==◌ as str_eq}
use text.Mathlib.TextEquality.{eq_iff}

abbrev pub ltb : ℕ → ℕ → Bool
ltb a b = elim (compare a b) [ Ordering.lt ↦ true | _ ↦ false ]

abbrev pub leb : ℕ → ℕ → Bool
leb a b = elim (compare a b) [ Ordering.gt ↦ false | _ ↦ true ]

abbrev pub nat_beq : ℕ → ℕ → Bool
nat_beq a b = elim (compare a b) [ Ordering.eq ↦ true | _ ↦ false ]

infix 1 if◌then◌else◌
abbrev pub if◌then◌else◌ {ℓ} : {A : Type ℓ} → Bool → A → A → A
if true then x else y = x
if false then x else y = y

pub Bool-cases : (b : Bool) → (b ≡ true) ⊎ (b ≡ false)
Bool-cases true = inl refl
Bool-cases false = inr refl

pub &&-true : (a b : Bool) → (a && b) ≡ true → (a ≡ true) × (b ≡ true)
&&-true true b h = (refl, h)
&&-true false b h = cc

pub ||-cases : (a b : Bool) → (a || b) ≡ true → (a ≡ true) ⊎ (b ≡ true)
||-cases true b h = inl refl
||-cases false b h = inr h

pub ||-left : {a : Bool} (b : Bool) → a ≡ true → (a || b) ≡ true
||-left b h = ground arith

pub ||-right : (a : Bool) {b : Bool} → b ≡ true → (a || b) ≡ true
||-right a h = ground arith

pub not-true : (b : Bool) → not b ≡ true → b ≡ false
not-true true h = cc
not-true false h = refl

pub le_of_leb : {a b : ℕ} → leb a b ≡ true → a ≤ b
le_of_leb h = ground arith

pub record Eq {ℓ} (A : Type ℓ) : Type ℓ where
  pub beq : A → A → Bool
  pub beq_iff : (left right : A) → (beq left right ≡ true) ↔ (left ≡ right)

infix 50 ◌==◌ ◌!=◌
abbrev pub ◌==◌ {ℓ} : {A : Type ℓ} ⦃test : Eq A⦄ → A → A → Bool
◌==◌ ⦃test⦄ left right = test.beq left right

abbrev pub ◌!=◌ {ℓ} : {A : Type ℓ} ⦃e : Eq A⦄ → A → A → Bool
◌!=◌ ⦃e⦄ a b = not (e.beq a b)

pub nat_beq_iff : (a b : ℕ) → (nat_beq a b ≡ true) ↔ (a ≡ b)
nat_beq_iff a b = (λ h. ground arith, λ h. ground arith)

instance abbrev pub string_eq : Eq String
string_eq = record { beq = str_eq; beq_iff = eq_iff }

instance abbrev pub nat_eq : Eq ℕ
nat_eq = record { beq = nat_beq; beq_iff = nat_beq_iff }

abbrev pub bool_beq : Bool → Bool → Bool
bool_beq true b = b
bool_beq false b = not b

pub bool_beq_iff : (a b : Bool) → (bool_beq a b ≡ true) ↔ (a ≡ b)
bool_beq_iff a b = (λ h. ground arith, λ h. ground arith)

instance abbrev pub bool_eq : Eq Bool
bool_eq = record { beq = bool_beq; beq_iff = bool_beq_iff }

module _ {ℓ} {A : Type ℓ} ⦃e : Eq A⦄ where
  pub beq_refl : (a : A) → (a == a) ≡ true
  beq_refl a = (e.beq_iff a a).1 refl

  pub eq_of_beq : {a b : A} → (a == b) ≡ true → a ≡ b
  eq_of_beq {a} {b} h = (e.beq_iff a b).0 h

  pub beq_of_eq : {a b : A} → a ≡ b → (a == b) ≡ true
  beq_of_eq {a} {b} h = (e.beq_iff a b).1 h

  pub beq_of_ne : {a b : A} → a ≢ b → (a == b) ≡ false
  beq_of_ne {a} {b} h = elim (Bool-cases (a == b)) [ inl p ↦ absurd (h (eq_of_beq p)) | inr p ↦ p ]

  pub ne_of_beq : {a b : A} → (a == b) ≡ false → a ≢ b
  ne_of_beq {a} {b} h p = cc (h, (e.beq_iff a b).1 p)

module _ {ℓ} {A : Type ℓ} ⦃e : Eq A⦄ where
  abbrev pub option_beq : Option A → Option A → Bool
  option_beq none none = true
  option_beq none (some b) = false
  option_beq (some a) none = false
  option_beq (some a) (some b) = a == b

  pub option_beq_iff : (x y : Option A) → (option_beq x y ≡ true) ↔ (x ≡ y)
  option_beq_iff none none = (λ h. refl, λ h. refl)
  option_beq_iff none (some b) = (λ h. cc, λ h. cc)
  option_beq_iff (some a) none = (λ h. cc, λ h. cc)
  option_beq_iff (some a) (some b) =
      (λ h. ap some ((e.beq_iff a b).0 h), λ h. (e.beq_iff a b).1 (ground arith))

  instance abbrev pub option_eq : Eq (Option A)
  option_eq = record { beq = option_beq; beq_iff = option_beq_iff }
