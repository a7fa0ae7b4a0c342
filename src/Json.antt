-- ===== src/Json.antt =====
-- JSON values, as `json.loads` returns them, and the `dict` operations the controller uses.
-- A fraction is kept as its digits and decimal places; nothing computes with it.
use development_conveyor.Base.Tests.{
  Eq, ◌==◌, nat_eq, string_eq, bool_eq, Bool-cases, if◌then◌else◌, &&-true, eq_of_beq, beq_refl,
}
use Prim.Native.Nat.{ℕ}
use Prim.Native.String.{String}
use mathlib.Core.Path.{◌≡◌, refl, ap, ap₂, subst, ◌∙◌}
use mathlib.Core.Logic.{◌↔◌, inl, inr}
use mathlib.Core.Bool.{Bool, true, false, not, ◌&&◌}
use mathlib.Core.Option.{Option, none, some}
use mathlib.Core.List.{List, [], ◌∷◌}
use native.Mathlib.Omega.{arith}

-- `negsuc n` is -(n + 1).
pub data ℤ : Type 0 where
  pos : ℕ → ℤ
  negsuc : ℕ → ℤ

abbrev pub int_beq : ℤ → ℤ → Bool
int_beq (pos a) (pos b) = a == b
int_beq (negsuc a) (negsuc b) = a == b
int_beq (pos a) (negsuc b) = false
int_beq (negsuc a) (pos b) = false

pub int_beq_iff : (a b : ℤ) → (int_beq a b ≡ true) ↔ (a ≡ b)
int_beq_iff (pos a) (pos b) = (λ h. ap pos (eq_of_beq h), λ h. ground arith)
int_beq_iff (negsuc a) (negsuc b) = (λ h. ap negsuc (eq_of_beq h), λ h. ground arith)
int_beq_iff (pos a) (negsuc b) = (λ h. cc, λ h. cc)
int_beq_iff (negsuc a) (pos b) = (λ h. cc, λ h. cc)

instance abbrev pub int_eq : Eq ℤ
int_eq = record { beq = int_beq; beq_iff = int_beq_iff }

mutual
  pub data Json : Type 0 where
    null : Json
    bool : Bool → Json
    int : ℤ → Json
    fraction : ℤ → ℕ → Json
    str : String → Json
    arr : Items → Json
    obj : Fields → Json

  pub data Items : Type 0 where
    nil : Items
    cons : Json → Items → Items

  pub data Fields : Type 0 where
    end : Fields
    field : String → Json → Fields → Fields

unfoldable mutual
  pub json_beq : Json → Json → Bool
  json_beq null null = true
  json_beq (bool a) (bool b) = a == b
  json_beq (int a) (int b) = a == b
  json_beq (fraction a p) (fraction b q) = a == b && p == q
  json_beq (str a) (str b) = a == b
  json_beq (arr a) (arr b) = items_beq a b
  json_beq (obj a) (obj b) = fields_beq a b
  json_beq _ _ = false

  pub items_beq : Items → Items → Bool
  items_beq nil nil = true
  items_beq (cons x xs) (cons y ys) = json_beq x y && items_beq xs ys
  items_beq _ _ = false

  pub fields_beq : Fields → Fields → Bool
  fields_beq end end = true
  fields_beq (field k x xs) (field j y ys) = k == j && (json_beq x y && fields_beq xs ys)
  fields_beq _ _ = false

mutual
  unfolding json_beq items_beq fields_beq

  json_beq_refl : (a : Json) → json_beq a a ≡ true
  json_beq_refl null = refl
  json_beq_refl (bool a) = beq_refl a
  json_beq_refl (int a) = beq_refl a
  json_beq_refl (fraction a p) = ground (arith, beq_refl a, beq_refl p)
  json_beq_refl (str a) = beq_refl a
  json_beq_refl (arr a) = items_beq_refl a
  json_beq_refl (obj a) = fields_beq_refl a

  items_beq_refl : (a : Items) → items_beq a a ≡ true
  items_beq_refl nil = refl
  items_beq_refl (cons x xs) = ground (arith, json_beq_refl x, items_beq_refl xs)

  fields_beq_refl : (a : Fields) → fields_beq a a ≡ true
  fields_beq_refl end = refl
  fields_beq_refl (field k x xs) = ground (arith, beq_refl k, json_beq_refl x, fields_beq_refl xs)

mutual
  unfolding json_beq items_beq fields_beq

  eq_of_json_beq : (a b : Json) → json_beq a b ≡ true → a ≡ b
  eq_of_json_beq null null h = refl
  eq_of_json_beq (bool a) (bool b) h = ap bool (eq_of_beq h)
  eq_of_json_beq (int a) (int b) h = ap int (eq_of_beq h)
  eq_of_json_beq (fraction a p) (fraction b q) h =
      let (x, y) = &&-true (a == b) (p == q) h in ap₂ fraction (eq_of_beq x) (eq_of_beq y)
  eq_of_json_beq (str a) (str b) h = ap str (eq_of_beq h)
  eq_of_json_beq (arr a) (arr b) h = ap arr (eq_of_items_beq a b h)
  eq_of_json_beq (obj a) (obj b) h = ap obj (eq_of_fields_beq a b h)
  eq_of_json_beq _ _ h = cc

  eq_of_items_beq : (a b : Items) → items_beq a b ≡ true → a ≡ b
  eq_of_items_beq nil nil h = refl
  eq_of_items_beq (cons x xs) (cons y ys) h =
      let (p, q) = &&-true (json_beq x y) (items_beq xs ys) h in
      ap₂ cons (eq_of_json_beq x y p) (eq_of_items_beq xs ys q)
  eq_of_items_beq _ _ h = cc

  eq_of_fields_beq : (a b : Fields) → fields_beq a b ≡ true → a ≡ b
  eq_of_fields_beq end end h = refl
  eq_of_fields_beq (field k x xs) (field j y ys) h =
      let (p, r) = &&-true (k == j) (json_beq x y && fields_beq xs ys) h in
      let (q, s) = &&-true (json_beq x y) (fields_beq xs ys) r in
      let e = eq_of_beq {a = k} {b = j} p in
      let f = eq_of_json_beq x y q in
      let g = eq_of_fields_beq xs ys s in λ i. field (e i) (f i) (g i)
  eq_of_fields_beq _ _ h = cc

pub json_beq_iff : (a b : Json) → (json_beq a b ≡ true) ↔ (a ≡ b)
json_beq_iff a b = (eq_of_json_beq a b, λ e. subst (λ b. json_beq a b ≡ true) e (json_beq_refl a))

instance abbrev pub json_eq : Eq Json
unfolding json_beq
json_eq = record { beq = json_beq; beq_iff = json_beq_iff }

-- `d.get(key)`
abbrev pub get_field : String → Fields → Option Json
get_field k end = none
get_field k (field j v rest) = if j == k then some v else get_field k rest

-- `d[key] = value`
abbrev pub set_field : String → Json → Fields → Fields
set_field k v end = field k v end
set_field k v (field j w rest) = if j == k then field j v rest else field j w (set_field k v rest)

pub get_field-set_field_self :
    (k : String) (v : Json) (d : Fields) → get_field k (set_field k v d) ≡ some v
get_field-set_field_self k v end = rw (beq_refl k) refl
get_field-set_field_self k v (field j w rest) = elim (Bool-cases (j == k)) [
  | inl p ↦ rw p (rw p refl)
  | inr p ↦ rw p (rw p (get_field-set_field_self k v rest))
]

pub get_field-set_field_ne :
    (k j : String) (v : Json) (d : Fields)
    → (k == j) ≡ false
    → get_field j (set_field k v d) ≡ get_field j d
get_field-set_field_ne k j v end h = rw h refl
get_field-set_field_ne k j v (field i w rest) h = elim (Bool-cases (i == k)) [
  | inl p ↦ rw p (rw (ap (λ x. x == j) (eq_of_beq p) ∙ h) refl)
  | inr p ↦ rw p (elim (Bool-cases (i == j)) [
    | inl q ↦ rw q refl
    | inr q ↦ rw q (get_field-set_field_ne k j v rest h)
  ])
]

abbrev pub keys : Fields → List String
keys end = []
keys (field k v rest) = k ∷ keys rest

-- `value.get(key)` where `value` is a `dict`; no other value has fields.
abbrev pub member : String → Json → Option Json
member k (obj d) = get_field k d
member k _ = none

abbrev pub is_object : Json → Bool
is_object (obj d) = true
is_object _ = false

-- The comparison of a field that may be absent with a text.
abbrev pub is_text : Option Json → String → Bool
is_text (some (str s)) t = s == t
is_text _ t = false

abbrev pub text_of : Option Json → Option String
text_of (some (str s)) = some s
text_of _ = none

abbrev items_falsy : Items → Bool
items_falsy nil = true
items_falsy (cons x xs) = false

abbrev fields_falsy : Fields → Bool
fields_falsy end = true
fields_falsy (field k v rest) = false

abbrev pub int_falsy : ℤ → Bool
int_falsy n = n == pos 0

-- `not value`
abbrev pub falsy : Json → Bool
falsy null = true
falsy (bool b) = not b
falsy (int n) = int_falsy n
falsy (fraction n p) = int_falsy n
falsy (str s) = s == ""
falsy (arr xs) = items_falsy xs
falsy (obj d) = fields_falsy d

-- `bool(d.get(key))`
abbrev pub truthy : Option Json → Bool
truthy none = false
truthy (some v) = not (falsy v)
