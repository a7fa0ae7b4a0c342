-- ===== src/Dict/Updates.antt =====
-- What `d.update(e)` leaves in a `dict`: the entries of `e`, and what `d` has under other keys.
use mathlib.Core.Path.{subst}
use development_conveyor.Base.{
  String, ◌≡◌, refl, ◌∙◌, Option, none, some, some-eq, ◌==◌, string_eq, Bool-cases, inl, inr, Bool,
  true, false, not, ◌&&◌, &&-true, is_some, contains, all, ◌∷◌, ap, sym,
}
use development_conveyor.Json.{
  Json, Fields, keys, end, field, get_field, set_field, get_field-set_field_self,
  get_field-set_field_ne,
}
use development_conveyor.Dict.{update_fields}

-- A key that is not in the entries is not touched.
pub get_field-update_fields :
    (k : String) (d entries : Fields)
    → get_field k entries ≡ none
    → get_field k (update_fields d entries) ≡ get_field k d
get_field-update_fields k d end h = refl
get_field-update_fields k d (field j v rest) h = elim (Bool-cases (j == k)) [
  | inl p ↦ cc (rw p at h)
  | inr p ↦
      get_field-update_fields k (set_field j v d) rest (rw p at h)
      ∙ get_field-set_field_ne j k v d p
]

-- The keys of the entries differ.
unfoldable pub are_distinct : Fields → Bool
are_distinct end = true
are_distinct (field k v rest) = not (is_some (get_field k rest)) && are_distinct rest

-- The `dict` has every one of the entries.
abbrev pub Has : Fields → Fields → Type 0
Has d end = Unit
Has d (field k v rest) = (get_field k d ≡ some v) × Has d rest

absent : (m : Option Json) → not (is_some m) ≡ true → m ≡ none
absent none h = refl
absent (some v) h = cc h

pub update_fields-Has :
    (d entries : Fields) → are_distinct entries ≡ true → Has (update_fields d entries) entries
unfolding are_distinct
update_fields-Has d end h = tt
update_fields-Has d (field k v rest) h =
    let (once, later) = &&-true (not (is_some (get_field k rest))) (are_distinct rest) h in
    (
      get_field-update_fields k (set_field k v d) rest (absent (get_field k rest) once)
          ∙ get_field-set_field_self k v d,
      update_fields-Has (set_field k v d) rest later,
    )

pub set_field-same :
    (k : String) (v : Json) (d : Fields) → get_field k d ≡ some v → set_field k v d ≡ d
set_field-same k v end h = cc h
set_field-same k v (field j w rest) h = elim (Bool-cases (j == k)) [
  | inl p ↦ rw p (ap (λ u. field j u rest) (some-eq (sym (rw p at h))))
  | inr p ↦ rw p (ap (field j w) (set_field-same k v rest (rw p at h)))
]

-- An update by entries that are there changes nothing.
pub update_fields-same : (d entries : Fields) → Has d entries → update_fields d entries ≡ d
update_fields-same d end h = refl
update_fields-same d (field k v rest) h =
    rw (set_field-same k v d h.0) (update_fields-same d rest h.1)

pub get_field-absent :
    (k : String) (d : Fields) → contains k (keys d) ≡ false → get_field k d ≡ none
get_field-absent k end h = refl
get_field-absent k (field j v rest) h = elim (Bool-cases (j == k)) [
  | inl p ↦ cc (rw p at h)
  | inr p ↦ rw p (get_field-absent k rest (rw p at h))
]

keys-set_field :
    (k : String) (v : Json) (d : Fields)
    → contains k (keys d) ≡ true
    → keys (set_field k v d) ≡ keys d
keys-set_field k v end h = cc h
keys-set_field k v (field j w rest) h = elim (Bool-cases (j == k)) [
  | inl p ↦ rw p refl
  | inr p ↦ rw p (ap (λ ks. j ∷ ks) (keys-set_field k v rest (rw p at h)))
]

-- An update of entries that are there adds no key.
pub keys-update_fields :
    (d entries : Fields)
    → all (λ k. contains k (keys d)) (keys entries) ≡ true
    → keys (update_fields d entries) ≡ keys d
keys-update_fields d end h = refl
keys-update_fields d (field k v rest) h =
    let (first, later) =
      &&-true (contains k (keys d)) (all (λ k. contains k (keys d)) (keys rest)) h in
    let same = keys-set_field k v d first in
    keys-update_fields (set_field k v d) rest
      (subst (λ ks. all (λ k. contains k ks) (keys rest) ≡ true) (sym same) later)
    ∙ same
