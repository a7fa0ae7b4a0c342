-- ===== src/Dict.antt =====
-- Python's ways with a `dict` of JSON values: displays, `get` with a default, `or`, `pop`, `update`.
use development_conveyor.Base.{
  String, Option, none, some, List, [], ◌∷◌, ◌==◌, string_eq, if◌then◌else◌,
}
use development_conveyor.Json.{
  bool, int, pos, ℤ, Json, null, str, arr, Items, nil, cons, Fields, end, field, member, falsy,
  set_field,
}
pub mod Updates

-- A `dict` display.
abbrev pub dict : List (String × Json) → Fields
dict [] = end
dict ((k, v) ∷ rest) = field k v (dict rest)

abbrev pub or_null : Option Json → Json
or_null none = null
or_null (some v) = v

-- `a or b`
abbrev pub or_else : Option Json → Option Json → Option Json
or_else none b = b
or_else (some v) b = if falsy v then b else some v

-- `value.get(key)`; a value that is no `dict` has no keys.
abbrev pub value_at : String → Json → Json
value_at k v = or_null (member k v)

-- `value.get(key, default)`
abbrev pub value_or : String → Json → Json → Json
value_or k v default = elim (member k v) [ none ↦ default | some found ↦ found ]

abbrev pub items_of : List Json → Items
items_of [] = nil
items_of (x ∷ rest) = cons x (items_of rest)

abbrev pub array : List Json → Json
array xs = arr (items_of xs)

abbrev pub text_array : List String → Items
text_array [] = nil
text_array (s ∷ rest) = cons (str s) (text_array rest)

abbrev pub text_or_null : Option String → Json
text_or_null none = null
text_or_null (some s) = str s

-- `d.pop(key, None)`
abbrev pub remove_field : String → Fields → Fields
remove_field k end = end
remove_field k (field j v rest) =
    let later = remove_field k rest in if j == k then later else field j v later

-- `d.update(e)`
abbrev pub update_fields : Fields → Fields → Fields
update_fields d end = d
update_fields d (field k v rest) = update_fields (set_field k v d) rest

-- A value that `isinstance` tells to be an `int`: `bool` is one.
abbrev pub int_of : Json → Option ℤ
int_of (int n) = some n
int_of (bool b) = some (if b then pos 1 else pos 0)
int_of _ = none
