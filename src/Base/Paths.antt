-- ===== src/Base/Paths.antt =====
-- Texts that are cut and put together at a separator, and the `parts` and `as_posix` of Python's
-- `PurePosixPath`.
use Prim.Native.Char.{Char, code}
use Prim.Native.String.{String, ◌++◌ as text_append}
use Prim.Native.Nat.{ℕ}
use mathlib.Core.Bool.{Bool, true, false, not, ◌&&◌, ◌||◌}
use mathlib.Core.List.{List, [], ◌∷◌}
use development_conveyor.Base.Tests.{◌==◌, nat_eq, string_eq, if◌then◌else◌}
use development_conveyor.Base.Lists.{select, contains}

abbrev pub onto_first : Char → List String → List String
onto_first c [] = (String.◌∷◌ c String.[]) ∷ []
onto_first c (w ∷ ws) = (String.◌∷◌ c w) ∷ ws

-- `text.split(separator)` for one code point.
unfoldable pub split_at : ℕ → String → List String
split_at sep String.[] = "" ∷ []
split_at sep (String.◌∷◌ c s) =
    let rest = split_at sep s in if code c == sep then "" ∷ rest else onto_first c rest

-- `separator.join(words)`
unfoldable pub join : String → List String → String
join sep [] = ""
join sep (w ∷ []) = w
join sep (w ∷ v ∷ ws) = text_append w (text_append sep (join sep (v ∷ ws)))

abbrev pub starts_with : String → String → Bool
starts_with String.[] s = true
starts_with (String.◌∷◌ c p) String.[] = false
starts_with (String.◌∷◌ c p) (String.◌∷◌ d s) = code c == code d && starts_with p s

-- `text.rstrip("/")`
unfoldable pub rstrip_slash : String → String
rstrip_slash String.[] = ""
rstrip_slash (String.◌∷◌ c s) =
    let rest = rstrip_slash s in if code c == b'/' && rest == "" then "" else String.◌∷◌ c rest

abbrev pub is_absolute : String → Bool
is_absolute s = starts_with "/" s

-- The components of a path that is not absolute.
unfoldable pub path_parts : String → List String
unfolding split_at
path_parts s = select (λ w. not (w == "" || w == ".")) (split_at b'/' s)

-- `PurePosixPath(text).as_posix()` of a path that is not absolute.
unfoldable pub as_posix : String → String
unfolding path_parts join
as_posix s = elim (path_parts s) [ [] ↦ "." | w ∷ ws ↦ join "/" (w ∷ ws) ]

-- A path of a tree: not absolute, with no way up, and written as Python writes it.
unfoldable pub is_safe_path : String → Bool
unfolding path_parts as_posix
is_safe_path s =
    not (s == "") && not (is_absolute s) && not (contains ".." (path_parts s)) && as_posix s == s
