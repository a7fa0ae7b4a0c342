-- ===== src/Base/Texts.antt =====
-- Texts as the code walks them: code points and white space.
use Prim.Native.Nat.{ℕ, zero, suc, ◌+◌}
use Prim.Native.Char.{code}
use Prim.Native.String.{String}
use mathlib.Core.Bool.{Bool, true, false, ◌&&◌, ◌||◌}
use mathlib.Core.List.{List, [], ◌∷◌}
use development_conveyor.Base.Tests.{leb, ◌==◌, nat_eq, string_eq, if◌then◌else◌}
use development_conveyor.Base.Lists.{all}

abbrev pub codes : String → List ℕ
codes String.[] = []
codes (String.◌∷◌ c s) = code c ∷ codes s

abbrev pub is_empty : String → Bool
is_empty s = s == ""

-- The white space of Python's `str.strip` and `str.isspace`.
abbrev pub is_space : ℕ → Bool
is_space c =
    (leb 9 c && leb c 13)
    || (leb 28 c && leb c 32)
    || c == 0x85
    || c == 0xa0
    || c == 0x1680
    || (leb 0x2000 c && leb c 0x200a)
    || c == 0x2028
    || c == 0x2029
    || c == 0x202f
    || c == 0x205f
    || c == 0x3000

-- `not s.strip()`
abbrev pub is_blank : String → Bool
is_blank s = all is_space (codes s)

abbrev pub strip_left : (ℕ → Bool) → String → String
strip_left test String.[] = ""
strip_left test (String.◌∷◌ c s) =
    let rest = strip_left test s in if test (code c) then rest else String.◌∷◌ c s

abbrev pub strip_right : (ℕ → Bool) → String → String
strip_right test String.[] = ""
strip_right test (String.◌∷◌ c s) =
    let rest = strip_right test s in if test (code c) && rest == "" then "" else String.◌∷◌ c rest

-- `text.strip(characters)`, the characters given by a test.
unfoldable pub strip_where : (ℕ → Bool) → String → String
strip_where test s = strip_right test (strip_left test s)

unfoldable pub strip : String → String
unfolding strip_where
strip s = strip_where is_space s

abbrev starts_at : String → String → Bool
starts_at String.[] s = true
starts_at (String.◌∷◌ c p) String.[] = false
starts_at (String.◌∷◌ c p) (String.◌∷◌ d s) = code c == code d && starts_at p s

-- `part in text`
unfoldable pub is_substring : String → String → Bool
is_substring part String.[] = part == ""
is_substring part (String.◌∷◌ c s) = starts_at part (String.◌∷◌ c s) || is_substring part s

abbrev words_from : Bool → List ℕ → ℕ
words_from inside [] = 0
words_from inside (c ∷ cs) = elim (is_space c) [
  | true ↦ words_from false cs
  | false ↦ (if inside then 0 else 1) + words_from true cs
]

-- `len(text.split())`
unfoldable pub word_count : String → ℕ
word_count s = words_from false (codes s)

-- `text[:n]`
abbrev pub take_text : ℕ → String → String
take_text zero s = ""
take_text (suc n) String.[] = ""
take_text (suc n) (String.◌∷◌ c s) = String.◌∷◌ c (take_text n s)

-- `text[n:]`
abbrev pub drop_text : ℕ → String → String
drop_text zero s = s
drop_text (suc n) String.[] = ""
drop_text (suc n) (String.◌∷◌ c s) = drop_text n s
