-- ===== src/Queue/Names.antt =====
-- Statuses, milestone names and priorities of src/development_conveyor/queue.py.
use Prim.Native.String.{◌++◌ as text_append}
use development_conveyor.Base.{
  ℕ, suc, String, Bool, true, false, not, ◌&&◌, ◌||◌, Option, none, some, List, [], ◌∷◌, ◌==◌,
  nat_eq, string_eq, if◌then◌else◌, leb, all, contains, lookup, codes, is_blank, strip, strip_where,
  is_empty,
}
use Prim.Native.Char.{code}
use development_conveyor.Json.{Json, int, pos, str}

-- What Python's `str` does to letters.
pub record Casing : Type 0 where
  pub lower : String → String
  pub upper : String → String
  pub casefold : String → String

abbrev pub complete_statuses : List String
complete_statuses = "integrated" ∷ "done" ∷ []

abbrev pub active_statuses : List String
active_statuses = "in_progress" ∷ "review" ∷ "accepted" ∷ "integration_pending" ∷ "integrating" ∷ []

abbrev pub blocked_statuses : List String
blocked_statuses = "blocked" ∷ "human_decision_required" ∷ "deferred" ∷ "rejected" ∷ "failed" ∷ []

abbrev pub supported_statuses : List String
supported_statuses =
    "proposed" ∷ "ready" ∷ "in_progress" ∷ "review" ∷ "accepted" ∷ "integration_pending"
    ∷ "integrating" ∷ "integrated" ∷ "failed" ∷ "human_decision_required" ∷ "blocked" ∷ "done"
    ∷ "deferred" ∷ "rejected" ∷ []

abbrev pub status_aliases : List (String × String)
status_aliases =
    ("complete", "done")
    ∷ ("completed", "done")
    ∷ ("inprogress", "in_progress")
    ∷ ("pending_integration", "integration_pending")
    ∷ ("awaiting_human_decision", "human_decision_required")
    ∷ []

abbrev is_digit : ℕ → Bool
is_digit c = leb b'0' c && leb c b'9'

-- `[a-z0-9]`
abbrev is_plain : ℕ → Bool
is_plain c = (leb b'a' c && leb c b'z') || is_digit c

-- `re.sub(r"[^a-z0-9]+", separator, text)`; the Boolean says that a run is being read.
abbrev collapse : String → Bool → String → String
collapse sep inside String.[] = ""
collapse sep inside (String.◌∷◌ c s) = elim (is_plain (code c)) [
  | true ↦ String.◌∷◌ c (collapse sep false s)
  | false ↦ text_append (if inside then "" else sep) (collapse sep true s)
]

abbrev or_same : String → Option String → String
or_same s none = s
or_same s (some t) = t

unfoldable pub normalized_status : Casing → String → String
unfolding strip strip_where
normalized_status c value =
    let plain = strip_where (λ d. d == b'_') (collapse "_" false (c.lower (strip value))) in
    or_same plain (lookup plain status_aliases)

-- `none` where the code raises.
unfoldable pub normalize_status : Casing → Option Json → Option String
unfolding normalized_status
normalize_status c (some (str value)) =
    if is_blank value
    then none
    else if contains (normalized_status c value) supported_statuses
    then some (normalized_status c value)
    else none
normalize_status c _ = none

abbrev drop_prefix : String → String → Option String
drop_prefix String.[] s = some s
drop_prefix (String.◌∷◌ d p) String.[] = none
drop_prefix (String.◌∷◌ d p) (String.◌∷◌ e s) =
    let rest = drop_prefix p s in if code d == code e then rest else none

-- `str(int(digits))`
abbrev without_zeros : String → String
without_zeros String.[] = "0"
without_zeros (String.◌∷◌ d s) =
    let rest = without_zeros s in if code d == b'0' then rest else String.◌∷◌ d s

abbrev numbered : Option String → Option String
numbered none = none
numbered (some s) =
    if not (is_empty s) && all is_digit (codes s) then some (without_zeros s) else none

-- The number of a text that fully matches one of the prefixes followed by digits.
abbrev number_after : List String → String → Option String
number_after [] s = none
number_after (p ∷ ps) s = elim (numbered (drop_prefix p s)) [
  | some n ↦ some n
  | none ↦ number_after ps s
]

unfoldable pub normalize_milestone_name : Casing → String → String
unfolding strip strip_where
normalize_milestone_name c value =
    let plain = strip_where (λ d. d == b'-') (collapse "-" false (c.lower (strip value))) in
    elim (number_after ("p" ∷ "phase" ∷ "phase-" ∷ []) plain) [
      | some n ↦ text_append "phase-" n
      | none ↦ elim (number_after ("m" ∷ "milestone" ∷ "milestone-" ∷ []) plain) [
        | some n ↦ text_append "milestone-" n
        | none ↦ plain
      ]
    ]

abbrev pub priority_labels : List String
priority_labels = "P1" ∷ "P2" ∷ "P3" ∷ []

unfoldable pub priority_label : Casing → Option Json → String
priority_label c (some (str s)) = if contains (c.upper s) priority_labels then c.upper s else "P2"
priority_label c (some (int (pos n))) = if n == 1 then "P1" else if n == 3 then "P3" else "P2"
priority_label c _ = "P2"

-- `PRIORITY_LABELS.index(label)`, of a label that is there.
abbrev index_of : String → List String → ℕ
index_of s [] = 0
index_of s (x ∷ xs) = let rest = index_of s xs in if x == s then 0 else suc rest

-- `_priority`
unfoldable pub priority_of : Casing → Option Json → ℕ
unfolding priority_label
priority_of c v = suc (index_of (priority_label c v) priority_labels)
