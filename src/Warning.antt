-- ===== src/Warning.antt =====
-- Evidence on the warnings of a queue's validation: src/development_conveyor/warning_evidence.py.
use development_conveyor.Base.{
  are_unique, ℕ, String, Bool, true, false, not, ◌&&◌, ◌||◌, Option, none, some, List, [], ◌∷◌,
  ◌++◌, ◌==◌, nat_eq, string_eq, option_eq, if◌then◌else◌, Result, ok, err, ◌>>=◌, ◌>>◌, guard,
  require, all, contains, is_some, length, is_blank, is_nil, same_texts,
}
use development_conveyor.Json.{
  Json, null, int, pos, str, arr, obj, Items, nil, cons, Fields, get_field,
}
use development_conveyor.Profiles.Delegation.{sorted_texts}
use development_conveyor.Profiles.Policy.{fields_of, present}
pub mod Evidence
pub mod Agreement
mod Witnesses

pub data WarningEvidenceError : Type 0 where
  not_object invalid_source warnings_not_texts missing_warnings : WarningEvidenceError
  missing_count invalid_count disagreeing_count empty_scope : WarningEvidenceError
  missing_blocking blocking_not_texts duplicate_blocking unlisted_blocking : WarningEvidenceError

pub record WarningEvidence : Type 0 where
  pub warning_count : Option ℕ
  pub warnings_scope : Option String
  pub blocking_warnings : List String
  pub explicit_warnings : Option (List String)
  pub legacy_summary : Bool

abbrev add_text : String → Option (List String) → Option (List String)
add_text s none = none
add_text s (some rest) = if s == "" then none else some (s ∷ rest)

-- `_string_array`, of a list.
abbrev pub texts_in : Items → Option (List String)
texts_in nil = some []
texts_in (cons (str s) rest) = add_text s (texts_in rest)
texts_in (cons _ rest) = none

abbrev string_array : Json → Option (List String)
string_array (arr items) = texts_in items
string_array _ = none

-- The value of "warnings": a list, or the summary that the caller authorizes, or nothing.
pub data Warnings : Type 0 where
  explicit : List String → Warnings
  summarized : String → Warnings
  absent : Warnings

abbrev pub is_summary : String → String → Option String → Bool
is_summary source text none = false
is_summary source text (some summary) = source == "structured" && text == summary

unfoldable pub read_warnings :
    String → Option String → Option Json → Result WarningEvidenceError Warnings
read_warnings source legacy none =
    if source == "deterministic" then err missing_warnings else ok absent
read_warnings source legacy (some (arr items)) =
    require (texts_in items) warnings_not_texts >>= λ texts. ok (explicit texts)
read_warnings source legacy (some (str text)) =
    if is_summary source text legacy then ok (summarized text) else err warnings_not_texts
read_warnings source legacy (some v) = err warnings_not_texts

abbrev pub explicit_of : Warnings → Option (List String)
explicit_of (explicit texts) = some texts
explicit_of _ = none

abbrev pub summary_of : Warnings → Option String
summary_of (summarized text) = some text
summary_of _ = none

abbrev pub count_of : Option (List String) → Option ℕ
count_of none = none
count_of (some texts) = some (length texts)

unfoldable pub read_count : String → Warnings → Option Json → Result WarningEvidenceError (Option ℕ)
read_count source warnings none =
    if source == "structured" && not (is_some (summary_of warnings))
    then err missing_count
    else ok (count_of (explicit_of warnings))
read_count source warnings (some (int (pos n))) = ok (some n)
read_count source warnings (some v) = err invalid_count

abbrev pub counts_agree : Option (List String) → Option ℕ → Bool
counts_agree (some texts) (some n) = n == length texts
counts_agree _ _ = true

abbrev pub read_scope : Option Json → Result WarningEvidenceError (Option String)
read_scope none = ok none
read_scope (some (str s)) = if is_blank s then err empty_scope else ok (some s)
read_scope (some v) = err empty_scope

abbrev or_scope : Option String → Option String → Option String
or_scope none scope = scope
or_scope (some summary) scope = some summary

-- `value.get("blocking_warnings", [])`, which deterministic evidence must have.
unfoldable pub read_blocking : String → Option Json → Result WarningEvidenceError (List String)
read_blocking source none = if source == "deterministic" then err missing_blocking else ok []
read_blocking source (some v) = require (string_array v) blocking_not_texts

abbrev pub are_listed : List String → Option (List String) → Bool
are_listed blocking none = true
are_listed blocking (some texts) = all (λ s. contains s texts) blocking

unfoldable pub normalize_warning_evidence :
    String → Option String → Json → Result WarningEvidenceError WarningEvidence
unfolding read_warnings read_count read_blocking sorted_texts
normalize_warning_evidence source legacy evidence = do
  value ← require (fields_of evidence) not_object
  guard (contains source ("structured" ∷ "deterministic" ∷ [])) invalid_source
  warnings ← read_warnings source legacy (get_field "warnings" value)
  count ← read_count source warnings (present (get_field "warning_count" value))
  guard (counts_agree (explicit_of warnings) count) disagreeing_count
  scope ← read_scope (present (get_field "warnings_scope" value))
  blocking ← read_blocking source (get_field "blocking_warnings" value)
  guard (are_unique blocking) duplicate_blocking
  guard (are_listed (sorted_texts blocking) (explicit_of warnings)) unlisted_blocking
  ok (record {
    warning_count = count;
    warnings_scope = or_scope (summary_of warnings) scope;
    blocking_warnings = sorted_texts blocking;
    explicit_warnings = explicit_of warnings;
    legacy_summary = is_some (summary_of warnings);
  })

pub record Comparison : Type 0 where
  pub structured : WarningEvidence
  pub deterministic : WarningEvidence
  pub disagreements : List String

abbrev pub same_explicit : Option (List String) → Option (List String) → Bool
same_explicit none d = true
same_explicit (some s) none = false
same_explicit (some s) (some d) = same_texts s d

abbrev pub note : Bool → String → List String
note true name = name ∷ []
note false name = []

unfoldable pub disagreements_of : WarningEvidence → WarningEvidence → List String
disagreements_of s d =
    note (not s.legacy_summary && not (s.warning_count == d.warning_count)) "warning_count"
    ++ note (not (same_texts s.blocking_warnings d.blocking_warnings)) "blocking_warnings"
    ++ note (not (same_explicit s.explicit_warnings d.explicit_warnings)) "explicit_warnings"

unfoldable pub compare_warning_evidence :
    Option String → Json → Json → Result WarningEvidenceError Comparison
unfolding normalize_warning_evidence disagreements_of
compare_warning_evidence legacy structured deterministic = do
  s ← normalize_warning_evidence "structured" legacy structured
  d ← normalize_warning_evidence "deterministic" none deterministic
  ok (record { structured = s; deterministic = d; disagreements = disagreements_of s d })
