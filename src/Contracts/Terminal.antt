-- ===== src/Contracts/Terminal.antt =====
-- `extract_terminal_envelope` of src/development_conveyor/contracts.py: the result of a session in the
-- stream of its events.
use Prim.Native.Char.{code}
use development_conveyor.Base.{
  ℕ, String, Option, none, some, List, [], ◌∷◌, Bool, not, ◌&&◌, ◌||◌, ◌==◌, nat_eq, string_eq, leb,
  if◌then◌else◌, all, select, map, last?, length, codes, is_blank, drop_text, starts_with,
  onto_first, Result, ok, err, guard, require, ◌>>=◌, ◌>>◌,
}
use development_conveyor.Json.{Json, str, obj, Fields, get_field, is_text}
use development_conveyor.Contracts.Envelope.{
  SessionResultEnvelope, SchemaValidationError, from_dict, is_filled, object_at, text_at,
}
use development_conveyor.Contracts.Legacy.{Corroboration, LegacyError, normalize_envelope}

-- The line boundaries of Python's `str.splitlines`.
abbrev is_boundary : ℕ → Bool
is_boundary c =
    (leb 10 c && leb c 13) || (leb 28 c && leb c 30) || c == 0x85 || c == 0x2028 || c == 0x2029

-- `text.splitlines()`; a carriage return and a line feed are one boundary.
unfoldable pub split_lines : String → List String
split_lines String.[] = []
split_lines (String.◌∷◌ c s) =
    let rest = split_lines s in
    if code c == 13 && starts_with "\n" s
    then rest
    else if is_boundary (code c)
    then "" ∷ rest
    else onto_first c rest

abbrev pub terminal_envelope_marker : String
terminal_envelope_marker = "CONVEYOR_TRANSACTION_RESULT="

pub data TerminalError : Type 0 where
  no_assistant_result marker_count marker_not_last invalid_json not_an_object : TerminalError
  incomplete_corroboration : TerminalError
  legacy : LegacyError → TerminalError
  schema : SchemaValidationError → TerminalError

abbrev message_in : Option Json → Option String
message_in (some (obj item)) =
    if is_text (get_field "type" item) "agent_message"
    then elim (get_field "text" item) [ some (str s) ↦ some s | _ ↦ none ]
    else none
message_in _ = none

-- The text of an event that ends a message of the assistant.
unfoldable pub message_of : Option Json → Option String
message_of (some (obj event)) =
    if is_text (get_field "type" event) "item.completed"
    then message_in (get_field "item" event)
    else none
message_of _ = none

abbrev add_message : Option String → List String → List String
add_message none rest = rest
add_message (some s) rest = s ∷ rest

unfoldable pub markers : List String → List String
markers lines =
    map (drop_text (length (codes terminal_envelope_marker)))
      (select (starts_with terminal_envelope_marker) lines)

abbrev only_one : List String → Option String
only_one (s ∷ []) = some s
only_one _ = none

abbrev or_blank : Option String → String
or_blank none = ""
or_blank (some s) = s

unfoldable pub final_nonblank : List String → String
final_nonblank lines = or_blank (last? (select (λ line. not (is_blank line)) lines))

abbrev pub corroborated_keys : List String
corroborated_keys =
    "workflow_type" ∷ "project_id" ∷ "repository_identity" ∷ "transaction_id" ∷ "run_id"
    ∷ "session_id" ∷ "starting_branch" ∷ "starting_commit" ∷ []

abbrev pub corroboration_of : Fields → Corroboration
corroboration_of d = record {
  workflow_type = text_at (get_field "workflow_type" d);
  project_id = text_at (get_field "project_id" d);
  repository_identity = text_at (get_field "repository_identity" d);
  transaction_id = text_at (get_field "transaction_id" d);
  run_id = text_at (get_field "run_id" d);
  session_id = text_at (get_field "session_id" d);
  starting_branch = text_at (get_field "starting_branch" d);
  starting_commit = text_at (get_field "starting_commit" d);
}

abbrev pub tell_legacy : Result LegacyError Fields → Result TerminalError Fields
tell_legacy (ok d) = ok d
tell_legacy (err e) = err (legacy e)

abbrev pub tell_schema :
    Result SchemaValidationError SessionResultEnvelope → Result TerminalError SessionResultEnvelope
tell_schema (ok e) = ok e
tell_schema (err e) = err (schema e)

unfoldable pub corroborate : Option Fields → Fields → Result TerminalError Fields
unfolding normalize_envelope
corroborate none value = ok value
corroborate (some d) value = do
  guard (all (λ k. is_filled (get_field k d)) corroborated_keys) incomplete_corroboration
  tell_legacy (normalize_envelope (corroboration_of d) value)

-- `loads` is `json.loads`; `none` is the `JSONDecodeError`.
module _ (loads : String → Option Json) where
  unfoldable pub assistant_messages : List String → List String
  unfolding message_of
  assistant_messages [] = []
  assistant_messages (line ∷ rest) = add_message (message_of (loads line)) (assistant_messages rest)

  -- The object behind the one marker of the last message, which is its last line that is not blank.
  unfoldable pub terminal_object : String → Result TerminalError Fields
  unfolding assistant_messages split_lines markers final_nonblank
  terminal_object output = do
    message ← require (last? (assistant_messages (split_lines output))) no_assistant_result
    let lines = split_lines message
    marked ← require (only_one (markers lines)) marker_count
    guard (starts_with terminal_envelope_marker (final_nonblank lines)) marker_not_last
    value ← require (loads marked) invalid_json
    require (object_at (some value)) not_an_object

  unfoldable pub extract_terminal_envelope :
      String → Option Fields → Result TerminalError SessionResultEnvelope
  unfolding terminal_object corroborate from_dict
  extract_terminal_envelope output corroborated = do
    value ← terminal_object output
    normalized ← corroborate corroborated value
    tell_schema (from_dict normalized)
