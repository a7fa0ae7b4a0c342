-- ===== src/Ledger/Append.antt =====
-- `_validate_append` and `append` of ledger.py.
use development_conveyor.Base.{
  ℕ, ◌+◌, String, Bool, true, false, not, ◌||◌, Option, none, some, List, [], ◌∷◌, ◌++◌, ◌==◌,
  nat_eq, string_eq, length, contains, all, any, map, select, lookup, Result, ok, err, guard, ◌>>◌,
  if◌then◌else◌,
}
use development_conveyor.Json.{Json, obj, end, falsy, pos, truthy, is_object}
use development_conveyor.Contracts.{is_workflow_type}
use development_conveyor.Ledger.Event.{
  LedgerError, Event, event_body, event_types, post_terminal_event_types, duplicate_event_id,
  duplicate_start, precedes_start, lease_without_recovery, conflicting_terminals, terminal_mutated,
  invalid_checkpoint, missing_predecessor, skipped_lifecycle, unsupported_event_type,
  invalid_workflow, payload_invalid, short_append, write_failed,
}
use development_conveyor.Ledger.Check.{
  Identity, Environment, is_terminal, checkpoint_allowed, payload_get,
}
use development_conveyor.Ledger.History.{Integrity, lifecycle_events}
use development_conveyor.Ledger.Store.{Files, Cache, Ledger, Action, read_for_append, head_of}

abbrev pub same_transaction : String → Event → Bool
same_transaction t e = e.transaction_id == t

-- `[item["event_type"] for item in existing if item["transaction_id"] == transaction_id]`
abbrev pub event_history : String → List Event → List String
event_history t es = map (λ e. e.event_type) (select (same_transaction t) es)

abbrev pub has_terminal : List String → Bool
has_terminal history = any is_terminal history

-- `required_predecessors`; a projection's is the terminal event that is there, if one is.
abbrev pub required_predecessors : List (String × String)
required_predecessors =
    ("SnapshotCaptured", "LeaseAcquired")
    ∷ ("ValidationStarted", "SnapshotCaptured")
    ∷ ("SessionResultAccepted", "SessionLaunched")
    ∷ ("DeterministicExecutionStarted", "SnapshotCaptured")
    ∷ ("DeterministicResultAccepted", "DeterministicExecutionStarted")
    ∷ ("ValidationPassed", "ValidationStarted")
    ∷ ("CommitFinalized", "ValidationPassed")
    ∷ []

abbrev has_predecessor : String → List String → Bool
has_predecessor t history = elim (lookup t required_predecessors) [
  | none ↦ true
  | some p ↦ contains p history
]

abbrev pub history_empty : List String → Bool
history_empty [] = true
history_empty (x ∷ xs) = false

-- The checks on an event of a transaction that has begun.
continue_checks : List String → Event → Result LedgerError Unit
continue_checks history e = do
  guard (not (history_empty history)) precedes_start
  guard
      (not (e.event_type == "LeaseAcquired")
        || not (contains "LeaseAcquired" history)
        || contains "RecoveryApplied" history)
      lease_without_recovery
  guard (not (is_terminal e.event_type) || not (has_terminal history)) conflicting_terminals
  guard (not (has_terminal history) || contains e.event_type post_terminal_event_types)
      terminal_mutated
  guard (not (has_terminal history) || checkpoint_allowed e) invalid_checkpoint
  guard (has_predecessor e.event_type history) missing_predecessor
  guard
      (not (e.event_type == "TransactionCompleted")
        || all (λ name. contains name history) lifecycle_events
        || truthy (payload_get "legacy_import" e))
      skipped_lifecycle

-- `_validate_append`
unfoldable pub validate_append : List Event → Event → Result LedgerError Unit
unfolding continue_checks
validate_append existing e = do
  guard (not (contains e.event_id (map (λ x. x.event_id) existing))) duplicate_event_id
  let history = event_history e.transaction_id existing
  if e.event_type == "TransactionStarted"
      then guard (history_empty history) duplicate_start
      else continue_checks history e

-- The arguments of `append`, the generated event identifier and time stamp among them.
pub record Request : Type 0 where
  pub event_type : String
  pub transaction_id : String
  pub workflow_type : String
  pub payload : Json
  pub event_id : String
  pub timestamp : String

-- `os.write` of the line: the file has a new signature.
unfoldable pub write_line : ℕ → Event → Files → Files
write_line stamp e f = record f { lines = f.lines ++ e ∷ []; signature = some stamp }

-- `os.write` came up short, with or without bytes of the record left behind.
unfoldable pub tear : ℕ → Bool → Files → Files
tear stamp partial f = record f { torn = f.torn || partial; signature = some stamp }

-- `atomic_write_json(self.head_path, ...)`
unfoldable pub write_head : Event → Files → Files
write_head e f = record f { head = some (head_of e) }

-- The integrity that `append` caches without another validation.
unfoldable pub next_integrity : Integrity → Event → List Event → Integrity
next_integrity i e candidate = record {
  sequence = i.sequence + 1;
  fingerprint = e.fingerprint;
  event_count = length candidate;
  transactions =
      if e.event_type == "TransactionStarted" then i.transactions + 1 else i.transactions;
}

-- Both writes, and the cache that follows them.
unfoldable pub commit : ℕ → Cache → Event → Ledger → Ledger
unfolding write_line write_head next_integrity
commit stamp c e s =
    let candidate = c.events ++ e ∷ [] in
    let files = write_head e (write_line stamp e s.files) in
    record {
      files = files;
      cache = some (record {
        signature = files.signature;
        events = candidate;
        integrity = next_integrity c.integrity e candidate;
      });
    }

-- How far the writes of an append get: no byte is written, and the file has the given signature; a part of the
-- line, or none of it; the line, which is not synchronized; the line, and a failure at the anchor, before or
-- after the anchor is replaced; or both writes.
pub data WriteFate : Type 0 where
  unwritten : Option ℕ → WriteFate
  short_write : Bool → WriteFate
  unsynced written : WriteFate
  unanchored : Bool → WriteFate

abbrev with_files : Files → Ledger → Ledger
with_files f s = record s { files = f }

-- The writes of a validated event. One that raises leaves the cache alone.
unfoldable pub conclude : WriteFate → ℕ → Cache → Event → Action Event
unfolding commit tear write_line write_head
conclude (unwritten signature) stamp c e s =
    (err write_failed, with_files (record s.files { signature = signature }) s)
conclude (short_write partial) stamp c e s =
    (err short_append, with_files (tear stamp partial s.files) s)
conclude unsynced stamp c e s = (err write_failed, with_files (write_line stamp e s.files) s)
conclude (unanchored false) stamp c e s =
    (err write_failed, with_files (write_line stamp e s.files) s)
conclude (unanchored true) stamp c e s =
    (err write_failed, with_files (write_head e (write_line stamp e s.files)) s)
conclude written stamp c e s = (ok e, commit stamp c e s)

module _ (env : Environment) (l : Identity) where
  -- `redact_value(payload or {})`
  unfoldable pub redacted : Request → Json
  redacted q = env.redact_value (if falsy q.payload then obj end else q.payload)

  unsigned_event : Integrity → Request → Event
  unsigned_event i q = record {
    schema_version = pos 1;
    sequence = pos (i.sequence + 1);
    event_id = q.event_id;
    event_type = q.event_type;
    timestamp = q.timestamp;
    project_id = l.project_id;
    repository_identity = l.repository_identity;
    repository_path_fingerprint = l.repository_path_fingerprint;
    transaction_id = q.transaction_id;
    workflow_type = q.workflow_type;
    previous_fingerprint = i.fingerprint;
    fingerprint = "";
    payload = redacted q;
  }

  -- The event that a request becomes, behind a ledger of the given integrity.
  unfoldable pub new_event : Integrity → Request → Event
  unfolding unsigned_event redacted
  new_event i q = let e = unsigned_event i q in record e { fingerprint = env.digest (event_body e) }

  unfoldable pub checked_event : Cache → Request → Result LedgerError Event
  unfolding validate_append new_event
  checked_event c q = do
    guard (is_object (redacted q)) payload_invalid
    let e = new_event c.integrity q
    validate_append c.events e
    ok e

  unfoldable pub finish :
      WriteFate → ℕ → Cache → Ledger → Result LedgerError Event → Result LedgerError Event × Ledger
  unfolding conclude
  finish fate stamp c s (err x) = (err x, s)
  finish fate stamp c s (ok e) = conclude fate stamp c e s

  unfoldable pub append_to :
      WriteFate
      → ℕ
      → Request
      → Result LedgerError Cache × Ledger
      → Result LedgerError Event × Ledger
  unfolding finish checked_event
  append_to fate stamp q (err x, s) = (err x, s)
  append_to fate stamp q (ok c, s) = finish fate stamp c s (checked_event c q)

  -- `append`; `stamp` is the signature of the file after a write.
  unfoldable pub append : WriteFate → ℕ → Request → Action Event
  unfolding append_to
  append fate stamp q s =
      if not (contains q.event_type event_types)
      then (err unsupported_event_type, s)
      else if not (is_workflow_type q.workflow_type)
      then (err invalid_workflow, s)
      else append_to fate stamp q (read_for_append env l s)
