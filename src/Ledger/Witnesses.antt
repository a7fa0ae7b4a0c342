-- ===== src/Ledger/Witnesses.antt =====
-- A small ledger of one transaction, and the ledger's theorems at it.
use development_conveyor.Base.{
  false, ◌⊎◌, ℕ, String, ◌≡◌, ◌≢◌, refl, ◌⊎◌, true, Option, none, some, List, [], ◌∷◌, ◌==◌,
  string_eq, nat_eq, ok, err, if◌then◌else◌,
}
use development_conveyor.Json.{Json, obj, end, int, pos, member}
use development_conveyor.Ledger.Event.{
  write_failed, short_append, LedgerError, Event, event_body, meets_contract, is_fingerprint,
}
use development_conveyor.Ledger.Check.{
  Identity, Environment, check_shape, check_identity, workflow_agrees, start_binding, note_start,
  note_terminal, note_gate, check_chain, check_event, check_events, genesis_fingerprint,
}
use development_conveyor.Ledger.History.{Integrity, validate, check_history, check_histories}
use development_conveyor.Ledger.Store.{
  Files, Ledger, head_of, verify_head, verify, read, read_for_append,
}
use development_conveyor.Ledger.Append.{
  written, unsynced, Request, append, event_history, write_line, write_head, validate_append,
  new_event,
}
use development_conveyor.Ledger.Chain.{validate_binds_history, Collision}
use development_conveyor.Ledger.Sound.{IsSound, validate-IsSound}
use development_conveyor.Ledger.Lifecycle.{IsLifecycle, validate-IsLifecycle}
use development_conveyor.Ledger.Durable.{crash_repaired, first_crash_stuck}
use development_conveyor.Ledger.Rollback.{truncation_detected}
use development_conveyor.Ledger.Coherent.{IsCoherent, Kept}
use development_conveyor.Ledger.Outcome.{append_failure, append_success}

-- A digest that tells records apart by their number.
abbrev numbered_digest : Option Json → String
numbered_digest (some (int (pos n))) =
    if n == 1
    then "1000000000000000000000000000000000000000000000000000000000000000"
    else if n == 2
    then "2000000000000000000000000000000000000000000000000000000000000000"
    else "3000000000000000000000000000000000000000000000000000000000000000"
numbered_digest _ = genesis_fingerprint

abbrev toy : Environment
toy = record {
  digest = λ v. numbered_digest (member "sequence" v);
  redact_value = λ v. v;
  str_of = λ v. "None";
}

abbrev demo : Identity
demo = record {
  project_id = "demo";
  repository_identity = genesis_fingerprint;
  repository_path_fingerprint = genesis_fingerprint;
}

abbrev at : ℕ → String → String → Event
at n kind previous =
    let unsigned : Event = record {
      schema_version = pos 1;
      sequence = pos n;
      event_id = kind;
      event_type = kind;
      timestamp = "2026-01-01T00:00:00Z";
      project_id = "demo";
      repository_identity = genesis_fingerprint;
      repository_path_fingerprint = genesis_fingerprint;
      transaction_id = "t1";
      workflow_type = "feature_execution";
      previous_fingerprint = previous;
      fingerprint = numbered_digest (some (int (pos n)));
      payload = obj end;
    } in
    unsigned

abbrev fp : ℕ → String
fp n = numbered_digest (some (int (pos n)))

abbrev lines : List Event
lines =
    at 1 "TransactionStarted" genesis_fingerprint
    ∷ at 2 "LeaseAcquired" (fp 1)
    ∷ at 3 "SnapshotCaptured" (fp 2)
    ∷ at 4 "ValidationStarted" (fp 3)
    ∷ at 5 "ValidationPassed" (fp 4)
    ∷ at 6 "CommitFinalized" (fp 5)
    ∷ at 7 "TransactionCompleted" (fp 6)
    ∷ []

abbrev integrity : Integrity
integrity = record { sequence = 7; fingerprint = fp 7; event_count = 7; transactions = 1 }

lines_valid : validate toy demo lines ≡ ok integrity
unfolding validate check_events check_event check_shape check_identity workflow_agrees start_binding
    note_start note_terminal note_gate check_chain check_histories check_history meets_contract
    is_fingerprint event_body
lines_valid = refl

validate_binds_history_example : (lines ≡ lines) ⊎ Collision toy.digest
validate_binds_history_example =
    validate_binds_history toy demo lines lines lines_valid lines_valid refl refl

validate-IsSound_example : IsSound demo lines
validate-IsSound_example = validate-IsSound toy demo lines lines_valid

occurs : event_history "t1" lines ≢ []
occurs e = cc e

validate-IsLifecycle_example : IsLifecycle lines "t1" (event_history "t1" lines)
validate-IsLifecycle_example = validate-IsLifecycle toy demo lines "t1" lines_valid occurs

abbrev first : Event
first = at 1 "TransactionStarted" genesis_fingerprint

abbrev second : Event
second = at 2 "LeaseAcquired" (fp 1)

abbrev one_line : Files
one_line = record {
  lines = first ∷ [];
  torn = false;
  head = some (head_of first);
  signature = some 7;
}

crash_repaired_example :
    let g = write_line 8 second one_line in
    verify_head true g.lines g.head ≡ ok (write_head second g).head
crash_repaired_example =
    crash_repaired 8 second one_line (first, refl, refl) (first, 1, refl, refl, refl, refl)

first_crash_stuck_example :
    let t : Ledger = record {
      files =
          write_line 8 first (record { lines = []; torn = false; head = none; signature = none });
      cache = none;
    } in
    (x : LedgerError) × (verify toy demo t ≡ (err x, t)) × (read toy demo t ≡ (err x, t))
first_crash_stuck_example = first_crash_stuck toy demo 8 first none none

truncation_detected_example :
    (e : LedgerError) × (verify_head true
        (at 1 "TransactionStarted" genesis_fingerprint ∷ at 2 "LeaseAcquired" (fp 1) ∷ [])
        (some (head_of (at 7 "TransactionCompleted" (fp 6))))
      ≡ err e)
truncation_detected_example =
    truncation_detected toy demo
      (at 1 "TransactionStarted" genesis_fingerprint ∷ at 2 "LeaseAcquired" (fp 1) ∷ [])
      (at 3 "SnapshotCaptured" (fp 2))
      (at 4 "ValidationStarted" (fp 3)
        ∷ at 5 "ValidationPassed" (fp 4)
        ∷ at 6 "CommitFinalized" (fp 5)
        ∷ at 7 "TransactionCompleted" (fp 6)
        ∷ [])
      (at 7 "TransactionCompleted" (fp 6)) lines_valid refl

abbrev start_request : Request
start_request = record {
  event_type = "TransactionStarted";
  transaction_id = "t1";
  workflow_type = "feature_execution";
  payload = obj end;
  event_id = "TransactionStarted";
  timestamp = "2026-01-01T00:00:00Z";
}

abbrev empty_ledger : Ledger
empty_ledger = record {
  files = record { lines = []; torn = false; head = none; signature = none };
  cache = none;
}

empty-IsCoherent : IsCoherent empty_ledger
empty-IsCoherent = record { describes = λ c h _. cc h }

abbrev after_start : Ledger
after_start = record {
  files = record {
    lines = first ∷ [];
    torn = false;
    head = some (head_of first);
    signature = some 8;
  };
  cache = some (record {
    signature = some 8;
    events = first ∷ [];
    integrity = record { sequence = 1; fingerprint = fp 1; event_count = 1; transactions = 1 };
  });
}

start_appends : append toy demo written 8 start_request empty_ledger ≡ (ok first, after_start)
unfolding append read_for_append validate check_events check_histories verify_head new_event
    validate_append event_body
start_appends = refl

append_success_example :
    (after_start.files.lines ≡ first ∷ [])
    × (after_start.files.head ≡ some (head_of first))
    × (first.sequence ≡ pos 1)
    × (first.previous_fingerprint ≡ genesis_fingerprint)
    × (first.fingerprint ≡ toy.digest (event_body first))
    × IsCoherent after_start
append_success_example =
    append_success toy demo written 8 start_request empty_ledger empty-IsCoherent start_appends

-- The first append again, with a failure between the record and its anchor.
abbrev stranded : Ledger
stranded = record {
  files = record { lines = first ∷ []; torn = false; head = none; signature = some 8 };
  cache = (read_for_append toy demo empty_ledger).1.cache;
}

start_fails : append toy demo unsynced 8 start_request empty_ledger ≡ (err write_failed, stranded)
unfolding append read_for_append validate check_events check_histories verify_head new_event
    validate_append event_body
start_fails = refl

append_failure_example :
    Kept empty_ledger.files stranded.files
    ⊎ (((write_failed ≡ short_append) × (stranded.files.lines ≡ []) × (stranded.files.torn ≡ true))
        ⊎ ((write_failed ≡ write_failed)
            × (stranded.files.torn ≡ false)
            × ((e : Event) × ((append toy demo written 8 start_request empty_ledger).0 ≡ ok e)
                × (stranded.files.lines ≡ e ∷ [])
                × ((stranded.files.head ≡ some (head_of e))
                    ⊎ (stranded.files.head
                        ≡ (read_for_append toy demo empty_ledger).1.files.head)))))
append_failure_example =
    append_failure toy demo unsynced 8 start_request empty_ledger empty-IsCoherent start_fails
