-- ===== src/Projection/Witnesses.antt =====
-- A small ledger with one transaction that has not ended, and the projection's theorems at it.
use development_conveyor.Base.{
  false, ℕ, String, ◌≡◌, refl, ◌⊎◌, true, not, none, some, List, [], ◌∷◌, Result, ok, err, lookup,
  string_eq,
}
use development_conveyor.Json.{str, obj, end, Fields, pos}
use development_conveyor.Ledger.Event.{Event, event_body, meets_contract, is_fingerprint}
use development_conveyor.Ledger.Check.{
  Identity, Environment, check_shape, check_identity, workflow_agrees, start_binding, note_start,
  note_terminal, note_gate, check_chain, check_event, check_events, genesis_fingerprint,
}
use development_conveyor.Ledger.History.{Integrity, validate, check_history, check_histories}
use development_conveyor.Ledger.Store.{head_of, verify, settle, read, verify_head}
use development_conveyor.Ledger.Append.{event_history, has_terminal}
use development_conveyor.Projection.View.{View, new_view}
use development_conveyor.Projection.Facts.{no_facts, project_events}
use development_conveyor.Projection.Rebuild.{ProjectionError, is_incomplete, observe}
use development_conveyor.Projection.Engine.{Engine, absent, project, rebuild, current, load_cache}
use development_conveyor.Projection.Endings.{is_incomplete-ended}
use development_conveyor.Projection.Active.{project-unended}
use development_conveyor.Projection.Served.{IsCached, IsRebuilt, current_outcome}
use development_conveyor.Projection.Sealing.{KeepsKeys}
use development_conveyor.Projection.Persisted.{rebuild-load_cache}

abbrev toy : Environment
toy = record { digest = λ v. genesis_fingerprint; redact_value = λ v. v; str_of = λ v. "None" }

abbrev here : Identity
here = record {
  project_id = "demo";
  repository_identity = genesis_fingerprint;
  repository_path_fingerprint = genesis_fingerprint;
}

abbrev at : ℕ → String → Event
at n kind = record {
  schema_version = pos 1;
  sequence = pos n;
  event_id = kind;
  event_type = kind;
  timestamp = "2026-01-01T00:00:00Z";
  project_id = "demo";
  repository_identity = genesis_fingerprint;
  repository_path_fingerprint = genesis_fingerprint;
  transaction_id = "t1";
  workflow_type = "feature_execution";
  previous_fingerprint = genesis_fingerprint;
  fingerprint = genesis_fingerprint;
  payload = obj end;
}

abbrev lines : List Event
lines = at 1 "TransactionStarted" ∷ at 2 "LeaseAcquired" ∷ []

abbrev integrity : Integrity
integrity = record {
  sequence = 2;
  fingerprint = genesis_fingerprint;
  event_count = 2;
  transactions = 1;
}

lines_valid : validate toy here lines ≡ ok integrity
unfolding validate check_events check_event check_shape check_identity workflow_agrees start_binding
    note_start note_terminal note_gate check_chain check_histories check_history meets_contract
    is_fingerprint event_body
lines_valid = refl

-- Two transactions in turns.
abbrev turns : List Event
turns =
    at 1 "TransactionStarted"
    ∷ record (at 2 "TransactionStarted") { transaction_id = "t2" }
    ∷ at 3 "LeaseAcquired"
    ∷ []

abbrev entry : View
entry = record (new_view (at 1 "TransactionStarted")) {
  state = str "active";
  last_sequence = pos 2;
}

entry_found : lookup "t1" (project_events no_facts lines).transactions ≡ some entry
unfolding project_events
entry_found = refl

is_incomplete-ended_example : is_incomplete entry ≡ not (has_terminal (event_history "t1" lines))
is_incomplete-ended_example = is_incomplete-ended toy here lines lines_valid refl "t1" entry_found

abbrev fields_of : Result ProjectionError Fields → Fields
fields_of (ok d) = d
fields_of (err e) = end

abbrev made : Fields
made = fields_of (project toy here lines integrity none)

projects : project toy here lines integrity none ≡ ok made
unfolding project observe
projects = refl

abbrev t1 : String
t1 = "t1"

project-unended_example : t1 ≡ t1
project-unended_example =
    project-unended toy here lines none lines_valid refl projects t1 t1 refl refl refl refl

abbrev engine : Engine
engine = record {
  ledger = record {
    files = record {
      lines = lines;
      torn = false;
      head = some (head_of (at 2 "LeaseAcquired"));
      signature = none;
    };
    cache = none;
  };
  cache = some absent;
}

abbrev served : Result ProjectionError Fields × Engine
served = current toy here engine

serves : current toy here engine ≡ (ok (fields_of served.0), served.1)
unfolding current verify settle verify_head read rebuild validate check_events check_event
    check_shape meets_contract is_fingerprint check_identity workflow_agrees note_start
    start_binding note_terminal note_gate check_chain check_histories check_history observe
serves = refl

current_outcome_example :
    IsCached toy here engine (fields_of served.0)
    ⊎ IsRebuilt toy here engine (fields_of served.0) served.1
current_outcome_example = current_outcome toy here engine serves

abbrev rebuilt : Result ProjectionError Fields × Engine
rebuilt = rebuild toy here true none engine

rebuilds : rebuild toy here true none engine ≡ (ok (fields_of rebuilt.0), rebuilt.1)
unfolding verify settle verify_head read rebuild validate check_events check_event check_shape
    meets_contract is_fingerprint check_identity workflow_agrees note_start start_binding
    note_terminal note_gate check_chain check_histories check_history observe
rebuilds = refl

keeps : KeepsKeys toy here lines
unfolding KeepsKeys project_events
keeps = (refl, refl, refl)

rebuild-load_cache_example :
    load_cache toy here rebuilt.1 ≡ (ok (some (fields_of rebuilt.0)), rebuilt.1)
rebuild-load_cache_example = rebuild-load_cache toy here engine refl rebuilds refl keeps
