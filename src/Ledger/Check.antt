-- ===== src/Ledger/Check.antt =====
-- The loop of `_validate` in ledger.py: the checks on one event against what was seen before it.
use development_conveyor.Base.{
  is_some, ℕ, ◌+◌, String, Bool, true, false, not, ◌&&◌, ◌||◌, Option, none, some, List, [], ◌∷◌,
  ◌++◌, ◌==◌, nat_eq, string_eq, all, contains, Result, ok, err, guard, ◌>>=◌, ◌>>◌, length, lookup,
  insert, if◌then◌else◌,
}
use development_conveyor.Json.{
  Json, null, str, obj, Fields, pos, int_eq, get_field, member, is_text, text_of, truthy, is_object,
}
use development_conveyor.Contracts.{is_workflow_type, GateError, validate_human_gate}
use development_conveyor.Ledger.Event.{
  LedgerError, Event, event_body, event_types, terminal_event_types, post_terminal_event_types,
  meets_contract, is_fingerprint, long_identity, invalid_strings, payload_not_object,
  invalid_payload_field, short_identity, invalid_fingerprint, sequence_mismatch, duplicate_event_id,
  unsupported_event_type, project_mismatch, repository_mismatch, path_mismatch, invalid_workflow,
  workflow_changed, duplicate_start, invalid_resolution_binding, precedes_start,
  conflicting_terminals, invalid_gate, duplicate_gate, gate_mismatch, unbound_resolution,
  terminal_mutated, invalid_checkpoint, broken_chain, fingerprint_mismatch, decode_event,
}

-- The project that an `EvidenceLedger` object stands for.
pub record Identity : Type 0 where
  pub project_id : String
  pub repository_identity : String
  pub repository_path_fingerprint : String

-- What the model takes as given: SHA-256 over canonical JSON, the redaction of a payload, and `str()`
-- of a JSON value that is no text.
pub record Environment : Type 0 where
  pub digest : Json → String
  pub redact_value : Json → Json
  pub str_of : Option Json → String

-- The local variables of the loop; `events` are those already checked.
pub record Seen : Type 0 where
  pub previous : String
  pub event_ids : List String
  pub terminals : List (String × String)
  pub started : List String
  pub workflows : List (String × String)
  pub histories : List (String × List String)
  pub raised_gate_ids : List (String × (String × String))
  pub resolution_bindings : List (String × (String × String))
  pub resolved_gate_ids : List String
  pub events : List Event

abbrev pub genesis_fingerprint : String
genesis_fingerprint = "0000000000000000000000000000000000000000000000000000000000000000"

abbrev pub nothing_seen : Seen
nothing_seen = record {
  previous = genesis_fingerprint;
  event_ids = [];
  terminals = [];
  started = [];
  workflows = [];
  histories = [];
  raised_gate_ids = [];
  resolution_bindings = [];
  resolved_gate_ids = [];
  events = [];
}

abbrev pub is_terminal : String → Bool
is_terminal t = contains t terminal_event_types

-- `event["payload"].get(key)`
abbrev pub payload_get : String → Event → Option Json
payload_get k e = member k e.payload

abbrev pub texts : Event → List String
texts e =
    e.event_id ∷ e.event_type ∷ e.timestamp ∷ e.project_id ∷ e.repository_identity
    ∷ e.repository_path_fingerprint ∷ e.transaction_id ∷ e.workflow_type ∷ e.previous_fingerprint
    ∷ e.fingerprint ∷ []

unfoldable pub check_shape : Event → Result LedgerError Unit
check_shape e = do
  guard (all (λ s. not (s == "")) (texts e)) invalid_strings
  guard (is_object e.payload) payload_not_object
  guard (meets_contract e) invalid_payload_field
  guard (long_identity e.repository_identity && long_identity e.repository_path_fingerprint)
      short_identity
  guard (is_fingerprint e.previous_fingerprint && is_fingerprint e.fingerprint) invalid_fingerprint

unfoldable pub check_identity : Identity → ℕ → List String → Event → Result LedgerError Unit
check_identity l expected ids e = do
  guard (e.schema_version == pos 1 && e.sequence == pos expected) sequence_mismatch
  guard (not (contains e.event_id ids)) duplicate_event_id
  guard (contains e.event_type event_types) unsupported_event_type
  guard (e.project_id == l.project_id) project_mismatch
  guard (e.repository_identity == l.repository_identity) repository_mismatch
  guard (e.repository_path_fingerprint == l.repository_path_fingerprint) path_mismatch
  guard (is_workflow_type e.workflow_type) invalid_workflow

-- `known is not None and known != event["workflow_type"]`
unfoldable pub workflow_agrees : Option String → String → Bool
workflow_agrees none w = true
workflow_agrees (some known) w = known == w

-- `payload.get(key) is None`
abbrev pub is_none : Option Json → Bool
is_none none = true
is_none (some null) = true
is_none _ = false

both_texts : String → Option String → Option String → Result LedgerError (Option (String × String))
both_texts w (some gate_id) (some gate_fingerprint) = do
  guard (w == "human_decision_resolution") invalid_resolution_binding
  ok (some (gate_id, gate_fingerprint))
both_texts w _ _ = err invalid_resolution_binding

-- The gate that a resolution transaction binds itself to when it starts.
unfoldable pub start_binding : Event → Result LedgerError (Option (String × String))
unfolding both_texts
start_binding e =
    let gate_id = payload_get "resolved_gate_id" e in
    let gate_fingerprint = payload_get "resolved_gate_fingerprint" e in
    if is_none gate_id && is_none gate_fingerprint
    then ok none
    else both_texts e.workflow_type (text_of gate_id) (text_of gate_fingerprint)

bind_gate : Event → Option (String × String) → Seen → Seen
bind_gate e none s = s
bind_gate e (some b) s = record s {
  resolution_bindings = insert e.transaction_id b s.resolution_bindings;
}

-- `TransactionStarted`, or an event of a started transaction.
unfoldable pub note_start : Event → Seen → Result LedgerError Seen
unfolding bind_gate
note_start e s =
    if e.event_type == "TransactionStarted"
    then (do
      guard (not (contains e.transaction_id s.started)) duplicate_start
      bound ← start_binding e
      ok (bind_gate e bound (record s { started = e.transaction_id ∷ s.started })))
    else (do
      guard (contains e.transaction_id s.started || truthy (payload_get "legacy_import" e))
          precedes_start
      ok s)

unfoldable pub note_terminal : Event → Seen → Result LedgerError Seen
note_terminal e s =
    if is_terminal e.event_type
    then (do
      guard (not (is_some (lookup e.transaction_id s.terminals))) conflicting_terminals
      ok (record s { terminals = insert e.transaction_id e.event_type s.terminals }))
    else ok s

gate_or_corrupt : Result GateError Fields → Result LedgerError Fields
gate_or_corrupt (ok gate) = ok gate
gate_or_corrupt (err _) = err invalid_gate

-- `raised_gate_ids.get(str(gate_id))` and the transaction's own binding decide a resolution.
resolution_bound : Event → String → Option (String × String) → Option (String × String) → Bool
resolution_bound e gate_id (some (raised_by, gate_fingerprint)) own =
    is_text (payload_get "gate_fingerprint" e) gate_fingerprint
    && is_text (payload_get "raised_transaction_id" e) raised_by
resolution_bound e gate_id none none = false
resolution_bound e gate_id none (some (bound_id, bound_fingerprint)) =
    bound_id == gate_id && is_text (payload_get "gate_fingerprint" e) bound_fingerprint

-- An event that may not follow a terminal one.
abbrev pub mutates_terminal : Event → Seen → Bool
mutates_terminal e s =
    is_some (lookup e.transaction_id s.terminals)
    && not (is_terminal e.event_type)
    && not (contains e.event_type post_terminal_event_types)

-- A checkpoint of a terminal transaction acknowledges its materialization.
abbrev pub checkpoint_allowed : Event → Bool
checkpoint_allowed e =
    not (e.event_type == "CheckpointRecorded")
    || is_text (payload_get "checkpoint" e) "compatibility_materialization_acknowledged"

abbrev pub or_empty : Option (List String) → List String
or_empty none = []
or_empty (some h) = h

abbrev pub history_of : String → List (String × List String) → List String
history_of t histories = or_empty (lookup t histories)

-- The event's identifier and workflow join what was seen.
abbrev pub enter : Event → Seen → Seen
enter e s = record s {
  event_ids = e.event_id ∷ s.event_ids;
  workflows = insert e.transaction_id e.workflow_type s.workflows;
}

-- The end of an iteration: the event joins its transaction's history.
abbrev pub record_event : Event → Seen → Seen
record_event e s = record s {
  previous = e.fingerprint;
  histories =
      insert e.transaction_id (history_of e.transaction_id s.histories ++ e.event_type ∷ [])
        s.histories;
  events = s.events ++ e ∷ [];
}

module _ (env : Environment) where
  abbrev pub python_str : Option Json → String
  python_str (some (str s)) = s
  python_str v = env.str_of v

  -- `HumanGateRaised`
  unfoldable pub raise_gate : Event → Seen → Result LedgerError Seen
  unfolding gate_or_corrupt
  raise_gate e s = do
    gate ← gate_or_corrupt (validate_human_gate (payload_get "gate" e))
    let gate_id = python_str (get_field "gate_id" gate)
    guard (not (is_some (lookup gate_id s.raised_gate_ids))) duplicate_gate
    let gate_fingerprint = env.digest (obj gate)
    guard
        (is_text (payload_get "gate_id" e) gate_id
          && is_text (payload_get "gate_fingerprint" e) gate_fingerprint)
        gate_mismatch
    ok (record s {
      raised_gate_ids = insert gate_id (e.transaction_id, gate_fingerprint) s.raised_gate_ids;
    })

  -- `HumanGateResolved`
  unfoldable pub resolve_gate : Event → Seen → Result LedgerError Seen
  unfolding resolution_bound
  resolve_gate e s = do
    let gate_id = python_str (payload_get "gate_id" e)
    guard
        (not (contains gate_id s.resolved_gate_ids)
          && resolution_bound e gate_id (lookup gate_id s.raised_gate_ids)
              (lookup e.transaction_id s.resolution_bindings))
        unbound_resolution
    ok (record s { resolved_gate_ids = gate_id ∷ s.resolved_gate_ids })

  -- The `if`/`elif` chain on gates and terminal transactions.
  unfoldable pub note_gate : Event → Seen → Result LedgerError Seen
  note_gate e s =
      if e.event_type == "HumanGateRaised"
      then raise_gate e s
      else if e.event_type == "HumanGateResolved"
      then resolve_gate e s
      else (do guard (not (mutates_terminal e s)) terminal_mutated; ok s)

  unfoldable pub check_chain : Event → String → Result LedgerError Unit
  check_chain e previous = do
    guard (e.previous_fingerprint == previous) broken_chain
    guard (e.fingerprint == env.digest (event_body e)) fingerprint_mismatch

  -- One iteration of the loop.
  unfoldable pub check_event : Identity → Seen → Event → Result LedgerError Seen
  check_event l s e = do
    check_shape e
    check_identity l (length s.events + 1) s.event_ids e
    guard (workflow_agrees (lookup e.transaction_id s.workflows) e.workflow_type) workflow_changed
    begun ← note_start e (enter e s)
    ended ← note_terminal e begun
    gated ← note_gate e ended
    guard (not (is_some (lookup e.transaction_id gated.terminals)) || checkpoint_allowed e)
        invalid_checkpoint
    check_chain e s.previous
    ok (record_event e gated)

  -- The loop, over decoded events and over the records of the file.
  unfoldable pub check_events : Identity → Seen → List Event → Result LedgerError Seen
  check_events l s [] = ok s
  check_events l s (e ∷ es) = check_event l s e >>= λ t. check_events l t es

  unfoldable pub check_records : Identity → Seen → List Json → Result LedgerError Seen
  check_records l s [] = ok s
  check_records l s (r ∷ rs) = do e ← decode_event r; t ← check_event l s e; check_records l t rs
