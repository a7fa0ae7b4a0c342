-- ===== src/Ledger/History.antt =====
-- The end of `_validate` in ledger.py: the lifecycle order of each transaction's history, and the
-- integrity that a valid ledger has.
use development_conveyor.Base.{
  ℕ, suc, String, Bool, true, false, not, ◌&&◌, ◌||◌, Option, none, some, List, [], ◌∷◌, ltb, leb,
  ◌==◌, nat_eq, string_eq, all, any, contains, length, Result, ok, guard, ◌>>=◌, ◌>>◌,
  if◌then◌else◌,
}
use development_conveyor.Json.{Json, truthy}
use development_conveyor.Ledger.Event.{
  LedgerError, Event, terminal_event_types, no_start, lease_without_recovery, invalid_order,
  result_without_session, passed_without_start, commit_without_validation,
  projected_before_terminal, skipped_lifecycle,
}
use development_conveyor.Ledger.Check.{
  Identity, Environment, Seen, nothing_seen, payload_get, check_events, check_records,
}

-- `positions.setdefault(name, index)`: where a name stands first.
abbrev pub first_position : String → List String → Option ℕ
first_position x [] = none
first_position x (y ∷ ys) =
    let later = first_position x ys in
    elim (y == x) [ true ↦ some 0 | false ↦ elim later [ none ↦ none | some i ↦ some (suc i) ] ]

-- `[index for index, name in enumerate(history) if name == ...]`
abbrev pub positions_from : ℕ → String → List String → List ℕ
positions_from i x [] = []
positions_from i x (y ∷ ys) =
    let later = positions_from (suc i) x ys in if y == x then i ∷ later else later

abbrev recovered_between : List ℕ → ℕ → ℕ → Bool
recovered_between recoveries a b = any (λ r. ltb a r && ltb r b) recoveries

-- Between two leases that follow one another stands a recovery.
abbrev leases_recovered : List ℕ → List ℕ → Bool
leases_recovered recoveries [] = true
leases_recovered recoveries (a ∷ []) = true
leases_recovered recoveries (a ∷ b ∷ rest) =
    recovered_between recoveries a b && leases_recovered recoveries (b ∷ rest)

abbrev pub ordered_pairs : List (String × String)
ordered_pairs =
    ("TransactionStarted", "LeaseAcquired")
    ∷ ("LeaseAcquired", "SnapshotCaptured")
    ∷ ("SnapshotCaptured", "SessionLaunched")
    ∷ ("SessionLaunched", "SessionResultAccepted")
    ∷ ("SnapshotCaptured", "DeterministicExecutionStarted")
    ∷ ("DeterministicExecutionStarted", "DeterministicResultAccepted")
    ∷ ("ValidationStarted", "ValidationPassed")
    ∷ ("ValidationPassed", "CommitFinalized")
    ∷ ("CommitFinalized", "TransactionCompleted")
    ∷ ("TransactionCompleted", "LeaseReleased")
    ∷ ("LeaseReleased", "ProjectionUpdated")
    ∷ []

abbrev not_after : Option ℕ → Option ℕ → Bool
not_after (some a) (some b) = leb a b
not_after _ _ = true

abbrev pub in_order : List String → String × String → Bool
in_order history (earlier, later) =
    not_after (first_position earlier history) (first_position later history)

abbrev pub starts_canonically : List String → Bool
starts_canonically [] = false
starts_canonically (x ∷ xs) = x == "TransactionStarted"

-- `if a in positions and b not in positions: raise`
abbrev pub needs : List String → String → String → Bool
needs history a b = not (contains a history) || contains b history

abbrev pub lifecycle_events : List String
lifecycle_events =
    "LeaseAcquired" ∷ "SnapshotCaptured" ∷ "ValidationStarted" ∷ "ValidationPassed" ∷ []

-- `bool(completed["payload"].get("legacy_import"))` of the transaction's first completion.
abbrev pub completed_by_import : String → List Event → Bool
completed_by_import t [] = false
completed_by_import t (e ∷ es) =
    let later = completed_by_import t es in
    if e.transaction_id == t && e.event_type == "TransactionCompleted"
    then truthy (payload_get "legacy_import" e)
    else later

unfoldable pub check_history : List Event → String → List String → Result LedgerError Unit
check_history events t history = do
  guard (starts_canonically history) no_start
  guard
      (leases_recovered (positions_from 0 "RecoveryApplied" history)
        (positions_from 0 "LeaseAcquired" history))
      lease_without_recovery
  guard (all (in_order history) ordered_pairs) invalid_order
  guard (needs history "SessionResultAccepted" "SessionLaunched") result_without_session
  guard (needs history "ValidationPassed" "ValidationStarted") passed_without_start
  guard (needs history "CommitFinalized" "ValidationPassed") commit_without_validation
  guard
      (not (contains "ProjectionUpdated" history)
        || any (λ name. contains name history) terminal_event_types)
      projected_before_terminal
  guard
      (not (contains "TransactionCompleted" history)
        || all (λ name. contains name history) lifecycle_events
        || completed_by_import t events)
      skipped_lifecycle

unfoldable pub check_histories : List Event → List (String × List String) → Result LedgerError Unit
check_histories events [] = ok tt
check_histories events ((t, history) ∷ rest) =
    check_history events t history >>= λ _. check_histories events rest

pub record Integrity : Type 0 where
  pub sequence : ℕ
  pub fingerprint : String
  pub event_count : ℕ
  pub transactions : ℕ

abbrev pub integrity_of : Seen → Integrity
integrity_of s = record {
  sequence = length s.events;
  fingerprint = s.previous;
  event_count = length s.events;
  transactions = length s.started;
}

module _ (env : Environment) (l : Identity) where
  -- `_validate`
  unfoldable pub validate : List Event → Result LedgerError Integrity
  validate events = do
    s ← check_events env l nothing_seen events
    check_histories s.events s.histories
    ok (integrity_of s)

  -- `_validate` on the records of the file, with the events that it read.
  unfoldable pub validate_records : List Json → Result LedgerError (List Event × Integrity)
  validate_records records = do
    s ← check_records env l nothing_seen records
    check_histories s.events s.histories
    ok (s.events, integrity_of s)
