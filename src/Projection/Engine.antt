-- ===== src/Projection/Engine.antt =====
-- `ProjectionEngine` of src/development_conveyor/projection.py: `rebuild`, `load_cache` and `current`, over
-- the ledger and the cache file. The links and link counts of the cache path are one kind of file.
use development_conveyor.Base.{
  ℕ, String, Bool, true, false, not, ◌&&◌, ◌||◌, Option, none, some, List, [], ◌∷◌, ◌==◌, string_eq,
  option_eq, lookup, map, Result, ok, err, guard, require, ◌>>=◌, ◌>>◌, if◌then◌else◌, ltb,
}
use development_conveyor.Json.{
  Json, null, bool, str, obj, int, pos, negsuc, ℤ, Fields, json_eq, int_eq, set_field,
}
use development_conveyor.Dict.{int_of, dict, value_at, array, update_fields}
use development_conveyor.Contracts.{workflow_type, workflow_lease, lease_value}
use development_conveyor.Ledger.Event.{LedgerError, Event}
use development_conveyor.Ledger.Check.{Identity, Environment}
use development_conveyor.Ledger.History.{Integrity}
use development_conveyor.Ledger.Store.{Ledger, read, verify}
use development_conveyor.Projection.View.{View, view_json}
use development_conveyor.Projection.Facts.{Facts, no_facts, project_events}
use development_conveyor.Projection.Rebuild.{
  ProjectionError, from_ledger, workflow_unknown, unsafe_cache, unreadable_cache, invalid_schema,
  invalid_fingerprint, invalid_sequence, later_sequence, stale_cache, other_ledger, next_action,
  active, only_active, settle_feature, current_commit, ready_to_integrate, Observed, observe,
  projection_fingerprint,
}

pub data CacheFile : Type 0 where
  absent unsafe unreadable : CacheFile
  document : Json → CacheFile

-- An engine with its ledger; `cache` is `none` where it has no cache path.
pub record Engine : Type 0 where
  pub ledger : Ledger
  pub cache : Option CacheFile

abbrev pub Step : Type 0 → Type 0
Step A = Engine → Result ProjectionError A × Engine

abbrev action_for : Json → String
action_for (str s) = elim (lookup s next_action) [ none ↦ "verify_consistency" | some a ↦ a ]
action_for _ = "verify_consistency"

-- The lease that the active transaction's workflow takes.
abbrev pub required_lease : Option (String × View) → Result ProjectionError Json
required_lease none = ok null
required_lease (some (t, v)) = do
  w ← require (workflow_type v.workflow_type) workflow_unknown
  ok (str (lease_value (workflow_lease w)))

abbrev transaction_id_of : Option (String × View) → Json
transaction_id_of none = null
transaction_id_of (some (t, v)) = str t

-- An inconsistent repository is to be verified, whatever the state.
abbrev pub guarded_action : String → Fields → Fields
guarded_action c d =
    if c == "not_observed" || c == "consistent"
    then d
    else set_field "allowed_next_action" (str "verify_consistency") d

abbrev pub lift : {A : Type 0} → Result LedgerError A → Result ProjectionError A
lift (ok a) = ok a
lift (err e) = err (from_ledger e)

abbrev pub later_than : ℤ → ℕ → Bool
later_than (pos n) k = ltb k n
later_than (negsuc n) k = false

abbrev pub earlier_than : ℤ → ℕ → Bool
earlier_than (pos n) k = ltb n k
earlier_than (negsuc n) k = true

abbrev document_of : Json → Result ProjectionError Fields
document_of (obj d) = ok d
document_of _ = err invalid_schema

-- A stale cache counts as none; any other raise is passed on.
abbrev pub unless_stale :
    Result ProjectionError (Option Fields) → Result ProjectionError (Option Fields)
unless_stale (ok found) = ok found
unless_stale (err stale_cache) = ok none
unless_stale (err e) = err e

abbrev pub has_schema : Fields → Bool
has_schema d = value_at "schema_version" (obj d) == int (pos 1)

abbrev pub has_ledger : Integrity → Fields → Bool
has_ledger i d = value_at "ledger_fingerprint" (obj d) == str i.fingerprint

abbrev pub bound_to : Integrity → Fields → Bool
bound_to i d =
    int_of (value_at "ledger_sequence" (obj d)) == some (pos i.sequence) && has_ledger i d

module _ (env : Environment) (l : Identity) where
  -- The `projection` display of `rebuild`.
  abbrev pub projection_fields :
      Integrity → Option (String × View) → Facts → Observed → Json → Fields
  projection_fields i active f o lease = dict (
      ("schema_version", int (pos 1))
      ∷ ("projection_semantics_version", int (pos 2))
      ∷ ("project_id", str l.project_id)
      ∷ ("repository_identity", str l.repository_identity)
      ∷ ("repository_path_fingerprint", str l.repository_path_fingerprint)
      ∷ ("ledger_sequence", int (pos i.sequence))
      ∷ ("ledger_fingerprint", str i.fingerprint)
      ∷ ("current_state", f.current_state)
      ∷ ("active_transaction", transaction_id_of active)
      ∷ ("current_feature", f.current_feature)
      ∷ ("selected_next_feature", f.selected_next_feature)
      ∷ ("selected_feature_starting_commit", f.selected_feature_starting_commit)
      ∷ ("accepted_feature_commit", current_commit f)
      ∷ ("integration_status", o.integration_status)
      ∷ ("planning_status", f.planning_status)
      ∷ ("human_gate", f.human_gate)
      ∷ ("allowed_next_action", str (action_for f.current_state))
      ∷ ("session_resume_eligible", bool o.session_resume_eligible)
      ∷ ("required_lease", lease)
      ∷ ("historical_integration_outcomes", array f.historical_integration_outcomes)
      ∷ ("current_repository_consistency", str o.repository_consistency)
      ∷ ("current_observations", o.observations)
      ∷ ("transactions", array (map (λ entry. view_json entry.1) f.transactions))
      ∷ ("warnings", array (map str f.warnings))
      ∷ [])

  abbrev pub sealed : Fields → Fields
  sealed d = set_field "projection_fingerprint" (str (projection_fingerprint env d)) d

  -- `rebuild`, from the events and the integrity of the ledger.
  unfoldable pub project : List Event → Integrity → Option Fields → Result ProjectionError Fields
  unfolding project_events settle_feature only_active
  project events i observations = do
    let folded = project_events no_facts events
    working ← only_active (active folded)
    let f = ready_to_integrate (settle_feature working folded)
    o ← observe env observations working f
    lease ← required_lease working
    ok (
        sealed (
          guarded_action o.repository_consistency
            (update_fields (projection_fields i working f o lease) f.projection_facts)))

  -- `atomic_write_json` redacts what it writes.
  abbrev pub persist : Option CacheFile → Fields → Engine → Result ProjectionError Fields × Engine
  persist none d s = (ok d, s)
  persist (some unsafe) d s = (err unsafe_cache, s)
  persist (some _) d s = (ok d, record s { cache = some (document (env.redact_value (obj d))) })

  abbrev pub keep : Bool → Result ProjectionError Fields → Step Fields
  keep persisted (err e) s = (err e, s)
  keep false (ok d) s = (ok d, s)
  keep true (ok d) s = persist s.cache d s

  abbrev pub after_verify :
      Bool → Option Fields → List Event → Result LedgerError Integrity → Step Fields
  after_verify persisted observations events (err e) s = (err (from_ledger e), s)
  after_verify persisted observations events (ok i) s =
      keep persisted (project events i observations) s

  abbrev pub after_read : Bool → Option Fields → Result LedgerError (List Event) → Step Fields
  after_read persisted observations (err e) s = (err (from_ledger e), s)
  after_read persisted observations (ok events) s =
      let (integrity, ledger) = verify env l s.ledger in
      after_verify persisted observations events integrity (record s { ledger = ledger })

  -- `rebuild`: the ledger is read, then verified.
  unfoldable pub rebuild : Bool → Option Fields → Step Fields
  unfolding project
  rebuild persisted observations s =
      let (events, ledger) = read env l s.ledger in
      after_read persisted observations events (record s { ledger = ledger })

  abbrev pub is_sealed : Fields → Bool
  is_sealed d = value_at "projection_fingerprint" (obj d) == str (projection_fingerprint env d)

  -- The checks of `load_cache` before the ledger is verified, and those behind it.
  unfoldable pub check_document : Json → Result ProjectionError Fields
  check_document value = do
    d ← document_of value
    guard (has_schema d) invalid_schema
    guard (is_sealed d) invalid_fingerprint
    ok d

  unfoldable pub check_binding : Integrity → Fields → Result ProjectionError Fields
  check_binding i d = do
    n ← require (int_of (value_at "ledger_sequence" (obj d))) invalid_sequence
    guard (not (later_than n i.sequence)) later_sequence
    guard (not (earlier_than n i.sequence)) stale_cache
    guard (has_ledger i d) other_ledger
    ok d

  abbrev pub bind_ledger :
      Fields → Result LedgerError Integrity → Result ProjectionError (Option Fields)
  bind_ledger d integrity = do i ← lift integrity; kept ← check_binding i d; ok (some kept)

  abbrev pub load_document : Result ProjectionError Fields → Step (Option Fields)
  load_document (err e) s = (err e, s)
  load_document (ok d) s =
      let (integrity, after) = verify env l s.ledger in
      (bind_ledger d integrity, record s { ledger = after })

  abbrev pub load_file : Option CacheFile → Step (Option Fields)
  load_file none s = (ok none, s)
  load_file (some absent) s = (ok none, s)
  load_file (some unsafe) s = (err unsafe_cache, s)
  load_file (some unreadable) s = (err unreadable_cache, s)
  load_file (some (document value)) s = load_document (check_document value) s

  unfoldable pub load_cache : Step (Option Fields)
  unfolding check_document check_binding
  load_cache s = load_file s.cache s

  abbrev pub serve : Option Fields → Integrity → Step Fields
  serve none i s = rebuild true none s
  serve (some d) i s = if bound_to i d then (ok d, s) else rebuild true none s

  abbrev pub verified : Option Fields → Result LedgerError Integrity → Step Fields
  verified found (err e) s = (err (from_ledger e), s)
  verified found (ok i) s = serve found i s

  abbrev pub answer : Result ProjectionError (Option Fields) → Step Fields
  answer (err e) s = (err e, s)
  answer (ok found) s =
      let (integrity, after) = verify env l s.ledger in
      verified found integrity (record s { ledger = after })

  unfoldable pub current : Step Fields
  unfolding load_cache rebuild
  current s = let (found, after) = load_cache s in answer (unless_stale found) after
