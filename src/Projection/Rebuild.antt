-- ===== src/Projection/Rebuild.antt =====
-- The end of `ProjectionEngine.rebuild` of src/development_conveyor/projection.py: the active
-- transaction, the routing of finished features, the observations, and the projection itself.
use development_conveyor.Base.{
  String, Bool, true, false, not, ◌&&◌, ◌||◌, Option, none, some, List, [], ◌∷◌, ◌==◌, string_eq,
  option_eq, lookup, contains, select, last?, is_some, Result, ok, err, guard, ◌>>◌, if◌then◌else◌,
}
use development_conveyor.Json.{Json, null, str, obj, Fields, end, field, json_eq, falsy}
use development_conveyor.Dict.{or_null, value_at, remove_field}
use development_conveyor.Ledger.Event.{LedgerError}
use development_conveyor.Ledger.Check.{Environment}
use development_conveyor.Projection.View.{View}
use development_conveyor.Projection.Facts.{Facts}

-- The raises of projection.py; a raise of the ledger is passed on.
pub data ProjectionError : Type 0 where
  from_ledger : LedgerError → ProjectionError
  many_incomplete observation_invalid workflow_unknown : ProjectionError
  unsafe_cache unreadable_cache invalid_schema invalid_fingerprint : ProjectionError
  invalid_sequence later_sequence stale_cache other_ledger : ProjectionError

abbrev pub next_action : List (String × String)
next_action =
    ("feature_ready", "feature_cycle")
    ∷ ("feature_preparing", "feature_cycle")
    ∷ ("feature_accepted", "milestone_integration")
    ∷ ("integration_pending", "milestone_integration")
    ∷ ("integration_ready", "milestone_integration")
    ∷ ("feature_integrated", "queue_reconciliation")
    ∷ ("queue_reconciliation", "queue_reconciliation")
    ∷ ("milestone_gate", "milestone_gate")
    ∷ ("human_decision_required", "human_decision_resolution")
    ∷ ("milestone_complete", "human_merge_approval")
    ∷ ("milestone_ready_for_merge", "human_merge_approval")
    ∷ []

abbrev pub terminal_names : List String
terminal_names =
    "completed" ∷ "blocked" ∷ "human_decision_required" ∷ "retryable_failure" ∷ "terminal_failure"
    ∷ "superseded" ∷ []

abbrev pub text_in : List String → Json → Bool
text_in names (str s) = contains s names
text_in names _ = false

abbrev pub is_incomplete : View → Bool
is_incomplete v = not (text_in terminal_names v.state)

-- `active_ids`, with their entries; `active_transaction` is the only one.
abbrev pub active : Facts → List (String × View)
active f = select (λ entry. is_incomplete entry.1) f.transactions

unfoldable pub only_active : List (String × View) → Result ProjectionError (Option (String × View))
only_active [] = ok none
only_active (x ∷ []) = ok (some x)
only_active (x ∷ y ∷ rest) = err many_incomplete

abbrev pub routed_states : List String
routed_states =
    "feature_ready" ∷ "feature_accepted" ∷ "integration_pending" ∷ "integration_ready"
    ∷ "feature_integrated" ∷ []

abbrev pub integrated : Json → Facts → Bool
integrated feature f = contains feature f.integrated_features

abbrev pub select_next : Facts → Facts
select_next f =
    let next = if integrated f.selected_next_feature f then null else f.selected_next_feature in
    record f {
      selected_next_feature = next;
      current_feature = if integrated next f then null else next;
      accepted_feature_commit = null;
      integration_status = null;
    }

abbrev pub reroute : Facts → Facts
reroute f =
    if f.current_feature == null && text_in routed_states f.current_state
    then record f { current_state = str "queue_reconciliation" }
    else f

abbrev pub clear_gate : Facts → Facts
clear_gate f =
    if f.current_state == str "human_decision_required" then f else record f { human_gate = null }

-- Where nothing is active and the current feature is integrated, the next one takes its place.
unfoldable pub settle_feature : Option (String × View) → Facts → Facts
settle_feature (some active) f = f
settle_feature none f =
    if not (f.current_feature == null) && integrated f.current_feature f
    then clear_gate (reroute (select_next f))
    else f

abbrev pub current_commit : Facts → Json
current_commit f =
    if falsy f.current_feature
    then f.accepted_feature_commit
    else or_null (lookup f.current_feature f.feature_commits)

abbrev pub ready_to_integrate : Facts → Facts
ready_to_integrate f =
    if not (falsy (current_commit f))
      && f.current_state == str "feature_running"
      && not (integrated f.current_feature f)
    then record f { current_state = str "integration_ready" }
    else f

abbrev pub has_sessions : View → Bool
has_sessions v = elim v.session_ids [ [] ↦ false | x ∷ xs ↦ true ]

abbrev pub resume_eligible : Option (String × View) → Facts → Bool
resume_eligible none f = false
resume_eligible (some (t, v)) f =
    text_in ("active" ∷ "result_pending" ∷ []) v.state && has_sessions v && falsy (current_commit f)

abbrev any_truthy : Fields → Bool
any_truthy end = false
any_truthy (field k v rest) = not (falsy v) || any_truthy rest

abbrev operation_running : Json → Bool
operation_running (obj d) = any_truthy d
operation_running _ = false

abbrev lease_agrees : Json → String → Bool
lease_agrees o t = not (falsy (value_at "lease_valid" o)) && value_at "lease_transaction" o == str t

-- `current_repository_consistency`, but for a stale session.
unfoldable pub consistency : Json → Option (String × View) → Facts → String
consistency o active f =
    if operation_running (value_at "git_operations" o) || value_at "branch" o == null
    then "unsafe_git_state"
    else elim active [
      | some (t, v) ↦ if not (lease_agrees o t) then "lease_mismatch" else in_queue
      | none ↦ if not (value_at "lease_transaction" o == null) then "orphaned_lease" else in_queue
    ]
  where
    in_tree : String
    in_tree =
        if falsy (value_at "clean" o) && not (is_some active)
        then "unexplained_dirty_worktree"
        else "consistent"

    in_queue : String
    in_queue =
        if not (f.current_feature == null)
          && not (value_at "queue_feature" o == null)
          && not (value_at "queue_feature" o == f.current_feature)
        then "queue_projection_disagreement"
        else in_tree

-- A live session other than the last one of the active transaction.
abbrev pub stale_session : Json → Option (String × View) → Bool
stale_session o none = false
stale_session o (some (t, v)) = elim (last? v.session_ids) [
  | none ↦ false
  | some latest ↦
      let live = value_at "live_session_id" o in not (live == null) && not (live == latest)
]

-- What the observations decide.
pub record Observed : Type 0 where
  pub repository_consistency : String
  pub session_resume_eligible : Bool
  pub integration_status : Json
  pub observations : Json

abbrev observed_status : Json → Facts → Json
observed_status o f =
    if not (falsy f.current_feature) && not (value_at "queue_integration_status" o == null)
    then value_at "queue_integration_status" o
    else f.integration_status

module _ (env : Environment) where
  abbrev observed : Fields → Option (String × View) → Facts → Observed
  observed d active f =
      let stale = stale_session (obj d) active in
      record {
        repository_consistency = if stale then "stale_session" else consistency (obj d) active f;
        session_resume_eligible = if stale then false else resume_eligible active f;
        integration_status = observed_status (obj d) f;
        observations = obj d;
      }

  -- The observations must carry their own fingerprint.
  unfoldable pub observe :
      Option Fields → Option (String × View) → Facts → Result ProjectionError Observed
  observe none active f = ok (record {
    repository_consistency = "not_observed";
    session_resume_eligible = resume_eligible active f;
    integration_status = f.integration_status;
    observations = null;
  })
  observe (some d) active f = do
    guard
        (value_at "observation_fingerprint" (obj d)
          == str (env.digest (obj (remove_field "observation_fingerprint" d))))
        observation_invalid
    ok (observed d active f)

  -- `projection_fingerprint`
  abbrev pub projection_fingerprint : Fields → String
  projection_fingerprint d = env.digest (obj (remove_field "projection_fingerprint" d))
