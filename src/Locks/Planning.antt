-- ===== src/Locks/Planning.antt =====
-- `PlanningWriterLease` of src/development_conveyor/locks.py.
use development_conveyor.Base.{
  String, Bool, true, ◌&&◌, ◌||◌, Option, none, some, List, [], ◌∷◌, ◌==◌, string_eq, Result, ok,
  err, guard, require, ◌>>=◌, ◌>>◌,
}
use development_conveyor.Json.{Json, null, str, arr, obj, Fields, json_eq, set_field}
use development_conveyor.Dict.{dict, value_at, text_or_null, text_array}
use development_conveyor.Ledger.Check.{Environment}
use development_conveyor.Lease.Writer.{System, Process, pid_of}
use development_conveyor.Locks.File.{
  LockFile, LockError, appeared_concurrently, writer_exists, planning_absent, planning_mismatch,
  session_mismatch, planning_release_refused, Step, read_lock, create, release_by, resolved,
  rewrite,
}

-- The arguments of `acquire`, with the repository of the object and the time stamp.
pub record PlanningClaim : Type 0 where
  pub repository : String
  pub repository_identity : String
  pub project_id : String
  pub milestone : String
  pub run_id : String
  pub session_id : Option String
  pub branch : String
  pub head : String
  pub worktree_fingerprint : String
  pub allowed_paths : List String
  pub stamp : String

abbrev pub planning_record : Process → PlanningClaim → Fields
planning_record p c = dict (
    ("repository", str c.repository)
    ∷ ("repository_identity", str c.repository_identity)
    ∷ ("project_id", str c.project_id)
    ∷ ("milestone", str c.milestone)
    ∷ ("queue_reconciliation_run_id", str c.run_id)
    ∷ ("session_id", text_or_null c.session_id)
    ∷ ("branch", str c.branch)
    ∷ ("starting_head", str c.head)
    ∷ ("starting_worktree_fingerprint", str c.worktree_fingerprint)
    ∷ ("approved_planning_paths", arr (text_array c.allowed_paths))
    ∷ ("phase", str "queue_reconciliation")
    ∷ ("purpose", str "development-conveyor-planning")
    ∷ ("agent_run", str c.run_id)
    ∷ ("pid", pid_of p)
    ∷ ("host", str p.host)
    ∷ ("start_time", str c.stamp)
    ∷ ("last_heartbeat", str c.stamp)
    ∷ [])

-- What `revalidate` is to compare; None is not compared.
pub record Expected : Type 0 where
  pub run_id : String
  pub session_id : Option String
  pub repository_identity : Option String
  pub branch : Option String
  pub head : Option String

abbrev pub only_run : String → Expected
only_run run = record {
  run_id = run;
  session_id = none;
  repository_identity = none;
  branch = none;
  head = none;
}

abbrev pub agrees : Option String → Json → Bool
agrees none v = true
agrees (some t) v = v == str t

abbrev pub is_of_planning : String → Fields → Bool
is_of_planning run d =
    value_at "purpose" (obj d) == str "development-conveyor-planning"
    && value_at "queue_reconciliation_run_id" (obj d) == str run

-- `release`
unfoldable pub release : String → Step Unit
unfolding release_by
release run s = release_by (is_of_planning run) planning_release_refused s

abbrev pub acquire_free : Fields → Result LockError (Option Fields) → Step Fields
acquire_free d (err e) s = (err e, s)
acquire_free d (ok (some found)) s = (err writer_exists, s)
acquire_free d (ok none) s = create appeared_concurrently d s

-- `acquire`; nothing happens to the file between the reading and the creation.
unfoldable pub acquire : Process → PlanningClaim → Step Fields
unfolding read_lock create
acquire p c s = acquire_free (planning_record p c) (read_lock s) s

module _ (env : Environment) (system : System) (repository : String) where
  -- The `checks` of `revalidate`.
  abbrev pub checks : Expected → Fields → Bool
  checks q d =
      is_of_planning q.run_id d
      && value_at "phase" (obj d) == str "queue_reconciliation"
      && resolved system (value_at "repository" (obj d)) == repository
      && agrees q.session_id (value_at "session_id" (obj d))
      && agrees q.repository_identity (value_at "repository_identity" (obj d))
      && agrees q.branch (value_at "branch" (obj d))
      && agrees q.head (value_at "starting_head" (obj d))

  -- `revalidate`
  unfoldable pub revalidate : Expected → LockFile → Result LockError Fields
  unfolding read_lock
  revalidate q s = do
    found ← read_lock s
    d ← require found planning_absent
    guard (checks q d) planning_mismatch
    ok d

  abbrev pub free_or : String → Json → Bool
  free_or session recorded = recorded == null || recorded == str session

  -- `bind_session`
  unfoldable pub bind_session : String → String → String → Step Fields
  unfolding revalidate
  bind_session run session stamp s =
      rewrite env
        (do
          d ← revalidate (only_run run) s
          guard (free_or session (value_at "session_id" (obj d))) session_mismatch
          ok (set_field "last_heartbeat" (str stamp) (set_field "session_id" (str session) d)))
        s
