-- ===== src/Locks/Writers.antt =====
-- `RepositoryWriterLease` and `inspect_repository_writer_lock` of src/development_conveyor/locks.py. That a
-- path cannot be resolved is not modelled.
use development_conveyor.Base.{
  String, Bool, true, not, ◌&&◌, ◌||◌, Option, none, some, [], ◌∷◌, ◌==◌, string_eq, bool_eq,
  option_eq, is_some, Result, ok, err, guard, require, ◌>>=◌, ◌>>◌, if◌then◌else◌,
}
use development_conveyor.Json.{Json, null, str, obj, int_eq, pos, Fields, json_eq, set_field}
use development_conveyor.Dict.{dict, value_at, int_of}
use development_conveyor.Ledger.Check.{Environment}
use development_conveyor.Lease.Writer.{System, Process, pid_of}
use development_conveyor.Locks.File.{
  LockFile, LockError, other_feature, owner_ambiguous, owner_alive, appeared_concurrently,
  writer_release_refused, Step, read_lock, create, release_by, either_of, owner_alive_at, resolved,
  rewrite,
}
use development_conveyor.Locks.Reservation.{LockStatus, no_status}

-- The arguments of `acquire_or_resume`, with the repository of the object and the time stamp.
pub record Claim : Type 0 where
  pub repository : String
  pub feature : String
  pub branch : String
  pub run_id : String
  pub stamp : String

-- `_new_record`
abbrev pub new_record : Process → Claim → Fields
new_record p c = dict (
    ("repository", str c.repository)
    ∷ ("feature_id", str c.feature)
    ∷ ("branch", str c.branch)
    ∷ ("worktree", str c.repository)
    ∷ ("agent_run", str c.run_id)
    ∷ ("purpose", str "development-conveyor-feature")
    ∷ ("pid", pid_of p)
    ∷ ("host", str p.host)
    ∷ ("start_time", str c.stamp)
    ∷ ("last_heartbeat", str c.stamp)
    ∷ [])

abbrev pub is_of_agent : String → Fields → Bool
is_of_agent run d = value_at "agent_run" (obj d) == str run

-- `release`
unfoldable pub release : String → Step Unit
unfolding release_by
release run s = release_by (is_of_agent run) writer_release_refused s

abbrev pub host_of : Fields → Json
host_of d = either_of "host" "host_identity" d

abbrev pub owner_of : Fields → Json
owner_of d = either_of "pid" "process_id" d

module _ (system : System) (p : Process) where
  -- `_matches`
  abbrev pub matches : Claim → Fields → Bool
  matches c d =
      resolved system (value_at "repository" (obj d)) == c.repository
      && resolved system (value_at "worktree" (obj d)) == c.repository
      && value_at "feature_id" (obj d) == str c.feature
      && value_at "branch" (obj d) == str c.branch
      && is_of_agent c.run_id d

  -- `alive and pid != os.getpid()` lets pass this process, and one that has ended.
  abbrev pub may_take : Bool → Fields → Bool
  may_take alive d = not alive || int_of (owner_of d) == some (pos p.pid)

  -- `existing.update`
  abbrev pub resumed : Claim → Fields → Fields
  resumed c d =
      set_field "last_heartbeat" (str c.stamp)
        (set_field "host" (str p.host) (set_field "pid" (pid_of p) d))

  abbrev pub resume : Claim → Fields → Result LockError Fields
  resume c d = do
    guard (matches c d) other_feature
    guard (host_of d == str p.host) owner_ambiguous
    alive ← require (owner_alive_at system p (host_of d) (owner_of d)) owner_ambiguous
    guard (may_take alive d) owner_alive
    ok (resumed c d)

module _ (env : Environment) (system : System) (p : Process) where
  abbrev pub acquire_over : Claim → Result LockError (Option Fields) → Step Fields
  acquire_over c (err e) s = (err e, s)
  acquire_over c (ok none) s = create appeared_concurrently (new_record p c) s
  acquire_over c (ok (some d)) s = rewrite env (resume system p c d) s

  -- `acquire_or_resume`; nothing happens to the file between the reading and the creation.
  unfoldable pub acquire_or_resume : Claim → Step Fields
  unfolding read_lock create
  acquire_or_resume c s = acquire_over c (read_lock s) s

module _ (system : System) (p : Process) where
  abbrev foreign_repository : String → Fields → Bool
  foreign_repository repository d =
      let recorded = value_at "repository" (obj d) in
      not (recorded == null) && not (resolved system recorded == repository)

  abbrev inspected : String → Option Fields → LockStatus
  inspected repository none = no_status
  inspected repository (some d) =
      let alive = owner_alive_at system p (host_of d) (owner_of d) in
      if foreign_repository repository d
      then record no_status { exists = true; ambiguous = true; content = some d }
      else record no_status {
        exists = true;
        process_alive = alive;
        ambiguous = not (host_of d == str p.host) || not (is_some alive);
        content = some d;
      }

  -- `inspect_repository_writer_lock`, of a resolved repository path.
  unfoldable pub inspect_repository_writer_lock : String → LockFile → Result LockError LockStatus
  unfolding read_lock
  inspect_repository_writer_lock repository s = do
    found ← read_lock s
    ok (inspected repository found)
