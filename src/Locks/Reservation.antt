-- ===== src/Locks/Reservation.antt =====
-- `DurableLock` of src/development_conveyor/locks.py: the launch reservation of a run.
use development_conveyor.Base.{
  String, Bool, true, false, not, ◌||◌, Option, none, some, List, [], ◌∷◌, ◌==◌, string_eq, bool_eq,
  option_eq, lookup, insert, is_some, Result, ok, err, guard, ◌>>=◌, ◌>>◌,
}
use development_conveyor.Json.{Json, str, obj, Fields, json_eq, set_field}
use development_conveyor.Dict.{dict, value_at, value_or, int_of, text_or_null}
use development_conveyor.Ledger.Check.{Environment}
use development_conveyor.Lease.Writer.{System, Process, pid_of}
use development_conveyor.Locks.File.{
  LockFile, missing, LockError, reservation_exists, other_run, release_refused, no_lock,
  other_repository, foreign_host, process_unproven, evidence_exists, Step, read_lock, create,
  release_by, text_of, either_of, owner_alive_at, rewrite,
}

-- `make_lock_record`; the time stamp is an argument.
abbrev pub make_lock_record :
    Process → String → String → String → String → Option String → String → Fields
make_lock_record p stamp project identity run feature phase = dict (
    ("project_id", str project)
    ∷ ("repository_identity", str identity)
    ∷ ("run_id", str run)
    ∷ ("process_id", pid_of p)
    ∷ ("host_identity", str p.host)
    ∷ ("start_time", str stamp)
    ∷ ("last_confirmed_time", str stamp)
    ∷ ("current_feature", text_or_null feature)
    ∷ ("current_phase", str phase)
    ∷ [])

abbrev pub is_of_run : String → Fields → Bool
is_of_run run d = value_at "run_id" (obj d) == str run

-- `acquire`
unfoldable pub acquire : Fields → Step Unit
unfolding create
acquire d s = let (made, after) = create reservation_exists d s in (made >>= λ _. ok tt, after)

-- `release`
unfoldable pub release : String → Step Unit
unfolding release_by
release run s = release_by (is_of_run run) release_refused s

pub record LockStatus : Type 0 where
  pub exists : Bool
  pub owned_by_run : Bool
  pub process_alive : Option Bool
  pub ambiguous : Bool
  pub content : Option Fields

abbrev pub no_status : LockStatus
no_status = record {
  exists = false;
  owned_by_run = false;
  process_alive = none;
  ambiguous = false;
  content = none;
}

-- The lock and the evidence files of recoveries, by the run in their names.
pub record Directory : Type 0 where
  pub file : LockFile
  pub recovered : List (String × LockFile)

module _ (env : Environment) where
  abbrev pub confirmed : String → String → String → Option Fields → Result LockError Fields
  confirmed run phase stamp none = err other_run
  confirmed run phase stamp (some d) = do
    guard (is_of_run run d) other_run
    ok (set_field "current_phase" (str phase) (set_field "last_confirmed_time" (str stamp) d))

  -- `heartbeat`
  unfoldable pub heartbeat : String → String → String → Step Fields
  unfolding read_lock
  heartbeat run phase stamp s = rewrite env (read_lock s >>= confirmed run phase stamp) s

module _ (system : System) (p : Process) where
  abbrev status_of : Json → Option Fields → LockStatus
  status_of run none = no_status
  status_of run (some d) =
      let host = either_of "host_identity" "host" d in
      let alive = owner_alive_at system p host (either_of "process_id" "pid" d) in
      record {
        exists = true;
        owned_by_run = value_at "run_id" (obj d) == run;
        process_alive = alive;
        ambiguous = not (host == str p.host) || not (is_some alive);
        content = some d;
      }

  -- `status`, of a run or of None.
  unfoldable pub status : Option String → LockFile → Result LockError LockStatus
  unfolding read_lock
  status run s = do found ← read_lock s; ok (status_of (text_or_null run) found)

  -- `isinstance(pid, int) and process_alive(pid) is False`
  abbrev pub proven_dead : Json → Bool
  proven_dead pid = elim (int_of pid) [
    | none ↦ false
    | some n ↦ system.process_alive n == some false
  ]

  abbrev pub evidence_name : Fields → String
  evidence_name d = text_of system (value_or "run_id" (obj d) (str "unknown"))

  abbrev pub check_stale : String → Directory → Option Fields → Result LockError Fields
  check_stale identity s none = err no_lock
  check_stale identity s (some d) = do
    guard (value_at "repository_identity" (obj d) == str identity) other_repository
    guard (value_at "host_identity" (obj d) == str p.host) foreign_host
    guard (proven_dead (value_at "process_id" (obj d))) process_unproven
    guard (not (is_some (lookup (evidence_name d) s.recovered))) evidence_exists
    ok d

  -- The path of the evidence file, which the result also names, is left out of it.
  abbrev pub set_aside : Result LockError Fields → Directory → Result LockError Fields × Directory
  set_aside (err e) s = (err e, s)
  set_aside (ok d) s =
      (ok d, record { file = missing; recovered = insert (evidence_name d) s.file s.recovered })

  -- `recover_stale`
  unfoldable pub recover_stale : String → Directory → Result LockError Fields × Directory
  unfolding read_lock
  recover_stale identity s = set_aside (read_lock s.file >>= check_stale identity s) s
