-- ===== src/Locks/File.antt =====
-- The lock file of src/development_conveyor/locks.py: `read_lock`, the exclusive creation, the rewriting by
-- `atomic_write_json` and the removal that its classes share. Disk errors are not modelled.
use development_conveyor.Base.{
  String, Bool, true, false, Option, none, some, ◌==◌, Result, ok, err, ◌>>=◌, if◌then◌else◌,
}
use development_conveyor.Json.{Json, str, obj, Fields, json_eq, member}
use development_conveyor.Dict.{or_null, or_else, int_of}
use development_conveyor.Ledger.Check.{Environment}
use development_conveyor.Lease.Writer.{System, Process}

-- What stands at the path; `document` holds the text's JSON value.
pub data LockFile : Type 0 where
  missing unreadable : LockFile
  document : Json → LockFile

-- The raises of locks.py.
pub data LockError : Type 0 where
  lock_unreadable lock_not_object : LockError
  reservation_exists other_run release_refused : LockError
  no_lock other_repository foreign_host process_unproven evidence_exists : LockError
  other_feature owner_ambiguous owner_alive appeared_concurrently writer_release_refused : LockError
  writer_exists planning_absent planning_mismatch session_mismatch planning_release_refused :
      LockError

abbrev pub Step : Type 0 → Type 0
Step A = LockFile → Result LockError A × LockFile

unfoldable pub read_lock : LockFile → Result LockError (Option Fields)
read_lock missing = ok none
read_lock unreadable = err lock_unreadable
read_lock (document (obj d)) = ok (some d)
read_lock (document _) = err lock_not_object

-- `os.open` with `O_CREAT | O_EXCL`, and the write behind it.
unfoldable pub create : LockError → Fields → Step Fields
create e d missing = (ok d, document (obj d))
create e d s = (err e, s)

-- `unlink` where the test of `release` lets it, or nothing where there is no lock.
abbrev pub may_remove : (Fields → Bool) → LockError → Option Fields → Result LockError Bool
may_remove owns e none = ok false
may_remove owns e (some d) = if owns d then ok true else err e

abbrev pub remove : Result LockError Bool → Step Unit
remove (err e) s = (err e, s)
remove (ok true) s = (ok tt, missing)
remove (ok false) s = (ok tt, s)

unfoldable pub release_by : (Fields → Bool) → LockError → Step Unit
unfolding read_lock
release_by owns e s = remove (read_lock s >>= may_remove owns e) s

-- `str(value)`
abbrev pub text_of : System → Json → String
text_of system (str s) = s
text_of system v = system.str_of v

-- `Path(str(value)).expanduser().resolve()`
abbrev pub resolved : System → Json → String
resolved system v = system.resolve (system.expand_user (text_of system v))

-- `record.get(first) or record.get(second)`
abbrev pub either_of : String → String → Fields → Json
either_of first second d = or_null (or_else (member first (obj d)) (member second (obj d)))

-- `process_alive(int(pid)) if host == socket.gethostname() and isinstance(pid, int) else None`
abbrev pub owner_alive_at : System → Process → Json → Json → Option Bool
owner_alive_at system p host pid =
    if host == str p.host
    then elim (int_of pid) [ none ↦ none | some n ↦ system.process_alive n ]
    else none

module _ (env : Environment) where
  -- `atomic_write_json` redacts what it writes; the caller has the record.
  abbrev pub rewrite : Result LockError Fields → Step Fields
  rewrite (err e) s = (err e, s)
  rewrite (ok d) s = (ok d, document (env.redact_value (obj d)))
