-- ===== src/Locks/Reserved.antt =====
-- How long the launch reservation of src/development_conveyor/locks.py stands.
use development_conveyor.Base.{
  String, ◌≡◌, refl, ap, ◌∙◌, sym, Bool, true, false, not, ◌&&◌, List, [], ◌∷◌, ◌==◌, string_eq,
  bool_eq, option_eq, all, lookup, is_some, Result, ok, err, guard, ◌>>◌, &&-true,
}
use mathlib.Core.Path.{subst}
use development_conveyor.Json.{str, obj, Fields, json_eq}
use development_conveyor.Dict.{value_at}
use development_conveyor.Ledger.Check.{Environment}
use development_conveyor.Lease.Writer.{System, Process}
use development_conveyor.Locks.File.{
  LockFile, document, LockError, reservation_exists, other_repository, foreign_host,
  process_unproven, evidence_exists, read_lock, create, release_by,
}
use development_conveyor.Locks.Reservation.{
  Directory, acquire, heartbeat, release, recover_stale, is_of_run, proven_dead, evidence_name,
  set_aside,
}

-- A call on the reservation; `recovering` names the process that calls.
pub data Call : Type 0 where
  acquiring : Fields → Call
  beating : String → String → String → Call
  releasing : String → Call
  recovering : Process → String → Call

abbrev pub held : Fields → List (String × LockFile) → Directory
held d kept = record { file = document (obj d); recovered = kept }

not-true : (b : Bool) → not b ≡ true → b ≡ false
not-true true h = cc h
not-true false h = refl

guards_fail :
    (a b c : Bool) (m : Result LockError Fields)
    → not (b && c) ≡ true
    → (e : LockError) × ((guard a other_repository
          >> (guard b foreign_host >> (guard c process_unproven >> m)))
        ≡ err e)
guards_fail false b c m h = (other_repository, refl)
guards_fail true false c m h = (foreign_host, refl)
guards_fail true true false m h = (process_unproven, refl)
guards_fail true true true m h = cc h

module _ (env : Environment) (system : System) where
  unfoldable pub perform : Call → Directory → Directory
  unfolding acquire heartbeat release recover_stale
  perform (acquiring d) s = record s { file = (acquire d s.file).1 }
  perform (beating run phase stamp) s = record s { file = (heartbeat env run phase stamp s.file).1 }
  perform (releasing run) s = record s { file = (release run s.file).1 }
  perform (recovering p identity) s = (recover_stale system p identity s).1

  unfoldable pub run : List Call → Directory → Directory
  unfolding perform
  run [] s = s
  run (c ∷ calls) s = run calls (perform c s)

  -- The call is none of the reservation's run, nor a recovery on its host once its process is known dead.
  abbrev pub is_foreign : Fields → Call → Bool
  is_foreign d (acquiring e) = true
  is_foreign d (beating r phase stamp) = not (is_of_run r d)
  is_foreign d (releasing r) = not (is_of_run r d)
  is_foreign d (recovering p identity) = not (
      value_at "host_identity" (obj d) == str p.host
      && proven_dead system p (value_at "process_id" (obj d)))

  perform_foreign :
      (d : Fields) (kept : List (String × LockFile)) (c : Call)
      → is_foreign d c ≡ true
      → perform c (held d kept) ≡ held d kept
  unfolding perform acquire create heartbeat release release_by recover_stale read_lock
  perform_foreign d kept (acquiring e) f = refl
  perform_foreign d kept (beating r phase stamp) f = rw (not-true (is_of_run r d) f) refl
  perform_foreign d kept (releasing r) f = rw (not-true (is_of_run r d) f) refl
  perform_foreign d kept (recovering p identity) f =
      let fresh = not (is_some (lookup (evidence_name system p d) kept)) in
      let (e, refused) =
        guards_fail (value_at "repository_identity" (obj d) == str identity)
          (value_at "host_identity" (obj d) == str p.host)
          (proven_dead system p (value_at "process_id" (obj d)))
          (guard fresh evidence_exists >> ok d) f in
      ap (λ m. (set_aside system p m (held d kept)).1) refused

  run_foreign :
      (d : Fields) (kept : List (String × LockFile)) (calls : List Call)
      → all (is_foreign d) calls ≡ true
      → run calls (held d kept) ≡ held d kept
  unfolding run
  run_foreign d kept [] f = refl
  run_foreign d kept (c ∷ calls) f =
      let (foreign, later) = &&-true (is_foreign d c) (all (is_foreign d) calls) f in
      ap (run calls) (perform_foreign d kept c foreign) ∙ run_foreign d kept calls later

  -- While a reservation stands, a sequence of calls in which no heartbeat and no release is of its run, and
  -- no recovery comes from its host with its process known dead, leaves the lock and the evidence files as
  -- they are, and after it every acquisition raises and changes nothing.
  pub reserved_by_one :
      (d e : Fields) (kept : List (String × LockFile)) (calls : List Call)
      → all (is_foreign d) calls ≡ true
      → (run calls (held d kept) ≡ held d kept)
        × (acquire e (run calls (held d kept)).file ≡ (err reservation_exists, document (obj d)))
  unfolding acquire create
  reserved_by_one d e kept calls f =
      let same = run_foreign d kept calls f in
      (
        same,
        subst (λ s. acquire e s.file ≡ (err reservation_exists, document (obj d))) (sym same) refl,
      )
