-- ===== src/Locks/Witnesses.antt =====
-- The theorems on locks at small locks, held by a process that has ended.
use development_conveyor.Base.{
  ◌≡◌, ◌⊎◌, refl, true, false, all, none, some, List, [], ◌∷◌, Result, ok, err,
}
use development_conveyor.Json.{obj, end, Fields, json_beq}
use development_conveyor.Ledger.Check.{Environment}
use development_conveyor.Lease.Writer.{System, Process}
use development_conveyor.Locks.File.{LockFile, document, LockError, reservation_exists, read_lock}
use development_conveyor.Locks.Reservation.{make_lock_record, acquire, recover_stale}
use development_conveyor.Locks.Planning.{PlanningClaim, planning_record, revalidate, bind_session}
use development_conveyor.Locks.Writers.{Claim, new_record}
use development_conveyor.Locks.Reserved.{
  Call, acquiring, beating, releasing, recovering, held, is_foreign, run, reserved_by_one,
}
use development_conveyor.Locks.Recovery.{IsRecovered, recover_stale_outcome}
use development_conveyor.Locks.Takeover.{Takeover, acquire_or_resume-Takeover}

abbrev toy : Environment
toy = record { digest = λ v. "digest"; redact_value = λ v. v; str_of = λ v. "None" }

-- No process of the recorded host runs.
abbrev quiet : System
quiet = record {
  join = λ parts. "";
  expand_user = λ t. t;
  resolve = λ t. t;
  text_digest = λ t. t;
  process_alive = λ n. some false;
  ps_lstart = λ v. "";
  str_of = λ v. "None";
}

abbrev owner : Process
owner = record { host = "here"; pid = 41 }

abbrev stranger : Process
stranger = record { host = "there"; pid = 7 }

abbrev reservation : Fields
reservation = make_lock_record owner "now" "demo" "identity" "run-1" none "discover"

abbrev calls : List Call
calls =
    acquiring end
    ∷ beating "run-2" "phase" "later"
    ∷ releasing "run-2"
    ∷ recovering stranger "identity"
    ∷ []

strange : all (is_foreign toy quiet reservation) calls ≡ true
unfolding json_beq
strange = refl

reserved_by_one_example :
    (run toy quiet calls (held reservation []) ≡ held reservation [])
    × (acquire end (run toy quiet calls (held reservation [])).file
        ≡ (err reservation_exists, document (obj reservation)))
reserved_by_one_example = reserved_by_one toy quiet reservation end [] calls strange

recover_stale_outcome_example :
    ((d : Fields) × ((recover_stale quiet owner "identity" (held reservation [])).0 ≡ ok d)
      × IsRecovered quiet owner "identity"
          (held reservation [])
          d
          (recover_stale quiet owner "identity" (held reservation [])).1)
    ⊎ ((e : LockError) × (recover_stale quiet owner "identity" (held reservation [])
          ≡ (err e, held reservation [])))
recover_stale_outcome_example = recover_stale_outcome quiet owner "identity" (held reservation [])

abbrev claim : Claim
claim = record {
  repository = "/repo";
  feature = "f1";
  branch = "b";
  run_id = "run-1";
  stamp = "now";
}

acquire_or_resume-Takeover_example :
    Takeover toy quiet owner claim (document (obj (new_record owner claim)))
acquire_or_resume-Takeover_example =
    acquire_or_resume-Takeover toy quiet owner claim (document (obj (new_record owner claim)))

abbrev planning : PlanningClaim
planning = record {
  repository = "/repo";
  repository_identity = "identity";
  project_id = "demo";
  milestone = "m1";
  run_id = "run-1";
  session_id = none;
  branch = "main";
  head = "head";
  worktree_fingerprint = "clean";
  allowed_paths = "plan.md" ∷ [];
  stamp = "now";
}

abbrev planned : LockFile
planned = document (obj (planning_record owner planning))

abbrev bound : Result LockError Fields × LockFile
bound = bind_session toy quiet "/repo" "run-1" "a" "later" planned

abbrev fields_of : Result LockError Fields → Fields
fields_of (ok d) = d
fields_of (err e) = end

binds :
    bind_session toy quiet "/repo" "run-1" "a" "later" planned ≡ (ok (fields_of bound.0), bound.1)
unfolding bind_session revalidate read_lock json_beq
binds = refl
