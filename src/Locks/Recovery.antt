-- ===== src/Locks/Recovery.antt =====
-- What `DurableLock.recover_stale` of src/development_conveyor/locks.py demands, and what it leaves.
use development_conveyor.Base.{
  String, ◌≡◌, ◌⊎◌, refl, ap, ◌∙◌, sym, inl, inr, true, not, Option, none, some, some-eq, ◌==◌,
  string_eq, lookup, is_some, lookup-insert_self, ok, err, ok-eq, Result-cases, bind-ok, guard,
  guard-bind-ok, ◌>>=◌, ◌>>◌,
}
use mathlib.Core.Path.{subst}
use development_conveyor.Json.{null, bool, int, fraction, str, arr, obj, Fields, json_eq}
use development_conveyor.Dict.{value_at}
use development_conveyor.Lease.Writer.{System, Process}
use development_conveyor.Locks.File.{
  LockFile, missing, unreadable, document, LockError, other_repository, foreign_host,
  process_unproven, evidence_exists, read_lock,
}
use development_conveyor.Locks.Reservation.{
  Directory, recover_stale, proven_dead, evidence_name, check_stale, set_aside,
}

pub read_lock-some : (s : LockFile) {d : Fields} → read_lock s ≡ ok (some d) → s ≡ document (obj d)
unfolding read_lock
read_lock-some missing h = cc h
read_lock-some unreadable h = cc h
read_lock-some (document (obj d)) h = ap (λ x. document (obj x)) (some-eq (ok-eq h))
read_lock-some (document null) h = cc h
read_lock-some (document (bool b)) h = cc h
read_lock-some (document (int n)) h = cc h
read_lock-some (document (fraction n k)) h = cc h
read_lock-some (document (str t)) h = cc h
read_lock-some (document (arr xs)) h = cc h

module _ (system : System) (p : Process) (identity : String) (s : Directory) where
  -- The guards of a recovery.
  pub record IsStale (d : Fields) : Type 0 where
    pub of_repository : (value_at "repository_identity" (obj d) == str identity) ≡ true
    pub of_host : (value_at "host_identity" (obj d) == str p.host) ≡ true
    pub dead : proven_dead system p (value_at "process_id" (obj d)) ≡ true
    pub no_other : not (is_some (lookup (evidence_name system p d) s.recovered)) ≡ true

  check_stale-IsStale :
      (found : Option Fields) {d : Fields}
      → check_stale system p identity s found ≡ ok d
      → (found ≡ some d) × IsStale d
  check_stale-IsStale none h = cc h
  check_stale-IsStale (some x) h =
      let fresh = not (is_some (lookup (evidence_name system p x) s.recovered)) in
      let last = guard fresh evidence_exists >> ok x in
      let dead = proven_dead system p (value_at "process_id" (obj x)) in
      let third = guard dead process_unproven >> last in
      let here = value_at "host_identity" (obj x) == str p.host in
      let (g1, h1) =
        guard-bind-ok (value_at "repository_identity" (obj x) == str identity) other_repository
          (guard here foreign_host >> third) h in
      let (g2, h2) = guard-bind-ok here foreign_host third h1 in
      let (g3, h3) = guard-bind-ok dead process_unproven last h2 in
      let (g4, h4) = guard-bind-ok fresh evidence_exists (ok x) h3 in
      let same = ok-eq h4 in
      (
        ap some same,
        subst IsStale same (record { of_repository = g1; of_host = g2; dead = g3; no_other = g4 }),
      )

  -- A recovery that returned the record `d`.
  pub record IsRecovered (d : Fields) (after : Directory) : Type 0 where
    pub stood : s.file ≡ document (obj d)
    pub stale : IsStale d
    pub removed : after.file ≡ missing
    pub evidence : lookup (evidence_name system p d) after.recovered ≡ some (document (obj d))

  set_aside-IsRecovered :
      (d : Fields)
      → s.file ≡ document (obj d)
      → IsStale d
      → IsRecovered d (set_aside system p (ok d) s).1
  set_aside-IsRecovered d stood stale = record {
    stood = stood;
    stale = stale;
    removed = refl;
    evidence = lookup-insert_self (evidence_name system p d) s.file s.recovered ∙ ap some stood;
  }

  -- `recover_stale` returns the record of the lock only if it names the expected repository and this host,
  -- its process is an integer and known not to run, and no evidence file has the name of its run; then the
  -- lock is gone and the evidence file holds the record. Otherwise it raises and changes nothing.
  pub recover_stale_outcome :
      ((d : Fields) × ((recover_stale system p identity s).0 ≡ ok d)
        × IsRecovered d (recover_stale system p identity s).1)
      ⊎ ((e : LockError) × (recover_stale system p identity s ≡ (err e, s)))
  unfolding recover_stale
  recover_stale_outcome =
      elim (Result-cases (read_lock s.file >>= check_stale system p identity s)) [
        | inl (d, k) ↦
            let (found, reading, checked) =
              bind-ok (read_lock s.file) (check_stale system p identity s) k in
            let (same, stale) = check_stale-IsStale found checked in
            let stood = read_lock-some s.file (reading ∙ ap ok same) in
            inl (
              d,
              ap (λ m. (set_aside system p m s).0) k,
              subst (λ m. IsRecovered d (set_aside system p m s).1) (sym k)
                  (set_aside-IsRecovered d stood stale),
            )
        | inr (e, k) ↦ inr (e, ap (λ m. set_aside system p m s) k)
      ]
