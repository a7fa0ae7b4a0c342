-- ===== src/Lease/Ending.antt =====
-- `release` and `stale_evidence` of src/development_conveyor/workflow_lease.py.
use development_conveyor.Base.{
  String, Bool, true, false, ◌&&◌, ◌||◌, Option, none, some, List, ◌==◌, string_eq, option_eq,
  bool_eq, is_some, Result, ok, err, guard, require, ◌>>=◌, ◌>>◌,
}
use development_conveyor.Json.{Json, str, json_eq}
use development_conveyor.Contracts.{WorkflowType}
use development_conveyor.Lease.Record.{
  LeaseError, WorkflowLeaseRecord, lease_absent, unproven_release,
}
use development_conveyor.Lease.Site.{missing, Site, read_lease}
use development_conveyor.Lease.Writer.{
  System, Process, Expectation, resolved, process_start_evidence, alive, root,
}
use development_conveyor.Lease.Methods.{revalidate}

-- A lease of another worktree is released on exact evidence only.
abbrev pub release_proven : Expectation → Bool
release_proven q =
    is_some q.repository_path_fingerprint && is_some q.repository_path && is_some q.run_id

pub record Staleness : Type 0 where
  pub same_host : Bool
  pub process_alive : Option Bool
  pub process_start_matches : Option Bool
  pub recoverable : Bool
  pub timestamp_used_as_stale_proof : Bool
  pub transaction_id : Json
  pub workflow_type : WorkflowType

module _ (system : System) where
  abbrev pub check_release :
      List String → Process → Expectation → Site → Result LeaseError WorkflowLeaseRecord
  check_release path p q s = do
    found ← read_lease s
    r ← require found lease_absent
    worktree ← resolved system r.repository_path
    guard (worktree == root system path || release_proven q) unproven_release
    revalidate system p q s

  abbrev pub unlinked : Site → Result LeaseError WorkflowLeaseRecord → Result LeaseError Unit × Site
  unlinked s (ok r) = (ok tt, record s { target = missing })
  unlinked s (err e) = (err e, s)

  unfoldable pub release :
      List String → Process → Expectation → Site → Result LeaseError Unit × Site
  release path p q s = unlinked s (check_release path p q s)

  -- What `process_alive` answers where the host is this one.
  abbrev pub alive_here : Bool → Json → Result LeaseError (Option Bool)
  alive_here true pid = alive system pid
  alive_here false pid = ok none

  abbrev pub start_matches : Option Bool → WorkflowLeaseRecord → Option Bool
  start_matches (some true) r =
      some (str (process_start_evidence system r.owner_pid) == r.owner_process_start)
  start_matches _ r = none

  abbrev pub staleness : Process → WorkflowLeaseRecord → Option Bool → Staleness
  staleness p r living = record {
    same_host = r.owner_host == str p.host;
    process_alive = living;
    process_start_matches = start_matches living r;
    recoverable = (r.owner_host == str p.host) && living == some false;
    timestamp_used_as_stale_proof = false;
    transaction_id = r.transaction_id;
    workflow_type = r.workflow_type;
  }

  abbrev pub stale_record : Process → WorkflowLeaseRecord → Result LeaseError (Option Staleness)
  stale_record p r = do
    living ← alive_here (r.owner_host == str p.host) r.owner_pid
    ok (some (staleness p r living))

  abbrev pub stale_found :
      Process → Option WorkflowLeaseRecord → Result LeaseError (Option Staleness)
  stale_found p none = ok none
  stale_found p (some r) = stale_record p r

  -- `stale_evidence`; `none` where no lease exists.
  unfoldable pub stale_evidence : Process → Site → Result LeaseError (Option Staleness)
  stale_evidence p s = read_lease s >>= stale_found p
