-- ===== src/Lease/Witnesses.antt =====
-- A lease of a toy repository, and the theorems of the lease at it.
use development_conveyor.Base.{
  String, ◌≡◌, refl, true, false, none, some, List, [], ◌∷◌, ok, err, arith,
}
use development_conveyor.Json.{json_beq}
use development_conveyor.Contracts.{milestone_integration, integration_writer}
use development_conveyor.Transaction.{MutationPolicy}
use development_conveyor.Lease.Record.{
  LeaseError, WorkflowLeaseRecord, to_dict, from_dict, policy_to_dict,
}
use development_conveyor.Lease.Site.{
  missing, directory, Site, reject_links, read_lease, make_parents,
}
use development_conveyor.Lease.Writer.{System, Process, Acquisition, new_record, acquire}
use development_conveyor.Lease.RoundTrip.{from_dict-to_dict}
use development_conveyor.Lease.Methods.{Plan, revalidate}
use development_conveyor.Lease.Adoption.{revalidate_adopted}
use development_conveyor.Lease.Ending.{Staleness, staleness, release, stale_evidence}
use development_conveyor.Lease.RoundTrip.{with_plan}
use development_conveyor.Lease.Owner.{IsOwnedBy}
use development_conveyor.Lease.Calls.{
  Call, acquiring, finishing, beating, beating_adopted, binding_session, releasing, Differ, run,
}
use development_conveyor.Lease.Exclusion.{HeldAs, held_by_one}
use development_conveyor.Lease.Tenure.{may_acquire, opened}
use development_conveyor.Lease.Handback.{own, release-acquire}
use development_conveyor.Lease.Bindings.{IsBound, bindings_permanent}

abbrev toy : System
toy = record {
  join = λ parts. "/repo";
  expand_user = λ t. t;
  resolve = λ t. "/repo";
  text_digest = λ t. "digest";
  process_alive = λ n. some true;
  ps_lstart = λ v. "Mon Jan 5 10:00:00 2026";
  str_of = λ v. "41";
}

abbrev path : List String
path = "/" ∷ "repo" ∷ ".factory" ∷ "locks" ∷ "writer.json" ∷ []

abbrev owner : Process
owner = record { host = "alpha"; pid = 41 }

abbrev rival : Process
rival = record { host = "alpha"; pid = 42 }

abbrev policy : MutationPolicy
policy = record {
  allowed_paths = "app.py" ∷ [];
  allowed_prefixes = [];
  denied_paths = [];
  denied_prefixes = [];
  allow_untracked = false;
  require_clean_start = true;
  commit_subject = none;
}

abbrev request : Acquisition
request = record {
  lease_type = integration_writer;
  repository_identity = "identity";
  repository_path_fingerprint = "digest";
  repository_path = some "/repo";
  project_id = "demo";
  transaction_id = "t1";
  workflow_type = milestone_integration;
  milestone = some "M1";
  feature_id = some "F-1";
  starting_branch = "main";
  starting_head = "abc";
  run_id = "run-1";
  session_id = none;
  policy = policy;
  stamp = "2026-01-05T10:00:00Z";
  fresh_id = "lease-1";
}

-- The lease directory does not exist yet.
abbrev free : Site
free = record { ancestors = directory ∷ missing ∷ []; target = missing }

abbrev taken : WorkflowLeaseRecord
taken = new_record toy owner request "/repo"

abbrev held : Site
held = opened free taken

held_reads : read_lease held ≡ ok (some taken)
unfolding read_lease new_record to_dict from_dict policy_to_dict
held_reads = refl

taken-IsOwnedBy : IsOwnedBy toy owner taken
unfolding new_record
taken-IsOwnedBy = record { host = refl; pid = refl; start = refl }

differ : Differ owner rival
differ h k = ground arith

-- Every kind of call, by the rival.
abbrev calls : List (Process × Call)
calls =
    (rival, acquiring request)
    ∷ (rival, finishing taken)
    ∷ (rival, beating "t1" milestone_integration "identity" "demo" "later")
    ∷ (rival, beating_adopted (to_dict taken) "later")
    ∷ (rival, releasing (own request))
    ∷ []

held_by_one_example :
    HeldAs taken (run toy path calls held)
    × ((q : Process) (a : Acquisition)
        → (e : LeaseError) × (acquire toy path q a (run toy path calls held)
            ≡ (err e, run toy path calls held)))
held_by_one_example =
    held_by_one toy path owner calls held taken (differ, (differ, (differ, (differ, (differ, tt)))))
      taken-IsOwnedBy held_reads

free_acquirable : may_acquire toy path request free ≡ true
unfolding reject_links
free_acquirable = refl

release-acquire_example :
    release toy path owner (own request) (acquire toy path owner request free).1
    ≡ (ok tt, record (make_parents free) { target = missing })
release-acquire_example =
    release-acquire toy (λ t. refl) path owner request free free_acquirable refl

abbrev plan : Plan
plan = record {
  controller_project_id = "demo";
  adapter_project_id = "demo-adapter";
  feature_branch = "feature/F-1";
  accepted_commit = "def";
}

abbrev bound_site : Site
bound_site = opened free (with_plan plan taken)

bound_reads : read_lease bound_site ≡ ok (some (with_plan plan taken))
unfolding read_lease new_record to_dict from_dict policy_to_dict
bound_reads = refl

abbrev binding_calls : List (Process × Call)
binding_calls =
    (owner, binding_session "t1" milestone_integration "identity" "demo" "s1" "later")
    ∷ (rival, acquiring request)
    ∷ []

bindings_permanent_example :
    (t : WorkflowLeaseRecord) × (read_lease (run toy path binding_calls bound_site) ≡ ok (some t))
    × IsBound plan t
bindings_permanent_example =
    bindings_permanent plan toy path binding_calls bound_site (with_plan plan taken) (tt, (tt, tt))
      bound_reads (refl, refl, refl, refl)

taken_adoptable : revalidate_adopted toy rival (to_dict taken) held ≡ ok taken
unfolding revalidate_adopted read_lease new_record to_dict from_dict policy_to_dict json_beq
taken_adoptable = refl

-- The owner has died.
abbrev after_crash : System
after_crash = record toy { process_alive = λ n. some false }

abbrev evidence : Staleness
evidence = staleness after_crash rival taken (some false)

evidence_found : stale_evidence after_crash rival held ≡ ok (some evidence)
unfolding stale_evidence read_lease new_record to_dict from_dict policy_to_dict json_beq
evidence_found = refl

taken_valid : revalidate toy owner (own request) held ≡ ok taken
unfolding revalidate read_lease new_record to_dict from_dict policy_to_dict json_beq
taken_valid = refl

from_dict-to_dict_example : from_dict (to_dict taken) ≡ ok taken
unfolding new_record
from_dict-to_dict_example = from_dict-to_dict taken refl
