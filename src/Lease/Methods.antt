-- ===== src/Lease/Methods.antt =====
-- `WorkflowWriterLease` of src/development_conveyor/workflow_lease.py, once a lease is held: its
-- revalidation and the rewrites behind it.
use development_conveyor.Base.{
  String, Bool, true, not, ◌&&◌, ◌||◌, Option, none, some, List, [], ◌∷◌, ◌==◌, string_eq,
  option_eq, bool_eq, is_empty, all, Result, ok, err, guard, require, ◌>>=◌, ◌>>◌,
}
use development_conveyor.Json.{Json, null, str, Fields, json_eq, set_field}
use development_conveyor.Contracts.{WorkflowType, LeaseType, workflow_lease, milestone_integration}
use development_conveyor.Lease.Record.{
  LeaseError, WorkflowLeaseRecord, to_dict, from_dict, lease_absent, identity_mismatch,
  incomplete_project, incomplete_refs, binding_changed,
}
use development_conveyor.Lease.Site.{Site, read_lease, write_existing}
use development_conveyor.Lease.Writer.{
  System, Process, pid_of, wanted, Expectation, unconstrained, same_lease, same_workflow, matches,
  meets, meets_policy, resolved, process_start_evidence,
}

abbrev pub or_expected : Option LeaseType → WorkflowType → LeaseType
or_expected none w = workflow_lease w
or_expected (some t) w = t

abbrev pub is_true : Bool → Bool
is_true b = b

-- The rewrite that ends four of the methods: the new value is written, then read as a record.
abbrev pub replaced :
    Fields → Site → Result LeaseError Site → Result LeaseError WorkflowLeaseRecord × Site
replaced value s (ok s') = (from_dict value, s')
replaced value s (err e) = (err e, s)

unfoldable pub rewrite :
    Result LeaseError Fields → Site → Result LeaseError WorkflowLeaseRecord × Site
rewrite (err e) s = (err e, s)
rewrite (ok value) s = replaced value s (write_existing value s)

abbrev pub stamped : String → Fields → Fields
stamped stamp d = set_field "last_heartbeat" (str stamp) d

-- `value in {None, expected}`; a value that cannot be hashed raises too, with another message.
abbrev pub unbound_or : String → Json → Bool
unbound_or s null = true
unbound_or s v = v == str s

-- The refs that `bind_controller_plan` writes once.
pub record Plan : Type 0 where
  pub controller_project_id : String
  pub adapter_project_id : String
  pub feature_branch : String
  pub accepted_commit : String

abbrev pub bound : Plan → Fields → Fields
bound plan d = set_field "accepted_commit" (str plan.accepted_commit) (
    set_field "feature_branch" (str plan.feature_branch) (
      set_field "adapter_project_id" (str plan.adapter_project_id)
        (set_field "controller_project_id" (str plan.controller_project_id) d)))

abbrev pub integration : String → String → Plan → Expectation
integration t identity plan =
    let q = unconstrained t milestone_integration identity plan.controller_project_id in
    record q { session_id = wanted none }

-- The guards of `bind_controller_plan`, each binding free or as before.
abbrev pub check_plan : Plan → WorkflowLeaseRecord → Result LeaseError Unit
check_plan plan r = do
  guard (not (is_empty plan.controller_project_id || is_empty plan.adapter_project_id))
      incomplete_project
  guard (not (is_empty plan.feature_branch || is_empty plan.accepted_commit)) incomplete_refs
  guard (unbound_or plan.controller_project_id r.controller_project_id) binding_changed
  guard (unbound_or plan.adapter_project_id r.adapter_project_id) binding_changed
  guard (unbound_or plan.feature_branch r.feature_branch) binding_changed
  guard (unbound_or plan.accepted_commit r.accepted_commit) binding_changed

module _ (system : System) where
  abbrev pub path_meets : Option String → Json → Result LeaseError Bool
  path_meets none v = ok true
  path_meets (some given) v = do held ← resolved system v; ok (held == system.resolve given)

  -- The `checks` of `revalidate`, its path comparison aside.
  abbrev pub checks : Process → Expectation → WorkflowLeaseRecord → List Bool
  checks p q r =
      (r.transaction_id == str q.transaction_id)
      ∷ same_workflow r.workflow_type q.workflow_type
      ∷ same_lease r.lease_type (or_expected q.lease_type q.workflow_type)
      ∷ (r.repository_identity == str q.repository_identity)
      ∷ (r.project_id == str q.project_id)
      ∷ matches q.repository_path_fingerprint r.repository_path_fingerprint
      ∷ matches q.lease_id r.lease_id
      ∷ meets q.milestone r.milestone
      ∷ meets q.feature_id r.feature_id
      ∷ matches q.starting_branch r.starting_branch
      ∷ matches q.starting_head r.starting_head
      ∷ matches q.run_id r.run_id
      ∷ meets q.session_id r.session_id
      ∷ meets_policy q.policy r.allowed_mutations
      ∷ (r.owner_host == str p.host)
      ∷ (r.owner_pid == pid_of p)
      ∷ (r.owner_process_start == str (process_start_evidence system (pid_of p)))
      ∷ []

  abbrev pub verdict :
      Process → Expectation → WorkflowLeaseRecord → Bool → Result LeaseError WorkflowLeaseRecord
  verdict p q r same_path = do
    guard (all is_true (checks p q r) && same_path) identity_mismatch
    ok r

  abbrev pub check_record :
      Process → Expectation → WorkflowLeaseRecord → Result LeaseError WorkflowLeaseRecord
  check_record p q r = path_meets q.repository_path r.repository_path >>= verdict p q r

  -- `revalidate`
  unfoldable pub revalidate : Process → Expectation → Site → Result LeaseError WorkflowLeaseRecord
  revalidate p q s = do found ← read_lease s; r ← require found lease_absent; check_record p q r

  unfoldable pub heartbeat :
      Process
      → String
      → WorkflowType
      → String
      → String
      → String
      → Site
      → Result LeaseError WorkflowLeaseRecord × Site
  unfolding rewrite
  heartbeat p t w identity project stamp s =
      rewrite
        (do r ← revalidate p (unconstrained t w identity project) s; ok (stamped stamp (to_dict r)))
        s

  unfoldable pub bind_session :
      Process
      → String
      → WorkflowType
      → String
      → String
      → String
      → String
      → Site
      → Result LeaseError WorkflowLeaseRecord × Site
  unfolding rewrite
  bind_session p t w identity project session stamp s =
      rewrite
        (do
          r ← revalidate p (unconstrained t w identity project) s
          ok (stamped stamp (set_field "session_id" (str session) (to_dict r))))
        s

  unfoldable pub revalidate_plan :
      Process → String → String → Plan → Site → Result LeaseError WorkflowLeaseRecord
  revalidate_plan p t identity plan s = do
    r ← revalidate p (integration t identity plan) s
    check_plan plan r
    ok r

  unfoldable pub bind_controller_plan :
      Process
      → String
      → String
      → Plan
      → String
      → Site
      → Result LeaseError WorkflowLeaseRecord × Site
  unfolding rewrite revalidate_plan
  bind_controller_plan p t identity plan stamp s =
      rewrite
        (do r ← revalidate_plan p t identity plan s; ok (stamped stamp (bound plan (to_dict r)))) s
