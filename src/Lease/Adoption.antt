-- ===== src/Lease/Adoption.antt =====
-- `revalidate_adopted` and `heartbeat_adopted` of src/development_conveyor/workflow_lease.py: a lease that a
-- living process holds, as its supervisor knows it.
use development_conveyor.Base.{
  String, Bool, true, not, ◌&&◌, some, List, [], ◌∷◌, ◌==◌, string_eq, option_eq, bool_eq, is_some,
  all, contains, select, Result, ok, guard, require, ◌>>=◌, ◌>>◌, if◌then◌else◌,
}
use development_conveyor.Json.{null, str, Fields, json_eq, get_field}
use development_conveyor.Dict.{or_null}
use development_conveyor.Lease.Record.{
  LeaseError, WorkflowLeaseRecord, to_dict, lease_absent, identity_mismatch, incomplete_identity,
  bound_to_session, owner_host_differs, owner_dead, owner_start_differs,
}
use development_conveyor.Lease.Site.{Site, read_lease}
use development_conveyor.Lease.Writer.{System, Process, process_start_evidence, alive}
use development_conveyor.Lease.Methods.{rewrite, stamped}

abbrev pub identity_fields : List String
identity_fields =
    "lease_id" ∷ "lease_type" ∷ "repository_identity" ∷ "repository_path_fingerprint"
    ∷ "repository_path" ∷ "project_id" ∷ "controller_project_id" ∷ "adapter_project_id"
    ∷ "transaction_id" ∷ "workflow_type" ∷ "milestone" ∷ "feature_id" ∷ "feature_branch"
    ∷ "accepted_commit" ∷ "starting_branch" ∷ "starting_head" ∷ "run_id" ∷ "session_id"
    ∷ "owner_pid" ∷ "owner_process_start" ∷ "owner_host" ∷ "allowed_mutations" ∷ []

abbrev pub project_fields : List String
project_fields = "controller_project_id" ∷ "adapter_project_id" ∷ []

-- `value.get(key) is None`
abbrev none_at : String → Fields → Bool
none_at k d = or_null (get_field k d) == null

abbrev legacy_identity : Fields → Fields → Bool
legacy_identity actual expected =
    not (is_some (get_field "controller_project_id" expected))
    && not (is_some (get_field "adapter_project_id" expected))
    && none_at "controller_project_id" actual
    && none_at "adapter_project_id" actual

abbrev pub compared_fields : Fields → Fields → List String
compared_fields actual expected =
    if legacy_identity actual expected
    then select (λ k. not (contains k project_fields)) identity_fields
    else identity_fields

abbrev pub agrees_at : Fields → Fields → String → Bool
agrees_at actual expected k = or_null (get_field k actual) == or_null (get_field k expected)

module _ (system : System) where
  abbrev pub check_owner : Process → WorkflowLeaseRecord → Result LeaseError WorkflowLeaseRecord
  check_owner p r = do
    guard (r.session_id == null) bound_to_session
    guard (r.owner_host == str p.host) owner_host_differs
    living ← alive system r.owner_pid
    guard (living == some true) owner_dead
    guard (str (process_start_evidence system r.owner_pid) == r.owner_process_start)
        owner_start_differs
    ok r

  abbrev pub check_adopted :
      Process → Fields → WorkflowLeaseRecord → Result LeaseError WorkflowLeaseRecord
  check_adopted p expected r = do
    let compared = compared_fields (to_dict r) expected
    guard (all (λ k. is_some (get_field k expected)) compared) incomplete_identity
    guard (all (agrees_at (to_dict r) expected) compared) identity_mismatch
    check_owner p r

  unfoldable pub revalidate_adopted :
      Process → Fields → Site → Result LeaseError WorkflowLeaseRecord
  revalidate_adopted p expected s = do
    found ← read_lease s
    r ← require found lease_absent
    check_adopted p expected r

  unfoldable pub heartbeat_adopted :
      Process → Fields → String → Site → Result LeaseError WorkflowLeaseRecord × Site
  unfolding rewrite
  heartbeat_adopted p expected stamp s =
      rewrite (do r ← revalidate_adopted p expected s; ok (stamped stamp (to_dict r))) s
