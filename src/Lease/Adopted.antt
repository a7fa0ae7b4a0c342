-- ===== src/Lease/Adopted.antt =====
-- The lease that a child process of the controller checks and beats, in
-- src/development_conveyor/workflow_lease.py.
use mathlib.Core.Path.{subst}
use development_conveyor.Base.{
  String, ◌≡◌, refl, ap, ◌∙◌, true, some, all, is_some, ok, guard, ◌>>◌, bind-ok, guard-bind-ok,
  ok-injective, ◌==◌, string_eq, option_eq, bool_eq, eq_of_beq,
}
use development_conveyor.Json.{null, str, Fields, json_eq, get_field}
use development_conveyor.Lease.Record.{
  WorkflowLeaseRecord, to_dict, incomplete_identity, identity_mismatch, bound_to_session,
  owner_host_differs, owner_dead, owner_start_differs,
}
use development_conveyor.Lease.Site.{Site, read_lease}
use development_conveyor.Lease.Writer.{System, Process, alive, process_start_evidence}
use development_conveyor.Lease.Methods.{stamped}
use development_conveyor.Lease.Adoption.{
  revalidate_adopted, check_adopted, check_owner, heartbeat_adopted, compared_fields, agrees_at,
}
use development_conveyor.Lease.RoundTrip.{stamped-to_dict}
use development_conveyor.Lease.Rewrites.{Rewritten, rewrite_outcome, revalidate_adopted-ok}

-- What the checks of an adopted lease establish.
pub record IsAdoptable (system : System) (p : Process) (expected : Fields) (r : WorkflowLeaseRecord)
    : Type 0 where
  pub agrees : all (agrees_at (to_dict r) expected) (compared_fields (to_dict r) expected) ≡ true
  pub sessionless : r.session_id ≡ null
  pub host : r.owner_host ≡ str p.host
  pub living : alive system r.owner_pid ≡ ok (some true)
  pub start : str (process_start_evidence system r.owner_pid) ≡ r.owner_process_start

module _ (system : System) (p : Process) where
  check_owner-ok :
      (r : WorkflowLeaseRecord) {t : WorkflowLeaseRecord}
      → check_owner system p r ≡ ok t
      → (r ≡ t)
        × (r.session_id ≡ null)
        × (r.owner_host ≡ str p.host)
        × (alive system r.owner_pid ≡ ok (some true))
        × (str (process_start_evidence system r.owner_pid) ≡ r.owner_process_start)
  check_owner-ok r h =
      let (free, rest) = guard-bind-ok (r.session_id == null) bound_to_session _ h in
      let (here, rest) = guard-bind-ok (r.owner_host == str p.host) owner_host_differs _ rest in
      let (living, known, rest) =
        bind-ok (alive system r.owner_pid)
          (λ living.
            guard (living == some true) owner_dead
            >> (guard (str (process_start_evidence system r.owner_pid) == r.owner_process_start)
                  owner_start_differs
                >> ok r))
          rest in
      let (lives, rest) = guard-bind-ok (living == some true) owner_dead _ rest in
      let (started, returned) =
        guard-bind-ok (str (process_start_evidence system r.owner_pid) == r.owner_process_start)
          owner_start_differs _ rest in
      (
        ok-injective returned,
        eq_of_beq free,
        eq_of_beq here,
        known ∙ ap ok (eq_of_beq {a = living} lives),
        eq_of_beq started,
      )

  check_adopted-ok :
      (expected : Fields) (r : WorkflowLeaseRecord) {t : WorkflowLeaseRecord}
      → check_adopted system p expected r ≡ ok t
      → (r ≡ t) × IsAdoptable system p expected r
  check_adopted-ok expected r h =
      let compared = compared_fields (to_dict r) expected in
      let (complete, rest) =
        guard-bind-ok (all (λ k. is_some (get_field k expected)) compared) incomplete_identity _
          h in
      let (agree, rest) =
        guard-bind-ok (all (agrees_at (to_dict r) expected) compared) identity_mismatch _ rest in
      let (same, free, here, living, started) = check_owner-ok r rest in
      (
        same,
        record {
          agrees = agree;
          sessionless = free;
          host = here;
          living = living;
          start = started;
        },
      )

  -- `revalidate_adopted` returns the record of the file, and only if it agrees with the expected
  -- identity on every compared field, has no session, and its owner is a living process of this host
  -- with the recorded start.
  pub revalidate_adopted-IsAdoptable :
      (expected : Fields) (s : Site) {r : WorkflowLeaseRecord}
      → revalidate_adopted system p expected s ≡ ok r
      → (read_lease s ≡ ok (some r)) × IsAdoptable system p expected r
  revalidate_adopted-IsAdoptable expected s h =
      let (found, reading, checked) = revalidate_adopted-ok system p expected s h in
      let (same, adoptable) = check_adopted-ok expected found checked in
      (reading ∙ ap (λ x. ok (some x)) same, subst (IsAdoptable system p expected) same adoptable)

  -- `heartbeat_adopted` returns the record of the file with a new heartbeat, and the file then holds
  -- it, if `revalidate_adopted` returns that record; it raises what that raises, and writes nothing.
  pub heartbeat_adopted_outcome :
      (expected : Fields) (stamp : String) (s : Site)
      → Rewritten s
          (revalidate_adopted system p expected s)
          (λ r. record r { last_heartbeat = str stamp })
          (heartbeat_adopted system p expected stamp s)
  unfolding heartbeat_adopted
  heartbeat_adopted_outcome expected stamp s =
      rewrite_outcome s (λ r. record r { last_heartbeat = str stamp }) (λ r. refl)
        (revalidate_adopted system p expected s) (λ r. stamped stamp (to_dict r))
        (stamped-to_dict stamp) (λ r h. (revalidate_adopted-IsAdoptable expected s h).0)
