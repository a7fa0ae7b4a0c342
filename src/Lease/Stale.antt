-- ===== src/Lease/Stale.antt =====
-- `stale_evidence` of src/development_conveyor/workflow_lease.py: what makes a lease recoverable.
use mathlib.Core.Path.{subst}
use development_conveyor.Base.{
  ◌≡◌, ◌↔◌, refl, sym, ap, ◌∙◌, true, false, Option, none, some, ok, bind-ok, ok-injective, some-eq,
  ◌==◌, string_eq, option_eq, bool_eq, eq_of_beq, beq_of_eq, &&-true,
}
use development_conveyor.Json.{str, json_eq}
use development_conveyor.Lease.Record.{WorkflowLeaseRecord}
use development_conveyor.Lease.Site.{Site, read_lease}
use development_conveyor.Lease.Writer.{System, Process, alive}
use development_conveyor.Lease.Ending.{
  Staleness, alive_here, stale_record, staleness, stale_found, stale_evidence,
}

module _ (system : System) (p : Process) where
  stale_record_iff :
      (r : WorkflowLeaseRecord) {e : Staleness}
      → stale_record system p r ≡ ok (some e)
      → (e.recoverable ≡ true)
        ↔ ((r.owner_host ≡ str p.host) × (alive system r.owner_pid ≡ ok (some false)))
  stale_record_iff r {e} h =
      let here = r.owner_host == str p.host in
      let (living, known, made) =
        bind-ok (alive_here system here r.owner_pid)
          (λ living. ok (some (staleness system p r living))) h in
      let same = ap (λ x. x.recoverable) (some-eq (ok-injective made)) in
      (
        λ t.
            let (is_here, dead) = &&-true here (living == some false) (same ∙ t) in
            (
              eq_of_beq is_here,
              subst (λ b. alive_here system b r.owner_pid ≡ ok living) is_here known
                  ∙ ap ok (eq_of_beq {a = living} dead),
            ),
        λ both.
            let is_here = beq_of_eq both.0 in
            let there = subst (λ b. alive_here system b r.owner_pid ≡ ok living) is_here known in
            let dead = ok-injective (sym there ∙ both.1) in sym same ∙ rw (is_here, dead) refl,
      )

  found_recoverable :
      (s : Site) (found : Option WorkflowLeaseRecord) {e : Staleness}
      → read_lease s ≡ ok found
      → stale_found system p found ≡ ok (some e)
      → (r : WorkflowLeaseRecord) × (read_lease s ≡ ok (some r))
        × ((e.recoverable ≡ true)
            ↔ ((r.owner_host ≡ str p.host) × (alive system r.owner_pid ≡ ok (some false))))
  found_recoverable s none reading h = cc h
  found_recoverable s (some r) reading h = (r, reading, stale_record_iff r h)

  -- If `stale_evidence` returns evidence of a lease, it calls it recoverable exactly if the recorded
  -- host is this one and the recorded process is known not to run.
  pub stale_evidence_recoverable :
      (s : Site) {e : Staleness}
      → stale_evidence system p s ≡ ok (some e)
      → (r : WorkflowLeaseRecord) × (read_lease s ≡ ok (some r))
        × ((e.recoverable ≡ true)
            ↔ ((r.owner_host ≡ str p.host) × (alive system r.owner_pid ≡ ok (some false))))
  unfolding stale_evidence
  stale_evidence_recoverable s {e} h =
      let (found, reading, rest) = bind-ok (read_lease s) (stale_found system p) h in
      found_recoverable s found reading rest
