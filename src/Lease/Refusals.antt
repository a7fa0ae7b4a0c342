-- ===== src/Lease/Refusals.antt =====
-- The calls of src/development_conveyor/workflow_lease.py that a held lease refuses.
use development_conveyor.Base.{
  String, ◌≡◌, refl, ◌∙◌, ◌⊎◌, inl, inr, ◌||◌, List, ok, err, guard, require, ◌>>=◌, ◌>>◌, bind-ok,
  guard-bind-ok, ◌==◌, string_eq, Bool-cases, Result-cases,
}
use development_conveyor.Json.{Fields}
use development_conveyor.Contracts.{workflow_lease}
use development_conveyor.Lease.Record.{
  LeaseError, WorkflowLeaseRecord, to_dict, lease_absent, lease_exists, wrong_lease_type,
  appeared_concurrently, unproven_release,
}
use development_conveyor.Lease.Site.{Site, read_lease, make_parents, create_exclusive}
use development_conveyor.Lease.Writer.{
  System, Process, Acquisition, Expectation, resolved, prepare, write_new, acquire, root,
  same_lease,
}
use development_conveyor.Lease.Methods.{revalidate}
use development_conveyor.Lease.Ending.{release, check_release, release_proven}
use development_conveyor.Lease.RoundTrip.{Holds, reject_links-make_parents}

-- A held lease stops every acquisition, by whatever process.
module _ (system : System) (path : List String) (q : Process) {s : Site} {r : WorkflowLeaseRecord}
    (holds : Holds s r) where
  prepare_refused : (a : Acquisition) → (e : LeaseError) × (prepare system path q a s ≡ err e)
  unfolding prepare
  prepare_refused a = elim (Bool-cases (same_lease a.lease_type (workflow_lease a.workflow_type))) [
    | inl h ↦ (lease_exists, rw (h, holds.unlinked, holds.target) refl)
    | inr h ↦ (wrong_lease_type, rw h refl)
  ]

  pub acquire_refused :
      (a : Acquisition) → (e : LeaseError) × (acquire system path q a s ≡ (err e, s))
  unfolding acquire
  acquire_refused a = let (e, refused) = prepare_refused a in (e, rw refused refl)

  create_refused : (d : Fields) → create_exclusive d (make_parents s) ≡ err appeared_concurrently
  unfolding create_exclusive
  create_refused d = rw (reject_links-make_parents s ∙ holds.unlinked, holds.target) refl

  pub write_new_refused :
      (t : WorkflowLeaseRecord) → write_new system t s ≡ (err appeared_concurrently, make_parents s)
  unfolding write_new
  write_new_refused t = rw (create_refused (to_dict t)) refl

  pub Holds-make_parents : Holds (make_parents s) r
  Holds-make_parents = record {
    content = holds.content;
    unlinked = reject_links-make_parents s ∙ holds.unlinked;
    target = holds.target;
    typed = holds.typed;
  }

pub check_release-revalidate :
    (system : System) (path : List String) (q : Process) (e : Expectation) (s : Site)
    {t : WorkflowLeaseRecord}
    → check_release system path q e s ≡ ok t
    → revalidate system q e s ≡ ok t
check_release-revalidate system path q e s h =
    let last = λ (w : String).
      guard (w == root system path || release_proven e) unproven_release
      >> revalidate system q e s in
    let (found, reading, rest) =
      bind-ok (read_lease s)
        (λ found. require found lease_absent >>= λ r. resolved system r.repository_path >>= last)
        h in
    let (r, present, rest) =
      bind-ok (require found lease_absent) (λ r. resolved system r.repository_path >>= last) rest in
    let (w, known, rest) = bind-ok (resolved system r.repository_path) last rest in
    (guard-bind-ok (w == root system path || release_proven e) unproven_release _ rest).1

-- A release takes the same evidence as `revalidate`.
pub release_outcome :
    (system : System) (path : List String) (q : Process) (e : Expectation) (s : Site)
    → ((t : WorkflowLeaseRecord) × (revalidate system q e s ≡ ok t))
      ⊎ ((release system path q e s).1 ≡ s)
unfolding release
release_outcome system path q e s = elim (Result-cases (check_release system path q e s)) [
  | inl (t, h) ↦ inl (t, check_release-revalidate system path q e s h)
  | inr (x, h) ↦ inr (rw h refl)
]
