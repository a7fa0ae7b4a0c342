-- ===== src/Lease/Handback.antt =====
-- How a lease ends in src/development_conveyor/workflow_lease.py: `release`, alone and right behind `acquire`.
use development_conveyor.Base.{
  String, ◌≡◌, refl, ap, ◌∙◌, ◌⊎◌, inl, inr, true, false, none, some, List, is_empty, ok, err,
  string_eq, option_eq, bool_eq, beq_refl, beq_of_eq, Result-cases,
}
use development_conveyor.Json.{str, json_eq}
use development_conveyor.Contracts.{workflow_lease}
use development_conveyor.Lease.Record.{LeaseError, WorkflowLeaseRecord}
use development_conveyor.Lease.Site.{missing, Site, reject_links, read_lease, make_parents}
use development_conveyor.Lease.Writer.{
  System, Process, Acquisition, Expectation, new_record, acquire, same_lease, unconstrained,
  invoking_worktree, root,
}
use development_conveyor.Lease.Methods.{revalidate, check_record}
use development_conveyor.Lease.Ending.{release, check_release}
use development_conveyor.Lease.RoundTrip.{read_lease-Holds, checked_ancestors}
use development_conveyor.Lease.Owner.{IsOwnedBy, revalidate-IsOwnedBy}
use development_conveyor.Lease.Refusals.{check_release-revalidate}
use development_conveyor.Lease.Tenure.{may_acquire, opened, acquire_outcome}

module _ (system : System) (path : List String) (p : Process) (q : Expectation) (s : Site) where
  vacated : reject_links s ≡ ok tt → read_lease (record s { target = missing }) ≡ ok none
  unfolding read_lease reject_links
  vacated h = rw (checked_ancestors s.ancestors s.target h) refl

  -- `release` removes the lease file if it returns, and then the file named the caller and its
  -- transaction; if it raises, nothing changes.
  pub release_outcome :
      ((r : WorkflowLeaseRecord) × (read_lease s ≡ ok (some r))
        × IsOwnedBy system p r
        × (r.transaction_id ≡ str q.transaction_id)
        × (release system path p q s ≡ (ok tt, record s { target = missing }))
        × (read_lease (record s { target = missing }) ≡ ok none))
      ⊎ ((e : LeaseError) × (release system path p q s ≡ (err e, s)))
  unfolding release
  release_outcome = elim (Result-cases (check_release system path p q s)) [
    | inl (r, h) ↦
        let valid = check_release-revalidate system path p q s h in
        let (reading, owned, transaction) = revalidate-IsOwnedBy system p q s valid in
        let holds = read_lease-Holds s reading in
        inl (r, reading, owned, transaction, rw h refl, vacated holds.unlinked)
    | inr (e, h) ↦ inr (e, rw h refl)
  ]

-- What `release` is asked for by the caller of an `acquire`.
abbrev pub own : Acquisition → Expectation
own a = unconstrained a.transaction_id a.workflow_type a.repository_identity a.project_id

check_record-own :
    (system : System) (p : Process) (a : Acquisition) (w : String)
    → same_lease a.lease_type (workflow_lease a.workflow_type) ≡ true
    → check_record system p (own a) (new_record system p a w) ≡ ok (new_record system p a w)
unfolding new_record
check_record-own system p a w h = simp (beq_refl {0}) (rw h refl)

module _ (system : System) (path : List String) (p : Process) (a : Acquisition) (s : Site)
    (w : String) (authorized : same_lease a.lease_type (workflow_lease a.workflow_type) ≡ true)
    (reading : read_lease s ≡ ok (some (new_record system p a w))) where
  revalidate-own : revalidate system p (own a) s ≡ ok (new_record system p a w)
  unfolding revalidate
  revalidate-own = rw reading (check_record-own system p a w authorized)

  check_release-own :
      system.resolve w ≡ root system path
      → check_release system path p (own a) s ≡ ok (new_record system p a w)
  unfolding new_record
  check_release-own here = rw reading (rw (beq_of_eq here) revalidate-own)

  release-own :
      system.resolve w ≡ root system path
      → release system path p (own a) s ≡ (ok tt, record s { target = missing })
  unfolding release
  release-own here = rw (check_release-own here) refl

module _ (system : System) (absolute : (t : String) → is_empty (system.resolve t) ≡ false)
    (path : List String) (p : Process) (a : Acquisition) (s : Site) where
  -- Where `acquire` may succeed for a worktree that is the confinement root, the caller can release at
  -- once with no more evidence than the transaction, workflow, repository and project of its call, and
  -- the file is then missing again.
  pub release-acquire :
      may_acquire system path a s ≡ true
      → system.resolve (invoking_worktree system path a.repository_path) ≡ root system path
      → release system path p (own a) (acquire system path p a s).1
        ≡ (ok tt, record (make_parents s) { target = missing })
  release-acquire may here = elim (acquire_outcome system absolute path p a s) [
    | inl (r, _, prepared, owned, returned, reading) ↦ rw (ap (λ x. x.1) returned) (
        release-own system path p a (opened s r) (invoking_worktree system path a.repository_path)
          (beq_of_eq prepared.authorized) (reading ∙ ap (λ x. ok (some x)) prepared.made) here)
    | inr (e, refused, _) ↦ cc (may, refused)
  ]
