-- ===== src/Lease/Exclusion.antt =====
-- One writer: what other processes can do to a held lease by the calls of
-- src/development_conveyor/workflow_lease.py, in any order.
use mathlib.Core.Path.{subst}
use development_conveyor.Base.{
  All, String, ◌≡◌, refl, sym, ap, ◌∙◌, inl, inr, some, List, [], ◌∷◌, Result, ok, err,
  ok-injective, some-eq, string_eq, arith,
}
use development_conveyor.Json.{Json, str}
use development_conveyor.Lease.Record.{LeaseError, WorkflowLeaseRecord}
use development_conveyor.Lease.Site.{Site, read_lease, make_parents}
use development_conveyor.Lease.Writer.{System, Process, Acquisition, unconstrained, acquire}
use development_conveyor.Lease.Methods.{integration}
use development_conveyor.Lease.RoundTrip.{read_lease-Holds, Holds-read_lease}
use development_conveyor.Lease.Owner.{IsOwnedBy, revalidate-IsOwnedBy}
use development_conveyor.Lease.Rewrites.{
  Rewritten, heartbeat_outcome, bind_session_outcome, bind_controller_plan_outcome,
  revalidate_plan-ok,
}
use development_conveyor.Lease.Calls.{
  Call, acquiring, finishing, beating, binding_session, binding_plan, beating_adopted, releasing,
  Differ, perform, run,
}
use development_conveyor.Lease.Refusals.{
  acquire_refused, write_new_refused, Holds-make_parents, release_outcome,
}
use development_conveyor.Lease.Adopted.{heartbeat_adopted_outcome}

abbrev beaten : Json → WorkflowLeaseRecord → WorkflowLeaseRecord
beaten stamp r = record r { last_heartbeat = stamp }

-- The same lease, up to its heartbeat.
abbrev pub SameLease : WorkflowLeaseRecord → WorkflowLeaseRecord → Type 0
SameLease r t = t ≡ record r { last_heartbeat = t.last_heartbeat }

abbrev pub HeldAs : WorkflowLeaseRecord → Site → Type 0
HeldAs r s = (t : WorkflowLeaseRecord) × (read_lease s ≡ ok (some t)) × SameLease r t

module _ (system : System) (path : List String) (p q : Process) (other : Differ p q)
    {r : WorkflowLeaseRecord} (owned : IsOwnedBy system p r) where
  not_owner : IsOwnedBy system q r → ⊥
  not_owner b = other (ground (arith, owned.host, b.host)) (sym owned.pid ∙ b.pid)

  not_owner_of :
      (s : Site) {t : WorkflowLeaseRecord}
      → read_lease s ≡ ok (some r)
      → read_lease s ≡ ok (some t)
      → IsOwnedBy system q t
      → ⊥
  not_owner_of s reading again b =
      not_owner (subst (IsOwnedBy system q) (some-eq (ok-injective (sym again ∙ reading))) b)

  refused_rewrite :
      (s : Site) {m : Result LeaseError WorkflowLeaseRecord}
      {f : WorkflowLeaseRecord → WorkflowLeaseRecord}
      {out : Result LeaseError WorkflowLeaseRecord × Site}
      → read_lease s ≡ ok (some r)
      → ((t : WorkflowLeaseRecord) → m ≡ ok t → IsOwnedBy system q t)
      → Rewritten s m f out
      → out.1 ≡ s
  refused_rewrite s reading owner (inl (t, e, again, _, _)) =
      absurd (not_owner_of s reading again (owner t e))
  refused_rewrite s reading owner (inr (e, raised, same)) = ap (λ x. x.1) same

  -- One call of another process leaves the record, up to the heartbeat of an adopted lease.
  keeps_record : (s s' : Site) → read_lease s ≡ ok (some r) → s' ≡ s → HeldAs r s'
  keeps_record s s' reading same = (r, ap read_lease same ∙ reading, refl)

  perform-HeldAs :
      (c : Call) (s : Site) → read_lease s ≡ ok (some r) → HeldAs r (perform system path q c s)
  perform-HeldAs (acquiring a) s reading =
      keeps_record s _ reading
        (ap (λ x. x.1) (acquire_refused system path q (read_lease-Holds s reading) a).1)
  perform-HeldAs (finishing t) s reading =
      let holds = read_lease-Holds s reading in
      let there = Holds-read_lease (make_parents s) (Holds-make_parents system path q holds) in
      (r, ap (λ x. read_lease x.1) (write_new_refused system path q holds t) ∙ there, refl)
  perform-HeldAs (beating t w identity project stamp) s reading = keeps_record s _ reading (
      refused_rewrite s reading
        (λ u h. (revalidate-IsOwnedBy system q (unconstrained t w identity project) s h).1)
        (heartbeat_outcome system q t w identity project stamp s))
  perform-HeldAs (binding_session t w identity project session stamp) s reading =
      keeps_record s _ reading (
        refused_rewrite s reading
          (λ u h. (revalidate-IsOwnedBy system q (unconstrained t w identity project) s h).1)
          (bind_session_outcome system q t w identity project session stamp s))
  perform-HeldAs (binding_plan t identity plan stamp) s reading = keeps_record s _ reading (
      refused_rewrite s reading
        (λ u h.
          (revalidate-IsOwnedBy system q (integration t identity plan) s
            (revalidate_plan-ok system q t identity plan s h).0).1)
        (bind_controller_plan_outcome system q t identity plan stamp s))
  perform-HeldAs (beating_adopted expected stamp) s reading =
      elim (heartbeat_adopted_outcome system q expected stamp s) [
        | inl (t, valid, again, returned, held) ↦
            let same = some-eq (ok-injective (sym again ∙ reading)) in
            (record t { last_heartbeat = str stamp }, held, ap (beaten (str stamp)) same)
        | inr (e, raised, same) ↦ keeps_record s _ reading (ap (λ x. x.1) same)
      ]
  perform-HeldAs (releasing e) s reading = elim (release_outcome system path q e s) [
    | inl (t, h) ↦
        let (again, b, _) = revalidate-IsOwnedBy system q e s h in
        absurd (not_owner_of s reading again b)
    | inr same ↦ keeps_record s _ reading same
  ]

IsOwnedBy-SameLease :
    (system : System) (p : Process) (r t : WorkflowLeaseRecord)
    → SameLease r t
    → IsOwnedBy system p r
    → IsOwnedBy system p t
IsOwnedBy-SameLease system p r t same owned = record {
  host = ap (λ x. x.owner_host) same ∙ owned.host;
  pid = ap (λ x. x.owner_pid) same ∙ owned.pid;
  start = ap (λ x. x.owner_process_start) same ∙ owned.start;
}

SameLease-trans : (r t u : WorkflowLeaseRecord) → SameLease r t → SameLease t u → SameLease r u
SameLease-trans r t u h k = k ∙ ap (beaten u.last_heartbeat) h

module _ (system : System) (path : List String) (p : Process) where
  run-HeldAs :
      (calls : List (Process × Call)) (s : Site) (r : WorkflowLeaseRecord)
      → All (λ c. Differ p c.0) calls
      → IsOwnedBy system p r
      → read_lease s ≡ ok (some r)
      → HeldAs r (run system path calls s)
  run-HeldAs [] s r others owned reading = (r, reading, refl)
  run-HeldAs ((q, c) ∷ rest) s r others owned reading =
      let (t, held, same) = perform-HeldAs system path p q others.0 owned c s reading in
      let still = IsOwnedBy-SameLease system p r t same owned in
      let (u, end, later) = run-HeldAs rest (perform system path q c s) t others.1 still held in
      (u, end, SameLease-trans r t u same later)

  -- While a process holds the lease, every sequence of calls of other processes leaves its record in
  -- the file, but for the heartbeat, and after it every acquisition, by whatever process, raises and
  -- changes nothing.
  pub held_by_one :
      (calls : List (Process × Call)) (s : Site) (r : WorkflowLeaseRecord)
      → All (λ c. Differ p c.0) calls
      → IsOwnedBy system p r
      → read_lease s ≡ ok (some r)
      → HeldAs r (run system path calls s)
        × ((q : Process) (a : Acquisition)
            → (e : LeaseError) × (acquire system path q a (run system path calls s)
                ≡ (err e, run system path calls s)))
  held_by_one calls s r others owned reading =
      let held = run-HeldAs calls s r others owned reading in
      let (t, there, same) = held in
      (held, λ q a. acquire_refused system path q (read_lease-Holds _ there) a)
