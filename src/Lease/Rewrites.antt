-- ===== src/Lease/Rewrites.antt =====
-- What the methods of src/development_conveyor/workflow_lease.py that rewrite a held lease return and
-- write, on success and on failure.
use mathlib.Core.Path.{subst}
use development_conveyor.Base.{
  String, ◌≡◌, refl, ap, ◌∙◌, ◌⊎◌, inl, inr, some, Result, ok, err, require, ◌>>=◌, bind-ok,
  ok-injective, string_eq, option_eq, bool_eq,
}
use development_conveyor.Json.{str, Fields, falsy, json_eq, set_field}
use development_conveyor.Contracts.{WorkflowType}
use development_conveyor.Lease.Record.{LeaseError, WorkflowLeaseRecord, to_dict, lease_absent}
use development_conveyor.Lease.Site.{Site, read_lease, stored}
use development_conveyor.Lease.Writer.{System, Process, unconstrained}
use development_conveyor.Lease.Methods.{
  Plan, bound, stamped, revalidate, revalidate_plan, check_plan, rewrite, heartbeat, bind_session,
  bind_controller_plan, integration,
}
use development_conveyor.Lease.Adoption.{revalidate_adopted, check_adopted}
use development_conveyor.Lease.RoundTrip.{
  read_lease-Holds, Holds-read_lease, from_dict-to_dict, from_dict-path, write_existing-Holds,
  write_existing-ok, stamped-to_dict, session-to_dict, bound-to_dict, with_plan,
}
use development_conveyor.Lease.Owner.{required_some, revalidate-IsOwnedBy}

-- A rewrite of the record that `m` returns by `f`: it is read, changed and stored, or nothing is.
abbrev pub Rewritten :
    Site
    → Result LeaseError WorkflowLeaseRecord
    → (WorkflowLeaseRecord → WorkflowLeaseRecord)
    → Result LeaseError WorkflowLeaseRecord × Site
    → Type 0
Rewritten s m f out =
    ((r : WorkflowLeaseRecord) × (m ≡ ok r)
      × (read_lease s ≡ ok (some r))
      × (out.0 ≡ ok (f r))
      × (read_lease out.1 ≡ ok (some (f r))))
    ⊎ ((e : LeaseError) × (m ≡ err e) × (out ≡ (err e, s)))

module _ (s : Site) (f : WorkflowLeaseRecord → WorkflowLeaseRecord)
    (path : (r : WorkflowLeaseRecord) → (f r).repository_path ≡ r.repository_path) where
  rewrite_read :
      (r : WorkflowLeaseRecord)
      → read_lease s ≡ ok (some r)
      → (rewrite (ok (to_dict (f r))) s).0 ≡ ok (f r)
        × (read_lease (rewrite (ok (to_dict (f r))) s).1 ≡ ok (some (f r)))
  unfolding rewrite
  rewrite_read r reading =
      let holds = read_lease-Holds s reading in
      let kept = ap falsy (path r) ∙ from_dict-path holds.content holds.typed in
      let typed = from_dict-to_dict (f r) kept in
      let done = write_existing-Holds (to_dict (f r)) s holds in
      let safe = (write_existing-ok (to_dict (f r)) s done).1 in
      (
        rw done typed,
        rw done (
            Holds-read_lease (record s { target = stored (to_dict (f r)) })
              (record { content = to_dict (f r); unlinked = safe; target = refl; typed = typed })),
      )

  pub rewrite_outcome :
      (m : Result LeaseError WorkflowLeaseRecord) (g : WorkflowLeaseRecord → Fields)
      → ((r : WorkflowLeaseRecord) → g r ≡ to_dict (f r))
      → ((r : WorkflowLeaseRecord) → m ≡ ok r → read_lease s ≡ ok (some r))
      → Rewritten s m f (rewrite (m >>= λ r. ok (g r)) s)
  unfolding rewrite
  rewrite_outcome (err e) g same reader = inr (e, refl, refl)
  rewrite_outcome (ok r) g same reader =
      let reading = reader r refl in
      let both = rewrite_read r reading in inl (r, refl, reading, rw same both.0, rw same both.1)

module _ (system : System) (p : Process) where
  -- `heartbeat` returns the record of the file with a new heartbeat, and the file then holds it,
  -- if `revalidate` returns that record; it raises what `revalidate` raises, and writes nothing.
  pub heartbeat_outcome :
      (t : String) (w : WorkflowType) (identity project stamp : String) (s : Site)
      → Rewritten s
          (revalidate system p (unconstrained t w identity project) s)
          (λ r. record r { last_heartbeat = str stamp })
          (heartbeat system p t w identity project stamp s)
  unfolding heartbeat
  heartbeat_outcome t w identity project stamp s =
      rewrite_outcome s (λ r. record r { last_heartbeat = str stamp }) (λ r. refl)
        (revalidate system p (unconstrained t w identity project) s)
        (λ r. stamped stamp (to_dict r)) (stamped-to_dict stamp)
        (λ r h. (revalidate-IsOwnedBy system p (unconstrained t w identity project) s h).0)

  -- `bind_session` returns the record of the file with the session and a new heartbeat, and the file
  -- then holds it, if `revalidate` returns that record; it raises what `revalidate` raises, and
  -- writes nothing.
  pub bind_session_outcome :
      (t : String) (w : WorkflowType) (identity project session stamp : String) (s : Site)
      → Rewritten s
          (revalidate system p (unconstrained t w identity project) s)
          (λ r. record r { session_id = str session; last_heartbeat = str stamp })
          (bind_session system p t w identity project session stamp s)
  unfolding bind_session
  bind_session_outcome t w identity project session stamp s =
      rewrite_outcome s (λ r. record r { session_id = str session; last_heartbeat = str stamp })
        (λ r. refl) (revalidate system p (unconstrained t w identity project) s)
        (λ r. stamped stamp (set_field "session_id" (str session) (to_dict r)))
        (λ r.
          ap (stamped stamp) (session-to_dict session r)
          ∙ stamped-to_dict stamp (record r { session_id = str session }))
        (λ r h. (revalidate-IsOwnedBy system p (unconstrained t w identity project) s h).0)

  pub revalidate_plan-ok :
      (t identity : String) (plan : Plan) (s : Site) {r : WorkflowLeaseRecord}
      → revalidate_plan system p t identity plan s ≡ ok r
      → (revalidate system p (integration t identity plan) s ≡ ok r) × (check_plan plan r ≡ ok tt)
  unfolding revalidate_plan
  revalidate_plan-ok t identity plan s h =
      let (r, valid, rest) =
        bind-ok (revalidate system p (integration t identity plan) s)
          (λ r. check_plan plan r >>= λ _. ok r) h in
      let (u, checked, returned) = bind-ok (check_plan plan r) (λ _. ok r) rest in
      let same = ok-injective returned in
      (valid ∙ ap ok same, subst (λ x. check_plan plan x ≡ ok tt) same checked)

  -- `bind_controller_plan` returns the record of the file with the four bindings and a new heartbeat,
  -- and the file then holds it, if the guards pass; it raises what they raise, and writes nothing.
  pub bind_controller_plan_outcome :
      (t identity : String) (plan : Plan) (stamp : String) (s : Site)
      → Rewritten s
          (revalidate_plan system p t identity plan s)
          (λ r. record (with_plan plan r) { last_heartbeat = str stamp })
          (bind_controller_plan system p t identity plan stamp s)
  unfolding bind_controller_plan
  bind_controller_plan_outcome t identity plan stamp s =
      rewrite_outcome s (λ r. record (with_plan plan r) { last_heartbeat = str stamp }) (λ r. refl)
        (revalidate_plan system p t identity plan s) (λ r. stamped stamp (bound plan (to_dict r)))
        (λ r. ap (stamped stamp) (bound-to_dict plan r) ∙ stamped-to_dict stamp (with_plan plan r))
        (λ r h.
          (revalidate-IsOwnedBy system p (integration t identity plan) s
            (revalidate_plan-ok t identity plan s h).0).0)

  pub revalidate_adopted-ok :
      (expected : Fields) (s : Site) {r : WorkflowLeaseRecord}
      → revalidate_adopted system p expected s ≡ ok r
      → (found : WorkflowLeaseRecord) × (read_lease s ≡ ok (some found))
        × (check_adopted system p expected found ≡ ok r)
  unfolding revalidate_adopted
  revalidate_adopted-ok expected s h =
      let (found, reading, rest) =
        bind-ok (read_lease s)
          (λ found. require found lease_absent >>= check_adopted system p expected) h in
      let (r, present, checked) =
        bind-ok (require found lease_absent) (check_adopted system p expected) rest in
      (r, reading ∙ ap ok (required_some found present), checked)
