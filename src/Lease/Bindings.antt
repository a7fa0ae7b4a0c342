-- ===== src/Lease/Bindings.antt =====
-- The bindings of `bind_controller_plan` in src/development_conveyor/workflow_lease.py, once written.
use mathlib.Core.Path.{subst}
use development_conveyor.Base.{
  All, String, ◌≡◌, sym, ap, ◌∙◌, inl, inr, true, not, ◌||◌, some, List, [], ◌∷◌, is_empty, Result,
  ok, guard-bind-ok, guard-ok, ok-injective, some-eq, string_eq, option_eq, bool_eq, eq_of_beq,
}
use development_conveyor.Json.{Json, str, json_eq}
use development_conveyor.Lease.Record.{
  LeaseError, WorkflowLeaseRecord, binding_changed, incomplete_project, incomplete_refs,
}
use development_conveyor.Lease.Site.{Site, read_lease, make_parents}
use development_conveyor.Lease.Writer.{System, Process}
use development_conveyor.Lease.Methods.{Plan, check_plan, unbound_or}
use development_conveyor.Lease.RoundTrip.{with_plan, read_lease-Holds, Holds-read_lease}
use development_conveyor.Lease.Rewrites.{
  Rewritten, heartbeat_outcome, bind_session_outcome, bind_controller_plan_outcome,
  revalidate_plan-ok,
}
use development_conveyor.Lease.Adopted.{heartbeat_adopted_outcome}
use development_conveyor.Lease.Calls.{
  Call, acquiring, finishing, beating, binding_session, binding_plan, beating_adopted, releasing,
  perform, run,
}
use development_conveyor.Lease.Refusals.{acquire_refused, write_new_refused, Holds-make_parents}

-- Each binding of the record is free or the plan's.
abbrev Bindable : Plan → WorkflowLeaseRecord → Type 0
Bindable plan r =
    (unbound_or plan.controller_project_id r.controller_project_id ≡ true)
    × (unbound_or plan.adapter_project_id r.adapter_project_id ≡ true)
    × (unbound_or plan.feature_branch r.feature_branch ≡ true)
    × (unbound_or plan.accepted_commit r.accepted_commit ≡ true)

-- Each binding of the record is the plan's.
abbrev pub IsBound : Plan → WorkflowLeaseRecord → Type 0
IsBound plan r =
    (r.controller_project_id ≡ str plan.controller_project_id)
    × (r.adapter_project_id ≡ str plan.adapter_project_id)
    × (r.feature_branch ≡ str plan.feature_branch)
    × (r.accepted_commit ≡ str plan.accepted_commit)

check_plan-Bindable :
    (plan : Plan) (r : WorkflowLeaseRecord) → check_plan plan r ≡ ok tt → Bindable plan r
check_plan-Bindable plan r h =
    let (a, rest) =
      guard-bind-ok (not (is_empty plan.controller_project_id || is_empty plan.adapter_project_id))
        incomplete_project _ h in
    let (b, rest) =
      guard-bind-ok (not (is_empty plan.feature_branch || is_empty plan.accepted_commit))
        incomplete_refs _ rest in
    let (c, rest) =
      guard-bind-ok (unbound_or plan.controller_project_id r.controller_project_id) binding_changed
        _ rest in
    let (d, rest) =
      guard-bind-ok (unbound_or plan.adapter_project_id r.adapter_project_id) binding_changed _
        rest in
    let (e, rest) =
      guard-bind-ok (unbound_or plan.feature_branch r.feature_branch) binding_changed _ rest in
    (c, d, e, guard-ok (unbound_or plan.accepted_commit r.accepted_commit) binding_changed rest)

rebound : (v : Json) (s t : String) → v ≡ str s → unbound_or t v ≡ true → str t ≡ str s
rebound v s t h k = sym (eq_of_beq {a = str s} {b = str t} (subst (λ x. unbound_or t x ≡ true) h k))

-- A plan that may be bound to a record bound to another is that plan.
with_plan-IsBound :
    (plan other : Plan) (r : WorkflowLeaseRecord)
    → IsBound plan r
    → Bindable other r
    → IsBound plan (with_plan other r)
with_plan-IsBound plan other r (a, b, c, d) (e, f, g, h) = (
  rebound r.controller_project_id plan.controller_project_id other.controller_project_id a e,
  rebound r.adapter_project_id plan.adapter_project_id other.adapter_project_id b f,
  rebound r.feature_branch plan.feature_branch other.feature_branch c g,
  rebound r.accepted_commit plan.accepted_commit other.accepted_commit d h,
)

abbrev BoundAt : Plan → Site → Type 0
BoundAt plan s = (t : WorkflowLeaseRecord) × (read_lease s ≡ ok (some t)) × IsBound plan t

abbrev pub KeepsLease : Call → Type 0
KeepsLease (releasing e) = ⊥
KeepsLease _ = Unit

module _ (plan : Plan) where
  Rewritten-BoundAt :
      (s : Site) (m : Result LeaseError WorkflowLeaseRecord)
      (f : WorkflowLeaseRecord → WorkflowLeaseRecord)
      (out : Result LeaseError WorkflowLeaseRecord × Site)
      → BoundAt plan s
      → ((r : WorkflowLeaseRecord) → m ≡ ok r → IsBound plan r → IsBound plan (f r))
      → Rewritten s m f out
      → BoundAt plan out.1
  Rewritten-BoundAt s m f out (t, reading, bound) keeps (inl (r, valid, again, returned, held)) =
      let same = some-eq (ok-injective (sym reading ∙ again)) in
      (f r, held, keeps r valid (subst (IsBound plan) same bound))
  Rewritten-BoundAt s m f out (t, reading, bound) keeps (inr (e, raised, same)) =
      (t, ap (λ x. read_lease x.1) same ∙ reading, bound)

  perform-BoundAt :
      (system : System) (path : List String) (q : Process) (c : Call) (s : Site)
      → KeepsLease c
      → BoundAt plan s
      → BoundAt plan (perform system path q c s)
  perform-BoundAt system path q (acquiring a) s k (t, reading, bound) =
      let refused = (acquire_refused system path q (read_lease-Holds s reading) a).1 in
      (t, ap (λ x. read_lease x.1) refused ∙ reading, bound)
  perform-BoundAt system path q (finishing u) s k (t, reading, bound) =
      let holds = read_lease-Holds s reading in
      let there = Holds-read_lease (make_parents s) (Holds-make_parents system path q holds) in
      (t, ap (λ x. read_lease x.1) (write_new_refused system path q holds u) ∙ there, bound)
  perform-BoundAt system path q (beating t w identity project stamp) s k b =
      Rewritten-BoundAt s _ _ _ b (λ r h x. x)
        (heartbeat_outcome system q t w identity project stamp s)
  perform-BoundAt system path q (binding_session t w identity project session stamp) s k b =
      Rewritten-BoundAt s _ _ _ b (λ r h x. x)
        (bind_session_outcome system q t w identity project session stamp s)
  perform-BoundAt system path q (binding_plan t identity other stamp) s k b =
      Rewritten-BoundAt s _ _ _ b
        (λ r h x.
          with_plan-IsBound plan other r x
            (check_plan-Bindable other r (revalidate_plan-ok system q t identity other s h).1))
        (bind_controller_plan_outcome system q t identity other stamp s)
  perform-BoundAt system path q (beating_adopted expected stamp) s k b =
      Rewritten-BoundAt s _ _ _ b (λ r h x. x) (heartbeat_adopted_outcome system q expected stamp s)
  perform-BoundAt system path q (releasing e) s k b = absurd k

  -- Once a lease is bound to the refs of a plan, no sequence of calls without a release, by whatever
  -- processes, the owner included, changes one of the four bindings.
  pub bindings_permanent :
      (system : System) (path : List String) (calls : List (Process × Call)) (s : Site)
      (r : WorkflowLeaseRecord)
      → All (λ c. KeepsLease c.1) calls
      → read_lease s ≡ ok (some r)
      → IsBound plan r
      → BoundAt plan (run system path calls s)
  bindings_permanent system path [] s r keeps reading bound = (r, reading, bound)
  bindings_permanent system path ((q, c) ∷ rest) s r keeps reading bound =
      let (t, there, still) = perform-BoundAt system path q c s keeps.0 (r, reading, bound) in
      bindings_permanent system path rest (perform system path q c s) t keeps.1 there still
