-- ===== src/Lease/Owner.antt =====
-- What a call of src/development_conveyor/workflow_lease.py that succeeds says of the caller, and that
-- the rewrites keep the rest of the record.
use mathlib.Core.Path.{subst}
use development_conveyor.Base.{
  ℕ, ◌≡◌, refl, sym, ap, ◌∙◌, Bool, ◌&&◌, Option, none, some, get_elem?, all, all-get_elem?, Result,
  ok, err, require, ◌>>=◌, bind-ok, guard-bind-ok, ok-injective, string_eq, eq_of_beq, &&-true,
}
use development_conveyor.Json.{str, Fields, json_eq}
use development_conveyor.Lease.Record.{
  LeaseError, WorkflowLeaseRecord, from_dict, lease_absent, identity_mismatch,
}
use development_conveyor.Lease.Site.{Site, read_lease, write_existing}
use development_conveyor.Lease.Writer.{System, Process, pid_of, Expectation, process_start_evidence}
use development_conveyor.Lease.Methods.{
  is_true, checks, replaced, path_meets, verdict, check_record, revalidate, rewrite,
}
use development_conveyor.Lease.RoundTrip.{Holds, write_existing-ok}

-- The record names this process: its host, its number and the evidence of its start.
pub record IsOwnedBy (system : System) (p : Process) (r : WorkflowLeaseRecord) : Type 0 where
  pub host : r.owner_host ≡ str p.host
  pub pid : r.owner_pid ≡ pid_of p
  pub start : r.owner_process_start ≡ str (process_start_evidence system (pid_of p))

pub required_some :
    {A : Type 0} (found : Option A) {r : A} → require found lease_absent ≡ ok r → found ≡ some r
required_some none h = cc h
required_some (some x) h = ap some (ok-injective h)

module _ (system : System) (p : Process) (q : Expectation) where
  pub check_record-IsOwnedBy :
      (r : WorkflowLeaseRecord) {t : WorkflowLeaseRecord}
      → check_record system p q r ≡ ok t
      → (r ≡ t) × IsOwnedBy system p r × (r.transaction_id ≡ str q.transaction_id)
  check_record-IsOwnedBy r h =
      let (same_path, _, guarded) =
        bind-ok (path_meets system q.repository_path r.repository_path) (verdict system p q r) h in
      let (passed, returned) =
        guard-bind-ok (all is_true (checks system p q r) && same_path) identity_mismatch (ok r)
          guarded in
      let every = (&&-true (all is_true (checks system p q r)) same_path passed).0 in
      let at = λ (i : ℕ) (b : Bool) (e : get_elem? (checks system p q r) i ≡ some b).
        all-get_elem? is_true (checks system p q r) i every e in
      (
        ok-injective returned,
        record {
          host = eq_of_beq (at 14 _ refl);
          pid = eq_of_beq (at 15 _ refl);
          start = eq_of_beq (at 16 _ refl);
        },
        eq_of_beq (at 0 _ refl),
      )

  -- `revalidate` returns the record of the file, and only to the process and the transaction that
  -- the record names.
  pub revalidate-IsOwnedBy :
      (s : Site) {r : WorkflowLeaseRecord}
      → revalidate system p q s ≡ ok r
      → (read_lease s ≡ ok (some r))
        × IsOwnedBy system p r
        × (r.transaction_id ≡ str q.transaction_id)
  unfolding revalidate
  revalidate-IsOwnedBy s h =
      let (found, reading, rest) =
        bind-ok (read_lease s) (λ found. require found lease_absent >>= check_record system p q)
          h in
      let (t, present, checked) =
        bind-ok (require found lease_absent) (check_record system p q) rest in
      let (same, owned, transaction) = check_record-IsOwnedBy t checked in
      (
        reading ∙ ap ok (required_some found present ∙ ap some same),
        subst (IsOwnedBy system p) same owned,
        ap (λ x. x.transaction_id) (sym same) ∙ transaction,
      )

replaced-Holds :
    (d : Fields) (s : Site) (w : Result LeaseError Site)
    → write_existing d s ≡ w
    → {t : WorkflowLeaseRecord} → (replaced d s w).0 ≡ ok t
    → (from_dict d ≡ ok t) × Holds (replaced d s w).1 t
replaced-Holds d s (err e) w h = cc h
replaced-Holds d s (ok s') w h =
    let (same, safe) = write_existing-ok d s w in
    (h, record { content = d; unlinked = safe; target = ap (λ x. x.target) same; typed = h })

-- What a rewrite that succeeds returns is the record that the file then holds.
pub rewrite-Holds :
    (m : Result LeaseError Fields) (s : Site) {t : WorkflowLeaseRecord}
    → (rewrite m s).0 ≡ ok t
    → (d : Fields) × (m ≡ ok d) × (from_dict d ≡ ok t) × Holds (rewrite m s).1 t
unfolding rewrite
rewrite-Holds (err e) s h = cc h
rewrite-Holds (ok d) s h =
    let (typed, holds) = replaced-Holds d s (write_existing d s) refl h in (d, refl, typed, holds)
