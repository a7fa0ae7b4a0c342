-- ===== src/Lease/Tenure.antt =====
-- How a lease begins in src/development_conveyor/workflow_lease.py: what `acquire` demands and makes.
use mathlib.Core.Path.{subst}
use development_conveyor.Base.{
  String, ◌≡◌, refl, sym, ap, ◌∙◌, ◌⊎◌, inl, inr, Bool, true, false, ◌&&◌, Option, none, some, List,
  is_empty, Result, ok, err, guard, ◌>>◌, bind-ok, guard-bind-ok, ok-injective, string_eq,
  option_eq, bool_eq, eq_of_beq, Bool-cases, Result-cases,
}
use development_conveyor.Json.{str, falsy, json_eq}
use development_conveyor.Contracts.{lease_value, workflow_lease}
use development_conveyor.Lease.Record.{
  LeaseError, WorkflowLeaseRecord, to_dict, lease_exists, wrong_lease_type, path_mismatch,
}
use development_conveyor.Lease.Site.{
  Node, missing, Site, stored, reject_links, read_lease, make_parents, create_exclusive,
}
use development_conveyor.Lease.Writer.{
  System, Process, Acquisition, prepare, new_record, write_new, acquire, same_lease, is_missing,
  invoking_worktree, path_agrees,
}
use development_conveyor.Lease.RoundTrip.{
  Holds-read_lease, reject_links-make_parents, from_dict-to_dict, reject_links-stored,
}
use development_conveyor.Lease.Owner.{IsOwnedBy}

missing_of : (t : Node) → is_missing t ≡ true → t ≡ missing
missing_of missing h = refl
missing_of _ h = cc h

abbrev is_ok {ℓ} : {E A : Type ℓ} → Result E A → Bool
is_ok (ok a) = true
is_ok (err e) = false

-- What `acquire` asks for.
abbrev pub may_acquire : System → List String → Acquisition → Site → Bool
may_acquire system path a s =
    same_lease a.lease_type (workflow_lease a.workflow_type)
    && is_ok (reject_links s)
    && is_missing s.target
    && path_agrees system a.repository_path (invoking_worktree system path a.repository_path)
        a.repository_path_fingerprint

-- What the guards of `acquire` establish, and the record that they let through.
pub record IsPrepared (system : System) (path : List String) (p : Process) (a : Acquisition)
    (s : Site) (r : WorkflowLeaseRecord) : Type 0 where
  pub authorized : lease_value a.lease_type ≡ lease_value (workflow_lease a.workflow_type)
  pub unlinked : reject_links s ≡ ok tt
  pub free : s.target ≡ missing
  pub made : r ≡ new_record system p a (invoking_worktree system path a.repository_path)

module _ (system : System) (path : List String) (p : Process) (a : Acquisition) (s : Site) where
  prepare-IsPrepared :
      {r : WorkflowLeaseRecord} → prepare system path p a s ≡ ok r → IsPrepared system path p a s r
  unfolding prepare
  prepare-IsPrepared h =
      let (authorized, rest) =
        guard-bind-ok (same_lease a.lease_type (workflow_lease a.workflow_type)) wrong_lease_type _
          h in
      let worktree = invoking_worktree system path a.repository_path in
      let agrees = path_agrees system a.repository_path worktree a.repository_path_fingerprint in
      let last = guard agrees path_mismatch >> ok (new_record system p a worktree) in
      let (u, unlinked, rest) =
        bind-ok (reject_links s) (λ _. guard (is_missing s.target) lease_exists >> last) rest in
      let (free, rest) = guard-bind-ok (is_missing s.target) lease_exists last rest in
      let (agree, made) =
        guard-bind-ok agrees path_mismatch (ok (new_record system p a worktree)) rest in
      record {
        authorized = eq_of_beq authorized;
        unlinked = unlinked;
        free = missing_of s.target free;
        made = sym (ok-injective made);
      }

prepare_outcome :
    (system : System) (path : List String) (p : Process) (a : Acquisition) (s : Site)
    → ((r : WorkflowLeaseRecord) × (may_acquire system path a s ≡ true)
        × (prepare system path p a s ≡ ok r))
      ⊎ ((e : LeaseError) × (may_acquire system path a s ≡ false)
          × (prepare system path p a s ≡ err e))
unfolding prepare
prepare_outcome system path p a s =
    let worktree = invoking_worktree system path a.repository_path in
    elim (Bool-cases (same_lease a.lease_type (workflow_lease a.workflow_type))) [
      | inr h ↦ inr (wrong_lease_type, rw h refl, rw h refl)
      | inl h ↦ elim (Result-cases (reject_links s)) [
        | inr (e, k) ↦ inr (e, rw (h, k) refl, rw (h, k) refl)
        | inl (u, k) ↦ elim (Bool-cases (is_missing s.target)) [
          | inr l ↦ inr (lease_exists, rw (h, k, l) refl, rw (h, k, l) refl)
          | inl l ↦
              elim (Bool-cases
                (path_agrees system a.repository_path worktree a.repository_path_fingerprint)) [
                  | inr m ↦ inr (path_mismatch, rw (h, k, l, m) refl, rw (h, k, l, m) refl)
                  | inl m ↦
                      inl
                        (new_record system p a worktree, rw (h, k, l, m) refl, rw (h, k, l, m) refl)
                ]
        ]
      ]
    ]

abbrev pub opened : Site → WorkflowLeaseRecord → Site
opened s r = record (make_parents s) { target = stored (to_dict r) }

new_path :
    (system : System) (p : Process) (a : Acquisition) (w : String)
    → (new_record system p a w).repository_path ≡ str w
unfolding new_record
new_path system p a w = refl

write_new_free :
    (system : System) (s : Site) (r : WorkflowLeaseRecord)
    → reject_links s ≡ ok tt
    → s.target ≡ missing
    → write_new system r s ≡ (ok r, opened s r)
unfolding write_new create_exclusive
write_new_free system s r unlinked free = rw (reject_links-make_parents s ∙ unlinked, free) refl

module _ (system : System) (absolute : (t : String) → is_empty (system.resolve t) ≡ false)
    (path : List String) (p : Process) (a : Acquisition) where
  worktree_named : (given : Option String) → is_empty (invoking_worktree system path given) ≡ false
  worktree_named none = absolute _
  worktree_named (some t) = absolute _

  new_record-IsOwnedBy : (w : String) → IsOwnedBy system p (new_record system p a w)
  unfolding new_record
  new_record-IsOwnedBy w = record { host = refl; pid = refl; start = refl }

  prepared_path :
      (s : Site) {r : WorkflowLeaseRecord}
      → IsPrepared system path p a s r
      → falsy r.repository_path ≡ false
  prepared_path s prepared =
      ap (λ x. falsy x.repository_path) prepared.made
      ∙ ap falsy (new_path system p a _)
      ∙ worktree_named a.repository_path

  opened_reads :
      (s : Site) {r : WorkflowLeaseRecord}
      → IsPrepared system path p a s r
      → read_lease (opened s r) ≡ ok (some r)
  opened_reads s {r} prepared = Holds-read_lease (opened s r) (record {
    content = to_dict r;
    unlinked =
        reject_links-stored (make_parents s) (to_dict r)
          (reject_links-make_parents s ∙ prepared.unlinked);
    target = refl;
    typed = from_dict-to_dict r (prepared_path s prepared);
  })

  -- `acquire` creates the lease exactly if the lease type is the one for the workflow, the path has no
  -- link, the file is missing and a given worktree has the claimed fingerprint; what it returns names
  -- the caller, and is what the file then holds. Otherwise it raises and changes nothing. Paths
  -- resolve to texts that are not empty.
  pub acquire_outcome :
      (s : Site)
      → ((r : WorkflowLeaseRecord) × (may_acquire system path a s ≡ true)
          × IsPrepared system path p a s r
          × IsOwnedBy system p r
          × (acquire system path p a s ≡ (ok r, opened s r))
          × (read_lease (opened s r) ≡ ok (some r)))
        ⊎ ((e : LeaseError) × (may_acquire system path a s ≡ false)
            × (acquire system path p a s ≡ (err e, s)))
  unfolding acquire
  acquire_outcome s = elim (prepare_outcome system path p a s) [
    | inl (r, may, h) ↦
        let prepared = prepare-IsPrepared system path p a s h in
        let owned = subst (IsOwnedBy system p) (sym prepared.made) (new_record-IsOwnedBy _) in
        inl (
          r,
          may,
          prepared,
          owned,
          rw h (write_new_free system s r prepared.unlinked prepared.free),
          opened_reads s prepared,
        )
    | inr (e, may, h) ↦ inr (e, may, rw h refl)
  ]
