-- ===== src/Lease/RoundTrip.antt =====
-- The JSON form of a lease record of src/development_conveyor/workflow_lease.py reads back as the
-- record, from `from_dict` and from the file.
use mathlib.Core.Path.{subst}
use development_conveyor.Base.{
  ℕ, String, ◌≡◌, refl, sym, ap, ◌∙◌, false, not, Option, none, some, List, [], ◌∷◌, map, Result,
  ok, err, guard, ◌>>=◌, ◌>>◌, bind-ok, guard-bind-ok, ok-injective, some-eq, ◌==◌, nat_eq,
  eq_of_beq, arith,
}
use development_conveyor.Json.{Json, null, str, obj, Fields, falsy, set_field}
use development_conveyor.Contracts.{lease_type-lease_value, workflow_type-workflow_value}
use development_conveyor.Lease.Record.{
  LeaseError, WorkflowLeaseRecord, to_dict, from_dict, fields_of, with_path, untyped_lease,
}
use development_conveyor.Lease.Methods.{Plan, bound, stamped}
use development_conveyor.Lease.Site.{
  Node, missing, link, directory, special, regular, Site, reject_links, check_ancestors,
  read_target, read_lease, stored, write_existing, make_parents, made, check_target,
  check_descriptor,
}

-- A lease record whose repository path is not empty, null or zero is what `from_dict` reads from its `to_dict`.
pub from_dict-to_dict :
    (r : WorkflowLeaseRecord) → falsy r.repository_path ≡ false → from_dict (to_dict r) ≡ ok r
unfolding from_dict to_dict
from_dict-to_dict r h =
    rw (lease_type-lease_value r.lease_type, workflow_type-workflow_value r.workflow_type, h, h)
      refl

with_path-ok :
    (r : WorkflowLeaseRecord) {t : WorkflowLeaseRecord}
    → (guard (not (falsy r.repository_path)) untyped_lease >> ok r) ≡ ok t
    → falsy t.repository_path ≡ false
with_path-ok r h =
    let (p, e) = guard-bind-ok (not (falsy r.repository_path)) untyped_lease (ok r) h in
    ap (λ x. falsy x.repository_path) (sym (ok-injective e)) ∙ ground (arith, p)

pub from_dict-path :
    (d : Fields) {r : WorkflowLeaseRecord} → from_dict d ≡ ok r → falsy r.repository_path ≡ false
unfolding from_dict
from_dict-path d h = let (t, p, e) = bind-ok (fields_of d) with_path h in with_path-ok t e

-- The three rewrites of a record change the named fields of its JSON form, and no other.
pub stamped-to_dict :
    (stamp : String) (r : WorkflowLeaseRecord)
    → stamped stamp (to_dict r) ≡ to_dict (record r { last_heartbeat = str stamp })
unfolding to_dict
stamped-to_dict stamp r = refl

pub session-to_dict :
    (session : String) (r : WorkflowLeaseRecord)
    → set_field "session_id" (str session) (to_dict r)
      ≡ to_dict (record r { session_id = str session })
unfolding to_dict
session-to_dict session r = refl

abbrev pub with_plan : Plan → WorkflowLeaseRecord → WorkflowLeaseRecord
with_plan plan r = record r {
  controller_project_id = str plan.controller_project_id;
  adapter_project_id = str plan.adapter_project_id;
  feature_branch = str plan.feature_branch;
  accepted_commit = str plan.accepted_commit;
}

pub bound-to_dict :
    (plan : Plan) (r : WorkflowLeaseRecord) → bound plan (to_dict r) ≡ to_dict (with_plan plan r)
unfolding to_dict
bound-to_dict plan r = refl

-- A lease file that can be read holds an object, in a regular file with one link.
pub record Holds (s : Site) (r : WorkflowLeaseRecord) : Type 0 where
  pub content : Fields
  pub unlinked : reject_links s ≡ ok tt
  pub target : s.target ≡ stored content
  pub typed : from_dict content ≡ ok r

module _ {r : WorkflowLeaseRecord} where
  typed_some :
      (m : Result LeaseError WorkflowLeaseRecord)
      → (m >>= λ x. ok (some x)) ≡ ok (some r)
      → m ≡ ok r
  typed_some (ok x) h = ap ok (some-eq (ok-injective h))
  typed_some (err e) h = cc h

  read_content :
      (n : ℕ) (c : Option Json)
      → read_target (regular n c) ≡ ok (some r)
      → (d : Fields) × (regular n c ≡ stored d) × (from_dict d ≡ ok r)
  read_content n none h = cc (guard-bind-ok (n == 1) _ _ h).1
  read_content n (some null) h = cc (guard-bind-ok (n == 1) _ _ h).1
  read_content n (some (obj d)) h =
      let (one, rest) = guard-bind-ok (n == 1) _ _ h in
      (d, ap (λ k. regular k (some (obj d))) (eq_of_beq one), typed_some (from_dict d) rest)
  read_content n (some _) h = cc (guard-bind-ok (n == 1) _ _ h).1

  read_target-some :
      (t : Node)
      → read_target t ≡ ok (some r)
      → (d : Fields) × (t ≡ stored d) × (from_dict d ≡ ok r)
  read_target-some missing h = cc h
  read_target-some link h = cc h
  read_target-some directory h = cc h
  read_target-some special h = cc h
  read_target-some (regular n c) h = read_content n c h

  pub read_lease-Holds : (s : Site) → read_lease s ≡ ok (some r) → Holds s r
  unfolding read_lease
  read_lease-Holds s h =
      let (u, p, e) = bind-ok (reject_links s) _ h in
      let (d, t, q) = read_target-some s.target e in
      record { content = d; unlinked = p; target = t; typed = q }

  pub Holds-read_lease : (s : Site) → Holds s r → read_lease s ≡ ok (some r)
  unfolding read_lease
  Holds-read_lease s h = rw (h.unlinked, h.target, h.typed) refl

-- A write behind a safe path leaves the path safe and the file with the written object.
pub checked_ancestors :
    (xs : List Node) (t : Node)
    → (check_ancestors xs >> check_target t) ≡ ok tt
    → check_ancestors xs ≡ ok tt
checked_ancestors xs t h =
    let (u, e, rest) = bind-ok (check_ancestors xs) (λ _. check_target t) h in e

pub reject_links-stored :
    (s : Site) (d : Fields)
    → reject_links s ≡ ok tt
    → reject_links (record s { target = stored d }) ≡ ok tt
unfolding reject_links
reject_links-stored s d h = rw (checked_ancestors s.ancestors s.target h) refl

pub write_existing-ok :
    (d : Fields) (s : Site) {s' : Site}
    → write_existing d s ≡ ok s'
    → (s' ≡ record s { target = stored d }) × (reject_links s' ≡ ok tt)
unfolding write_existing
write_existing-ok d s h =
    let (u, safe, rest) =
      bind-ok (reject_links s)
        (λ _. check_descriptor s.target >>= λ _. ok (record s { target = stored d })) h in
    let (v, opened, written) =
      bind-ok (check_descriptor s.target) (λ _. ok (record s { target = stored d })) rest in
    let same = sym (ok-injective written) in
    (same, subst (λ x. reject_links x ≡ ok tt) (sym same) (reject_links-stored s d safe))

-- A record that was read can be written over.
pub write_existing-Holds :
    (d : Fields) (s : Site) {r : WorkflowLeaseRecord}
    → Holds s r
    → write_existing d s ≡ ok (record s { target = stored d })
unfolding write_existing
write_existing-Holds d s h = rw (h.unlinked, h.target) refl

made_ancestors : (xs : List Node) → check_ancestors (map made xs) ≡ check_ancestors xs
made_ancestors [] = refl
made_ancestors (missing ∷ xs) = made_ancestors xs
made_ancestors (directory ∷ xs) = made_ancestors xs
made_ancestors (link ∷ xs) = refl
made_ancestors (special ∷ xs) = refl
made_ancestors (regular n c ∷ xs) = refl

pub reject_links-make_parents : (s : Site) → reject_links (make_parents s) ≡ reject_links s
unfolding reject_links
reject_links-make_parents s = rw (made_ancestors s.ancestors) refl
