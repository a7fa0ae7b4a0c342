-- ===== src/Lease/Site.antt =====
-- The lease file as src/development_conveyor/workflow_lease.py sees it: the nodes from the confinement root
-- down to it, the refusal of links, `read`, and the two ways it writes. Disk errors are not modelled.
use development_conveyor.Base.{
  ℕ, String, Option, none, some, List, [], ◌∷◌, ◌==◌, nat_eq, string_eq, Result, ok, err, guard,
  ◌>>=◌, ◌>>◌, map, if◌then◌else◌,
}
use development_conveyor.Json.{Json, obj, Fields}
use development_conveyor.Lease.Record.{
  LeaseError, WorkflowLeaseRecord, from_dict, linked_path, unsafe_ancestor, irregular_file,
  hard_linked, cannot_open, unreadable, not_an_object, appeared_concurrently,
}

-- What `lstat` finds: a regular file has a link count, and a content if its text is JSON.
pub data Node : Type 0 where
  missing link directory special : Node
  regular : ℕ → Option Json → Node

pub record Site : Type 0 where
  pub ancestors : List Node
  pub target : Node

-- `_derive_confinement_root`, on the parts of the path: what stands before `.factory`, else the parent.
abbrev before_factory : List String → Option (List String)
before_factory [] = none
before_factory (x ∷ xs) =
    let rest = before_factory xs in
    if x == ".factory" then some [] else elim rest [ none ↦ none | some ys ↦ some (x ∷ ys) ]

abbrev parent : List String → List String
parent [] = []
parent (x ∷ []) = []
parent (x ∷ y ∷ xs) = x ∷ parent (y ∷ xs)

unfoldable pub derive_confinement_root : List String → List String
derive_confinement_root parts = elim (before_factory parts) [
  | none ↦ parent parts
  | some root ↦ root
]

abbrev pub check_ancestors : List Node → Result LeaseError Unit
check_ancestors [] = ok tt
check_ancestors (missing ∷ rest) = check_ancestors rest
check_ancestors (directory ∷ rest) = check_ancestors rest
check_ancestors (link ∷ rest) = err linked_path
check_ancestors (special ∷ rest) = err unsafe_ancestor
check_ancestors (regular n c ∷ rest) = err unsafe_ancestor

abbrev pub check_target : Node → Result LeaseError Unit
check_target link = err linked_path
check_target _ = ok tt

-- `_reject_symlinked_target_or_ancestors`
unfoldable pub reject_links : Site → Result LeaseError Unit
reject_links s = check_ancestors s.ancestors >> check_target s.target

abbrev object_of : Option Json → Result LeaseError Fields
object_of none = err unreadable
object_of (some (obj d)) = ok d
object_of (some _) = err not_an_object

abbrev typed : Result LeaseError Fields → Result LeaseError (Option WorkflowLeaseRecord)
typed m = do d ← m; r ← from_dict d; ok (some r)

abbrev pub read_target : Node → Result LeaseError (Option WorkflowLeaseRecord)
read_target missing = ok none
read_target (regular n c) = guard (n == 1) unreadable >> typed (object_of c)
read_target link = err cannot_open
read_target _ = err unreadable

-- `read`
unfoldable pub read_lease : Site → Result LeaseError (Option WorkflowLeaseRecord)
unfolding reject_links
read_lease s = reject_links s >> read_target s.target

-- `_validate_descriptor`, behind the open of an existing file.
abbrev pub check_descriptor : Node → Result LeaseError Unit
check_descriptor missing = err cannot_open
check_descriptor link = err cannot_open
check_descriptor (regular n c) = guard (n == 1) hard_linked
check_descriptor _ = err irregular_file

abbrev pub stored : Fields → Node
stored value = regular 1 (some (obj value))

-- `_write_existing`: the temporary file replaces the target.
unfoldable pub write_existing : Fields → Site → Result LeaseError Site
unfolding reject_links
write_existing value s = do
  reject_links s
  check_descriptor s.target
  ok (record s { target = stored value })

-- `mkdir(parents=True, exist_ok=True)`
abbrev pub made : Node → Node
made missing = directory
made n = n

abbrev pub make_parents : Site → Site
make_parents s = record s { ancestors = map made s.ancestors }

abbrev pub vacant : Node → Result LeaseError Unit
vacant missing = ok tt
vacant _ = err appeared_concurrently

-- The open with O_EXCL at the end of `acquire`, and the write behind it.
unfoldable pub create_exclusive : Fields → Site → Result LeaseError Site
unfolding reject_links
create_exclusive value s = do
  reject_links s
  vacant s.target
  ok (record s { target = stored value })
