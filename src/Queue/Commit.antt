-- ===== src/Queue/Commit.antt =====
-- `resolve_feature_commit` of src/development_conveyor/queue.py: the commit of an accepted feature,
-- with the sentinel SELF that only the candidate commit's own evidence can resolve.
use development_conveyor.Base.{
  String, Bool, true, false, not, ◌&&◌, Option, none, some, List, [], ◌∷◌, ◌==◌, string_eq,
  if◌then◌else◌, Result, ok, err, ◌>>=◌, ◌>>◌, guard, require, any, contains, is_empty,
  is_substring,
}
use development_conveyor.Json.{Json, str, Fields, get_field, text_of}
use development_conveyor.Dict.{or_else}
use development_conveyor.Queue.Names.{Casing, complete_statuses}
use development_conveyor.Queue.Item.{Feature, specification_of}
use development_conveyor.Queue.Load.{FeatureQueue, load}
use development_conveyor.Queue.Query.{feature}

-- What the function asks of the Git repository, the path of the queue below the repository's root, and
-- `json.loads`, of a text that holds an object.
pub record Repository : Type 0 where
  pub ref_exists : String → Bool
  pub is_ancestor : String → String → Bool
  pub file_at_commit : String → String → Option String
  pub changed_paths : String → List String
  pub relative_to_root : String → String
  pub parse : String → Option Fields

pub data CommitSource : Type 0 where
  queue_source self_source : CommitSource

pub record CommitResolution : Type 0 where
  pub feature_id : String
  pub commit : String
  pub source : CommitSource

pub data CommitError : Type 0 where
  missing_commit not_completed no_association other_feature missing_candidate : CommitError
  missing_milestone_branch not_contained no_starting_point not_descendant : CommitError
  no_queue_path queue_absent candidate_queue_invalid no_matching_evidence : CommitError
  queue_unchanged lacks_evidence not_corroborated evidence_unchanged : CommitError

-- The registered association and the branch that a resolution is asked for.
pub record Registration : Type 0 where
  pub milestone_branch : Option String
  pub baseline : Option String
  pub registered_commit : Option String
  pub registered_feature : Option String

abbrev pub nonempty : Option String → Option String
nonempty none = none
nonempty (some s) = if is_empty s then none else some s

-- `feature.get("integration_base_commit") or baseline`
abbrev pub starting_point_of : Feature → Option String → Option Json
starting_point_of f none = or_else (get_field "integration_base_commit" f.entry) none
starting_point_of f (some s) = or_else (get_field "integration_base_commit" f.entry) (some (str s))

unfoldable pub queue_of : Casing → Option Fields → Option FeatureQueue
unfolding load
queue_of c none = none
queue_of c (some document) =
    elim (load c (record { is_inside = λ r s. true; is_file = λ r s. false }) none none document) [
      | ok q ↦ some q
      | err e ↦ none
    ]

abbrev pub is_self : Option String → Bool
is_self none = false
is_self (some s) = s == "SELF"

-- The feature of the candidate's queue, if it is completed and refers to SELF itself.
abbrev pub evidence_in : Option Feature → Option Feature
evidence_in none = none
evidence_in (some f) =
    if is_self f.accepted_commit && contains f.status complete_statuses then some f else none

unfoldable pub is_mentioned : Casing → String → Option String → Bool
unfolding is_substring
is_mentioned c feature_id none = false
is_mentioned c feature_id (some content) = is_substring (c.casefold feature_id) (c.casefold content)

unfoldable pub check_evidence :
    Casing → Repository → String → String → Option String → Result CommitError Unit
unfolding is_mentioned
check_evidence c r candidate feature_id path = do
  evidence_path ← require (nonempty path) lacks_evidence
  guard (is_mentioned c feature_id (r.file_at_commit candidate evidence_path)) not_corroborated

abbrev pub exists_in : Repository → Option String → Option String
exists_in r none = none
exists_in r (some s) = if r.ref_exists s then some s else none

abbrev pub evidence_paths : String → List String
evidence_paths specification = specification ∷ "docs/CURRENT_STATUS.md" ∷ "docs/RUN_LOG.md" ∷ []

-- The resolution of a completed feature that refers to SELF.
unfoldable pub resolve_self :
    Casing
    → Repository
    → FeatureQueue
    → Registration
    → Feature
    → Result CommitError CommitResolution
unfolding queue_of feature check_evidence is_substring
resolve_self c r q given f = do
  guard (contains f.status complete_statuses) not_completed
  candidate ← require (nonempty given.registered_commit) no_association
  registered ← require (nonempty given.registered_feature) no_association
  guard (is_substring (c.casefold f.id) (c.casefold registered)) other_feature
  guard (r.ref_exists candidate) missing_candidate
  branch ← require (exists_in r (nonempty given.milestone_branch)) missing_milestone_branch
  guard (r.is_ancestor candidate branch) not_contained
  start ← require (exists_in r (text_of (starting_point_of f given.baseline))) no_starting_point
  guard (not (candidate == start) && r.is_ancestor start candidate) not_descendant
  queue_path ← require q.path no_queue_path
  let relative_queue = r.relative_to_root queue_path
  queue_text ← require (r.file_at_commit candidate relative_queue) queue_absent
  candidate_queue ← require (queue_of c (r.parse queue_text)) candidate_queue_invalid
  evidence ← require (evidence_in (feature candidate_queue f.id)) no_matching_evidence
  let changed = r.changed_paths candidate
  guard (contains relative_queue changed) queue_unchanged
  let specification = text_of (specification_of evidence.entry)
  first ← check_evidence c r candidate f.id specification
  second ← check_evidence c r candidate f.id (some "docs/CURRENT_STATUS.md")
  third ← check_evidence c r candidate f.id (some "docs/RUN_LOG.md")
  named ← require specification lacks_evidence
  guard (any (λ path. contains path changed) (evidence_paths named)) evidence_unchanged
  ok (record { feature_id = f.id; commit = candidate; source = self_source })

unfoldable pub resolve_reference :
    Casing
    → Repository
    → FeatureQueue
    → Registration
    → Feature
    → Option String
    → Result CommitError (Option CommitResolution)
unfolding resolve_self
resolve_reference c r q given f none = ok none
resolve_reference c r q given f (some reference) =
    if reference == "SELF"
    then (resolve_self c r q given f >>= λ found. ok (some found))
    else (guard (r.ref_exists reference) missing_commit
        >> ok (some (record { feature_id = f.id; commit = reference; source = queue_source })))

unfoldable pub resolve_feature_commit :
    Casing
    → Repository
    → FeatureQueue
    → Registration
    → Feature
    → Result CommitError (Option CommitResolution)
unfolding resolve_reference
resolve_feature_commit c r q given f = resolve_reference c r q given f f.accepted_commit
