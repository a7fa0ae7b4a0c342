-- ===== src/Queue/Resolved.antt =====
-- What a commit that `resolve_feature_commit` of src/development_conveyor/queue.py returns is known to be.
use mathlib.Core.Path.{subst}
use development_conveyor.Base.{
  String, Bool, true, false, not, ◌&&◌, Option, none, some, ◌==◌, string_eq, ◌≡◌, refl, ap, ◌∙◌,
  inl, inr, ◌⊎◌, Bool-cases, &&-true, not-true, some-eq, eq_of_beq, ok, bind-ok, guard-bind-ok,
  guard-ok, require-bind-ok, ok-eq, any, contains, is_substring,
}
use development_conveyor.Json.{
  Json, null, bool, int, fraction, str, arr, obj, get_field, text_of, falsy,
}
use development_conveyor.Dict.{or_else}
use development_conveyor.Queue.Names.{Casing, complete_statuses}
use development_conveyor.Queue.Item.{Feature, specification_of}
use development_conveyor.Queue.Load.{FeatureQueue}
use development_conveyor.Queue.Query.{feature}
use development_conveyor.Queue.Commit.{
  Repository, CommitSource, queue_source, self_source, CommitResolution, Registration,
  missing_commit, not_completed, no_association, other_feature, missing_candidate,
  missing_milestone_branch, not_contained, no_starting_point, not_descendant, no_queue_path,
  queue_absent, candidate_queue_invalid, no_matching_evidence, queue_unchanged, lacks_evidence,
  not_corroborated, evidence_unchanged, nonempty, starting_point_of, queue_of, evidence_in,
  is_mentioned, check_evidence, exists_in, evidence_paths, resolve_self, resolve_reference,
  resolve_feature_commit,
}

is_unset : Option Json → Bool
is_unset none = true
is_unset (some v) = falsy v

-- The starting point of a feature: its integration base, or the registered baseline where it has none.
pub IsStart : Feature → Option String → String → Type 0
IsStart f baseline start =
    (get_field "integration_base_commit" f.entry ≡ some (str start))
    ⊎ ((is_unset (get_field "integration_base_commit" f.entry) ≡ true) × (baseline ≡ some start))

-- The commit was registered for the feature, is contained in the milestone's branch, descends from the feature's
-- starting point, which exists and is written otherwise than the commit, and changed the queue; its status
-- document and its run log name the feature.
pub IsSelf : Casing → Repository → FeatureQueue → Registration → Feature → String → Type 0
IsSelf c r q given f commit =
    (f.accepted_commit ≡ some "SELF")
    × (contains f.status complete_statuses ≡ true)
    × (nonempty given.registered_commit ≡ some commit)
    × ((branch : String) × (nonempty given.milestone_branch ≡ some branch)
        × (r.ref_exists branch ≡ true)
        × (r.is_ancestor commit branch ≡ true))
    × ((start : String) × IsStart f given.baseline start
        × (r.ref_exists start ≡ true)
        × ((commit == start) ≡ false)
        × (r.is_ancestor start commit ≡ true))
    × ((path : String) × (q.path ≡ some path)
        × (contains (r.relative_to_root path) (r.changed_paths commit) ≡ true))
    × (is_mentioned c f.id (r.file_at_commit commit "docs/CURRENT_STATUS.md") ≡ true)
    × (is_mentioned c f.id (r.file_at_commit commit "docs/RUN_LOG.md") ≡ true)

pub IsCommitOf :
    Casing → Repository → FeatureQueue → Registration → Feature → String → CommitSource → Type 0
IsCommitOf c r q given f commit queue_source = f.accepted_commit ≡ some commit
IsCommitOf c r q given f commit self_source = IsSelf c r q given f commit

-- A resolution is of the feature, its commit exists, and its source vouches for it.
pub IsResolved :
    Casing → Repository → FeatureQueue → Registration → Feature → CommitResolution → Type 0
IsResolved c r q given f found =
    (CommitResolution.feature_id found ≡ f.id)
    × (r.ref_exists (CommitResolution.commit found) ≡ true)
    × IsCommitOf c r q given f (CommitResolution.commit found) (CommitResolution.source found)

exists_in-ok :
    (r : Repository) (m : Option String) {s : String}
    → exists_in r m ≡ some s
    → (m ≡ some s) × (r.ref_exists s ≡ true)
exists_in-ok r none h = cc h
exists_in-ok r (some t) h = elim (Bool-cases (r.ref_exists t)) [
  | inl k ↦
      let same = some-eq (rw k at h) in (ap some same, subst (λ z. r.ref_exists z ≡ true) same k)
  | inr k ↦ cc (rw k at h)
]

text_of-str : (v : Option Json) {s : String} → text_of v ≡ some s → v ≡ some (str s)
text_of-str none h = cc h
text_of-str (some (str s)) h = ap (λ s. some (str s)) (some-eq h)
text_of-str (some (obj d)) h = cc h
text_of-str (some null) h = cc h
text_of-str (some (bool b)) h = cc h
text_of-str (some (int n)) h = cc h
text_of-str (some (fraction n p)) h = cc h
text_of-str (some (arr xs)) h = cc h

or_else-cases :
    (v w : Option Json) {x : Json}
    → or_else v w ≡ some x
    → (v ≡ some x) ⊎ ((is_unset v ≡ true) × (w ≡ some x))
unfolding is_unset
or_else-cases none w h = inr (refl, h)
or_else-cases (some v) w h = elim (Bool-cases (falsy v)) [
  | inl k ↦ inr (k, rw k at h)
  | inr k ↦ inl (rw k at h)
]

starting_point_of-IsStart :
    (f : Feature) (baseline : Option String) {start : String}
    → starting_point_of f baseline ≡ some (str start)
    → IsStart f baseline start
unfolding IsStart
starting_point_of-IsStart f none h =
    elim (or_else-cases (get_field "integration_base_commit" f.entry) none h) [
      | inl own ↦ inl own
      | inr other ↦ cc (other.1)
    ]
starting_point_of-IsStart f (some s) h =
    elim (or_else-cases (get_field "integration_base_commit" f.entry) (some (str s)) h) [
      | inl own ↦ inl own
      | inr (unset, same) ↦ inr (unset, ap text_of same)
    ]

check_evidence-ok :
    (c : Casing) (r : Repository) (candidate feature_id path : String)
    → (path == "") ≡ false
    → check_evidence c r candidate feature_id (some path) ≡ ok tt
    → is_mentioned c feature_id (r.file_at_commit candidate path) ≡ true
unfolding check_evidence
check_evidence-ok c r candidate feature_id path filled h =
    guard-ok (is_mentioned c feature_id (r.file_at_commit candidate path)) not_corroborated
      (rw filled at h)

resolve_self-IsResolved :
    (c : Casing) (r : Repository) (q : FeatureQueue) (given : Registration) (f : Feature)
    {found : CommitResolution}
    → f.accepted_commit ≡ some "SELF"
    → resolve_self c r q given f ≡ ok found
    → IsResolved c r q given f found
unfolding resolve_self IsResolved IsCommitOf IsSelf
resolve_self-IsResolved c r q given f self h =
    let (done, h1) = guard-bind-ok (contains f.status complete_statuses) not_completed _ h in
    let (candidate, registered, h2) =
      require-bind-ok (nonempty given.registered_commit) no_association _ h1 in
    let (label, labelled, h3) =
      require-bind-ok (nonempty given.registered_feature) no_association _ h2 in
    let (same, h4) =
      guard-bind-ok (is_substring (c.casefold f.id) (c.casefold label)) other_feature _ h3 in
    let (there, h5) = guard-bind-ok (r.ref_exists candidate) missing_candidate _ h4 in
    let (branch, branched, h6) =
      require-bind-ok (exists_in r (nonempty given.milestone_branch)) missing_milestone_branch _
        h5 in
    let (contained, h7) = guard-bind-ok (r.is_ancestor candidate branch) not_contained _ h6 in
    let (start, started, h8) =
      require-bind-ok (exists_in r (text_of (starting_point_of f given.baseline))) no_starting_point
        _ h7 in
    let (later, h9) =
      guard-bind-ok (not (candidate == start) && r.is_ancestor start candidate) not_descendant _
        h8 in
    let (queue_path, kept, h10) = require-bind-ok (q.path) no_queue_path _ h9 in
    let (queue_text, read, h11) =
      require-bind-ok (r.file_at_commit candidate (r.relative_to_root queue_path)) queue_absent _
        h10 in
    let (candidate_queue, parsed, h12) =
      require-bind-ok (queue_of c (r.parse queue_text)) candidate_queue_invalid _ h11 in
    let (evidence, shown, h13) =
      require-bind-ok (evidence_in (feature candidate_queue f.id)) no_matching_evidence _ h12 in
    let (changed, h14) =
      guard-bind-ok (contains (r.relative_to_root queue_path) (r.changed_paths candidate))
        queue_unchanged _ h13 in
    let specification = text_of (specification_of evidence.entry) in
    let (first, checked, h15) = bind-ok (check_evidence c r candidate f.id specification) _ h14 in
    let (second, status, h16) =
      bind-ok (check_evidence c r candidate f.id (some "docs/CURRENT_STATUS.md")) _ h15 in
    let (third, log, h17) =
      bind-ok (check_evidence c r candidate f.id (some "docs/RUN_LOG.md")) _ h16 in
    let (named, naming, h18) = require-bind-ok specification lacks_evidence _ h17 in
    let (touched, out) =
      guard-bind-ok (any (λ path. contains path (r.changed_paths candidate)) (evidence_paths named))
        evidence_unchanged _ h18 in
    let base = starting_point_of f given.baseline in
    let (at_base, start_there) = exists_in-ok r (text_of base) started in
    let (at_branch, branch_there) = exists_in-ok r (nonempty given.milestone_branch) branched in
    let (apart, descends) =
      &&-true (not (candidate == start)) (r.is_ancestor start candidate) later in
    subst (IsResolved c r q given f) (ok-eq out) (
      refl,
      there,
      (
        self,
        done,
        registered,
        (branch, at_branch, branch_there, contained),
        (
          start,
          starting_point_of-IsStart f given.baseline (text_of-str base at_base),
          start_there,
          not-true (candidate == start) apart,
          descends,
        ),
        (queue_path, kept, changed),
        check_evidence-ok c r candidate f.id "docs/CURRENT_STATUS.md" refl status,
        check_evidence-ok c r candidate f.id "docs/RUN_LOG.md" refl log,
      ),
    )

resolve_reference-IsResolved :
    (c : Casing) (r : Repository) (q : FeatureQueue) (given : Registration) (f : Feature)
    (reference : Option String) {found : CommitResolution}
    → f.accepted_commit ≡ reference
    → resolve_reference c r q given f reference ≡ ok (some found)
    → IsResolved c r q given f found
unfolding resolve_reference IsResolved IsCommitOf
resolve_reference-IsResolved c r q given f none e h = cc h
resolve_reference-IsResolved c r q given f (some reference) e h =
    elim (Bool-cases (reference == "SELF")) [
      | inl self ↦
          let (found, resolved, out) =
            bind-ok (resolve_self c r q given f) (λ found. ok (some found)) (rw self at h) in
          subst (IsResolved c r q given f) (some-eq (ok-eq out)) (
            resolve_self-IsResolved c r q given f
              (e ∙ ap some (eq_of_beq {a = reference} {b = "SELF"} self)) resolved)
      | inr other ↦
          let (there, out) =
            guard-bind-ok (r.ref_exists reference) missing_commit _ (rw other at h) in
          subst (IsResolved c r q given f) (some-eq (ok-eq out)) (refl, there, e)
    ]

-- A resolved commit belongs to the feature and exists in the repository. It is the reference of the queue, or,
-- for the reference SELF of a completed feature, it is the registered commit, is contained in the existing
-- milestone branch, changed the queue's file, names the feature in its status document and its run log, and
-- descends from the feature's integration base, or from the registered baseline where there is no such base; that
-- starting point exists and is not written the same as the commit.
pub resolve_feature_commit-IsResolved :
    (c : Casing) (r : Repository) (q : FeatureQueue) (given : Registration) (f : Feature)
    {found : CommitResolution}
    → resolve_feature_commit c r q given f ≡ ok (some found)
    → IsResolved c r q given f found
unfolding resolve_feature_commit
resolve_feature_commit-IsResolved c r q given f h =
    resolve_reference-IsResolved c r q given f f.accepted_commit refl h
