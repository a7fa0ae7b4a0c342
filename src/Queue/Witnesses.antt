-- ===== src/Queue/Witnesses.antt =====
-- A queue of one milestone and two features, and the properties at it.
use development_conveyor.Base.{
  String, true, none, some, List, [], ◌∷◌, ◌≡◌, refl, ◌↔◌, ok, string_eq,
}
use development_conveyor.Json.{Json, str, obj, Fields}
use development_conveyor.Dict.{dict, array}
use development_conveyor.Queue.Names.{Casing}
use development_conveyor.Queue.Item.{Feature, Files}
use development_conveyor.Queue.Load.{FeatureQueue, load}
use development_conveyor.Queue.Select.{
  selection_of, by_order, as_requested, select_next, select_exact,
}
use development_conveyor.Queue.Report.{human_decision_required, reconciliation_classification}
use development_conveyor.Queue.Commit.{
  Repository, Registration, self_source, resolve_feature_commit,
}
use development_conveyor.Queue.WellFormed.{IsWellFormed, load-IsWellFormed}
use development_conveyor.Queue.Order.{IsLeast, select_next-IsLeast}
use development_conveyor.Queue.Choice.{select_next-select_exact}
use development_conveyor.Queue.Classified.{IsTrue, reconciliation_classification_iff}
use development_conveyor.Queue.Resolved.{IsResolved, resolve_feature_commit-IsResolved}

abbrev plain : Casing
plain = record { lower = λ s. s; upper = λ s. s; casefold = λ s. s }

abbrev files : Files
files = record { is_inside = λ root s. true; is_file = λ root s. true }

abbrev feature_entry : String → String → List Json → Fields
feature_entry id status dependencies = dict (
    ("id", str id)
    ∷ ("title", str "A feature")
    ∷ ("status", str status)
    ∷ ("milestone", str "m1")
    ∷ ("dependencies", array dependencies)
    ∷ ("spec", str "docs/f.md")
    ∷ ("acceptance_criteria", array (str "works" ∷ []))
    ∷ [])

abbrev milestone_entry : Fields
milestone_entry = dict (("id", str "m1") ∷ [])

abbrev document : String → Fields
document status = dict (
    ("milestones", array (obj milestone_entry ∷ []))
    ∷ (
      "features",
      array (
          obj (feature_entry "f2" "ready" (str "f1" ∷ []))
          ∷ obj (feature_entry "f1" status [])
          ∷ []),
    )
    ∷ [])

abbrev feature_at : String → String → List String → Fields → Feature
feature_at id status dependencies entry = record {
  id = id;
  title = "A feature";
  status = status;
  milestone = "m1";
  dependencies = dependencies;
  accepted_commit = none;
  entry = entry;
}

abbrev first : String → Feature
first status = feature_at "f1" status [] (feature_entry "f1" status [])

abbrev second : Feature
second = feature_at "f2" "ready" ("f1" ∷ []) (feature_entry "f2" "ready" (str "f1" ∷ []))

abbrev queue : String → FeatureQueue
queue status = record {
  features = second ∷ first status ∷ [];
  milestones = record { id = "m1"; normalized_id = "milestone-1"; entry = milestone_entry } ∷ [];
  path = some "/repository/queue.json";
  repository_root = some "/repository";
}

load-ready :
    load plain files (some "/repository/queue.json") (some "/repository") (document "ready")
    ≡ ok (queue "ready")
unfolding load
load-ready = refl

select_next-ready :
    select_next plain files (queue "ready") " m1" ≡ some (selection_of by_order (first "ready"))
unfolding select_next
select_next-ready = refl

load-IsWellFormed_example : IsWellFormed (queue "ready")
unfolding load
load-IsWellFormed_example =
    load-IsWellFormed plain files (some "/repository/queue.json") (some "/repository")
      (document "ready") refl

select_next-IsLeast_example :
    IsLeast plain files (queue "ready") "m1" (selection_of by_order (first "ready"))
unfolding select_next
select_next-IsLeast_example = select_next-IsLeast plain files (queue "ready") "m1" refl

select_next-select_exact_example :
    select_exact plain files (queue "done") "m1" "f2" ≡ ok (selection_of as_requested second)
unfolding load select_next selection_of
select_next-select_exact_example =
    select_next-select_exact plain files (some "/repository/queue.json") (some "/repository")
      (document "done") (queue "done") "m1" {s = selection_of by_order second} refl refl

reconciliation_classification_iff_example :
    (reconciliation_classification plain files (queue "human_decision_required") "m1"
      ≡ human_decision_required)
    ↔ IsTrue plain files (queue "human_decision_required") "m1" human_decision_required
reconciliation_classification_iff_example =
    reconciliation_classification_iff plain files (queue "human_decision_required") "m1"
      human_decision_required

classification_of_decision :
    reconciliation_classification plain files (queue "human_decision_required") "m1"
    ≡ human_decision_required
unfolding reconciliation_classification
classification_of_decision = refl

abbrev self_entry : Fields
self_entry = dict (
    ("id", str "f1")
    ∷ ("status", str "done")
    ∷ ("milestone", str "m1")
    ∷ ("accepted_commit", str "SELF")
    ∷ ("spec", str "docs/f.md")
    ∷ [])

abbrev self_feature : Feature
self_feature = record {
  id = "f1";
  title = "f1";
  status = "done";
  milestone = "m1";
  dependencies = [];
  accepted_commit = some "SELF";
  entry = self_entry;
}

abbrev repository : Repository
repository = record {
  ref_exists = λ ref. true;
  is_ancestor = λ a b. true;
  file_at_commit = λ commit path. some "f1 is done";
  changed_paths = λ commit. "queue.json" ∷ "docs/RUN_LOG.md" ∷ [];
  relative_to_root = λ path. "queue.json";
  parse = λ text. some (
      dict (
        ("milestones", array (obj milestone_entry ∷ []))
        ∷ ("features", array (obj self_entry ∷ []))
        ∷ []));
}

abbrev registration : Registration
registration = record {
  milestone_branch = some "milestone/m1";
  baseline = some "base";
  registered_commit = some "tip";
  registered_feature = some "feature f1";
}

resolve_feature_commit-IsResolved_example :
    IsResolved plain repository
      (queue "done")
      registration
      self_feature
      (record { feature_id = "f1"; commit = "tip"; source = self_source })
unfolding resolve_feature_commit
resolve_feature_commit-IsResolved_example =
    resolve_feature_commit-IsResolved plain repository (queue "done") registration self_feature refl
