-- ===== src/Contracts/RoundTrip.antt =====
-- A session's result, written as a `dict` and read again.
use mathlib.Core.Path.{subst}
use development_conveyor.Base.{
  String, true, not, ◌||◌, Option, none, some, List, [], ◌∷◌, ◌==◌, string_eq, ◌≡◌, refl, ◌∙◌, inl,
  inr, Bool-cases, some-eq, ok-eq, ok, ◌>>=◌, ◌>>◌, guard, bind-ok, guard-bind-ok, guard-pass,
  require-bind-ok, all, contains, is_some, same_texts, same_texts-eq,
}
use development_conveyor.Json.{
  Json, null, bool, int, fraction, str, arr, obj, Fields, get_field, keys,
}
use development_conveyor.Dict.{text_array, text_or_null}
use development_conveyor.Contracts.{WorkflowType, workflow_type-workflow_value}
use development_conveyor.Mutation.{normalized_paths}
use development_conveyor.Contracts.Envelope.{
  SessionResultEnvelope, missing_fields, invalid_workflow, wrong_version, invalid_classification,
  paths_not_texts, paths_not_normalized, evidence_not_object, empty_identity, missing_feature,
  workflow_classifications, required_fields, is_one, named_workflow, classified, paths_in,
  path_list, tell_path, check_paths, object_at, check_evidence, is_filled, text_at, identity_fields,
  needs_feature, feature_of, check_feature, from_dict, to_dict,
}

is_filled-text_at : (v : Option Json) → is_filled v ≡ is_filled (some (str (text_at v)))
is_filled-text_at none = refl
is_filled-text_at (some (str t)) = refl
is_filled-text_at (some null) = refl
is_filled-text_at (some (bool b)) = refl
is_filled-text_at (some (int n)) = refl
is_filled-text_at (some (fraction n p)) = refl
is_filled-text_at (some (arr xs)) = refl
is_filled-text_at (some (obj d)) = refl

classified-again :
    (w : WorkflowType) (v : Option Json) {s : String}
    → classified w v ≡ some s
    → classified w (some (str s)) ≡ some s
classified-again w none h = cc h
classified-again w (some (str t)) h = elim (Bool-cases (contains t (workflow_classifications w))) [
  | inl k ↦ subst (λ s. classified w (some (str s)) ≡ some s) (some-eq (rw k at h)) (rw k refl)
  | inr k ↦ cc (rw k at h)
]
classified-again w (some null) h = cc h
classified-again w (some (bool b)) h = cc h
classified-again w (some (int n)) h = cc h
classified-again w (some (fraction n p)) h = cc h
classified-again w (some (arr xs)) h = cc h
classified-again w (some (obj d)) h = cc h

paths_in-text_array : (xs : List String) → paths_in (text_array xs) ≡ some xs
paths_in-text_array [] = refl
paths_in-text_array (x ∷ xs) = rw (paths_in-text_array xs) refl

-- Accepted paths are unchanged.
check_paths-same :
    (changed : List String) {normalized : List String}
    → check_paths changed ≡ ok normalized
    → changed ≡ normalized
unfolding check_paths
check_paths-same changed h =
    let (found, read, h1) = bind-ok (tell_path (normalized_paths changed)) _ h in
    let (same, out) = guard-bind-ok (same_texts changed found) paths_not_normalized _ h1 in
    same_texts-eq changed found same ∙ ok-eq out

feature_of-again :
    (v : Option Json) {f : Option String}
    → feature_of v ≡ ok f
    → feature_of (some (text_or_null f)) ≡ ok f
feature_of-again none h = subst (λ f. feature_of (some (text_or_null f)) ≡ ok f) (ok-eq h) refl
feature_of-again (some null) h =
    subst (λ f. feature_of (some (text_or_null f)) ≡ ok f) (ok-eq h) refl
feature_of-again (some (str t)) h = elim (Bool-cases (t == "")) [
  | inl k ↦ cc (rw k at h)
  | inr k ↦ subst (λ f. feature_of (some (text_or_null f)) ≡ ok f) (ok-eq (rw k at h)) (rw k refl)
]
feature_of-again (some (bool b)) h = cc h
feature_of-again (some (int n)) h = cc h
feature_of-again (some (fraction n p)) h = cc h
feature_of-again (some (arr xs)) h = cc h
feature_of-again (some (obj d)) h = cc h

check_feature-again :
    (w : WorkflowType) (v : Option Json) {f : Option String}
    → check_feature w v ≡ ok f
    → check_feature w (some (text_or_null f)) ≡ ok f
unfolding check_feature
check_feature-again w v h =
    let (f, read, h1) = bind-ok (feature_of v) _ h in
    let (given, out) = guard-bind-ok (not (needs_feature w) || is_some f) missing_feature _ h1 in
    subst
      (λ f.
        (feature_of (some (text_or_null f)) >>= λ f.
        guard (not (needs_feature w) || is_some f) missing_feature >> ok f)
        ≡ ok f)
      (ok-eq out) (rw (feature_of-again v read) (rw given refl))

abbrev pub envelope_of :
    WorkflowType → String → List String → Fields → Option String → Fields → SessionResultEnvelope
envelope_of workflow classification changed evidence feature value = record {
  workflow_type = workflow;
  classification = classification;
  project_id = text_at (get_field "project_id" value);
  repository_identity = text_at (get_field "repository_identity" value);
  transaction_id = text_at (get_field "transaction_id" value);
  run_id = text_at (get_field "run_id" value);
  session_id = text_at (get_field "session_id" value);
  starting_branch = text_at (get_field "starting_branch" value);
  starting_commit = text_at (get_field "starting_commit" value);
  current_commit = text_at (get_field "current_commit" value);
  feature_id = feature;
  changed_paths = changed;
  evidence = evidence;
  next_state = text_at (get_field "next_state" value);
}

identities_kept :
    (w : WorkflowType) (s : String) (paths : List String) (evidence : Fields)
    (feature : Option String) (value : Fields)
    → all (λ k. is_filled (get_field k value)) identity_fields ≡ true
    → all
        (λ k. is_filled (get_field k (to_dict (envelope_of w s paths evidence feature value))))
        identity_fields
      ≡ true
unfolding to_dict
identities_kept w s paths evidence feature value h =
    rw
      (
        is_filled-text_at (get_field "project_id" value),
        is_filled-text_at (get_field "repository_identity" value),
        is_filled-text_at (get_field "transaction_id" value),
        is_filled-text_at (get_field "run_id" value),
        is_filled-text_at (get_field "session_id" value),
        is_filled-text_at (get_field "starting_branch" value),
        is_filled-text_at (get_field "starting_commit" value),
        is_filled-text_at (get_field "current_commit" value),
        is_filled-text_at (get_field "next_state" value),
      )
      at h

-- What is read back of a result whose parts pass the checks.
written :
    (w : WorkflowType) (s : String) (paths : List String) (evidence : Fields)
    (feature : Option String) (value : Fields)
    → classified w (some (str s)) ≡ some s
    → check_paths paths ≡ ok paths
    → check_evidence w evidence ≡ ok tt
    → all (λ k. is_filled (get_field k value)) identity_fields ≡ true
    → check_feature w (some (text_or_null feature)) ≡ ok feature
    → from_dict (to_dict (envelope_of w s paths evidence feature value))
      ≡ ok (envelope_of w s paths evidence feature value)
unfolding from_dict to_dict
written w s paths evidence feature value c p v identity f = rw (workflow_type-workflow_value w) (
    rw c (
      rw (paths_in-text_array paths) (
        rw p (
          rw v (
            guard-pass
              (all
                (λ k.
                  is_filled (get_field k (to_dict (envelope_of w s paths evidence feature value))))
                identity_fields)
              empty_identity _ (identities_kept w s paths evidence feature value identity)
            ∙ rw f refl)))))

-- What the checks of a result that is read have found.
pub record IsRead (value : Fields) (e : SessionResultEnvelope) : Type 0 where
  pub workflow : WorkflowType
  pub kind : String
  pub paths : List String
  pub evidence : Fields
  pub feature : Option String
  pub named : named_workflow (get_field "workflow_type" value) ≡ some workflow
  pub classifies : classified workflow (get_field "classification" value) ≡ some kind
  pub checked : check_paths paths ≡ ok paths
  pub valid : check_evidence workflow evidence ≡ ok tt
  pub identity : all (λ k. is_filled (get_field k value)) identity_fields ≡ true
  pub needed : check_feature workflow (get_field "feature_id" value) ≡ ok feature
  pub result : envelope_of workflow kind paths evidence feature value ≡ e

pub from_dict-IsRead :
    (value : Fields) {e : SessionResultEnvelope} → from_dict value ≡ ok e → IsRead value e
unfolding from_dict
from_dict-IsRead value h =
    let (present, h1) =
      guard-bind-ok (all (λ k. contains k (keys value)) required_fields) missing_fields _ h in
    let (workflow, named, h2) =
      require-bind-ok (named_workflow (get_field "workflow_type" value)) invalid_workflow _ h1 in
    let (one, h3) = guard-bind-ok (is_one (get_field "schema_version" value)) wrong_version _ h2 in
    let (classification, c, h4) =
      require-bind-ok (classified workflow (get_field "classification" value))
        invalid_classification _ h3 in
    let (changed, listed, h5) =
      require-bind-ok (path_list (get_field "changed_paths" value)) paths_not_texts _ h4 in
    let (normalized, checked, h6) = bind-ok (check_paths changed) _ h5 in
    let (evidence, object, h7) =
      require-bind-ok (object_at (get_field "evidence" value)) evidence_not_object _ h6 in
    let (validated, valid, h8) = bind-ok (check_evidence workflow evidence) _ h7 in
    let (identity, h9) =
      guard-bind-ok (all (λ k. is_filled (get_field k value)) identity_fields) empty_identity _
        h8 in
    let (feature, f, out) = bind-ok (check_feature workflow (get_field "feature_id" value)) _ h9 in
    record {
      workflow = workflow;
      kind = classification;
      paths = normalized;
      evidence = evidence;
      feature = feature;
      named = named;
      classifies = c;
      checked =
          subst (λ z. check_paths z ≡ ok normalized) (check_paths-same changed checked) checked;
      valid = valid;
      identity = identity;
      needed = f;
      result = ok-eq out;
    }

-- A result that is read is written as one that is read as the same result.
pub from_dict-to_dict_again :
    (value : Fields) {e : SessionResultEnvelope}
    → from_dict value ≡ ok e
    → from_dict (to_dict e) ≡ ok e
from_dict-to_dict_again value h =
    let r = from_dict-IsRead value h in
    subst (λ e. from_dict (to_dict e) ≡ ok e) r.result
      (written r.workflow r.kind r.paths r.evidence r.feature value
        (classified-again r.workflow (get_field "classification" value) r.classifies) r.checked
        r.valid r.identity (check_feature-again r.workflow (get_field "feature_id" value) r.needed))
