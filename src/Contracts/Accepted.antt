-- ===== src/Contracts/Accepted.antt =====
-- The result that `extract_terminal_envelope` of src/development_conveyor/contracts.py returns belongs to
-- the session that the controller invoked.
use mathlib.Core.Path.{subst}
use development_conveyor.Base.{
  String, ◌≡◌, sym, ap, ◌∙◌, Option, none, some, false, ◌==◌, string_eq, All, Result, ok, err, ◌∷◌,
  bind-ok, guard-bind-ok, ok-eq, all,
}
use development_conveyor.Json.{Json, Fields, get_field}
use development_conveyor.Contracts.{
  queue_reconciliation, workflow_value, workflow_value-workflow_type,
}
use development_conveyor.Contracts.Envelope.{
  SessionResultEnvelope, SchemaValidationError, from_dict, named_workflow, is_filled, text_at,
}
use development_conveyor.Contracts.RoundTrip.{IsRead, from_dict-IsRead}
use development_conveyor.Contracts.Legacy.{
  Corroboration, LegacyError, normalize_envelope, expected_identity,
}
use development_conveyor.Contracts.Terminal.{
  incomplete_corroboration, tell_legacy, tell_schema, corroborate, corroborated_keys,
  corroboration_of, terminal_object, extract_terminal_envelope,
}
use development_conveyor.Contracts.Corroborated.{
  Entry, normalize_envelope-confirmed, normalize_envelope-strict,
}

-- The result is that of the session that the controller knows.
pub record IsOfSession (c : Corroboration) (e : SessionResultEnvelope) : Type 0 where
  pub same_workflow : workflow_value e.workflow_type ≡ c.workflow_type
  pub same_project : e.project_id ≡ c.project_id
  pub same_repository : e.repository_identity ≡ c.repository_identity
  pub same_transaction : e.transaction_id ≡ c.transaction_id
  pub same_run : e.run_id ≡ c.run_id
  pub same_session : e.session_id ≡ c.session_id
  pub same_branch : e.starting_branch ≡ c.starting_branch
  pub same_commit : e.starting_commit ≡ c.starting_commit

tell_legacy-ok : (m : Result LegacyError Fields) {d : Fields} → tell_legacy m ≡ ok d → m ≡ ok d
tell_legacy-ok (ok d) h = ap ok (ok-eq h)
tell_legacy-ok (err e) h = cc h

pub tell_schema-ok :
    (m : Result SchemaValidationError SessionResultEnvelope) {e : SessionResultEnvelope}
    → tell_schema m ≡ ok e
    → m ≡ ok e
tell_schema-ok (ok d) h = ap ok (ok-eq h)
tell_schema-ok (err e) h = cc h

read-IsOfSession :
    (c : Corroboration) (value : Fields) (e : SessionResultEnvelope)
    → All (λ x. Entry value x.0 x.1) (("workflow_type", c.workflow_type) ∷ expected_identity c)
    → IsRead value e
    → IsOfSession c e
read-IsOfSession c value e
      (workflow, (project, (repository, (transaction, (run, (session, (branch, (commit, _))))))))
      r =
    subst (IsOfSession c) r.result (record {
      same_workflow =
          workflow_value-workflow_type c.workflow_type (sym (ap named_workflow workflow) ∙ r.named);
      same_project = ap text_at project;
      same_repository = ap text_at repository;
      same_transaction = ap text_at transaction;
      same_run = ap text_at run;
      same_session = ap text_at session;
      same_branch = ap text_at branch;
      same_commit = ap text_at commit;
    })

corroborate-ok :
    (d value : Fields) {out : Fields}
    → corroborate (some d) value ≡ ok out
    → normalize_envelope (corroboration_of d) value ≡ ok out
unfolding corroborate
corroborate-ok d value h =
    let (_, told) =
      guard-bind-ok (all (λ k. is_filled (get_field k d)) corroborated_keys)
        incomplete_corroboration _ h in
    tell_legacy-ok (normalize_envelope (corroboration_of d) value) told

module _ (loads : String → Option Json) where
  -- A result that is accepted against the controller's own data belongs to its session: the
  -- workflow, the project, the repository, the transaction, the run, the session, the branch and
  -- the commit are those that the controller knows.
  pub extract_terminal_envelope-IsOfSession :
      (output : String) (d : Fields) {e : SessionResultEnvelope}
      → extract_terminal_envelope loads output (some d) ≡ ok e
      → IsOfSession (corroboration_of d) e
  unfolding extract_terminal_envelope
  extract_terminal_envelope-IsOfSession output d {e} h =
      let (value, found, h1) = bind-ok (terminal_object loads output) _ h in
      let (normalized, n, h2) = bind-ok (corroborate (some d) value) _ h1 in
      read-IsOfSession (corroboration_of d) normalized e
        (normalize_envelope-confirmed (corroboration_of d) value (corroborate-ok d value n))
        (from_dict-IsRead normalized (tell_schema-ok (from_dict normalized) h2))

  -- For any workflow but the reconciliation of a queue, a result that is accepted against the
  -- controller's own data is the one that is read of the same output without them.
  pub extract_terminal_envelope-strict :
      (output : String) (d : Fields) {e : SessionResultEnvelope}
      → (text_at (get_field "workflow_type" d) == workflow_value queue_reconciliation) ≡ false
      → extract_terminal_envelope loads output (some d) ≡ ok e
      → extract_terminal_envelope loads output none ≡ ok e
  unfolding extract_terminal_envelope corroborate
  extract_terminal_envelope-strict output d {e} other h =
      let (value, found, h1) = bind-ok (terminal_object loads output) _ h in
      let (normalized, n, h2) = bind-ok (corroborate (some d) value) _ h1 in
      let same =
        normalize_envelope-strict (corroboration_of d) value other (corroborate-ok d value n) in
      rw found (subst (λ z. tell_schema (from_dict z) ≡ ok e) (sym same) h2)
