-- ===== src/Contracts/Complete.antt =====
-- Which results `extract_terminal_envelope` of src/development_conveyor/contracts.py accepts of another
-- workflow than the reconciliation of a queue.
use mathlib.Core.Path.{subst}
use development_conveyor.Base.{
  String, ◌≡◌, refl, sym, ap, ◌∙◌, ◌↔◌, Option, none, some, Bool, true, false, ◌==◌, string_eq,
  beq_refl, All, List, [], ◌∷◌, ok, bind-ok, guard-pass, all, all-contains, contains, ◌&&◌,
  fold_result,
}
use development_conveyor.Json.{Json, null, bool, int, fraction, str, arr, obj, Fields, get_field}
use development_conveyor.Contracts.{
  WorkflowType, queue_reconciliation, workflow_value, workflow_value-workflow_type,
}
use development_conveyor.Contracts.Envelope.{
  SessionResultEnvelope, from_dict, named_workflow, is_filled, text_at, identity_fields,
}
use development_conveyor.Contracts.RoundTrip.{IsRead, from_dict-IsRead}
use development_conveyor.Contracts.Legacy.{
  Corroboration, LegacyError, settle, confirm, normalize_state, normalize_envelope, absent,
  conflicting, expected_identity, absent_workflow, conflicting_workflow,
}
use development_conveyor.Contracts.Terminal.{
  incomplete_corroboration, tell_legacy, corroborate, corroborated_keys, corroboration_of,
  terminal_object, extract_terminal_envelope,
}
use development_conveyor.Contracts.Corroborated.{Entry}
use development_conveyor.Contracts.Accepted.{
  IsOfSession, tell_schema-ok, extract_terminal_envelope-IsOfSession,
  extract_terminal_envelope-strict,
}

filled-Entry :
    (k : String) (d : Fields) (t : String)
    → is_filled (get_field k d) ≡ true
    → text_at (get_field k d) ≡ t
    → Entry d k t
filled-Entry k d t h e = is_filled-text (get_field k d) h ∙ ap (λ x. some (str x)) e
  where
    is_filled-text : (v : Option Json) → is_filled v ≡ true → v ≡ some (str (text_at v))
    is_filled-text none h = cc h
    is_filled-text (some (str s)) h = refl
    is_filled-text (some null) h = cc h
    is_filled-text (some (bool b)) h = cc h
    is_filled-text (some (int n)) h = cc h
    is_filled-text (some (fraction n p)) h = cc h
    is_filled-text (some (arr xs)) h = cc h
    is_filled-text (some (obj d)) h = cc h

named-workflow_value :
    (v : Option Json) {w : WorkflowType}
    → named_workflow v ≡ some w
    → v ≡ some (str (workflow_value w))
named-workflow_value none h = cc h
named-workflow_value (some (str s)) h =
    ap (λ x. some (str x)) (sym (workflow_value-workflow_type s h))
named-workflow_value (some null) h = cc h
named-workflow_value (some (bool b)) h = cc h
named-workflow_value (some (int n)) h = cc h
named-workflow_value (some (fraction n p)) h = cc h
named-workflow_value (some (arr xs)) h = cc h
named-workflow_value (some (obj d)) h = cc h

settle-passes :
    (optional : Bool) (missing differing : LegacyError) (key expected : String) (d : Fields)
    → Entry d key expected
    → settle optional missing differing key expected d ≡ ok d
unfolding settle
settle-passes optional missing differing key expected d h = rw (h, beq_refl expected) refl

confirm-passes :
    (compatible : Bool) (d : Fields) (expected : List (String × String))
    → All (λ e. Entry d e.0 e.1) expected
    → fold_result (confirm compatible) d expected ≡ ok d
unfolding confirm
confirm-passes compatible d [] h = refl
confirm-passes compatible d ((key, x) ∷ rest) h =
    rw
      (settle-passes (compatible && key == "project_id") (absent key) (conflicting key) key x d h.0)
      (confirm-passes compatible d rest h.1)

normalize_envelope-passes :
    (c : Corroboration) (value : Fields)
    → (c.workflow_type == workflow_value queue_reconciliation) ≡ false
    → All (λ e. Entry value e.0 e.1) (("workflow_type", c.workflow_type) ∷ expected_identity c)
    → normalize_envelope c value ≡ ok value
unfolding normalize_envelope normalize_state
normalize_envelope-passes c value other h =
    rw
      (
        other,
        confirm-passes false value (expected_identity c) h.1,
        settle-passes false absent_workflow conflicting_workflow "workflow_type" c.workflow_type
            value h.0,
      )
      refl

session-entries :
    (c : Corroboration) (value : Fields) (e : SessionResultEnvelope)
    → IsRead value e
    → IsOfSession c e
    → All (λ x. Entry value x.0 x.1) (("workflow_type", c.workflow_type) ∷ expected_identity c)
session-entries c value e r s =
    let t = subst (IsOfSession c) (sym r.result) s in
    let entry : (k x : String)
        → contains k identity_fields ≡ true
        → text_at (get_field k value) ≡ x
        → Entry value k x =
      λ k x listed same.
        filled-Entry k value x
          (all-contains (λ k. is_filled (get_field k value)) identity_fields k r.identity listed)
          same in
    (
      named-workflow_value (get_field "workflow_type" value) r.named
          ∙ ap (λ x. some (str x)) t.same_workflow,
      (
        entry "project_id" c.project_id refl t.same_project,
        (
          entry "repository_identity" c.repository_identity refl t.same_repository,
          (
            entry "transaction_id" c.transaction_id refl t.same_transaction,
            (
              entry "run_id" c.run_id refl t.same_run,
              (
                entry "session_id" c.session_id refl t.same_session,
                (
                  entry "starting_branch" c.starting_branch refl t.same_branch,
                  (entry "starting_commit" c.starting_commit refl t.same_commit, tt),
                ),
              ),
            ),
          ),
        ),
      ),
    )

corroborate-passes :
    (d value : Fields) (e : SessionResultEnvelope)
    → all (λ k. is_filled (get_field k d)) corroborated_keys ≡ true
    → (text_at (get_field "workflow_type" d) == workflow_value queue_reconciliation) ≡ false
    → IsRead value e
    → IsOfSession (corroboration_of d) e
    → corroborate (some d) value ≡ ok value
unfolding corroborate
corroborate-passes d value e complete other r s =
    guard-pass (all (λ k. is_filled (get_field k d)) corroborated_keys) incomplete_corroboration _
      complete
    ∙ ap tell_legacy (
        normalize_envelope-passes (corroboration_of d) value other
          (session-entries (corroboration_of d) value e r s))

module _ (loads : String → Option Json) where
  -- For any workflow but the reconciliation of a queue, the results that are accepted against the
  -- controller's own data are exactly those that are read of the output without them and are the
  -- session's own, where none of these data is missing.
  pub extract_terminal_envelope_iff :
      (output : String) (d : Fields) (e : SessionResultEnvelope)
      → (text_at (get_field "workflow_type" d) == workflow_value queue_reconciliation) ≡ false
      → all (λ k. is_filled (get_field k d)) corroborated_keys ≡ true
      → (extract_terminal_envelope loads output (some d) ≡ ok e) ↔ (
          (extract_terminal_envelope loads output none ≡ ok e) × IsOfSession (corroboration_of d) e)
  unfolding extract_terminal_envelope
  extract_terminal_envelope_iff output d e other complete = (
    λ h. (
      extract_terminal_envelope-strict loads output d other h,
      extract_terminal_envelope-IsOfSession loads output d h,
    ),
    λ both.
        let (plain, session) = both in
        let (value, found, read) = bind-ok (terminal_object loads output) _ plain in
        let r = from_dict-IsRead value (tell_schema-ok (from_dict value) read) in
        rw (found, corroborate-passes d value e complete other r session) read,
  )
