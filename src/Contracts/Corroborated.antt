-- ===== src/Contracts/Corroborated.antt =====
-- What `extract_terminal_envelope` of src/development_conveyor/contracts.py accepts of a session whose
-- identity the controller knows.
use mathlib.Core.Path.{subst}
use development_conveyor.Base.{
  String, ◌≡◌, refl, sym, ap, ◌∙◌, inl, inr, Option, none, some, List, [], ◌∷◌, Bool, true, false,
  ◌&&◌, ◌==◌, string_eq, eq_of_beq, Bool-cases, All, ok, fold_result, bind-ok, ok-eq,
}
use development_conveyor.Json.{
  Json, null, bool, int, fraction, str, arr, obj, Fields, get_field, is_text,
  get_field-set_field_self, get_field-set_field_ne,
}
use development_conveyor.Contracts.{queue_reconciliation, workflow_value}
use development_conveyor.Contracts.Legacy.{
  Corroboration, LegacyError, is_given, expected_identity, settle, confirm, normalize_state,
  normalize_envelope, rename, aliases, absent, conflicting, absent_workflow, conflicting_workflow,
  is_hashable, names_ready,
}

is_text-eq : (v : Option Json) (t : String) → is_text v t ≡ true → v ≡ some (str t)
is_text-eq none t h = cc h
is_text-eq (some (str s)) t h = ap (λ x. some (str x)) (eq_of_beq {a = s} {b = t} h)
is_text-eq (some null) t h = cc h
is_text-eq (some (bool b)) t h = cc h
is_text-eq (some (int n)) t h = cc h
is_text-eq (some (fraction n p)) t h = cc h
is_text-eq (some (arr xs)) t h = cc h
is_text-eq (some (obj d)) t h = cc h

-- The entry is a text.
abbrev pub Entry : Fields → String → String → Type 0
Entry d k t = get_field k d ≡ some (str t)

settle-Entry :
    (optional : Bool) (missing differing : LegacyError) (key expected : String) (d : Fields)
    {out : Fields}
    → settle optional missing differing key expected d ≡ ok out
    → Entry out key expected
unfolding settle
settle-Entry optional missing differing key expected d {out} h =
    elim (Bool-cases (is_given (get_field key d))) [
      | inl given ↦ elim (Bool-cases (is_text (get_field key d) expected)) [
        | inl same ↦
            subst (λ z. Entry z key expected) (ok-eq (rw (given, same) at h))
              (is_text-eq (get_field key d) expected same)
        | inr other ↦ cc (rw (given, other) at h)
      ]
      | inr missed ↦ elim (Bool-cases optional) [
        | inl allowed ↦
            subst (λ z. Entry z key expected) (ok-eq (rw (missed, allowed) at h))
              (get_field-set_field_self key (str expected) d)
        | inr needed ↦ cc (rw (missed, needed) at h)
      ]
    ]

settle-kept :
    (optional : Bool) (missing differing : LegacyError) (key expected : String) (d : Fields)
    (k t : String) {out : Fields}
    → settle optional missing differing key expected d ≡ ok out
    → Entry d k t
    → Entry out k t
unfolding settle
settle-kept optional missing differing key expected d k t {out} h entry =
    elim (Bool-cases (is_given (get_field key d))) [
      | inl given ↦ elim (Bool-cases (is_text (get_field key d) expected)) [
        | inl same ↦ subst (λ z. Entry z k t) (ok-eq (rw (given, same) at h)) entry
        | inr other ↦ cc (rw (given, other) at h)
      ]
      | inr missed ↦ elim (Bool-cases optional) [
        | inl allowed ↦ elim (Bool-cases (key == k)) [
          | inl here ↦ cc (
              sym missed
              ∙ ap (λ j. is_given (get_field j d)) (eq_of_beq {a = key} {b = k} here)
              ∙ ap is_given entry)
          | inr elsewhere ↦
              subst (λ z. Entry z k t) (ok-eq (rw (missed, allowed) at h))
                (get_field-set_field_ne key k (str expected) d elsewhere ∙ entry)
        ]
        | inr needed ↦ cc (rw (missed, needed) at h)
      ]
    ]

confirmed-kept :
    (compatible : Bool) (d : Fields) (expected : List (String × String)) (k t : String)
    {out : Fields}
    → fold_result (confirm compatible) d expected ≡ ok out
    → Entry d k t
    → Entry out k t
unfolding confirm
confirmed-kept compatible d [] k t h entry = subst (λ z. Entry z k t) (ok-eq h) entry
confirmed-kept compatible d ((key, x) ∷ rest) k t h entry =
    let (next, step, later) = bind-ok (confirm compatible d (key, x)) _ h in
    confirmed-kept compatible next rest k t later (settle-kept _ _ _ key x d k t step entry)

confirm-entries :
    (compatible : Bool) (d : Fields) (expected : List (String × String)) {out : Fields}
    → fold_result (confirm compatible) d expected ≡ ok out
    → All (λ e. Entry out e.0 e.1) expected
unfolding confirm
confirm-entries compatible d [] h = tt
confirm-entries compatible d ((key, x) ∷ rest) h =
    let (next, step, later) = bind-ok (confirm compatible d (key, x)) _ h in
    (
      confirmed-kept compatible next rest key x later (settle-Entry _ _ _ key x d step),
      confirm-entries compatible next rest later,
    )

state-kept :
    (compatible : Bool) (d : Fields) (k t : String) {out : Fields}
    → ("next_state" == k) ≡ false
    → normalize_state compatible d ≡ ok out
    → Entry d k t
    → Entry out k t
unfolding normalize_state
state-kept compatible d k t {out} other h entry =
    elim (Bool-cases
      (compatible && is_text (get_field "classification" d) "RECONCILED_READY_WORK")) [
        | inl ready ↦ elim (Bool-cases (is_hashable (get_field "next_state" d))) [
          | inl hashable ↦ elim (Bool-cases (names_ready (get_field "next_state" d))) [
            | inl named ↦
                subst (λ z. Entry z k t) (ok-eq (rw (ready, hashable, named) at h))
                  (get_field-set_field_ne "next_state" k (str "feature_ready") d other ∙ entry)
            | inr unnamed ↦
                subst (λ z. Entry z k t) (ok-eq (rw (ready, hashable, unnamed) at h)) entry
          ]
          | inr unhashable ↦ cc (rw (ready, unhashable) at h)
        ]
        | inr idle ↦ subst (λ z. Entry z k t) (ok-eq (rw idle at h)) entry
      ]

-- A normalized envelope has the identity that the controller knows.
pub normalize_envelope-confirmed :
    (c : Corroboration) (value : Fields) {out : Fields}
    → normalize_envelope c value ≡ ok out
    → All (λ e. Entry out e.0 e.1) (("workflow_type", c.workflow_type) ∷ expected_identity c)
unfolding normalize_envelope
normalize_envelope-confirmed c value {out} h =
    let compatible = c.workflow_type == workflow_value queue_reconciliation in
    let (renamed, r, h1) = bind-ok (fold_result rename value (aliases compatible)) _ h in
    let (identified, i, h2) =
      bind-ok (fold_result (confirm compatible) renamed (expected_identity c)) _ h1 in
    let (invoked, w, h3) =
      bind-ok
        (settle compatible absent_workflow conflicting_workflow "workflow_type" c.workflow_type
          identified)
        _ h2 in
    let keep : (k t : String) → ("next_state" == k) ≡ false → Entry identified k t → Entry out k t =
      λ k t other entry. state-kept compatible invoked k t other h3 (
        settle-kept compatible absent_workflow conflicting_workflow "workflow_type" c.workflow_type
          identified k t w entry) in
    let (project, (repository, (transaction, (run, (session, (branch, (commit, _))))))) =
      confirm-entries compatible renamed (expected_identity c) i in
    (
      state-kept compatible invoked "workflow_type" c.workflow_type refl h3 (
          settle-Entry compatible absent_workflow conflicting_workflow "workflow_type"
            c.workflow_type identified w),
      (
        keep "project_id" c.project_id refl project,
        (
          keep "repository_identity" c.repository_identity refl repository,
          (
            keep "transaction_id" c.transaction_id refl transaction,
            (
              keep "run_id" c.run_id refl run,
              (
                keep "session_id" c.session_id refl session,
                (
                  keep "starting_branch" c.starting_branch refl branch,
                  (keep "starting_commit" c.starting_commit refl commit, tt),
                ),
              ),
            ),
          ),
        ),
      ),
    )

settle-strict :
    (missing differing : LegacyError) (key expected : String) (d : Fields) {out : Fields}
    → settle false missing differing key expected d ≡ ok out
    → d ≡ out
unfolding settle
settle-strict missing differing key expected d h = elim (Bool-cases (is_given (get_field key d))) [
  | inl given ↦ elim (Bool-cases (is_text (get_field key d) expected)) [
    | inl same ↦ ok-eq (rw (given, same) at h)
    | inr other ↦ cc (rw (given, other) at h)
  ]
  | inr missed ↦ cc (rw missed at h)
]

confirm-strict :
    (d : Fields) (expected : List (String × String)) {out : Fields}
    → fold_result (confirm false) d expected ≡ ok out
    → d ≡ out
unfolding confirm
confirm-strict d [] h = ok-eq h
confirm-strict d ((key, x) ∷ rest) h =
    let (next, step, later) = bind-ok (confirm false d (key, x)) _ h in
    settle-strict (absent key) (conflicting key) key x d step ∙ confirm-strict next rest later

-- An envelope of another workflow than a reconciliation is not changed.
pub normalize_envelope-strict :
    (c : Corroboration) (value : Fields) {out : Fields}
    → (c.workflow_type == workflow_value queue_reconciliation) ≡ false
    → normalize_envelope c value ≡ ok out
    → value ≡ out
unfolding normalize_envelope normalize_state
normalize_envelope-strict c value {out} other h =
    let h0 = rw other at h in
    let (identified, i, h1) =
      bind-ok (fold_result (confirm false) value (expected_identity c)) _ h0 in
    let (invoked, w, h2) =
      bind-ok
        (settle false absent_workflow conflicting_workflow "workflow_type" c.workflow_type
          identified)
        _ h1 in
    confirm-strict value (expected_identity c) i
    ∙ (settle-strict absent_workflow conflicting_workflow "workflow_type" c.workflow_type identified
          w
        ∙ ok-eq h2)
