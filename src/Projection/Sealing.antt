-- ===== src/Projection/Sealing.antt =====
-- The keys of a projection that `load_cache` of src/development_conveyor/projection.py tests, in one that
-- `rebuild` makes.
use development_conveyor.Base.{
  arith, ℕ, String, ◌≡◌, refl, ap, ◌∙◌, inl, inr, true, false, not, ◌&&◌, ◌||◌, Option, none, some,
  List, ok, guard, ◌>>=◌, ◌>>◌, ltb, require, guard-pass, ok-eq, bind-ok, Bool-cases, beq_refl,
  ◌==◌, string_eq,
}
use mathlib.Core.Path.{subst}
use development_conveyor.Json.{
  Json, null, falsy, int, str, obj, pos, json_eq, Fields, end, field, get_field, set_field,
  get_field-set_field_self, get_field-set_field_ne,
}
use development_conveyor.Dict.{int_of, value_at, or_null, remove_field, update_fields}
use development_conveyor.Dict.Updates.{get_field-update_fields}
use development_conveyor.Ledger.Event.{Event}
use development_conveyor.Ledger.Check.{Identity, Environment}
use development_conveyor.Ledger.History.{Integrity}
use development_conveyor.Projection.View.{View}
use development_conveyor.Projection.Facts.{Facts, no_facts, project_events}
use development_conveyor.Projection.Rebuild.{
  invalid_schema, invalid_fingerprint, invalid_sequence, other_ledger, later_sequence, stale_cache,
  observe, active, reroute, clear_gate, select_next, text_in, routed_states, integrated,
  current_commit, only_active, settle_feature, ready_to_integrate, projection_fingerprint,
}
use development_conveyor.Projection.Engine.{
  project, projection_fields, sealed, is_sealed, guarded_action, required_lease, check_document,
  check_binding, has_schema, has_ledger, earlier_than, later_than,
}

ltb_self : (n : ℕ) → ltb n n ≡ false
ltb_self n = ground arith

remove_field-set_field :
    (k : String) (v : Json) (d : Fields) → remove_field k (set_field k v d) ≡ remove_field k d
remove_field-set_field k v end = rw (beq_refl k) refl
remove_field-set_field k v (field j w rest) = elim (Bool-cases (j == k)) [
  | inl p ↦ rw p (rw p refl)
  | inr p ↦ rw p (rw p (ap (field j w) (remove_field-set_field k v rest)))
]

sealed-IsSealed :
    (env : Environment) (l : Identity) (d : Fields) → is_sealed env l (sealed env l d) ≡ true
sealed-IsSealed env l d =
    let seal = str (projection_fingerprint env d) in
    ap (λ v. or_null v == str (projection_fingerprint env (sealed env l d)))
      (get_field-set_field_self "projection_fingerprint" seal d)
    ∙ ap (λ rest. seal == str (env.digest (obj rest)))
        (remove_field-set_field "projection_fingerprint" seal d)
    ∙ beq_refl seal

get_field-guarded_action :
    (k c : String) (d : Fields)
    → ("allowed_next_action" == k) ≡ false
    → get_field k (guarded_action c d) ≡ get_field k d
get_field-guarded_action k c d h = elim (Bool-cases (c == "not_observed" || c == "consistent")) [
  | inl p ↦ rw p refl
  | inr p ↦ rw p (get_field-set_field_ne "allowed_next_action" k _ d h)
]

-- The four steps between the loop and the display leave `projection_facts`.
reroute-projection_facts : (f : Facts) → (reroute f).projection_facts ≡ f.projection_facts
reroute-projection_facts f =
    elim (Bool-cases (f.current_feature == null && text_in routed_states f.current_state)) [
      | inl p ↦ rw p refl
      | inr p ↦ rw p refl
    ]

clear_gate-projection_facts : (f : Facts) → (clear_gate f).projection_facts ≡ f.projection_facts
clear_gate-projection_facts f =
    elim (Bool-cases (f.current_state == str "human_decision_required")) [
      | inl p ↦ rw p refl
      | inr p ↦ rw p refl
    ]

settle_feature-projection_facts :
    (working : Option (String × View)) (f : Facts)
    → (settle_feature working f).projection_facts ≡ f.projection_facts
unfolding settle_feature
settle_feature-projection_facts (some active) f = refl
settle_feature-projection_facts none f =
    elim (Bool-cases (not (f.current_feature == null) && integrated f.current_feature f)) [
      | inl p ↦ rw p (
          clear_gate-projection_facts (reroute (select_next f))
          ∙ reroute-projection_facts (select_next f))
      | inr p ↦ rw p refl
    ]

ready_to_integrate-projection_facts :
    (f : Facts) → (ready_to_integrate f).projection_facts ≡ f.projection_facts
ready_to_integrate-projection_facts f =
    elim (Bool-cases (
      not (falsy (current_commit f))
      && f.current_state == str "feature_running"
      && not (integrated f.current_feature f))) [ inl p ↦ rw p refl | inr p ↦ rw p refl ]

module _ (env : Environment) (l : Identity) where
  -- A key that no fact overrides is the display's.
  get_field-sealed :
      (k c : String) (d facts : Fields)
      → get_field k facts ≡ none
      → ("allowed_next_action" == k) ≡ false
      → ("projection_fingerprint" == k) ≡ false
      → get_field k (sealed env l (guarded_action c (update_fields d facts))) ≡ get_field k d
  get_field-sealed k c d facts unnamed a p =
      get_field-set_field_ne "projection_fingerprint" k
        (str (projection_fingerprint env (guarded_action c (update_fields d facts))))
        (guarded_action c (update_fields d facts)) p
      ∙ get_field-guarded_action k c (update_fields d facts) a
      ∙ get_field-update_fields k d facts unnamed

  -- A projection with the keys that `load_cache` tests, for a ledger with this integrity.
  pub record IsBound (i : Integrity) (d : Fields) : Type 0 where
    schema : value_at "schema_version" (obj d) ≡ int (pos 1)
    sequence : value_at "ledger_sequence" (obj d) ≡ int (pos i.sequence)
    fingerprint : value_at "ledger_fingerprint" (obj d) ≡ str i.fingerprint
    sealing : is_sealed env l d ≡ true

  pub check_document-IsBound :
      (i : Integrity) (d : Fields) → IsBound i d → check_document env l (obj d) ≡ ok d
  unfolding check_document
  check_document-IsBound i d b =
      let versioned = ap (λ v. v == int (pos 1)) b.schema ∙ beq_refl (int (pos 1)) in
      guard-pass (has_schema d) invalid_schema
        (guard (is_sealed env l d) invalid_fingerprint >> ok d) versioned
      ∙ guard-pass (is_sealed env l d) invalid_fingerprint (ok d) b.sealing

  pub check_binding-IsBound :
      (i : Integrity) (d : Fields) → IsBound i d → check_binding env l i d ≡ ok d
  unfolding check_binding
  check_binding-IsBound i d b =
      let named = ap (λ v. v == str i.fingerprint) b.fingerprint ∙ beq_refl (str i.fingerprint) in
      let accept = guard (has_ledger i d) other_ledger >> ok d in
      let current = guard (not (earlier_than (pos i.sequence) i.sequence)) stale_cache >> accept in
      ap
        (λ v. require (int_of v) invalid_sequence >>= λ n.
          guard (not (later_than n i.sequence)) later_sequence
          >> (guard (not (earlier_than n i.sequence)) stale_cache >> accept))
        b.sequence
      ∙ guard-pass (not (later_than (pos i.sequence) i.sequence)) later_sequence current
          (ap not (ltb_self i.sequence))
      ∙ guard-pass (not (earlier_than (pos i.sequence) i.sequence)) stale_cache accept
          (ap not (ltb_self i.sequence))
      ∙ guard-pass (has_ledger i d) other_ledger (ok d) named

  -- The imported facts override none of the keys that a load tests.
  unfoldable pub KeepsKeys : List Event → Type 0
  KeepsKeys events =
      let facts = (project_events no_facts events).projection_facts in
      (get_field "schema_version" facts ≡ none)
      × (get_field "ledger_sequence" facts ≡ none)
      × (get_field "ledger_fingerprint" facts ≡ none)

  pub project-IsBound :
      (events : List Event) (i : Integrity) (o : Option Fields) {d : Fields}
      → project env l events i o ≡ ok d
      → KeepsKeys events
      → IsBound i d
  unfolding project KeepsKeys
  project-IsBound events i o h (a, b, c) =
      let folded = project_events no_facts events in
      let (working, _, h1) = bind-ok (only_active (active folded)) _ h in
      let f = ready_to_integrate (settle_feature working folded) in
      let (seen, _, h2) = bind-ok (observe env o working f) _ h1 in
      let (lease, _, h3) = bind-ok (required_lease working) _ h2 in
      let kept : f.projection_facts ≡ folded.projection_facts =
        ready_to_integrate-projection_facts (settle_feature working folded)
        ∙ settle_feature-projection_facts working folded in
      let display = projection_fields env l i working f seen lease in
      subst (IsBound i) (ok-eq h3) (record {
        schema = ap or_null (
            get_field-sealed "schema_version" seen.repository_consistency display f.projection_facts
              (ap (get_field "schema_version") kept ∙ a) refl refl);
        sequence = ap or_null (
            get_field-sealed "ledger_sequence" seen.repository_consistency display
              f.projection_facts (ap (get_field "ledger_sequence") kept ∙ b) refl refl);
        fingerprint = ap or_null (
            get_field-sealed "ledger_fingerprint" seen.repository_consistency display
              f.projection_facts (ap (get_field "ledger_fingerprint") kept ∙ c) refl refl);
        sealing =
            sealed-IsSealed env l (
              guarded_action seen.repository_consistency
                (update_fields display f.projection_facts));
      })
