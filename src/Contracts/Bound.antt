-- ===== src/Contracts/Bound.antt =====
-- What `bind_human_gate` of src/development_conveyor/contracts.py makes of a blocker.
use development_conveyor.Base.{
  ◌++◌, String, ◌≡◌, refl, inl, inr, Option, none, some, List, [], ◌∷◌, Bool, true, false, not,
  ◌&&◌, &&-true, all, codes, contains, is_blank, ok, Bool-cases, ◌==◌, string_eq,
}
use development_conveyor.Json.{Json, null, bool, int, fraction, str, arr, obj, Fields, get_field}
use development_conveyor.Dict.{dict, update_fields, or_else}
use development_conveyor.Dict.Updates.{
  Has, are_distinct, update_fields-Has, get_field-absent, get_field-update_fields,
}
use development_conveyor.Contracts.{
  WorkflowType, queue_reconciliation, workflow_value, is_workflow_type, validate_human_gate, filled,
  safe_identifier,
}
use development_conveyor.Contracts.GateId.{is_hex, gate_id-safe}
use development_conveyor.Contracts.Gate.{
  GateContext, source_of, text_or, gate_bindings, gate_reason, gate_classification, gate_entries,
  gate_id_of, bind_human_gate,
}

text_or-filled :
    (default : String) (v : Option Json)
    → is_blank default ≡ false
    → is_blank (text_or default v) ≡ false
text_or-filled default none h = h
text_or-filled default (some (str s)) h = elim (Bool-cases (is_blank s)) [
  | inl p ↦ rw p h
  | inr p ↦ rw p p
]
text_or-filled default (some null) h = h
text_or-filled default (some (bool b)) h = h
text_or-filled default (some (int n)) h = h
text_or-filled default (some (fraction n p)) h = h
text_or-filled default (some (arr xs)) h = h
text_or-filled default (some (obj d)) h = h

workflow_value-named :
    (w : WorkflowType)
    → ((workflow_value w == "") ≡ false) × (is_workflow_type (workflow_value w) ≡ true)
workflow_value-named queue_reconciliation = (refl, refl)
workflow_value-named _ = (refl, refl)

-- The texts that a gate has to name are there.
unfoldable pub is_named : GateContext → Bool
is_named c =
    not (c.approved_next_state == "")
    && not (c.transaction_id == "")
    && not (c.project_id == "")
    && not (c.repository_identity == "")
    && not (c.repository_path_fingerprint == "")

-- The gate names the transaction, says why and of what kind it is, and has the blocker's entries
-- under every other key.
abbrev pub gate_keys : List String
gate_keys =
    "transaction_id" ∷ "project_id" ∷ "repository_identity" ∷ "repository_path_fingerprint"
    ∷ "workflow_type" ∷ "approved_next_state" ∷ "gate_id" ∷ "classification" ∷ "reason" ∷ []

pub record IsBound (c : GateContext) (value : Option Json) (g : Fields) : Type 0 where
  pub bindings : Has g (dict (gate_bindings c))
  pub has_kind : filled (get_field "classification" g) ≡ true
  pub has_reason : filled (get_field "reason" g) ≡ true
  pub safe : (id : String) × (get_field "gate_id" g ≡ some (str id)) × (safe_identifier id ≡ true)
  pub others :
      (k : String) → contains k gate_keys ≡ false → get_field k g ≡ get_field k (source_of value)

pub gate_reason-filled : (source : Fields) → is_blank (gate_reason source) ≡ false
unfolding gate_reason
gate_reason-filled source =
    text_or-filled _ (or_else (get_field "reason" source) (get_field "decision" source)) refl

pub gate_classification-filled :
    (c : GateContext) (source : Fields) → is_blank (gate_classification c source) ≡ false
unfolding gate_classification
gate_classification-filled c source =
    text_or-filled _
      (or_else (get_field "classification" source)
        (or_else (get_field "gate_classification" source) (some (str c.terminal_classification))))
      refl

module _ (fingerprint : Json → String) where
  pub gate_entries-Has :
      (c : GateContext) (source : Fields) (classification reason : String)
      → Has
          (update_fields source (gate_entries fingerprint c classification reason))
          (gate_entries fingerprint c classification reason)
  unfolding gate_entries
  gate_entries-Has c source classification reason =
      update_fields-Has source (gate_entries fingerprint c classification reason)
        (unfold are_distinct in refl)

  checked :
      (c : GateContext) (g : Fields) (classification reason : String)
      → Has g (gate_entries fingerprint c classification reason)
      → is_named c ≡ true
      → is_blank classification ≡ false
      → is_blank reason ≡ false
      → safe_identifier (gate_id_of fingerprint c classification reason) ≡ true
      → validate_human_gate (some (obj g)) ≡ ok g
  unfolding gate_entries validate_human_gate is_named
  checked c g classification reason
        (transaction, (project, (repository, (path, (workflow, (next, (gate, (kind, (why, _)))))))))
        named m n safe =
      let (named4, p) = &&-true _ (not (c.repository_path_fingerprint == "")) named in
      let (named3, r) = &&-true _ (not (c.repository_identity == "")) named4 in
      let (named2, q) = &&-true _ (not (c.project_id == "")) named3 in
      let (a, t) = &&-true _ (not (c.transaction_id == "")) named2 in
      rw
        (
          gate,
          safe,
          kind,
          why,
          next,
          transaction,
          project,
          repository,
          path,
          workflow,
          m,
          n,
          a,
          t,
          q,
          r,
          p,
          (workflow_value-named c.workflow_type).0,
          (workflow_value-named c.workflow_type).1,
        )
        refl

  gate_id_of-safe :
      (c : GateContext) (kind reason : String)
      → ((v : Json) → all is_hex (codes (fingerprint v)) ≡ true)
      → safe_identifier (gate_id_of fingerprint c kind reason) ≡ true
  unfolding gate_id_of
  gate_id_of-safe c kind reason hex =
      let content = ("classification", str kind) ∷ ("reason", str reason) ∷ [] in
      let digest = fingerprint (obj (dict (gate_bindings c ++ content))) in
      gate_id-safe digest (hex (obj (dict (gate_bindings c ++ content))))

  entries-IsBound :
      (c : GateContext) (value : Option Json) (kind reason : String)
      → is_blank kind ≡ false
      → is_blank reason ≡ false
      → safe_identifier (gate_id_of fingerprint c kind reason) ≡ true
      → IsBound c value (update_fields (source_of value) (gate_entries fingerprint c kind reason))
  unfolding gate_entries
  entries-IsBound c value kind reason m n safe =
      let source = source_of value in
      let (
        transaction,
        (project, (repository, (path, (workflow, (next, (gate, (k, (why, _)))))))),
      ) =
        gate_entries-Has c source kind reason in
      record {
        bindings = (transaction, (project, (repository, (path, (workflow, (next, tt))))));
        has_kind = rw (k, m) refl;
        has_reason = rw (why, n) refl;
        safe = (gate_id_of fingerprint c kind reason, gate, safe);
        others = λ j other.
            get_field-update_fields j source (gate_entries fingerprint c kind reason)
              (get_field-absent j (gate_entries fingerprint c kind reason) other);
      }

  -- If no text that a gate has to name is empty, and digests are hexadecimal digits, a gate is made
  -- of any blocker; it is bound to the transaction, has a safe identifier, says of what kind it is
  -- and why, and keeps the blocker's other entries.
  pub bind_human_gate-IsBound :
      (c : GateContext) (value : Option Json)
      → ((v : Json) → all is_hex (codes (fingerprint v)) ≡ true)
      → is_named c ≡ true
      → (g : Fields) × (bind_human_gate fingerprint c value ≡ ok g) × IsBound c value g
  unfolding bind_human_gate
  bind_human_gate-IsBound c value hex named =
      let source = source_of value in
      let kind = gate_classification c source in
      let reason = gate_reason source in
      let g = update_fields source (gate_entries fingerprint c kind reason) in
      (
        g,
        checked c g kind reason (gate_entries-Has c source kind reason) named
            (gate_classification-filled c source) (gate_reason-filled source)
            (gate_id_of-safe c kind reason hex),
        entries-IsBound c value kind reason (gate_classification-filled c source)
            (gate_reason-filled source) (gate_id_of-safe c kind reason hex),
      )
