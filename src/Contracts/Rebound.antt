-- ===== src/Contracts/Rebound.antt =====
-- A gate that `bind_human_gate` of src/development_conveyor/contracts.py made, bound again.
use mathlib.Core.Path.{subst}
use development_conveyor.Base.{
  String, ◌≡◌, refl, sym, ap, ◌∙◌, inl, inr, Option, some, false, eq_of_beq, is_blank, ok,
  Bool-cases, ◌==◌, string_eq,
}
use development_conveyor.Json.{Json, str, obj, Fields}
use development_conveyor.Dict.{update_fields, or_else}
use development_conveyor.Dict.Updates.{Has, update_fields-same}
use development_conveyor.Contracts.{validate_human_gate, validate_human_gate-same}
use development_conveyor.Contracts.Gate.{
  GateContext, source_of, text_or, gate_reason, gate_classification, gate_entries, bind_human_gate,
}
use development_conveyor.Contracts.Bound.{
  gate_entries-Has, gate_reason-filled, gate_classification-filled,
}

nonempty_of_filled : (s : String) → is_blank s ≡ false → (s == "") ≡ false
nonempty_of_filled s h = elim (Bool-cases (s == "")) [
  | inl p ↦ cc (sym h ∙ ap is_blank (eq_of_beq {a = s} {b = ""} p))
  | inr p ↦ p
]

text_or-kept :
    (default s : String) (other : Option Json)
    → is_blank s ≡ false
    → text_or default (or_else (some (str s)) other) ≡ s
text_or-kept default s other h = rw (nonempty_of_filled s h, h) refl

module _ (fingerprint : Json → String) where
  -- The same context gives a gate that is made of one the same classification and reason.
  gate_classification-again :
      (c : GateContext) (g : Fields) (kind reason : String)
      → Has g (gate_entries fingerprint c kind reason)
      → is_blank kind ≡ false
      → gate_classification c g ≡ kind
  unfolding gate_entries gate_classification
  gate_classification-again c g kind reason (_, (_, (_, (_, (_, (_, (_, (k, _)))))))) m =
      rw k (text_or-kept _ kind _ m)

  gate_reason-again :
      (c : GateContext) (g : Fields) (kind reason : String)
      → Has g (gate_entries fingerprint c kind reason)
      → is_blank reason ≡ false
      → gate_reason g ≡ reason
  unfolding gate_entries gate_reason
  gate_reason-again c g kind reason (_, (_, (_, (_, (_, (_, (_, (_, (why, _))))))))) n =
      rw why (text_or-kept _ reason _ n)

  -- A gate that was bound is bound again, for the same transaction, as it is.
  pub bind_human_gate-again :
      (c : GateContext) (value : Option Json) {g : Fields}
      → bind_human_gate fingerprint c value ≡ ok g
      → bind_human_gate fingerprint c (some (obj g)) ≡ ok g
  unfolding bind_human_gate
  bind_human_gate-again c value {g} h =
      let source = source_of value in
      let kind = gate_classification c source in
      let reason = gate_reason source in
      let entries = gate_entries fingerprint c kind reason in
      let same = validate_human_gate-same (update_fields source entries) h in
      let has : Has g entries =
        subst (λ d. Has d entries) same (gate_entries-Has fingerprint c source kind reason) in
      rw
        (
          gate_classification-again c g kind reason has (gate_classification-filled c source),
          gate_reason-again c g kind reason has (gate_reason-filled source),
          update_fields-same g entries has,
        )
        (subst (λ d. validate_human_gate (some (obj d)) ≡ ok g) same h)
