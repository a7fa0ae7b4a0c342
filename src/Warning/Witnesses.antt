-- ===== src/Warning/Witnesses.antt =====
-- The properties of the evidence on warnings, at a list of two.
use development_conveyor.Base.{false, none, some, [], ◌∷◌, ◌≡◌, refl}
use development_conveyor.Json.{Json, str, obj, int, pos}
use development_conveyor.Dict.{dict, array}
use development_conveyor.Warning.{WarningEvidence, compare_warning_evidence}
use development_conveyor.Warning.Agreement.{compare_warning_evidence-agreement}

abbrev evidence : Json
evidence = obj (
    dict (
      ("warnings", array (str "b" ∷ str "a" ∷ []))
      ∷ ("warning_count", int (pos 2))
      ∷ ("blocking_warnings", array (str "b" ∷ str "a" ∷ []))
      ∷ []))

abbrev normalized : WarningEvidence
normalized = record {
  warning_count = some 2;
  warnings_scope = none;
  blocking_warnings = "a" ∷ "b" ∷ [];
  explicit_warnings = some ("b" ∷ "a" ∷ []);
  legacy_summary = false;
}

abbrev claim : Json
claim = obj (
    dict (
      ("warnings", array (str "b" ∷ str "a" ∷ []))
      ∷ ("warning_count", int (pos 2))
      ∷ ("warnings_scope", str "queue")
      ∷ ("blocking_warnings", array (str "a" ∷ str "b" ∷ []))
      ∷ []))

abbrev normalized_claim : WarningEvidence
normalized_claim = record {
  warning_count = some 2;
  warnings_scope = some "queue";
  blocking_warnings = "a" ∷ "b" ∷ [];
  explicit_warnings = some ("b" ∷ "a" ∷ []);
  legacy_summary = false;
}

compare_warning_evidence-agreement_example :
    (normalized_claim.warning_count ≡ normalized.warning_count)
    × (normalized_claim.blocking_warnings ≡ normalized.blocking_warnings)
    × (normalized_claim.explicit_warnings ≡ normalized.explicit_warnings)
unfolding compare_warning_evidence
compare_warning_evidence-agreement_example =
    compare_warning_evidence-agreement none claim evidence
      {c = record { structured = normalized_claim; deterministic = normalized; disagreements = [] }}
      refl refl refl
