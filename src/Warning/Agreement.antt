-- ===== src/Warning/Agreement.antt =====
-- What the agreement of two pieces of evidence on warnings means.
use mathlib.Core.Path.{subst}
use development_conveyor.Base.{
  String, Bool, true, false, not, ◌&&◌, Option, none, some, List, ◌++◌, ◌==◌, nat_eq, string_eq,
  option_eq, ◌≡◌, refl, ap, arith, eq_of_beq, ok, bind-ok, ok-eq, is_some, is_nil, same_texts,
  same_texts-eq,
}
use development_conveyor.Json.{Json}
use development_conveyor.Warning.{
  WarningEvidence, same_explicit, normalize_warning_evidence, Comparison, disagreements_of, note,
  compare_warning_evidence,
}
use development_conveyor.Warning.Evidence.{IsConsistent, normalize_warning_evidence-IsConsistent}

silent :
    (a b c : Bool)
    → is_nil (note a "warning_count" ++ note b "blocking_warnings" ++ note c "explicit_warnings")
      ≡ true
    → (a ≡ false) × (b ≡ false) × (c ≡ false)
silent true b c h = cc
silent false true c h = cc
silent false false true h = cc
silent false false false h = (refl, refl, refl)

truth_of : (b : Bool) → not b ≡ false → b ≡ true
truth_of true h = refl
truth_of false h = cc

same_explicit-eq :
    (s d : Option (List String)) {ws : List String} → s ≡ some ws → same_explicit s d ≡ true → s ≡ d
same_explicit-eq none d e h = cc e
same_explicit-eq (some ws) none e h = cc h
same_explicit-eq (some ws) (some vs) e h = ap some (same_texts-eq ws vs h)

not_legacy : (listed legacy : Bool) → (listed && legacy) ≡ false → listed ≡ true → not legacy ≡ true
not_legacy listed legacy h k = ground arith

-- The same of two pieces of evidence that are compared.
agreed :
    (s d : WarningEvidence) (c : Comparison) {ws : List String}
    → IsConsistent s
    → record { structured = s; deterministic = d; disagreements = disagreements_of s d } ≡ c
    → is_nil c.disagreements ≡ true
    → c.structured.explicit_warnings ≡ some ws
    → (c.structured.warning_count ≡ c.deterministic.warning_count)
      × (c.structured.blocking_warnings ≡ c.deterministic.blocking_warnings)
      × (c.structured.explicit_warnings ≡ c.deterministic.explicit_warnings)
unfolding disagreements_of IsConsistent
agreed s d c {ws} consistent same =
    subst
      (λ c.
        is_nil (Comparison.disagreements c) ≡ true
        → c.structured.explicit_warnings ≡ some ws
        → (c.structured.warning_count ≡ c.deterministic.warning_count)
          × (c.structured.blocking_warnings ≡ c.deterministic.blocking_warnings)
          × (c.structured.explicit_warnings ≡ c.deterministic.explicit_warnings))
      same
      (λ quiet listed.
        let (unique, inside, counted, known, one) = consistent in
        let (count, blocking, explicit_same) =
          silent (not s.legacy_summary && not (s.warning_count == d.warning_count))
            (not (same_texts s.blocking_warnings d.blocking_warnings))
            (not (same_explicit s.explicit_warnings d.explicit_warnings)) quiet in
        let full =
          not_legacy (is_some s.explicit_warnings) s.legacy_summary one (ap is_some listed) in
        (
          eq_of_beq {a = s.warning_count} {b = d.warning_count}
              (truth_of (s.warning_count == d.warning_count) (rw full at count)),
          same_texts-eq s.blocking_warnings d.blocking_warnings
              (truth_of (same_texts s.blocking_warnings d.blocking_warnings) blocking),
          same_explicit-eq s.explicit_warnings d.explicit_warnings listed
              (truth_of (same_explicit s.explicit_warnings d.explicit_warnings) explicit_same),
        ))

-- If structured evidence that lists its warnings is compared without a disagreement, then it has the count,
-- the blocking warnings and the list of the deterministic evidence.
pub compare_warning_evidence-agreement :
    (legacy : Option String) (structured deterministic : Json) {c : Comparison} {ws : List String}
    → compare_warning_evidence legacy structured deterministic ≡ ok c
    → is_nil c.disagreements ≡ true
    → c.structured.explicit_warnings ≡ some ws
    → (c.structured.warning_count ≡ c.deterministic.warning_count)
      × (c.structured.blocking_warnings ≡ c.deterministic.blocking_warnings)
      × (c.structured.explicit_warnings ≡ c.deterministic.explicit_warnings)
unfolding compare_warning_evidence disagreements_of
compare_warning_evidence-agreement legacy structured deterministic {c} h quiet listed =
    let (s, read, h1) = bind-ok (normalize_warning_evidence "structured" legacy structured) _ h in
    let (d, checked, out) =
      bind-ok (normalize_warning_evidence "deterministic" none deterministic) _ h1 in
    agreed s d c (normalize_warning_evidence-IsConsistent "structured" legacy structured read)
      (ok-eq out) quiet listed
