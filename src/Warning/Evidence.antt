-- ===== src/Warning/Evidence.antt =====
-- What normalized evidence on warnings guarantees, and what agreement means.
use mathlib.Core.Path.{subst}
use development_conveyor.Base.{
  are_unique, are_unique-sort_by, beq_sym, ℕ, String, Bool, true, false, not, ◌&&◌, ◌||◌, Option,
  none, some, List, [], ◌∷◌, ◌==◌, nat_eq, string_eq, option_eq, ◌≡◌, refl, sym, ap, ◌∙◌, inl, inr,
  arith, Bool-cases, &&-true, ||-left, ||-right, ok, bind-ok, guard-bind-ok, require-bind-ok, ok-eq,
  contains, is_some, text_ltb,
}
use development_conveyor.Json.{
  Json, null, bool, int, fraction, pos, negsuc, str, arr, obj, get_field,
}
use development_conveyor.Profiles.Delegation.{sorted_texts}
use development_conveyor.Profiles.Policy.{fields_of, present}
use development_conveyor.Warning.{
  WarningEvidence, Warnings, explicit, summarized, absent, read_warnings, explicit_of, summary_of,
  is_summary, texts_in, count_of, warnings_not_texts, read_count, counts_agree, read_scope,
  read_blocking, are_listed, normalize_warning_evidence, not_object, invalid_source,
  disagreeing_count, duplicate_blocking, unlisted_blocking,
}

are_unique-sorted_texts : (xs : List String) → are_unique (sorted_texts xs) ≡ are_unique xs
unfolding sorted_texts
are_unique-sorted_texts xs = are_unique-sort_by (λ s t. not (text_ltb t s)) xs

-- Blocking warnings are unique and listed; a listed count is the number of warnings; every warning is listed, or
-- counted, or summarized.
unfoldable pub IsConsistent : WarningEvidence → Type 0
IsConsistent e =
    (are_unique e.blocking_warnings ≡ true)
    × (are_listed e.blocking_warnings e.explicit_warnings ≡ true)
    × (counts_agree e.explicit_warnings e.warning_count ≡ true)
    × ((is_some e.warning_count || e.legacy_summary) ≡ true)
    × ((is_some e.explicit_warnings && e.legacy_summary) ≡ false)

one_form : (w : Warnings) → (is_some (explicit_of w) && is_some (summary_of w)) ≡ false
one_form (explicit texts) = refl
one_form (summarized text) = refl
one_form absent = refl

left_of : (a b : Bool) → (a || (b || false)) ≡ true → b ≡ false → a ≡ true
left_of a b h k = ground arith

is_summary-structured :
    (source text : String) (legacy : Option String)
    → is_summary source text legacy ≡ true
    → (source == "structured") ≡ true
is_summary-structured source text none h = cc
is_summary-structured source text (some summary) h =
    (&&-true (source == "structured") (text == summary) h).0

is_structured :
    (source : String)
    → contains source ("structured" ∷ "deterministic" ∷ []) ≡ true
    → (source == "deterministic") ≡ false
    → (source == "structured") ≡ true
is_structured source known h =
    beq_sym source "structured"
    ∙ left_of ("structured" == source) ("deterministic" == source) known
        (beq_sym "deterministic" source ∙ h)

read_warnings-listed :
    (source : String) (legacy : Option String) (v : Option Json) {w : Warnings}
    → contains source ("structured" ∷ "deterministic" ∷ []) ≡ true
    → read_warnings source legacy v ≡ ok w
    → ((source == "structured") || is_some (explicit_of w)) ≡ true
unfolding read_warnings
read_warnings-listed source legacy none {w} known h =
    elim (Bool-cases (source == "deterministic")) [
      | inl k ↦ cc (rw k at h)
      | inr k ↦ ||-left (is_some (explicit_of w)) (is_structured source known k)
    ]
read_warnings-listed source legacy (some (arr items)) known h =
    let (texts, read, out) =
      require-bind-ok (texts_in items) warnings_not_texts (λ texts. ok (explicit texts)) h in
    ||-right (source == "structured") (ap (λ w. is_some (explicit_of w)) (sym (ok-eq out)))
read_warnings-listed source legacy (some (str text)) {w} known h =
    elim (Bool-cases (is_summary source text legacy)) [
      | inl k ↦ ||-left (is_some (explicit_of w)) (is_summary-structured source text legacy k)
      | inr k ↦ cc (rw k at h)
    ]
read_warnings-listed source legacy (some null) known h = cc h
read_warnings-listed source legacy (some (bool b)) known h = cc h
read_warnings-listed source legacy (some (int n)) known h = cc h
read_warnings-listed source legacy (some (fraction n p)) known h = cc h
read_warnings-listed source legacy (some (obj d)) known h = cc h

counted_or_summarized :
    (structured : Bool) (w : Warnings)
    → (structured || is_some (explicit_of w)) ≡ true
    → (structured && not (is_some (summary_of w))) ≡ false
    → (is_some (count_of (explicit_of w)) || is_some (summary_of w)) ≡ true
counted_or_summarized structured (explicit texts) listed h = refl
counted_or_summarized structured (summarized text) listed h = refl
counted_or_summarized true absent listed h = cc h
counted_or_summarized false absent listed h = cc listed

read_count-known :
    (source : String) (w : Warnings) (v : Option Json) {n : Option ℕ}
    → ((source == "structured") || is_some (explicit_of w)) ≡ true
    → read_count source w v ≡ ok n
    → (is_some n || is_some (summary_of w)) ≡ true
unfolding read_count
read_count-known source w none listed h =
    elim (Bool-cases (source == "structured" && not (is_some (summary_of w)))) [
      | inl k ↦ cc (rw k at h)
      | inr k ↦
          subst (λ n. (is_some n || is_some (summary_of w)) ≡ true) (ok-eq (rw k at h))
            (counted_or_summarized (source == "structured") w listed k)
    ]
read_count-known source w (some (int (pos k))) listed h =
    subst (λ n. (is_some n || is_some (summary_of w)) ≡ true) (ok-eq h) refl
read_count-known source w (some (int (negsuc k))) listed h = cc h
read_count-known source w (some null) listed h = cc h
read_count-known source w (some (bool b)) listed h = cc h
read_count-known source w (some (fraction n p)) listed h = cc h
read_count-known source w (some (str s)) listed h = cc h
read_count-known source w (some (arr xs)) listed h = cc h
read_count-known source w (some (obj d)) listed h = cc h

-- Normalized evidence on warnings has unique blocking warnings, all among the listed warnings if there is a
-- list; its count is the length of that list; and it has a count or is a summary, but never a list and a summary.
pub normalize_warning_evidence-IsConsistent :
    (source : String) (legacy : Option String) (evidence : Json) {e : WarningEvidence}
    → normalize_warning_evidence source legacy evidence ≡ ok e
    → IsConsistent e
unfolding normalize_warning_evidence IsConsistent
normalize_warning_evidence-IsConsistent source legacy evidence h =
    let (value, is_object, h1) = require-bind-ok (fields_of evidence) not_object _ h in
    let (known, h2) =
      guard-bind-ok (contains source ("structured" ∷ "deterministic" ∷ [])) invalid_source _ h1 in
    let (warnings, read, h3) =
      bind-ok (read_warnings source legacy (get_field "warnings" value)) _ h2 in
    let (count, counted, h4) =
      bind-ok (read_count source warnings (present (get_field "warning_count" value))) _ h3 in
    let (agree, h5) =
      guard-bind-ok (counts_agree (explicit_of warnings) count) disagreeing_count _ h4 in
    let (scope, scoped, h6) =
      bind-ok (read_scope (present (get_field "warnings_scope" value))) _ h5 in
    let (blocking, blocked, h7) =
      bind-ok (read_blocking source (get_field "blocking_warnings" value)) _ h6 in
    let (unique, h8) = guard-bind-ok (are_unique blocking) duplicate_blocking _ h7 in
    let (listed, out) =
      guard-bind-ok (are_listed (sorted_texts blocking) (explicit_of warnings)) unlisted_blocking _
        h8 in
    subst IsConsistent (ok-eq out) (
      are_unique-sorted_texts blocking ∙ unique,
      listed,
      agree,
      read_count-known source warnings (present (get_field "warning_count" value))
          (read_warnings-listed source legacy (get_field "warnings" value) known read) counted,
      one_form warnings,
    )
