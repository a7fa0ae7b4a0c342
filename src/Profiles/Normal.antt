-- ===== src/Profiles/Normal.antt =====
-- The texts and the paths of a delegation of src/development_conveyor/execution_profiles.py, in normal form.
use mathlib.Core.Path.{subst}
use development_conveyor.Base.{
  ℕ, String, ◌≡◌, refl, ap, ◌∙◌, inl, inr, true, not, &&-true, not-true, Option, none, some,
  some-eq, List, [], ◌∷◌, string_eq, Bool-cases, ltb, length, all, codes, is_blank, strip, text_ltb,
  all-sort_by, are_unique, are_unique-sort_by,
}
use development_conveyor.Base.Stable.{sort_by-sort_by, text_total}
use development_conveyor.Base.Stripped.{strip-again}
use development_conveyor.Json.{Json, null, bool, int, fraction, str, arr, obj, Items, nil, cons}
use development_conveyor.Dict.{text_array}
use development_conveyor.Profiles.Delegation.{
  long_text, filled_texts, add_filled, unique_paths, paths_of, sorted_texts,
}

pub long_text-again :
    (n : ℕ) (v : Option Json) {s : String}
    → long_text n v ≡ some s
    → long_text n (some (str s)) ≡ some s
long_text-again n none h = cc h
long_text-again n (some (str t)) h = elim (Bool-cases (ltb (length (codes (strip t))) n)) [
  | inl short ↦ cc (rw short at h)
  | inr long ↦
      subst (λ s. long_text n (some (str s)) ≡ some s) (some-eq (rw long at h))
        (rw (strip-again t, long) refl)
]
long_text-again n (some null) h = cc h
long_text-again n (some (bool b)) h = cc h
long_text-again n (some (int i)) h = cc h
long_text-again n (some (fraction i p)) h = cc h
long_text-again n (some (arr xs)) h = cc h
long_text-again n (some (obj d)) h = cc h

filled_texts-all :
    (xs : Items) {ps : List String}
    → filled_texts xs ≡ some ps
    → all (λ s. not (is_blank s)) ps ≡ true
filled_texts-all nil h = subst (λ ps. all (λ s. not (is_blank s)) ps ≡ true) (some-eq h) refl
filled_texts-all (cons (str s) rest) {ps} h =
    added (filled_texts rest) (λ later e. filled_texts-all rest {ps = later} e) refl h
  where
    added :
        (m : Option (List String))
        → ((later : List String)
            → filled_texts rest ≡ some later
            → all (λ s. not (is_blank s)) later ≡ true)
        → filled_texts rest ≡ m
        → add_filled s m ≡ some ps
        → all (λ s. not (is_blank s)) ps ≡ true
    added none earlier e h = cc h
    added (some later) earlier e h = elim (Bool-cases (is_blank s)) [
      | inl blank ↦ cc (rw blank at h)
      | inr filled ↦
          subst (λ ps. all (λ s. not (is_blank s)) ps ≡ true) (some-eq (rw filled at h))
            (rw filled (earlier later e))
    ]
filled_texts-all (cons null rest) h = cc h
filled_texts-all (cons (bool b) rest) h = cc h
filled_texts-all (cons (int n) rest) h = cc h
filled_texts-all (cons (fraction n p) rest) h = cc h
filled_texts-all (cons (arr xs) rest) h = cc h
filled_texts-all (cons (obj d) rest) h = cc h

filled_texts-text_array :
    (ps : List String)
    → all (λ s. not (is_blank s)) ps ≡ true
    → filled_texts (text_array ps) ≡ some ps
filled_texts-text_array [] h = refl
filled_texts-text_array (p ∷ ps) h =
    let (first, later) = &&-true (not (is_blank p)) (all (λ s. not (is_blank s)) ps) h in
    rw (filled_texts-text_array ps later, not-true (is_blank p) first) refl

pub sorted_texts-again : (ps : List String) → sorted_texts (sorted_texts ps) ≡ sorted_texts ps
unfolding sorted_texts
sorted_texts-again ps = sort_by-sort_by (λ s t. not (text_ltb t s)) text_total ps

pub paths_of-again :
    (v : Option Json) {ps : List String}
    → paths_of v ≡ some ps
    → paths_of (some (arr (text_array (sorted_texts ps)))) ≡ some (sorted_texts ps)
unfolding sorted_texts
paths_of-again none h = cc h
paths_of-again (some (arr xs)) {ps} h = found (filled_texts xs) refl h
  where
    found :
        (m : Option (List String))
        → filled_texts xs ≡ m
        → unique_paths m ≡ some ps
        → paths_of (some (arr (text_array (sorted_texts ps)))) ≡ some (sorted_texts ps)
    found none e h = cc h
    found (some qs) e h = elim (Bool-cases (are_unique qs)) [
      | inl unique ↦
          subst
            (λ ps. paths_of (some (arr (text_array (sorted_texts ps)))) ≡ some (sorted_texts ps))
            (some-eq (rw unique at h))
            (ap unique_paths (
                filled_texts-text_array (sorted_texts qs) (
                  all-sort_by (λ s t. not (text_ltb t s)) (λ s. not (is_blank s)) qs
                  ∙ filled_texts-all xs e))
              ∙ rw (are_unique-sort_by (λ s t. not (text_ltb t s)) qs, unique) refl)
      | inr repeated ↦ cc (rw repeated at h)
    ]
paths_of-again (some (str s)) h = cc h
paths_of-again (some null) h = cc h
paths_of-again (some (bool b)) h = cc h
paths_of-again (some (int i)) h = cc h
paths_of-again (some (fraction i p)) h = cc h
paths_of-again (some (obj d)) h = cc h
