-- ===== src/Queue/Completion.antt =====
-- What a complete milestone of a queue leaves to do.
use development_conveyor.Base.{
  String, Bool, true, false, not, ◌||◌, Option, none, some, List, [], ◌∷◌, map, ◌==◌, string_eq,
  ◌≡◌, refl, ap, ◌∙◌, inl, inr, Bool-cases, &&-true, if◌then◌else◌, eq_of_beq, ok, all, select,
  contains, is_some, is_nil, all-weaken, any-none, select-none, not-true, contains-append, ◌++◌,
  sort_by,
}
use development_conveyor.Queue.Names.{Casing, complete_statuses}
use development_conveyor.Queue.Item.{Feature, Files}
use development_conveyor.Queue.Load.{FeatureQueue}
use development_conveyor.Queue.Query.{features_for_milestone}
use development_conveyor.Queue.Select.{
  Selection, is_eligible, awaits_integration, candidate_le, select_next, placed,
  integration_candidates, select_integration, only_integration,
}
use development_conveyor.Queue.Report.{is_deferred, is_finished, milestone_complete}
use development_conveyor.Queue.Order.{is_some-select_next}

-- Finished, deferred or rejected.
abbrev pub is_over : Feature → Bool
is_over f = is_deferred f || is_finished f

is_eligible-is_over :
    (c : Casing) (files : Files) (q : FeatureQueue) (f : Feature)
    → is_over f ≡ true
    → not (is_eligible c files q f) ≡ true
unfolding is_eligible
is_eligible-is_over c files q f h = elim (Bool-cases (f.status == "ready")) [
  | inl k ↦ cc (
    h,
    ap (λ s. contains s ("deferred" ∷ "rejected" ∷ []) || contains s complete_statuses)
        (eq_of_beq {a = f.status} {b = "ready"} k),
  )
  | inr k ↦ rw k refl
]

-- A status is in at most one of two lists without a common member.
apart :
    (s : String) (xs ys : List String)
    → all (λ x. not (contains x ys)) xs ≡ true
    → contains s ys ≡ true
    → not (contains s xs) ≡ true
apart s [] ys h k = refl
apart s (x ∷ xs) ys h k =
    let (first, later) = &&-true (not (contains x ys)) (all (λ x. not (contains x ys)) xs) h in
    elim (Bool-cases (x == s)) [
      | inl e ↦ cc (first, k, ap (λ z. not (contains z ys)) (eq_of_beq {a = x} {b = s} e))
      | inr e ↦ rw e (apart s xs ys later k)
    ]

abbrev over_statuses : List String
over_statuses = "deferred" ∷ "rejected" ∷ []

abbrev waiting_statuses : List String
waiting_statuses = "accepted" ∷ "integration_pending" ∷ []

awaits_integration-is_over : (f : Feature) → is_over f ≡ true → not (awaits_integration f) ≡ true
unfolding awaits_integration
awaits_integration-is_over f h =
    rw
      (not-true (contains f.status waiting_statuses) (
        apart f.status waiting_statuses (over_statuses ++ complete_statuses) refl
          (contains-append f.status over_statuses complete_statuses ∙ h)))
      refl

over_too :
    (f : Feature) (fs : List Feature) (b : Bool)
    → is_deferred f ≡ b
    → all is_finished (
        if not b
        then f ∷ select (λ f. not (is_deferred f)) fs
        else select (λ f. not (is_deferred f)) fs)
      ≡ true
    → (all is_finished (select (λ f. not (is_deferred f)) fs) ≡ true → all is_over fs ≡ true)
    → all is_over (f ∷ fs) ≡ true
over_too f fs true e h next = rw e (next h)
over_too f fs false e h next =
    let (first, later) = &&-true (is_finished f) _ h in rw (e, first) (next later)

all-is_over :
    (fs : List Feature)
    → all is_finished (select (λ f. not (is_deferred f)) fs) ≡ true
    → all is_over fs ≡ true
all-is_over [] h = refl
all-is_over (f ∷ fs) h = over_too f fs (is_deferred f) refl h (all-is_over fs)

pub milestone_complete-is_over :
    (c : Casing) (q : FeatureQueue) (m : String)
    → milestone_complete c q m ≡ true
    → all is_over (features_for_milestone c q m) ≡ true
unfolding milestone_complete
milestone_complete-is_over c q m h =
    all-is_over (features_for_milestone c q m)
      (&&-true (not (is_nil (select (λ f. not (is_deferred f)) (features_for_milestone c q m)))) _
        h).1

none_selected : (m : Option Selection) → is_some m ≡ false → m ≡ none
none_selected none h = refl
none_selected (some s) h = cc

-- A complete milestone leaves nothing to select: no feature for work, and none for integration.
pub milestone_complete-nothing_left :
    (c : Casing) (files : Files) (q : FeatureQueue) (m : String)
    → milestone_complete c q m ≡ true
    → (select_next c files q m ≡ none) × (select_integration c q m ≡ ok none)
unfolding select_integration integration_candidates sort_by
milestone_complete-nothing_left c files q m h =
    let over = milestone_complete-is_over c q m h in
    let features = features_for_milestone c q m in
    (
      none_selected (select_next c files q m) (
          is_some-select_next c files q m
          ∙ any-none (is_eligible c files q) features (
              all-weaken is_over (λ f. not (is_eligible c files q f)) features
                (is_eligible-is_over c files q) over)),
      ap
          (λ waiting.
            only_integration (map (λ pair. pair.0) (sort_by (candidate_le c) (placed q waiting))))
          (select-none awaits_integration features (
            all-weaken is_over (λ f. not (awaits_integration f)) features awaits_integration-is_over
              over)),
    )
