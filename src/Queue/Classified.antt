-- ===== src/Queue/Classified.antt =====
-- What each classification of a milestone in src/development_conveyor/queue.py says of the milestone's work.
use mathlib.Core.Path.{subst}
use development_conveyor.Base.{
  String, Bool, true, false, not, ◌&&◌, ◌||◌, Option, none, some, List, [], ◌∷◌, ◌==◌, string_eq,
  ◌≡◌, refl, inl, inr, Bool-cases, if◌then◌else◌, ok, all, any, is_some, is_nil, ◌↔◌, ◌⊎◌, ◌≢◌, ap,
  ◌∙◌, ok-eq,
}
use development_conveyor.Queue.Names.{Casing}
use development_conveyor.Queue.Item.{Feature, Files}
use development_conveyor.Queue.Load.{FeatureQueue}
use development_conveyor.Queue.Query.{milestone, features_for_milestone}
use development_conveyor.Queue.Select.{
  Selection, ready, select_next, first_selection, integration_candidates, select_integration,
  only_integration,
}
use development_conveyor.Queue.Report.{
  Classification, invalid_queue, human_decision_required, legitimately_blocked,
  reconciled_no_ready_work, awaits_human, reconciled_ready_work, reconciled_integration_pending,
  milestone_completed, is_deferred, is_finished, actionable, milestone_complete,
  reconciliation_classification,
}
use development_conveyor.Queue.Completion.{
  is_over, milestone_complete-is_over, milestone_complete-nothing_left,
}

-- The queue has the milestone, and no feature of it can be integrated or selected.
IsIdle : Casing → Files → FeatureQueue → String → Type 0
IsIdle c files q m =
    (is_some (milestone c q m) ≡ true)
    × (select_integration c q m ≡ ok none)
    × (select_next c files q m ≡ none)

abbrev over_or_blocked : Feature → Bool
over_or_blocked f = is_over f || f.status == "blocked"

-- The condition of each classification on the milestone's work; the conditions exclude each other.
pub IsTrue : Casing → Files → FeatureQueue → String → Classification → Type 0
IsTrue c files q m invalid_queue = milestone c q m ≡ none
IsTrue c files q m reconciled_integration_pending =
    (is_some (milestone c q m) ≡ true) × (select_integration c q m ≢ ok none)
IsTrue c files q m reconciled_ready_work =
    (is_some (milestone c q m) ≡ true)
    × (select_integration c q m ≡ ok none)
    × ((s : Selection) × (select_next c files q m ≡ some s))
IsTrue c files q m milestone_completed =
    (is_some (milestone c q m) ≡ true) × (milestone_complete c q m ≡ true)
IsTrue c files q m human_decision_required =
    IsIdle c files q m
    × (milestone_complete c q m ≡ false)
    × (any (awaits_human c q) (features_for_milestone c q m) ≡ true)
IsTrue c files q m legitimately_blocked =
    IsIdle c files q m
    × (any (awaits_human c q) (features_for_milestone c q m) ≡ false)
    × (all over_or_blocked (features_for_milestone c q m) ≡ true)
    × (all is_over (features_for_milestone c q m) ≡ false)
IsTrue c files q m reconciled_no_ready_work =
    IsIdle c files q m
    × (milestone_complete c q m ≡ false)
    × (any (awaits_human c q) (features_for_milestone c q m) ≡ false)
    × ((all over_or_blocked (features_for_milestone c q m) ≡ false)
        ⊎ (all is_over (features_for_milestone c q m) ≡ true))

is_nil-only_integration : (fs : List Feature) → is_nil fs ≡ true → only_integration fs ≡ ok none
is_nil-only_integration [] h = refl
is_nil-only_integration (f ∷ fs) h = cc

only_integration-is_nil : (fs : List Feature) → only_integration fs ≡ ok none → is_nil fs ≡ true
only_integration-is_nil [] h = refl
only_integration-is_nil (f ∷ []) h = cc (ok-eq h)
only_integration-is_nil (f ∷ g ∷ fs) h = cc h

is_nil-first_selection : (fs : List Feature) → is_nil fs ≡ true → first_selection fs ≡ none
is_nil-first_selection [] h = refl
is_nil-first_selection (f ∷ fs) h = cc

first_selection-is_nil : (fs : List Feature) → first_selection fs ≡ none → is_nil fs ≡ true
first_selection-is_nil [] h = refl
first_selection-is_nil (f ∷ fs) h = cc h

first_selection-some :
    (fs : List Feature) → is_nil fs ≡ false → (s : Selection) × (first_selection fs ≡ some s)
first_selection-some [] h = cc h
first_selection-some (f ∷ fs) h = (_, refl)

some-is_nil : (fs : List Feature) {s : Selection} → first_selection fs ≡ some s → is_nil fs ≡ false
some-is_nil [] h = cc h
some-is_nil (f ∷ fs) h = refl

no_value : {A : Type 0} (m : Option A) → is_some m ≡ false → m ≡ none
no_value none h = refl
no_value (some a) h = cc h

is_nil-actionable : (fs : List Feature) → is_nil (actionable fs) ≡ all is_over fs
is_nil-actionable [] = refl
is_nil-actionable (f ∷ fs) = elim (Bool-cases (is_finished f)) [
  | inl finished ↦ elim (Bool-cases (is_deferred f)) [
    | inl deferred ↦ rw (finished, deferred) (is_nil-actionable fs)
    | inr deferred ↦ rw (finished, deferred) (is_nil-actionable fs)
  ]
  | inr finished ↦ elim (Bool-cases (is_deferred f)) [
    | inl deferred ↦ rw (finished, deferred) (is_nil-actionable fs)
    | inr deferred ↦ rw (finished, deferred) refl
  ]
]

all-actionable :
    (fs : List Feature)
    → all (λ f. Feature.status f == "blocked") (actionable fs) ≡ all over_or_blocked fs
all-actionable [] = refl
all-actionable (f ∷ fs) = elim (Bool-cases (is_finished f)) [
  | inl finished ↦ elim (Bool-cases (is_deferred f)) [
    | inl deferred ↦ rw (finished, deferred) (all-actionable fs)
    | inr deferred ↦ rw (finished, deferred) (all-actionable fs)
  ]
  | inr finished ↦ elim (Bool-cases (is_deferred f)) [
    | inl deferred ↦ rw (finished, deferred) (all-actionable fs)
    | inr deferred ↦
        rw (finished, deferred) (ap (λ b. (f.status == "blocked") && b) (all-actionable fs))
  ]
]

-- The last two classifications, of an idle milestone where no decision is awaited.
left_over :
    (c : Casing) (files : Files) (q : FeatureQueue) (m : String)
    → IsIdle c files q m
    → milestone_complete c q m ≡ false
    → any (awaits_human c q) (features_for_milestone c q m) ≡ false
    → IsTrue c files q m (
        if not (all is_over (features_for_milestone c q m))
          && all over_or_blocked (features_for_milestone c q m)
        then legitimately_blocked
        else reconciled_no_ready_work)
unfolding IsTrue
left_over c files q m idle unfinished alone =
    let features = features_for_milestone c q m in
    elim (Bool-cases (all is_over features)) [
      | inl over ↦ rw over (idle, unfinished, alone, inr over)
      | inr over ↦ elim (Bool-cases (all over_or_blocked features)) [
        | inl blocked ↦ rw (over, blocked) (idle, alone, blocked, over)
        | inr blocked ↦ rw (over, blocked) (idle, unfinished, alone, inl blocked)
      ]
    ]

blocked_test :
    (c : Casing) (q : FeatureQueue) (m : String)
    → (not (is_nil (actionable (features_for_milestone c q m)))
        && all (λ f. Feature.status f == "blocked") (actionable (features_for_milestone c q m)))
      ≡ (not (all is_over (features_for_milestone c q m))
          && all over_or_blocked (features_for_milestone c q m))
blocked_test c q m =
    rw
      (
        is_nil-actionable (features_for_milestone c q m),
        all-actionable (features_for_milestone c q m),
      )
      refl

reconciliation_classification-IsTrue :
    (c : Casing) (files : Files) (q : FeatureQueue) (m : String)
    → IsTrue c files q m (reconciliation_classification c files q m)
unfolding reconciliation_classification IsTrue IsIdle select_next select_integration
reconciliation_classification-IsTrue c files q m = elim (Bool-cases (is_some (milestone c q m))) [
  | inr unknown ↦ rw unknown (no_value (milestone c q m) unknown)
  | inl known ↦ rw known (elim (Bool-cases (is_nil (integration_candidates c q m))) [
    | inr waiting ↦ rw waiting (known, λ nothing. cc (waiting, only_integration-is_nil _ nothing))
    | inl none_waiting ↦ rw none_waiting (
        let no_integration = is_nil-only_integration (integration_candidates c q m) none_waiting in
        elim (Bool-cases (is_nil (ready c files q m))) [
          | inr work ↦
              rw work (known, no_integration, first_selection-some (ready c files q m) work)
          | inl no_work ↦ rw no_work (
              let idle : IsIdle c files q m =
                (known, no_integration, is_nil-first_selection (ready c files q m) no_work) in
              elim (Bool-cases (milestone_complete c q m)) [
                | inl complete ↦ rw complete (known, complete)
                | inr unfinished ↦
                    rw unfinished
                      (elim (Bool-cases (any (awaits_human c q) (features_for_milestone c q m))) [
                        | inl human ↦ rw human (idle, unfinished, human)
                        | inr alone ↦
                            rw (alone, blocked_test c q m)
                              (left_over c files q m idle unfinished alone)
                      ])
              ])
        ])
  ])
]

is_some-none : {A : Type 0} (m : Option A) → m ≡ none → is_some m ≡ false
is_some-none none h = refl
is_some-none (some a) h = cc h

-- An idle milestone is classified by its completion, the awaited decisions and the blocked features.
classified_idle :
    (c : Casing) (files : Files) (q : FeatureQueue) (m : String)
    → IsIdle c files q m
    → reconciliation_classification c files q m ≡ (
        if milestone_complete c q m
        then milestone_completed
        else if any (awaits_human c q) (features_for_milestone c q m)
        then human_decision_required
        else if not (all is_over (features_for_milestone c q m))
            && all over_or_blocked (features_for_milestone c q m)
        then legitimately_blocked
        else reconciled_no_ready_work)
unfolding reconciliation_classification IsIdle select_next select_integration
classified_idle c files q m (known, no_integration, no_selection) =
    rw
      (
        known,
        only_integration-is_nil (integration_candidates c q m) no_integration,
        first_selection-is_nil (ready c files q m) no_selection,
        blocked_test c q m,
      )
      refl

unfinished_if :
    (c : Casing) (q : FeatureQueue) (m : String)
    → all is_over (features_for_milestone c q m) ≡ false
    → milestone_complete c q m ≡ false
unfinished_if c q m h = elim (Bool-cases (milestone_complete c q m)) [
  | inl complete ↦ cc (h, milestone_complete-is_over c q m complete)
  | inr unfinished ↦ unfinished
]

IsTrue-classification :
    (c : Casing) (files : Files) (q : FeatureQueue) (m : String) (x : Classification)
    → IsTrue c files q m x
    → reconciliation_classification c files q m ≡ x
unfolding reconciliation_classification IsTrue IsIdle select_next select_integration
IsTrue-classification c files q m invalid_queue h = rw (is_some-none (milestone c q m) h) refl
IsTrue-classification c files q m reconciled_integration_pending (known, waiting) =
    elim (Bool-cases (is_nil (integration_candidates c q m))) [
      | inl nothing ↦
          absurd (waiting (is_nil-only_integration (integration_candidates c q m) nothing))
      | inr some_waiting ↦ rw (known, some_waiting) refl
    ]
IsTrue-classification c files q m reconciled_ready_work (known, no_integration, (s, selected)) =
    rw
      (
        known,
        only_integration-is_nil (integration_candidates c q m) no_integration,
        some-is_nil (ready c files q m) selected,
      )
      refl
IsTrue-classification c files q m milestone_completed (known, complete) =
    let (no_selection, no_integration) = milestone_complete-nothing_left c files q m complete in
    classified_idle c files q m (known, no_integration, no_selection) ∙ rw complete refl
IsTrue-classification c files q m human_decision_required (idle, unfinished, human) =
    classified_idle c files q m idle ∙ rw (unfinished, human) refl
IsTrue-classification c files q m legitimately_blocked (idle, alone, blocked, over) =
    classified_idle c files q m idle ∙ rw (unfinished_if c q m over, alone, over, blocked) refl
IsTrue-classification c files q m reconciled_no_ready_work (idle, unfinished, alone, inl free) =
    classified_idle c files q m idle
    ∙ elim (Bool-cases (all is_over (features_for_milestone c q m))) [
      | inl over ↦ rw (unfinished, alone, over) refl
      | inr over ↦ rw (unfinished, alone, over, free) refl
    ]
IsTrue-classification c files q m reconciled_no_ready_work (idle, unfinished, alone, inr over) =
    classified_idle c files q m idle ∙ rw (unfinished, alone, over) refl

-- The classification of a milestone is exactly the one whose condition holds: the queue has no such milestone;
-- a known milestone has features that wait for integration, one or several; it has none, and a feature can be
-- selected; it is complete; it is idle and not complete, and a feature awaits a person's decision; it is idle, no
-- decision is awaited, every feature is finished, deferred, rejected or blocked, and not all are finished,
-- deferred or rejected; or it is idle and not complete, no decision is awaited, and a feature is none of these
-- four or every feature is finished, deferred or rejected. Idle is known, with nothing to integrate or select.
pub reconciliation_classification_iff :
    (c : Casing) (files : Files) (q : FeatureQueue) (m : String) (x : Classification)
    → (reconciliation_classification c files q m ≡ x) ↔ IsTrue c files q m x
reconciliation_classification_iff c files q m x = (
  λ h. subst (IsTrue c files q m) h (reconciliation_classification-IsTrue c files q m),
  IsTrue-classification c files q m x,
)
