-- ===== src/Queue/Select.antt =====
-- Readiness and the selections of `FeatureQueue` in src/development_conveyor/queue.py.
use development_conveyor.Base.{
  ℕ, suc, String, Bool, true, false, not, ◌&&◌, ◌||◌, Option, none, some, List, [], ◌∷◌, map, ◌==◌,
  string_eq, nat_eq, if◌then◌else◌, Result, ok, err, ◌>>=◌, ◌>>◌, guard, require, ltb, leb,
  contains, select, is_some, sort_by,
}
use development_conveyor.Json.{Json, get_field, is_text}
use development_conveyor.Dict.{or_else}
use development_conveyor.Queue.Names.{Casing, complete_statuses, blocked_statuses, priority_of}
use development_conveyor.Queue.Item.{Milestone, Feature, Files}
use development_conveyor.Queue.Load.{
  FeatureQueue, QueueError, BlockedReason, completed, blocked, not_ready, needs_decision,
  incomplete_dependencies, unspecified, unknown_feature, not_in_milestone, ineligible,
  several_integrations,
}
use development_conveyor.Queue.Query.{
  milestone, feature, features_for_milestone, dependency_complete, dependencies_complete, specified,
  requires_human_decision,
}

pub data SelectionReason : Type 0 where
  by_order as_requested awaiting_integration : SelectionReason

pub record Selection : Type 0 where
  pub feature_id : String
  pub title : String
  pub reason : SelectionReason
  pub feature : Feature

unfoldable pub selection_of : SelectionReason → Feature → Selection
selection_of reason f = record { feature_id = f.id; title = f.title; reason = reason; feature = f }

pub record Readiness : Type 0 where
  pub ready : Bool
  pub dependencies_complete : Bool
  pub blocked_reason : Option BlockedReason

abbrev pub enumerate {ℓ} : {A : Type ℓ} → ℕ → List A → List (A × ℕ)
enumerate i [] = []
enumerate i (x ∷ xs) = (x, i) ∷ enumerate (suc i) xs

-- The conditions of the loop of `ready`.
unfoldable pub is_eligible : Casing → Files → FeatureQueue → Feature → Bool
unfolding dependencies_complete specified
is_eligible c files q f =
    f.status == "ready"
    && (not (requires_human_decision f) && (dependencies_complete c q f && specified files q f))

-- The order of `(priority, position)`. Positions differ, so the ID behind them never decides.
abbrev pub key_le : ℕ × ℕ → ℕ × ℕ → Bool
key_le (p, i) (q, j) = ltb p q || (p == q && leb i j)

unfoldable pub candidate_le : Casing → Feature × ℕ → Feature × ℕ → Bool
unfolding priority_of
candidate_le c (f, i) (g, j) =
    key_le (priority_of c (get_field "priority" f.entry), i)
      (priority_of c (get_field "priority" g.entry), j)

unfoldable pub candidates : Casing → Files → FeatureQueue → String → List (Feature × ℕ)
unfolding is_eligible features_for_milestone candidate_le sort_by
candidates c files q m =
    sort_by (candidate_le c)
      (select (λ pair. is_eligible c files q pair.0) (enumerate 0 (features_for_milestone c q m)))

-- `ready`
unfoldable pub ready : Casing → Files → FeatureQueue → String → List Feature
unfolding candidates
ready c files q m = map (λ pair. pair.0) (candidates c files q m)

abbrev pub first_selection : List Feature → Option Selection
first_selection [] = none
first_selection (f ∷ fs) = some (selection_of by_order f)

unfoldable pub select_next : Casing → Files → FeatureQueue → String → Option Selection
unfolding ready
select_next c files q m = first_selection (ready c files q m)

abbrev incomplete : Casing → FeatureQueue → Feature → List String
unfolding dependency_complete
incomplete c q f = select (λ d. not (dependency_complete c q d)) f.dependencies

unfoldable pub blocked_reason_of : Casing → Files → FeatureQueue → Feature → Option BlockedReason
unfolding dependencies_complete specified incomplete
blocked_reason_of c files q f =
    if contains f.status complete_statuses
    then some (completed f.status)
    else if contains f.status blocked_statuses
    then some (
        blocked f.status
          (or_else (get_field "blocked_reason" f.entry) (get_field "blocking_reason" f.entry)))
    else if not (f.status == "ready")
    then some (not_ready f.status)
    else if requires_human_decision f
    then some needs_decision
    else if not (dependencies_complete c q f)
    then some (incomplete_dependencies (incomplete c q f))
    else if not (specified files q f)
    then some unspecified
    else none

unfoldable pub readiness : Casing → Files → FeatureQueue → Feature → Readiness
unfolding dependencies_complete blocked_reason_of
readiness c files q f = record {
  ready = not (is_some (blocked_reason_of c files q f));
  dependencies_complete = dependencies_complete c q f;
  blocked_reason = blocked_reason_of c files q f;
}

abbrev pub is_in : Feature → Option Milestone → Bool
is_in f none = false
is_in f (some m) = f.milestone == m.id

unfoldable pub select_exact :
    Casing → Files → FeatureQueue → String → String → Result QueueError Selection
unfolding feature milestone readiness
select_exact c files q milestone_id feature_id = do
  f ← require (feature q feature_id) unknown_feature
  guard (is_in f (milestone c q milestone_id)) not_in_milestone
  guard (Readiness.ready (readiness c files q f))
      (ineligible (Readiness.blocked_reason (readiness c files q f)))
  ok (selection_of as_requested f)

-- Each feature that is not ready, with the reason.
abbrev reasons_of :
    Casing → Files → FeatureQueue → List Feature → List (String × Option BlockedReason)
unfolding readiness
reasons_of c files q [] = []
reasons_of c files q (f ∷ fs) =
    let rest = reasons_of c files q fs in
    if Readiness.ready (readiness c files q f)
    then rest
    else (f.id, Readiness.blocked_reason (readiness c files q f)) ∷ rest

unfoldable pub no_ready_reasons :
    Casing → Files → FeatureQueue → String → List (String × Option BlockedReason)
unfolding features_for_milestone reasons_of
no_ready_reasons c files q m = reasons_of c files q (features_for_milestone c q m)

-- `integration_status` is "pending", or absent.
abbrev is_pending : Option Json → Bool
is_pending none = true
is_pending (some v) = is_text (some v) "pending"

unfoldable pub awaits_integration : Feature → Bool
awaits_integration f =
    contains f.status ("accepted" ∷ "integration_pending" ∷ [])
    && is_pending (get_field "integration_status" f.entry)

-- `self.features.index(item)`; the IDs of a queue are unique.
abbrev position : String → List Feature → ℕ
position feature_id [] = 0
position feature_id (f ∷ fs) =
    let rest = position feature_id fs in if f.id == feature_id then 0 else suc rest

abbrev pub placed : FeatureQueue → List Feature → List (Feature × ℕ)
placed q [] = []
placed q (f ∷ fs) = (f, position f.id q.features) ∷ placed q fs

unfoldable pub integration_candidates : Casing → FeatureQueue → String → List Feature
unfolding features_for_milestone candidate_le sort_by awaits_integration
integration_candidates c q m =
    map (λ pair. pair.0)
      (sort_by (candidate_le c)
        (placed q (select awaits_integration (features_for_milestone c q m))))

abbrev pub only_integration : List Feature → Result QueueError (Option Selection)
only_integration [] = ok none
only_integration (f ∷ []) = ok (some (selection_of awaiting_integration f))
only_integration (f ∷ g ∷ fs) = err (several_integrations (map (λ h. h.id) (f ∷ g ∷ fs)))

unfoldable pub select_integration :
    Casing → FeatureQueue → String → Result QueueError (Option Selection)
unfolding integration_candidates
select_integration c q m = only_integration (integration_candidates c q m)
