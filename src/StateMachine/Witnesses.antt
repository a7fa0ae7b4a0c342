-- ===== src/StateMachine/Witnesses.antt =====
-- Runs of the two machines, and the theorems at them.
use development_conveyor.Base.{String, ◌≡◌, refl, true, List, [], ◌∷◌, contains, string_eq}
use development_conveyor.StateMachine.{transition, portfolio_machine, cycle_machine}
use development_conveyor.StateMachine.Trails.{Trail, here, next, moved}
use development_conveyor.StateMachine.Gates.{next_milestone_needs_approval}

abbrev milestone_path : List String
milestone_path =
    "human_merge_approval" ∷ "milestone_ready_for_merge" ∷ "milestone_gate" ∷ "queue_reconciliation"
    ∷ "discover" ∷ []

milestone_run : Trail portfolio_machine "discover" milestone_path "next_milestone"
unfolding transition
milestone_run =
    next {r = moved "human_merge_approval" "next_milestone"}
      (next {r = moved "milestone_ready_for_merge" "human_merge_approval"}
        (next {r = moved "milestone_gate" "milestone_ready_for_merge"}
          (next {r = moved "queue_reconciliation" "milestone_gate"}
            (next {r = moved "discover" "queue_reconciliation"} here refl) refl)
          refl)
        refl)
      refl

next_milestone_needs_approval_example :
    (contains "human_merge_approval" milestone_path ≡ true)
    × (contains "milestone_ready_for_merge" milestone_path ≡ true)
    × (contains "milestone_gate" milestone_path ≡ true)
next_milestone_needs_approval_example = next_milestone_needs_approval milestone_path milestone_run

abbrev integration_path : List String
integration_path =
    "integration_validation" ∷ "feature_repair" ∷ "feature_in_progress" ∷ "branch_preparing"
    ∷ "feature_selected" ∷ "preflight" ∷ "idle" ∷ []

integration_run : Trail cycle_machine "idle" integration_path "feature_integrated"
unfolding transition
integration_run =
    next {r = moved "integration_validation" "feature_integrated"}
      (next {r = moved "feature_repair" "integration_validation"}
        (next {r = moved "feature_in_progress" "feature_repair"}
          (next {r = moved "branch_preparing" "feature_in_progress"}
            (next {r = moved "feature_selected" "branch_preparing"}
              (next {r = moved "preflight" "feature_selected"}
                (next {r = moved "idle" "preflight"} here refl) refl)
              refl)
            refl)
          refl)
        refl)
      refl

completed_run : Trail cycle_machine "completed" ("completed" ∷ []) "completed"
unfolding transition
completed_run = next {r = moved "completed" "completed"} here refl
