-- ===== src/StateMachine/Gates.antt =====
-- What the portfolio and cycle tables of state_machine.py guarantee about every run.
use mathlib.Core.Path.{subst}
use development_conveyor.Base.{
  String, ◌≡◌, refl, sym, ◌⊎◌, inl, inr, true, List, some, Result, ok, err, string_eq, contains,
  ne_of_beq,
}
use development_conveyor.StateMachine.{
  StateMachine, Transition, TransitionError, transition, make, portfolio_states,
  portfolio_transitions, portfolio_machine, cycle_states, cycle_transitions, cycle_machine,
}
use development_conveyor.StateMachine.Trails.{
  Allows, stay, follow, moved, transition-Allows, Allows-transition, Trail, here, next,
  Trail-through,
}

-- Every request either follows what the machine allows, and returns the move, or raises.
pub transition_outcome :
    (m : StateMachine) (s t : String)
    → (Allows m s t × (transition m s t ≡ ok (moved s t)))
      ⊎ ((¬ Allows m s t) × (e : TransitionError) × (transition m s t ≡ err e))
transition_outcome m s t = split (transition m s t) refl
  where
    split :
        (r : Result TransitionError Transition)
        → transition m s t ≡ r
        → (Allows m s t × (transition m s t ≡ ok (moved s t)))
          ⊎ ((¬ Allows m s t) × (e : TransitionError) × (transition m s t ≡ err e))
    split (ok r) h = let (a, _) = transition-Allows m s t h in inl (a, Allows-transition m s t a)
    split (err e) h = inr (λ a. cc (h, Allows-transition m s t a), e, h)

-- Both machines pass the check of the constructor.
pub machines_complete :
    (make portfolio_states portfolio_transitions ≡ some portfolio_machine)
    × (make cycle_states cycle_transitions ≡ some cycle_machine)
unfolding make
machines_complete = (refl, refl)

-- A portfolio run from `discover` into `next_milestone` has left `human_merge_approval`,
-- `milestone_ready_for_merge` and `milestone_gate`.
pub next_milestone_needs_approval :
    (visited : List String)
    → Trail portfolio_machine "discover" visited "next_milestone"
    → (contains "human_merge_approval" visited ≡ true)
      × (contains "milestone_ready_for_merge" visited ≡ true)
      × (contains "milestone_gate" visited ≡ true)
next_milestone_needs_approval visited run =
    let (approval, v₁, to_approval, sub₁) =
      Trail-through portfolio_machine "human_merge_approval" "next_milestone" refl (ne_of_beq refl)
        run in
    let (ready, v₂, to_ready, sub₂) =
      Trail-through portfolio_machine "milestone_ready_for_merge" "human_merge_approval" refl
        (ne_of_beq refl) to_approval in
    let (gate, _, _, _) =
      Trail-through portfolio_machine "milestone_gate" "milestone_ready_for_merge" refl
        (ne_of_beq refl) to_ready in
    (approval, sub₁ _ ready, sub₁ _ (sub₂ _ gate))

-- A cycle run from `idle` into `feature_integrated` has left `integration_validation`.
pub integrated_needs_validation :
    (visited : List String)
    → Trail cycle_machine "idle" visited "feature_integrated"
    → contains "integration_validation" visited ≡ true
integrated_needs_validation visited run =
    (Trail-through cycle_machine "integration_validation" "feature_integrated" refl (ne_of_beq refl)
      run).0

completed_stays :
    {t : String} {r : Transition} → transition cycle_machine "completed" t ≡ ok r → t ≡ "completed"
completed_stays {t} h = elim ((transition-Allows cycle_machine "completed" t h).0) [
  | stay _ e ↦ sym e
  | follow c _ ↦ cc c
]

-- A cycle run from `completed` never leaves it.
pub completed_final :
    {t : String} {visited : List String}
    → Trail cycle_machine "completed" visited t
    → t ≡ "completed"
completed_final here = refl
completed_final (next {t = s} {u = t} {r = q} run f) =
    completed_stays (subst (λ s. transition cycle_machine s t ≡ ok q) (completed_final run) f)
