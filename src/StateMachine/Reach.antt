-- ===== src/StateMachine/Reach.antt =====
-- From which states a run of a machine can reach a goal, by a backward closure over its table.
use mathlib.Core.Path.{subst}
use development_conveyor.Base.{
  all-contains, ℕ, zero, suc, String, ◌≡◌, refl, inl, inr, Bool, true, false, not, ◌&&◌, List, [],
  ◌∷◌, ◌++◌, ◌==◌, string_eq, any, contains, Bool-cases, &&-true, eq_of_beq, beq_refl, ||-left,
  ||-right, ||-cases, contains-append, select,
}
use development_conveyor.StateMachine.{
  StateMachine, targets, is_known, portfolio_machine, portfolio_states, cycle_machine, cycle_states,
}
use development_conveyor.StateMachine.Trails.{Trail, here, Trail-cons, follow, Allows-transition}

-- A state that is known, not yet in `found`, and has a known target there.
abbrev enters : StateMachine → List String → String → Bool
enters m found s =
    not (contains s found) && any (λ t. contains t found && is_known m t) (targets m s)

closure : ℕ → StateMachine → List String → List String
closure zero m found = found
closure (suc k) m found = closure k m (found ++ select (enters m found) m.states)

abbrev CanReach : StateMachine → String → String → Type 0
CanReach m goal s = (visited : List String) × Trail m s visited goal

abbrev AllReach : StateMachine → String → List String → Type 0
AllReach m goal found = (s : String) → contains s found ≡ true → CanReach m goal s

module _ (m : StateMachine) (goal : String) where
  some_target :
      (found ts : List String) (s : String)
      → AllReach m goal found
      → ((t : String) → contains t ts ≡ true → contains t (targets m s) ≡ true)
      → any (λ t. contains t found && is_known m t) ts ≡ true
      → CanReach m goal s
  some_target found [] s h sub a = cc
  some_target found (t ∷ ts) s h sub a = elim (Bool-cases (contains t found && is_known m t)) [
    | inl e ↦
        let (reached, known) = &&-true (contains t found) (is_known m t) e in
        let (visited, run) = h t reached in
        let edge = sub t (||-left (contains t ts) (beq_refl t)) in
        Trail-cons m (Allows-transition m s t (follow edge known)) run
    | inr e ↦ some_target found ts s h (λ u q. sub u (||-right (t == u) q)) (rw e at a)
  ]

  selected :
      (found xs : List String)
      → AllReach m goal found
      → AllReach m goal (select (enters m found) xs)
  selected found [] h s c = cc
  selected found (x ∷ xs) h s c = elim (Bool-cases (enters m found x)) [
    | inl e ↦ elim (||-cases (x == s) _ (rw e at c)) [
      | inl same ↦
          let a = (&&-true (not (contains x found)) _ e).1 in
          subst (CanReach m goal) (eq_of_beq same)
            (some_target found (targets m x) x h (λ t q. q) a)
      | inr later ↦ selected found xs h s later
    ]
    | inr e ↦ selected found xs h s (rw e at c)
  ]

  closure-CanReach :
      (k : ℕ) (found : List String) → AllReach m goal found → AllReach m goal (closure k m found)
  unfolding closure
  closure-CanReach zero found h = h
  closure-CanReach (suc k) found h = closure-CanReach k _ grown
    where
      grown : AllReach m goal (found ++ select (enters m found) m.states)
      grown s c = elim (||-cases (contains s found) _ (rw contains-append at c)) [
        | inl old ↦ h s old
        | inr new ↦ selected found m.states h s new
      ]

  goal_reached : AllReach m goal (goal ∷ [])
  goal_reached s c = elim (||-cases (goal == s) false c) [
    | inl e ↦ subst (CanReach m goal) (eq_of_beq e) ([], here)
    | inr e ↦ cc e
  ]

  CanReach-closure :
      (k : ℕ) (s : String) → contains s (closure k m (goal ∷ [])) ≡ true → CanReach m goal s
  CanReach-closure k = closure-CanReach k (goal ∷ []) goal_reached

-- Every portfolio state has a run into `next_milestone`: no state is a dead end.
pub portfolio_never_stuck :
    (s : String)
    → contains s portfolio_states ≡ true
    → (visited : List String) × Trail portfolio_machine s visited "next_milestone"
unfolding closure
portfolio_never_stuck s c = CanReach-closure portfolio_machine "next_milestone" 6 s (
    all-contains (λ s. contains s (closure 6 portfolio_machine ("next_milestone" ∷ [])))
      portfolio_states s refl c)

-- Every cycle state has a run into `completed`.
pub cycle_never_stuck :
    (s : String)
    → contains s cycle_states ≡ true
    → (visited : List String) × Trail cycle_machine s visited "completed"
unfolding closure
cycle_never_stuck s c = CanReach-closure cycle_machine "completed" 5 s (
    all-contains (λ s. contains s (closure 5 cycle_machine ("completed" ∷ []))) cycle_states s refl
      c)
