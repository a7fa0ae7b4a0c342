-- ===== src/StateMachine.antt =====
-- The explicit state machines of src/development_conveyor/state_machine.py. A set of target states is
-- a list that is read by membership only; the tables are in the children.
mod Portfolio
mod Cycle
pub use Portfolio.{portfolio_states, portfolio_transitions}
pub use Cycle.{cycle_states, cycle_transitions}
pub mod Trails
pub mod Reach
pub mod Gates
mod Witnesses
use development_conveyor.Base.{
  String, Option, none, some, List, [], Bool, true, false, not, ◌&&◌, Result, ok, err, ◌==◌, ◌!=◌,
  string_eq, if◌then◌else◌, all, contains, lookup, map,
}

pub record Transition : Type 0 where
  pub previous : String
  pub current : String
  pub changed : Bool

-- The three `InvalidTransition` raises of `transition`.
pub data TransitionError : Type 0 where
  unknown_current unknown_target invalid_transition : TransitionError

pub record StateMachine : Type 0 where
  pub states : List String
  pub transitions : List (String × List String)

-- `self.transitions[current]` where the key is known.
abbrev pub targets : StateMachine → String → List String
targets m s = elim (lookup s m.transitions) [ none ↦ [] | some ts ↦ ts ]

abbrev pub is_known : StateMachine → String → Bool
is_known m s = elim (lookup s m.transitions) [ none ↦ false | some ts ↦ true ]

abbrev subset : List String → List String → Bool
subset xs ys = all (λ x. contains x ys) xs

-- `__init__`: every state has an explicit transition set, and no other key has one.
unfoldable pub make : List String → List (String × List String) → Option StateMachine
make states transitions =
    let keys = map (λ entry. entry.0) transitions in
    if subset states keys && subset keys states
    then some (record { states = states; transitions = transitions })
    else none

unfoldable pub transition : StateMachine → String → String → Result TransitionError Transition
transition m current target =
    if not (is_known m current)
    then err unknown_current
    else if not (is_known m target)
    then err unknown_target
    else if current == target
    then ok (record { previous = current; current = target; changed = false })
    else if not (contains target (targets m current))
    then err invalid_transition
    else ok (record { previous = current; current = target; changed = true })

abbrev pub portfolio_machine : StateMachine
portfolio_machine = record { states = portfolio_states; transitions = portfolio_transitions }

abbrev pub cycle_machine : StateMachine
cycle_machine = record { states = cycle_states; transitions = cycle_transitions }
