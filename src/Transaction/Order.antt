-- ===== src/Transaction/Order.antt =====
-- Sequences of transitions and terminations of a PhaseTransaction, in
-- src/development_conveyor/contracts.py: what they reach, in which order, and that an end is final.
use development_conveyor.Base.{
  String, ◌≡◌, refl, inl, inr, Bool, true, false, not, ◌||◌, Option, List, [], ◌∷◌, ◌==◌, string_eq,
  option_eq, is_some, Bool-cases, Result, ok, err, arith, if◌then◌else◌,
}
use development_conveyor.Transaction.{TransactionError, PhaseTransaction, advance, terminate}
use development_conveyor.Transaction.State.{
  TransactionState, created, lease_pending, active, result_pending, validating, finalizing,
  state_eq, is_terminal_state, allowed_transitions,
}

or_true : (a : Bool) {b : Bool} → b ≡ true → not (a || b) ≡ false
or_true a h = ground arith

-- A call of one of the two methods that change the state.
pub data Operation : Type 0 where
  to : TransactionState → Operation
  end_with : TransactionState → String → Option String → Operation

abbrev pub perform : Operation → PhaseTransaction → Result TransactionError PhaseTransaction
perform (to target) p = advance target p
perform (end_with state classification reference) p = terminate state classification reference p

-- The object behind a call: a call that raises leaves it as it was.
abbrev pub kept : PhaseTransaction → Result TransactionError PhaseTransaction → PhaseTransaction
kept p (ok q) = q
kept p (err _) = p

abbrev pub run : List Operation → PhaseTransaction → PhaseTransaction
run [] p = p
run (o ∷ os) p = run os (kept p (perform o p))

-- The states that the calls move it into, in order; a call that changes no state adds none.
abbrev pub entered :
    TransactionState → TransactionState → List TransactionState → List TransactionState
entered s t rest = if s == t then rest else t ∷ rest

abbrev pub states_of_run : List Operation → PhaseTransaction → List TransactionState
states_of_run [] p = []
states_of_run (o ∷ os) p =
    let q = kept p (perform o p) in entered p.current_state q.current_state (states_of_run os q)

pub terminal_has_no_moves :
    (s : TransactionState) → is_terminal_state s ≡ true → allowed_transitions s ≡ []
terminal_has_no_moves created h = cc h
terminal_has_no_moves lease_pending h = cc h
terminal_has_no_moves active h = cc h
terminal_has_no_moves result_pending h = cc h
terminal_has_no_moves validating h = cc h
terminal_has_no_moves finalizing h = cc h
terminal_has_no_moves _ h = refl

advance_from_terminal :
    (target : TransactionState) (p : PhaseTransaction)
    → is_terminal_state p.current_state ≡ true
    → kept p (advance target p) ≡ p
unfolding advance
advance_from_terminal target p h = elim (Bool-cases (target == p.current_state)) [
  | inl e ↦ rw e refl
  | inr e ↦ rw (e, terminal_has_no_moves p.current_state h) refl
]

terminate_from_terminal :
    (state : TransactionState) (classification : String) (reference : Option String)
    (p : PhaseTransaction)
    → is_terminal_state p.current_state ≡ true
    → kept p (terminate state classification reference p) ≡ p
unfolding terminate
terminate_from_terminal state classification reference p h =
    elim (Bool-cases (is_terminal_state state)) [
      | inl e ↦ rw (e, or_true (is_some p.terminal_classification) h) refl
      | inr e ↦ rw e refl
    ]

pub perform_from_terminal :
    (o : Operation) (p : PhaseTransaction)
    → is_terminal_state p.current_state ≡ true
    → kept p (perform o p) ≡ p
perform_from_terminal (to target) p h = advance_from_terminal target p h
perform_from_terminal (end_with s c r) p h = terminate_from_terminal s c r p h

-- A transaction in a terminal state is the same object after any sequence of calls of `transition`
-- and `terminate`, those that raise included.
pub terminal_immutable :
    (os : List Operation) (p : PhaseTransaction)
    → is_terminal_state p.current_state ≡ true
    → run os p ≡ p
terminal_immutable [] p h = refl
terminal_immutable (o ∷ os) p h = rw (perform_from_terminal o p h) (terminal_immutable os p h)
