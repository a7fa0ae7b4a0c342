-- ===== src/Transaction/Progress.antt =====
-- The order in which the transaction of src/development_conveyor/contracts.py comes to completion.
use mathlib.Core.Path.{subst}
use development_conveyor.Base.{
  String, ◌≡◌, refl, sym, ap, ◌∙◌, ◌⊎◌, inl, inr, true, false, Option, List, [], ◌∷◌, ◌==◌,
  string_eq, option_eq, contains, eq_of_beq, ||-cases, ||-right, beq_refl, ne_of_beq, beq_of_ne,
  ◌≢◌,
}
use development_conveyor.Transaction.{PhaseTransaction, advance, terminate}
use development_conveyor.Transaction.State.{
  TransactionState, created, lease_pending, active, result_pending, validating, finalizing,
  completed, blocked, human_decision_required, retryable_failure, terminal_failure, superseded,
  state_eq, is_terminal_state, failed_states, allowed_transitions,
}
use development_conveyor.Transaction.Order.{
  Operation, to, end_with, perform, kept, run, entered, states_of_run, terminal_immutable,
}
use development_conveyor.Transaction.Outcome.{
  stays, moves, refused, advance_outcome, terminate_outcome, may_end-allowed,
}

-- The states still ahead of a transaction that is to complete.
abbrev pub path_to_completion : TransactionState → List TransactionState
path_to_completion created =
    lease_pending ∷ active ∷ result_pending ∷ validating ∷ finalizing ∷ completed ∷ []
path_to_completion lease_pending =
    active ∷ result_pending ∷ validating ∷ finalizing ∷ completed ∷ []
path_to_completion active = result_pending ∷ validating ∷ finalizing ∷ completed ∷ []
path_to_completion result_pending = validating ∷ finalizing ∷ completed ∷ []
path_to_completion validating = finalizing ∷ completed ∷ []
path_to_completion finalizing = completed ∷ []
path_to_completion _ = []

first_or_failed :
    (x t : TransactionState)
    → contains t (x ∷ failed_states) ≡ true
    → (x ∷ path_to_completion x ≡ t ∷ path_to_completion t) ⊎ (contains t failed_states ≡ true)
first_or_failed x t h = elim (||-cases (x == t) _ h) [
  | inl e ↦ inl (ap (λ y. y ∷ path_to_completion y) (eq_of_beq e))
  | inr f ↦ inr f
]

-- An allowed move follows the path or fails.
move_on_path :
    (s t : TransactionState)
    → contains t (allowed_transitions s) ≡ true
    → (path_to_completion s ≡ t ∷ path_to_completion t) ⊎ (contains t failed_states ≡ true)
move_on_path created t h = first_or_failed lease_pending t h
move_on_path lease_pending t h = first_or_failed active t h
move_on_path active t h = first_or_failed result_pending t h
move_on_path result_pending t h = first_or_failed validating t h
move_on_path validating t h = first_or_failed finalizing t h
move_on_path finalizing t h = first_or_failed completed t h
move_on_path completed t h = cc h
move_on_path blocked t h = cc h
move_on_path human_decision_required t h = cc h
move_on_path retryable_failure t h = cc h
move_on_path terminal_failure t h = cc h
move_on_path superseded t h = cc h

-- What a call does to the state: nothing, or an allowed move.
pub data Moved (s t : TransactionState) : Type 0 where
  same : s ≡ t → Moved s t
  along : (s == t) ≡ false → contains t (allowed_transitions s) ≡ true → Moved s t

differ : (s t : TransactionState) → (t == s) ≡ false → (s == t) ≡ false
differ s t h = beq_of_ne {a = s} {b = t} (λ e. ne_of_beq {a = t} {b = s} h (sym e))

advance-Moved :
    (t : TransactionState) (p : PhaseTransaction)
    → Moved p.current_state (kept p (advance t p)).current_state
advance-Moved t p = elim (advance_outcome t p) [
  | stays e r ↦ same (rw r refl)
  | moves d c r ↦ rw r (along (differ p.current_state t d) c)
  | refused d c r ↦ same (rw r refl)
]

terminate-Moved :
    (t : TransactionState) (c : String) (r : Option String) (p : PhaseTransaction)
    → Moved p.current_state (kept p (terminate t c r p)).current_state
terminate-Moved t c r p = elim (terminate_outcome t c r p) [
  | inl (m, e) ↦
      let (allowed, other) = may_end-allowed t p m in
      rw e (along (differ p.current_state t other) allowed)
  | inr (m, x, e) ↦ same (rw e refl)
]

perform-Moved :
    (o : Operation) (p : PhaseTransaction)
    → Moved p.current_state (kept p (perform o p)).current_state
perform-Moved (to t) p = advance-Moved t p
perform-Moved (end_with t c r) p = terminate-Moved t c r p

-- What fails is not completed later.
failed_not_completed :
    (t : TransactionState)
    → contains t failed_states ≡ true
    → (is_terminal_state t ≡ true) × (t ≢ completed)
failed_not_completed t h =
    (||-right (completed == t) h, λ e. cc (subst (λ x. contains x failed_states ≡ true) e h))

step_on_path :
    (os : List Operation) (s : TransactionState) (q : PhaseTransaction)
    → Moved s q.current_state
    → (run os q).current_state ≡ completed
    → states_of_run os q ≡ path_to_completion q.current_state
    → entered s q.current_state (states_of_run os q) ≡ path_to_completion s
step_on_path os s q (same e) done rest = rw (e, beq_refl q.current_state) rest
step_on_path os s q (along d c) done rest = elim (move_on_path s q.current_state c) [
  | inl e ↦ rw (d, rest) (sym e)
  | inr f ↦
      let (ended, other) = failed_not_completed q.current_state f in
      absurd (other (sym (ap (λ x. x.current_state) (terminal_immutable os q ended)) ∙ done))
]

-- A run of calls of `transition` and `terminate`, those that raise included, that ends completed has
-- entered every state on the path from where it began to completion, in order, once, and no other.
pub completed_in_order :
    (os : List Operation) (p : PhaseTransaction)
    → (run os p).current_state ≡ completed
    → states_of_run os p ≡ path_to_completion p.current_state
completed_in_order [] p h = ap path_to_completion (sym h)
completed_in_order (o ∷ os) p h =
    step_on_path os p.current_state (kept p (perform o p)) (perform-Moved o p) h
      (completed_in_order os (kept p (perform o p)) h)
