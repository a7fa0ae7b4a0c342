-- ===== src/Transaction/State.antt =====
-- TransactionState, TERMINAL_STATES and ALLOWED_TRANSITIONS of
-- src/development_conveyor/contracts.py.
use mathlib.Core.Logic.{◌↔◌}
use development_conveyor.Base.{
  String, ◌≡◌, refl, sym, ap, ◌∙◌, Bool, true, List, [], ◌∷◌, Option, some, some-eq, Eq, ◌==◌,
  string_eq, contains, all, all-contains, lookup, map, eq_of_beq, beq_refl,
}

pub data TransactionState : Type 0 where
  created lease_pending active result_pending validating finalizing : TransactionState
  completed blocked human_decision_required retryable_failure : TransactionState
  terminal_failure superseded : TransactionState

abbrev pub transaction_value : TransactionState → String
transaction_value created = "created"
transaction_value lease_pending = "lease_pending"
transaction_value active = "active"
transaction_value result_pending = "result_pending"
transaction_value validating = "validating"
transaction_value finalizing = "finalizing"
transaction_value completed = "completed"
transaction_value blocked = "blocked"
transaction_value human_decision_required = "human_decision_required"
transaction_value retryable_failure = "retryable_failure"
transaction_value terminal_failure = "terminal_failure"
transaction_value superseded = "superseded"

-- The members of a `str` enumeration are equal if their values are: a value names one member.
abbrev pub transaction_states : List TransactionState
transaction_states =
    created ∷ lease_pending ∷ active ∷ result_pending ∷ validating ∷ finalizing ∷ completed
    ∷ blocked ∷ human_decision_required ∷ retryable_failure ∷ terminal_failure ∷ superseded ∷ []

abbrev state_of : String → Option TransactionState
state_of s = lookup s (map (λ t. (transaction_value t, t)) transaction_states)

state_of-transaction_value : (s : TransactionState) → state_of (transaction_value s) ≡ some s
state_of-transaction_value created = refl
state_of-transaction_value lease_pending = refl
state_of-transaction_value active = refl
state_of-transaction_value result_pending = refl
state_of-transaction_value validating = refl
state_of-transaction_value finalizing = refl
state_of-transaction_value completed = refl
state_of-transaction_value blocked = refl
state_of-transaction_value human_decision_required = refl
state_of-transaction_value retryable_failure = refl
state_of-transaction_value terminal_failure = refl
state_of-transaction_value superseded = refl

value_injective : (s t : TransactionState) → transaction_value s ≡ transaction_value t → s ≡ t
value_injective s t h =
    some-eq (sym (state_of-transaction_value s) ∙ ap state_of h ∙ state_of-transaction_value t)

abbrev state_beq : TransactionState → TransactionState → Bool
state_beq s t = transaction_value s == transaction_value t

pub state_beq_iff : (s t : TransactionState) → (state_beq s t ≡ true) ↔ (s ≡ t)
state_beq_iff s t =
    (λ h. value_injective s t (eq_of_beq h), λ h. rw h (beq_refl (transaction_value t)))

instance abbrev pub state_eq : Eq TransactionState
state_eq = record { beq = state_beq; beq_iff = state_beq_iff }

abbrev pub failed_states : List TransactionState
failed_states =
    blocked ∷ human_decision_required ∷ retryable_failure ∷ terminal_failure ∷ superseded ∷ []

abbrev pub terminal_states : List TransactionState
terminal_states = completed ∷ failed_states

abbrev pub is_terminal_state : TransactionState → Bool
is_terminal_state s = contains s terminal_states

abbrev pub allowed_transitions : TransactionState → List TransactionState
allowed_transitions created = lease_pending ∷ failed_states
allowed_transitions lease_pending = active ∷ failed_states
allowed_transitions active = result_pending ∷ failed_states
allowed_transitions result_pending = validating ∷ failed_states
allowed_transitions validating = finalizing ∷ failed_states
allowed_transitions finalizing = completed ∷ failed_states
allowed_transitions _ = []

pub contains-transaction_states : (s : TransactionState) → contains s transaction_states ≡ true
contains-transaction_states created = refl
contains-transaction_states lease_pending = refl
contains-transaction_states active = refl
contains-transaction_states result_pending = refl
contains-transaction_states validating = refl
contains-transaction_states finalizing = refl
contains-transaction_states completed = refl
contains-transaction_states blocked = refl
contains-transaction_states human_decision_required = refl
contains-transaction_states retryable_failure = refl
contains-transaction_states terminal_failure = refl
contains-transaction_states superseded = refl

-- A test that holds of all pairs of members holds of each.
pub pair_of_states :
    (test : TransactionState → TransactionState → Bool)
    → all (λ s. all (test s) transaction_states) transaction_states ≡ true
    → (s t : TransactionState) → test s t ≡ true
pair_of_states test h s t =
    all-contains (test s) transaction_states t
      (all-contains (λ s. all (test s) transaction_states) transaction_states s h
        (contains-transaction_states s))
      (contains-transaction_states t)
