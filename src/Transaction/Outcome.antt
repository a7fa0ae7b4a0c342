-- ===== src/Transaction/Outcome.antt =====
-- Which calls of `terminate` succeed, and what they write, for the transaction of
-- src/development_conveyor/contracts.py.
use development_conveyor.Base.{
  String, ◌≡◌, refl, ap, ◌∙◌, ◌⊎◌, inl, inr, Bool, true, false, not, ◌&&◌, ◌||◌, Option, some, ◌==◌,
  string_eq, option_eq, contains, is_some, Bool-cases, eq_of_beq, &&-true, ok, err, arith,
}
use development_conveyor.Transaction.{
  TransactionError, invalid_transition, already_terminal, not_a_terminal_state, PhaseTransaction,
  advance, terminate,
}
use development_conveyor.Transaction.State.{
  TransactionState, finalizing, completed, state_eq, is_terminal_state, pair_of_states,
  allowed_transitions,
}
use development_conveyor.Transaction.Order.{terminal_has_no_moves}

-- A move into a terminal state: failures from every open state, completion from the last one.
abbrev pub ends_from : TransactionState → TransactionState → Bool
ends_from s t = not (t == completed) || (s == finalizing)

abbrev agree : Bool → Bool → Bool
agree true b = b
agree false b = not b

agree-eq : (a b : Bool) → agree a b ≡ true → a ≡ b
agree-eq a b h = ground arith

abbrev end_test : TransactionState → TransactionState → Bool
end_test s t =
    not (is_terminal_state t)
    || is_terminal_state s
    || (agree (contains t (allowed_transitions s)) (ends_from s t) && not (t == s))

end_tested : (s t : TransactionState) → end_test s t ≡ true
end_tested = pair_of_states end_test refl

implied_test : (a b : Bool) {c : Bool} → (not a || b || c) ≡ true → a ≡ true → b ≡ false → c ≡ true
implied_test a b h k l = ground arith

allowed_end :
    (s t : TransactionState)
    → is_terminal_state t ≡ true
    → is_terminal_state s ≡ false
    → (contains t (allowed_transitions s) ≡ ends_from s t) × ((t == s) ≡ false)
allowed_end s t h k =
    let both = implied_test (is_terminal_state t) (is_terminal_state s) (end_tested s t) h k in
    let parts = &&-true (agree (contains t (allowed_transitions s)) (ends_from s t)) _ both in
    (agree-eq _ _ parts.0, ground (arith, parts.1))

-- What `terminate` asks of the object and of the state it is to end in.
abbrev pub may_end : TransactionState → PhaseTransaction → Bool
may_end t p =
    is_terminal_state t
    && not (is_some p.terminal_classification)
    && not (is_terminal_state p.current_state)
    && ends_from p.current_state t

abbrev pub ended : TransactionState → String → Option String → PhaseTransaction → PhaseTransaction
ended t classification reference p = record p {
  current_state = t;
  terminal_classification = some classification;
  terminal_reference = reference;
}

-- The three outcomes of `transition`.
pub data Advanced (t : TransactionState) (p : PhaseTransaction) : Type 0 where
  stays : t ≡ p.current_state → advance t p ≡ ok p → Advanced t p
  moves :
      (t == p.current_state) ≡ false
      → contains t (allowed_transitions p.current_state) ≡ true
      → advance t p ≡ ok (record p { current_state = t })
      → Advanced t p
  refused :
      (t == p.current_state) ≡ false
      → contains t (allowed_transitions p.current_state) ≡ false
      → advance t p ≡ err invalid_transition
      → Advanced t p

not_terminal :
    (s t : TransactionState)
    → contains t (allowed_transitions s) ≡ true
    → is_terminal_state s ≡ false
not_terminal s t h = elim (Bool-cases (is_terminal_state s)) [
  | inl e ↦ cc (ap (contains t) (terminal_has_no_moves s e), h)
  | inr e ↦ e
]

-- `transition` keeps the object for its own state, moves it for an allowed one, and for any other
-- raises that the transition is invalid; its check that a terminal object is immutable never decides.
pub advance_outcome : (t : TransactionState) (p : PhaseTransaction) → Advanced t p
unfolding advance
advance_outcome t p = elim (Bool-cases (t == p.current_state)) [
  | inl e ↦ stays (eq_of_beq e) (rw e refl)
  | inr e ↦ elim (Bool-cases (contains t (allowed_transitions p.current_state))) [
    | inl c ↦ moves e c (rw (e, c, not_terminal p.current_state t c) refl)
    | inr c ↦ refused e c (rw (e, c) refl)
  ]
]

advance_to_end :
    (t : TransactionState) (p : PhaseTransaction)
    → is_terminal_state t ≡ true
    → is_terminal_state p.current_state ≡ false
    → ((ends_from p.current_state t ≡ true) × (advance t p ≡ ok (record p { current_state = t })))
      ⊎ ((ends_from p.current_state t ≡ false) × (advance t p ≡ err invalid_transition))
unfolding advance
advance_to_end t p h k =
    let (allowed, other) = allowed_end p.current_state t h k in
    elim (Bool-cases (ends_from p.current_state t)) [
      | inl e ↦ inl (e, rw (other, allowed, e, k) refl)
      | inr e ↦ inr (e, rw (other, allowed, e) refl)
    ]

module _ (t : TransactionState) (classification : String) (reference : Option String)
    (p : PhaseTransaction) where
  -- `terminate` ends the object in the asked state with its classification and reference if that
  -- state is terminal, the object has no classification and is not terminal, and is finalizing if it
  -- is to complete; otherwise it raises.
  pub terminate_outcome :
      ((may_end t p ≡ true)
        × (terminate t classification reference p ≡ ok (ended t classification reference p)))
      ⊎ ((may_end t p ≡ false)
          × (e : TransactionError) × (terminate t classification reference p ≡ err e))
  unfolding terminate
  terminate_outcome = elim (Bool-cases (is_terminal_state t)) [
    | inl h ↦ elim (Bool-cases (is_some p.terminal_classification)) [
      | inl c ↦ inr (rw (h, c) refl, already_terminal, rw (h, c) refl)
      | inr c ↦ elim (Bool-cases (is_terminal_state p.current_state)) [
        | inl k ↦ inr (rw (h, c, k) refl, already_terminal, rw (h, c, k) refl)
        | inr k ↦ elim (advance_to_end t p h k) [
          | inl (e, ok_move) ↦ inl (rw (h, c, k) e, rw (h, c, k, ok_move) refl)
          | inr (e, no_move) ↦ inr (rw (h, c, k) e, invalid_transition, rw (h, c, k, no_move) refl)
        ]
      ]
    ]
    | inr h ↦ inr (rw h refl, not_a_terminal_state, rw h refl)
  ]

-- The state that `terminate` asks for is an allowed one.
pub may_end-allowed :
    (t : TransactionState) (p : PhaseTransaction)
    → may_end t p ≡ true
    → (contains t (allowed_transitions p.current_state) ≡ true) × ((t == p.current_state) ≡ false)
may_end-allowed t p h =
    let (rest, ends) = &&-true _ (ends_from p.current_state t) h in
    let (asked, running) = &&-true _ (not (is_terminal_state p.current_state)) rest in
    let terminal = (&&-true (is_terminal_state t) _ asked).0 in
    let (allowed, other) = allowed_end p.current_state t terminal (ground (arith, running)) in
    (allowed ∙ ends, other)
