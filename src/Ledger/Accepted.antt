-- ===== src/Ledger/Accepted.antt =====
-- What an accepted iteration of the loop of `_validate` has checked, and what it leaves unchanged.
use development_conveyor.Base.{
  is_some, ◌+◌, ◌≡◌, refl, ◌∙◌, true, not, ◌||◌, ◌∷◌, length, lookup, string_eq, ok, bind-ok,
  guard-bind-ok, insert, if◌then◌else◌, Bool-cases, inl, inr, ◌==◌, arith,
}
use development_conveyor.Ledger.Event.{
  Event, terminal_mutated, workflow_changed, invalid_checkpoint,
}
use development_conveyor.Ledger.Check.{
  Identity, Environment, Seen, check_shape, check_identity, workflow_agrees, note_start,
  start_binding, note_terminal, note_gate, raise_gate, resolve_gate, check_chain,
  checkpoint_allowed, enter, record_event, check_event, mutates_terminal, is_terminal,
}

module _ (env : Environment) (l : Identity) where
  pub record Accepted (s : Seen) (e : Event) (t : Seen) : Type 0 where
    pub shape : check_shape e ≡ ok tt
    pub identity : check_identity l (length s.events + 1) s.event_ids e ≡ ok tt
    pub agrees : workflow_agrees (lookup e.transaction_id s.workflows) e.workflow_type ≡ true
    pub begun : Seen
    pub start : note_start e (enter e s) ≡ ok begun
    pub ended : Seen
    pub terminal : note_terminal e begun ≡ ok ended
    pub gated : Seen
    pub gate : note_gate env e ended ≡ ok gated
    pub checkpoint :
        (not (is_some (lookup e.transaction_id gated.terminals)) || checkpoint_allowed e) ≡ true
    pub chain : check_chain env e s.previous ≡ ok tt
    pub result : t ≡ record_event e gated

  pub check_event-Accepted :
      (s : Seen) (e : Event) {t : Seen} → check_event env l s e ≡ ok t → Accepted s e t
  unfolding check_event
  check_event-Accepted s e h =
      let (_, shape, h₁) = bind-ok (check_shape e) _ h in
      let (_, identity, h₂) = bind-ok (check_identity l (length s.events + 1) s.event_ids e) _ h₁ in
      let (agrees, h₃) = guard-bind-ok _ workflow_changed _ h₂ in
      let (begun, start, h₄) = bind-ok (note_start e (enter e s)) _ h₃ in
      let (ended, terminal, h₅) = bind-ok (note_terminal e begun) _ h₄ in
      let (gated, gate, h₆) = bind-ok (note_gate env e ended) _ h₅ in
      let (checkpoint, h₇) = guard-bind-ok _ invalid_checkpoint _ h₆ in
      let (_, chain, h₈) = bind-ok (check_chain env e s.previous) _ h₇ in
      record {
        shape = shape;
        identity = identity;
        agrees = agrees;
        begun = begun;
        start = start;
        ended = ended;
        terminal = terminal;
        gated = gated;
        gate = gate;
        checkpoint = checkpoint;
        chain = chain;
        result = cc h₈;
      }

  pub Accepted-check_event :
      (s : Seen) (e : Event) {t : Seen} → Accepted s e t → check_event env l s e ≡ ok t
  unfolding check_event
  Accepted-check_event s e a =
      rw
        (
          a.shape, a.identity, a.agrees, a.start, a.terminal, a.gate, a.checkpoint, a.chain,
          a.result,
        )
        refl

-- The three notes keep what the end of the iteration extends.
pub record SameCore (s t : Seen) : Type 0 where
  pub previous : t.previous ≡ s.previous
  pub event_ids : t.event_ids ≡ s.event_ids
  pub workflows : t.workflows ≡ s.workflows
  pub histories : t.histories ≡ s.histories
  pub events : t.events ≡ s.events

note_start-SameCore : (e : Event) (s : Seen) {t : Seen} → note_start e s ≡ ok t → SameCore s t
unfolding note_start start_binding
note_start-SameCore e s h = ground arith

note_terminal-SameCore : (e : Event) (s : Seen) {t : Seen} → note_terminal e s ≡ ok t → SameCore s t
unfolding note_terminal
note_terminal-SameCore e s h = ground arith

module _ (env : Environment) where
  raise_gate-SameCore : (e : Event) (s : Seen) {t : Seen} → raise_gate env e s ≡ ok t → SameCore s t
  unfolding raise_gate
  raise_gate-SameCore e s h = ground arith

  resolve_gate-SameCore :
      (e : Event) (s : Seen) {t : Seen} → resolve_gate env e s ≡ ok t → SameCore s t
  unfolding resolve_gate
  resolve_gate-SameCore e s h = ground arith

  note_gate-SameCore : (e : Event) (s : Seen) {t : Seen} → note_gate env e s ≡ ok t → SameCore s t
  unfolding note_gate
  note_gate-SameCore e s h = elim (Bool-cases (e.event_type == "HumanGateRaised")) [
    | inl p ↦ raise_gate-SameCore e s (rw p at h)
    | inr p ↦ elim (Bool-cases (e.event_type == "HumanGateResolved")) [
      | inl q ↦ resolve_gate-SameCore e s (rw (p, q) at h)
      | inr q ↦
          let kept =
            (guard-bind-ok (not (mutates_terminal e s)) terminal_mutated (ok s)
              (rw (p, q) at h)).1 in
          ground (arith, kept)
    ]
  ]

pub note_start-marks :
    (e : Event) (s : Seen) {t : Seen}
    → note_start e s ≡ ok t
    → (t.terminals ≡ s.terminals)
      × (t.started ≡ (
          if e.event_type == "TransactionStarted" then e.transaction_id ∷ s.started else s.started))
unfolding note_start start_binding
note_start-marks e s h = ground arith

pub note_terminal-marks :
    (e : Event) (s : Seen) {t : Seen}
    → note_terminal e s ≡ ok t
    → (t.started ≡ s.started)
      × (t.terminals ≡ (
          if is_terminal e.event_type
          then insert e.transaction_id e.event_type s.terminals
          else s.terminals))
unfolding note_terminal
note_terminal-marks e s h = ground arith

-- The gates change neither the terminal marks nor the started transactions.
pub record SameMarks (s t : Seen) : Type 0 where
  pub terminals : t.terminals ≡ s.terminals
  pub started : t.started ≡ s.started

module _ (env : Environment) where
  raise_gate-SameMarks :
      (e : Event) (s : Seen) {t : Seen} → raise_gate env e s ≡ ok t → SameMarks s t
  unfolding raise_gate
  raise_gate-SameMarks e s h = ground arith

  resolve_gate-SameMarks :
      (e : Event) (s : Seen) {t : Seen} → resolve_gate env e s ≡ ok t → SameMarks s t
  unfolding resolve_gate
  resolve_gate-SameMarks e s h = ground arith

  pub note_gate-SameMarks :
      (e : Event) (s : Seen) {t : Seen} → note_gate env e s ≡ ok t → SameMarks s t
  unfolding note_gate
  note_gate-SameMarks e s h = elim (Bool-cases (e.event_type == "HumanGateRaised")) [
    | inl p ↦ raise_gate-SameMarks e s (rw p at h)
    | inr p ↦ elim (Bool-cases (e.event_type == "HumanGateResolved")) [
      | inl q ↦ resolve_gate-SameMarks e s (rw (p, q) at h)
      | inr q ↦
          let kept =
            (guard-bind-ok (not (mutates_terminal e s)) terminal_mutated (ok s)
              (rw (p, q) at h)).1 in
          ground (arith, kept)
    ]
  ]

module _ (env : Environment) (l : Identity) where
  pub Accepted-SameCore :
      {s t : Seen} {e : Event} (a : Accepted env l s e t) → SameCore (enter e s) a.gated
  Accepted-SameCore {s} {t} {e} a =
      let p = note_start-SameCore e (enter e s) a.start in
      let q = note_terminal-SameCore e a.begun a.terminal in
      let r = note_gate-SameCore env e a.ended a.gate in
      record {
        previous = r.previous ∙ q.previous ∙ p.previous;
        event_ids = r.event_ids ∙ q.event_ids ∙ p.event_ids;
        workflows = r.workflows ∙ q.workflows ∙ p.workflows;
        histories = r.histories ∙ q.histories ∙ p.histories;
        events = r.events ∙ q.events ∙ p.events;
      }
