-- ===== src/Ledger/Tracks.antt =====
-- The loop variables of `_validate` as functions of the events that the loop has accepted.
use development_conveyor.Base.{
  is_some, String, ◌≡◌, refl, sym, ap, ◌∙◌, inl, inr, Bool, true, false, ◌&&◌, ◌||◌, List, [], ◌∷◌,
  ◌++◌, contains, contains-append, any-append, map, lookup, insert, lookup-insert_self,
  lookup-insert_ne, ◌==◌, string_eq, Bool-cases, eq_of_beq, ok, bind-ok, ok-injective, arith,
  if◌then◌else◌,
}
use mathlib.Core.Path.{subst, ap₂, ◌≡⟨◌⟩◌, ◌∎}
use mathlib.Core.List.{append-nil, map-append}
use development_conveyor.Ledger.Event.{Event}
use development_conveyor.Ledger.Check.{
  Identity, Environment, Seen, nothing_seen, is_terminal, or_empty, history_of, check_event,
  check_events, enter, record_event,
}
use development_conveyor.Ledger.Append.{event_history, has_terminal}
use development_conveyor.Ledger.Accepted.{
  Accepted, SameMarks, check_event-Accepted, Accepted-SameCore, note_start-marks,
  note_terminal-marks, note_gate-SameMarks,
}

-- What an event adds to the history of a transaction.
abbrev pub entry_for : String → Event → List String
entry_for t e = if e.transaction_id == t then e.event_type ∷ [] else []

pub event_history-append :
    (t : String) (es : List Event) (e : Event)
    → event_history t (es ++ e ∷ []) ≡ event_history t es ++ entry_for t e
event_history-append t [] e = ground arith
event_history-append t (x ∷ es) e = elim (Bool-cases (x.transaction_id == t)) [
  | inl p ↦ rw p (ap (λ h. x.event_type ∷ h) (event_history-append t es e))
  | inr p ↦ rw p (event_history-append t es e)
]

pub record Tracks (s : Seen) : Type 0 where
  pub histories : (t : String) → history_of t s.histories ≡ event_history t s.events
  pub ids : (x : String) → contains x s.event_ids ≡ contains x (map (λ e. e.event_id) s.events)
  pub terminals :
      (t : String) → is_some (lookup t s.terminals) ≡ has_terminal (event_history t s.events)
  pub started :
      (t : String) → contains t s.started ≡ contains "TransactionStarted" (event_history t s.events)

pub Tracks-nothing_seen : Tracks nothing_seen
Tracks-nothing_seen = record {
  histories = λ t. refl;
  ids = λ x. refl;
  terminals = λ t. refl;
  started = λ t. refl;
}

is_some-insert :
    (t u v : String) (m : List (String × String))
    → is_some (lookup t (insert u v m)) ≡ (u == t || is_some (lookup t m))
is_some-insert t u v m = elim (Bool-cases (u == t)) [
  | inl p ↦ rw p (
      subst (λ t. is_some (lookup t (insert u v m)) ≡ true) (eq_of_beq p)
        (rw (lookup-insert_self u v m) refl))
  | inr p ↦ rw (p, lookup-insert_ne u t v m p) refl
]

history_of-insert :
    (t u : String) (h : List String) (m : List (String × List String))
    → history_of t (insert u (history_of u m ++ h) m) ≡ history_of t m ++ (if u == t then h else [])
history_of-insert t u h m = elim (Bool-cases (u == t)) [
  | inl p ↦ rw p (
      subst (λ t. history_of t (insert u (history_of u m ++ h) m) ≡ history_of t m ++ h)
        (eq_of_beq p) (ap or_empty (lookup-insert_self u (history_of u m ++ h) m)))
  | inr p ↦ rw p (ap or_empty (lookup-insert_ne u t (history_of u m ++ h) m p) ∙ sym (append-nil _))
]

contains-entry_for :
    (x t : String) (e : Event)
    → contains x (entry_for t e) ≡ (e.transaction_id == t && e.event_type == x)
contains-entry_for x t e = ground arith

||-false : (a : Bool) → (a || false) ≡ a
||-false true = refl
||-false false = refl

has_terminal-entry_for :
    (t : String) (e : Event)
    → has_terminal (entry_for t e) ≡ (e.transaction_id == t && is_terminal e.event_type)
has_terminal-entry_for t e = elim (Bool-cases (e.transaction_id == t)) [
  | inl p ↦ rw p (||-false (is_terminal e.event_type))
  | inr p ↦ rw p refl
]

||_comm : (a b : Bool) → (a || b) ≡ (b || (a || false))
||_comm true true = refl
||_comm _ _ = ground arith

if-is_some :
    (b : Bool) (t u v : String) (m : List (String × String))
    → is_some (lookup t (if b then insert u v m else m)) ≡ (is_some (lookup t m) || (u == t && b))
if-is_some true t u v m = is_some-insert t u v m ∙ ground arith
if-is_some false t u v m = ground arith

if-contains :
    (b : Bool) (t u : String) (xs : List String)
    → contains t (if b then u ∷ xs else xs) ≡ (contains t xs || (u == t && b))
if-contains b t u xs = ground arith

module _ (env : Environment) (l : Identity) where
  module _ {s t : Seen} {e : Event} (a : Accepted env l s e t) (h : Tracks s) where
    pub sequence_grown : t.events ≡ s.events ++ e ∷ []
    sequence_grown =
        ap (λ t. t.events) a.result ∙ ap (λ x. x ++ e ∷ []) (Accepted-SameCore env l a).events

    pub record_grown :
        (u : String) → event_history u t.events ≡ event_history u s.events ++ entry_for u e
    record_grown u = ap (event_history u) sequence_grown ∙ event_history-append u s.events e

    histories_after : (u : String) → history_of u t.histories ≡ event_history u t.events
    histories_after u =
        history_of u t.histories
        ≡⟨ ap (λ t. history_of u t.histories) a.result ⟩
          history_of u (record_event e a.gated).histories
        ≡⟨ history_of-insert u e.transaction_id (e.event_type ∷ []) a.gated.histories ⟩
          history_of u a.gated.histories ++ entry_for u e
        ≡⟨ ap (λ m. history_of u m ++ entry_for u e) (Accepted-SameCore env l a).histories ⟩
          history_of u s.histories ++ entry_for u e
        ≡⟨ ap (λ x. x ++ entry_for u e) (h.histories u) ∙ sym (record_grown u) ⟩
          event_history u t.events ∎

    ids_after : (x : String) → contains x t.event_ids ≡ contains x (map (λ e. e.event_id) t.events)
    ids_after x =
        contains x t.event_ids
        ≡⟨ ap (λ t. contains x t.event_ids) a.result ⟩ contains x (record_event e a.gated).event_ids
        ≡⟨ ap (contains x) (Accepted-SameCore env l a).event_ids ⟩
          (e.event_id == x || contains x s.event_ids)
        ≡⟨ ap (λ b. e.event_id == x || b) (h.ids x) ∙ ||_comm (e.event_id == x) _ ⟩
          (contains x (map (λ e. e.event_id) s.events) || (e.event_id == x || false))
        ≡⟨ sym (contains-append x (map (λ e. e.event_id) s.events) (e.event_id ∷ [])) ⟩
          contains x (map (λ e. e.event_id) s.events ++ e.event_id ∷ [])
        ≡⟨ ap (contains x) (
            sym (map-append (λ e. e.event_id) s.events (e ∷ []))
            ∙ ap (map (λ e. e.event_id)) (sym sequence_grown)) ⟩
          contains x (map (λ e. e.event_id) t.events) ∎

    terminals_after :
        (u : String) → is_some (lookup u t.terminals) ≡ has_terminal (event_history u t.events)
    terminals_after u =
        is_some (lookup u t.terminals)
        ≡⟨ ap (λ t. is_some (lookup u t.terminals)) a.result ⟩ is_some (lookup u a.gated.terminals)
        ≡⟨ ap (λ m. is_some (lookup u m))
            (marks.terminals ∙ (note_terminal-marks e a.begun a.terminal).1) ⟩
          is_some (
            lookup u (
              if is_terminal e.event_type
              then insert e.transaction_id e.event_type a.begun.terminals
              else a.begun.terminals))
        ≡⟨ if-is_some (is_terminal e.event_type) u e.transaction_id e.event_type a.begun.terminals ⟩
          (is_some (lookup u a.begun.terminals)
            || (e.transaction_id == u && is_terminal e.event_type))
        ≡⟨ ap₂ ◌||◌
            (ap (λ m. is_some (lookup u m)) (note_start-marks e (enter e s) a.start).0
              ∙ h.terminals u)
            (sym (has_terminal-entry_for u e)) ⟩
          (has_terminal (event_history u s.events) || has_terminal (entry_for u e))
        ≡⟨ sym (any-append is_terminal (event_history u s.events) (entry_for u e)) ⟩
          has_terminal (event_history u s.events ++ entry_for u e)
        ≡⟨ ap has_terminal (sym (record_grown u)) ⟩ has_terminal (event_history u t.events) ∎
      where
        marks : SameMarks a.ended a.gated
        marks = note_gate-SameMarks env e a.ended a.gate

    started_after :
        (u : String)
        → contains u t.started ≡ contains "TransactionStarted" (event_history u t.events)
    started_after u =
        contains u t.started
        ≡⟨ ap (λ t. contains u t.started) a.result ⟩ contains u a.gated.started
        ≡⟨ ap (contains u) (
            marks.started
            ∙ (note_terminal-marks e a.begun a.terminal).0
            ∙ (note_start-marks e (enter e s) a.start).1) ⟩
          contains u (
            if e.event_type == "TransactionStarted"
            then e.transaction_id ∷ s.started
            else s.started)
        ≡⟨ if-contains (e.event_type == "TransactionStarted") u e.transaction_id s.started ⟩
          (contains u s.started || (e.transaction_id == u && e.event_type == "TransactionStarted"))
        ≡⟨ ap₂ ◌||◌ (h.started u) (sym (contains-entry_for "TransactionStarted" u e)) ⟩
          (contains "TransactionStarted" (event_history u s.events)
            || contains "TransactionStarted" (entry_for u e))
        ≡⟨ sym (contains-append "TransactionStarted" (event_history u s.events) (entry_for u e)) ⟩
          contains "TransactionStarted" (event_history u s.events ++ entry_for u e)
        ≡⟨ ap (contains "TransactionStarted") (sym (record_grown u)) ⟩
          contains "TransactionStarted" (event_history u t.events) ∎
      where
        marks : SameMarks a.ended a.gated
        marks = note_gate-SameMarks env e a.ended a.gate

    pub Accepted-Tracks : Tracks t
    Accepted-Tracks = record {
      histories = histories_after;
      ids = ids_after;
      terminals = terminals_after;
      started = started_after;
    }

  pub check_events-Tracks :
      (s : Seen) (es : List Event) {t : Seen} → check_events env l s es ≡ ok t → Tracks s → Tracks t
  unfolding check_events
  check_events-Tracks s [] h k = subst Tracks (ok-injective h) k
  check_events-Tracks s (e ∷ es) h k =
      let (t, first, later) = bind-ok (check_event env l s e) _ h in
      check_events-Tracks t es later (Accepted-Tracks (check_event-Accepted env l s e first) k)
