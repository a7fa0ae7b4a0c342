-- ===== src/Ledger/Sound.antt =====
-- What a ledger that `_validate` accepts guarantees, stated on its events alone.
use mathlib.Core.Path.{subst}
use mathlib.Core.List.{map-append, append-nil}
use development_conveyor.Base.{
  ℕ, suc, ◌+◌, ◌≤◌, String, ◌≡◌, refl, sym, ap, ◌∙◌, inl, inr, Bool, true, false, not, ◌&&◌, ◌||◌,
  List, [], ◌∷◌, ◌++◌, length, contains, any, map, ◌==◌, string_eq, Bool-cases, eq_of_beq, ok,
  bind-ok, ok-injective, arith,
}
use development_conveyor.Ledger.Event.{Event}
use development_conveyor.Ledger.History.{Integrity, validate}
use development_conveyor.Ledger.Chain.{check_events-Linked}
use development_conveyor.Ledger.Check.{
  Identity, Environment, Seen, nothing_seen, is_terminal, check_event, check_events,
}
use development_conveyor.Ledger.Append.{event_history, has_terminal}
use development_conveyor.Ledger.Accepted.{Accepted, check_event-Accepted}
use development_conveyor.Ledger.Tracks.{
  Tracks, Tracks-nothing_seen, Accepted-Tracks, entry_for, sequence_grown, record_grown,
}
use development_conveyor.Ledger.Steps.{
  IsRecord, Numbered, distinct, distinct-append, count, count-append, count_none, frozen,
  frozen-append, may_follow_terminal, check_identity-IsRecord, ends_once, starts_once,
  follows_terminal,
}

abbrev pub is_start : String → Bool
is_start x = x == "TransactionStarted"

-- Every record is numbered and of the project, no identifier repeats, and each transaction starts at
-- most once, ends at most once, and is not mutated behind its end.
pub record IsSound (l : Identity) (es : List Event) : Type 0 where
  pub numbered : Numbered l 1 es
  pub distinct_ids : distinct (map (λ e. e.event_id) es) ≡ true
  pub ends_at_most_once : (t : String) → count is_terminal (event_history t es) ≤ 1
  pub starts_at_most_once : (t : String) → count is_start (event_history t es) ≤ 1
  pub immutable_after_end :
      (t : String) → frozen is_terminal may_follow_terminal false (event_history t es) ≡ true

Numbered-append :
    (l : Identity) (k : ℕ) (es : List Event) (e : Event)
    → Numbered l k es
    → IsRecord l (k + length es) e
    → Numbered l k (es ++ e ∷ [])
Numbered-append l k [] e n r = (subst (λ i. IsRecord l i e) (omega arith) r, tt)
Numbered-append l k (x ∷ es) e n r =
    (n.0, Numbered-append l (suc k) es e n.1 (subst (λ i. IsRecord l i e) (omega arith) r))

-- A history that an event joins keeps a bound of one if the event is new to it.
count-entry :
    (p : String → Bool) (t : String) (e : Event) (h : List String)
    → count p h ≤ 1
    → (e.transaction_id ≡ t → p e.event_type ≡ true → any p h ≡ false)
    → count p (h ++ entry_for t e) ≤ 1
count-entry p t e h n fresh = elim (Bool-cases (e.transaction_id == t)) [
  | inl q ↦ elim (Bool-cases (p e.event_type)) [
    | inl r ↦
        let none_yet = count_none p h (fresh (eq_of_beq q) r) in
        rw (q, count-append p h (e.event_type ∷ []), none_yet, r) (omega arith)
    | inr r ↦ rw (q, count-append p h (e.event_type ∷ []), r) (omega arith)
  ]
  | inr q ↦ rw (q, append-nil h) n
]

any-is_start : (h : List String) → any is_start h ≡ contains "TransactionStarted" h
any-is_start [] = refl
any-is_start (x ∷ h) = ap (λ b. x == "TransactionStarted" || b) (any-is_start h)

both_true : {a b : Bool} → a ≡ true → b ≡ true → (a && b) ≡ true
both_true h k = ground arith

implied : (a b : Bool) → (a ≡ true → b ≡ true) → (not (false || a) || b) ≡ true
implied true b h = h refl
implied false b h = refl

module _ (env : Environment) (l : Identity) where
  module _ {s t : Seen} {e : Event} (a : Accepted env l s e t) (k : Tracks s) where
    numbering_kept : IsSound l s.events → Numbered l 1 t.events
    numbering_kept i = subst (Numbered l 1) (sym (sequence_grown env l a k)) (
        Numbered-append l 1 s.events e i.numbered (
          subst (λ n. IsRecord l n e) (omega arith)
            (check_identity-IsRecord l (length s.events + 1) s.event_ids e a.identity).0))

    ids_kept : IsSound l s.events → distinct (map (λ e. e.event_id) t.events) ≡ true
    ids_kept i =
        let fresh = (check_identity-IsRecord l (length s.events + 1) s.event_ids e a.identity).1 in
        subst (λ es. distinct (map (λ e. e.event_id) es) ≡ true) (sym (sequence_grown env l a k))
          (subst (λ ids. distinct ids ≡ true) (sym (map-append (λ e. e.event_id) s.events (e ∷ [])))
            (distinct-append (map (λ e. e.event_id) s.events) e.event_id i.distinct_ids
              (sym (k.ids e.event_id) ∙ fresh)))

    immutability_kept :
        IsSound l s.events
        → (u : String)
        → frozen is_terminal may_follow_terminal false (event_history u t.events) ≡ true
    immutability_kept i u =
        subst (λ h. frozen is_terminal may_follow_terminal false h ≡ true)
          (sym (record_grown env l a k u))
          (elim (Bool-cases (e.transaction_id == u)) [
            | inl q ↦ rw q (
                frozen-append is_terminal may_follow_terminal false (event_history u s.events)
                  e.event_type
                ∙ both_true (i.immutable_after_end u) (
                    implied (has_terminal (event_history u s.events)) _ (λ h.
                      follows_terminal env l a k (
                        subst (λ v. has_terminal (event_history v s.events) ≡ true)
                          (sym (eq_of_beq q)) h))))
            | inr q ↦ rw (q, append-nil (event_history u s.events)) (i.immutable_after_end u)
          ])

    end_kept : IsSound l s.events → (u : String) → count is_terminal (event_history u t.events) ≤ 1
    end_kept i u =
        subst (λ h. count is_terminal h ≤ 1) (sym (record_grown env l a k u))
          (count-entry is_terminal u e (event_history u s.events) (i.ends_at_most_once u) (λ q r.
            subst (λ v. has_terminal (event_history v s.events) ≡ false) q (ends_once env l a k r)))

    starts_after : IsSound l s.events → (u : String) → count is_start (event_history u t.events) ≤ 1
    starts_after i u =
        subst (λ h. count is_start h ≤ 1) (sym (record_grown env l a k u))
          (count-entry is_start u e (event_history u s.events) (i.starts_at_most_once u) (λ q r.
            any-is_start (event_history u s.events)
            ∙ subst (λ v. contains "TransactionStarted" (event_history v s.events) ≡ false) q
                (starts_once env l a k r)))

    Accepted-IsSound : IsSound l s.events → IsSound l t.events
    Accepted-IsSound i = record {
      numbered = numbering_kept i;
      distinct_ids = ids_kept i;
      ends_at_most_once = λ u. end_kept i u;
      starts_at_most_once = λ u. starts_after i u;
      immutable_after_end = immutability_kept i;
    }

  pub check_events-IsSound :
      (s : Seen) (es : List Event) {t : Seen}
      → check_events env l s es ≡ ok t
      → Tracks s
      → IsSound l s.events
      → IsSound l t.events
  unfolding check_events
  check_events-IsSound s [] h k i = subst (λ t. IsSound l t.events) (ok-injective h) i
  check_events-IsSound s (e ∷ es) h k i =
      let (t, first, later) = bind-ok (check_event env l s e) _ h in
      let a = check_event-Accepted env l s e first in
      check_events-IsSound t es later (Accepted-Tracks env l a k) (Accepted-IsSound a k i)

  -- A ledger that validates is numbered, of the project, without a repeated identifier, and each of its
  -- transactions starts at most once, ends at most once, and stays unmutated behind its end.
  pub validate-IsSound : (es : List Event) {i : Integrity} → validate env l es ≡ ok i → IsSound l es
  unfolding validate
  validate-IsSound es h =
      let (s, looped, _) = bind-ok (check_events env l nothing_seen es) _ h in
      let (_, _, events) = check_events-Linked env l nothing_seen es looped in
      subst (IsSound l) events (
        check_events-IsSound nothing_seen es looped Tracks-nothing_seen (record {
          numbered = tt;
          distinct_ids = refl;
          ends_at_most_once = λ t. omega arith;
          starts_at_most_once = λ t. omega arith;
          immutable_after_end = λ t. refl;
        }))
