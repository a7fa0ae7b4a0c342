-- ===== src/Ledger/Chain.antt =====
-- The fingerprint chain of a valid ledger, and what it says of two ledgers with one fingerprint.
use development_conveyor.Base.{
  String, ◌≡◌, refl, sym, ap, ◌∙◌, ◌≢◌, ◌⊎◌, inl, inr, List, [], ◌∷◌, ◌++◌, length, ◌==◌, string_eq,
  Bool-cases, eq_of_beq, ne_of_beq, ok, bind-ok, ok-injective, arith,
}
use mathlib.Core.Path.{ap₂, subst}
use mathlib.Core.List.{append_assoc, append-nil}
use development_conveyor.Json.{Json, json_eq}
use development_conveyor.Ledger.Event.{Event, event_body}
use development_conveyor.Ledger.Check.{
  Identity, Environment, Seen, nothing_seen, genesis_fingerprint, check_chain, check_event,
  check_events,
}
use development_conveyor.Ledger.Accepted.{check_event-Accepted, Accepted-SameCore}
use development_conveyor.Ledger.History.{Integrity, validate, check_histories}

-- Each record names its predecessor's fingerprint and carries its own.
abbrev pub Linked : (Json → String) → String → List Event → Type 0
Linked digest p [] = Unit
Linked digest p (e ∷ es) =
    (e.previous_fingerprint ≡ p)
    × (e.fingerprint ≡ digest (event_body e))
    × Linked digest e.fingerprint es

-- The fingerprint of the last record.
abbrev pub tip : String → List Event → String
tip p [] = p
tip p (e ∷ es) = tip e.fingerprint es

-- Two different values with one digest.
abbrev pub Collision : (Json → String) → Type 0
Collision digest = (a b : Json) × (a ≢ b) × (digest a ≡ digest b)

event_body-injective :
    (a b : Event) → event_body a ≡ event_body b → a.fingerprint ≡ b.fingerprint → a ≡ b
unfolding event_body
event_body-injective a b h k = ground arith

-- Chains of one length that end in one fingerprint are equal, or show a collision.
Linked-unique :
    (digest : Json → String) (p q : String) (es fs : List Event)
    → Linked digest p es
    → Linked digest q fs
    → length es ≡ length fs
    → tip p es ≡ tip q fs
    → ((es ≡ fs) × (p ≡ q)) ⊎ Collision digest
Linked-unique digest p q [] [] x y n t = inl (refl, t)
Linked-unique digest p q [] (f ∷ fs) x y n t = absurd (omega arith)
Linked-unique digest p q (e ∷ es) [] x y n t = absurd (omega arith)
Linked-unique digest p q (e ∷ es) (f ∷ fs) x y n t =
    elim (Linked-unique digest e.fingerprint f.fingerprint es fs x.2 y.2 (omega arith) t) [
      | inr c ↦ inr c
      | inl same ↦ elim (Bool-cases (event_body e == event_body f)) [
        | inl b ↦
            let g = event_body-injective e f (eq_of_beq b) same.1 in inl (ap₂ ◌∷◌ g same.0, cc)
        | inr b ↦ inr (event_body e, event_body f, ne_of_beq b, cc)
      ]
    ]

module _ (env : Environment) (l : Identity) where
  check_chain-eqs :
      (e : Event) (p : String)
      → check_chain env e p ≡ ok tt
      → (e.previous_fingerprint ≡ p) × (e.fingerprint ≡ env.digest (event_body e))
  unfolding check_chain
  check_chain-eqs e p h = ground (
    arith,
    string_eq.beq_iff e.previous_fingerprint p,
    string_eq.beq_iff e.fingerprint (env.digest (event_body e)),
  )

  check_event-links :
      (s : Seen) (e : Event) {t : Seen}
      → check_event env l s e ≡ ok t
      → (e.previous_fingerprint ≡ s.previous)
        × (e.fingerprint ≡ env.digest (event_body e))
        × (t.previous ≡ e.fingerprint)
        × (t.events ≡ s.events ++ e ∷ [])
  check_event-links s e h =
      let a = check_event-Accepted env l s e h in
      let same = Accepted-SameCore env l a in
      let (linked, own) = check_chain-eqs e s.previous a.chain in
      (
        linked,
        own,
        ap (λ t. t.previous) a.result,
        ap (λ t. t.events) a.result ∙ ap (λ x. x ++ e ∷ []) same.events,
      )

  pub check_events-Linked :
      (s : Seen) (es : List Event) {t : Seen}
      → check_events env l s es ≡ ok t
      → Linked env.digest s.previous es
        × (t.previous ≡ tip s.previous es)
        × (t.events ≡ s.events ++ es)
  unfolding check_events
  check_events-Linked s [] h = ground (arith, append-nil s.events)
  check_events-Linked s (e ∷ es) h =
      let (t, first, later) = bind-ok (check_event env l s e) _ h in
      let (linked, own, previous, events) = check_event-links s e first in
      let (rest, tip_eq, all_eq) = check_events-Linked t es later in
      (
        (linked, own, subst (λ p. Linked env.digest p es) previous rest),
        tip_eq ∙ ap (λ p. tip p es) previous,
        all_eq ∙ ap (λ x. x ++ es) events ∙ append_assoc s.events (e ∷ []) es,
      )

  pub validate-Linked :
      (es : List Event) {i : Integrity}
      → validate env l es ≡ ok i
      → Linked env.digest genesis_fingerprint es
        × (i.fingerprint ≡ tip genesis_fingerprint es)
        × (i.sequence ≡ length es)
  unfolding validate
  validate-Linked es h =
      let (s, looped, h₁) = bind-ok (check_events env l nothing_seen es) _ h in
      let (_, _, h₂) = bind-ok (check_histories s.events s.histories) _ h₁ in
      let (linked, tip_eq, events) = check_events-Linked nothing_seen es looped in
      let i_eq = ok-injective h₂ in
      (
        linked,
        ap (λ i. i.fingerprint) (sym i_eq) ∙ tip_eq,
        ap (λ i. i.sequence) (sym i_eq) ∙ ap length events,
      )

  -- Two ledgers that validate to one sequence number and one fingerprint are the same ledger, record by
  -- record, or show two values with one digest.
  pub validate_binds_history :
      (es fs : List Event) {i j : Integrity}
      → validate env l es ≡ ok i
      → validate env l fs ≡ ok j
      → i.sequence ≡ j.sequence
      → i.fingerprint ≡ j.fingerprint
      → (es ≡ fs) ⊎ Collision env.digest
  validate_binds_history es fs h k n f =
      let (linked, tip_es, len_es) = validate-Linked es h in
      let (linked', tip_fs, len_fs) = validate-Linked fs k in
      elim (Linked-unique env.digest genesis_fingerprint genesis_fingerprint es fs linked linked'
        (sym len_es ∙ n ∙ len_fs) (sym tip_es ∙ f ∙ tip_fs)) [
          | inl same ↦ inl same.0
          | inr c ↦ inr c
        ]
