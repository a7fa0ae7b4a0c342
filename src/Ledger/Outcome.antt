-- ===== src/Ledger/Outcome.antt =====
-- What `append` writes, on success and on failure.
use mathlib.Core.Path.{subst}
use development_conveyor.Base.{
  ℕ, ◌+◌, String, ◌≡◌, refl, sym, ap, ◌∙◌, ◌⊎◌, inl, inr, Bool, true, false, err-eq, some, List, [],
  ◌∷◌, ◌++◌, length, length-append, contains, nat_eq, string_eq, option_eq, some-eq, Bool-cases,
  Result, ok, err, bind-ok, ok-injective, arith, guard-bind-ok,
}
use development_conveyor.Json.{pos, is_object}
use development_conveyor.Contracts.{is_workflow_type}
use development_conveyor.Ledger.Event.{
  LedgerError, Event, event_body, event_types, unsupported_event_type, invalid_workflow,
  short_append, write_failed, payload_invalid,
}
use development_conveyor.Ledger.Check.{Identity, Environment, genesis_fingerprint}
use development_conveyor.Ledger.Store.{Files, Cache, Ledger, read_for_append, head_of}
use development_conveyor.Ledger.Coherent.{
  Describes, IsCoherent, Kept, Describes-Kept, cached-Kept, cached-Describes,
}
use development_conveyor.Ledger.Append.{
  Request, WriteFate, unwritten, short_write, unsynced, written, unanchored, tear, conclude,
  write_line, write_head, append, append_to, finish, commit, checked_event, new_event, redacted,
  validate_append,
}
use development_conveyor.Ledger.Chain.{tip}

tip-append : (p : String) (es : List Event) (e : Event) → tip p (es ++ e ∷ []) ≡ e.fingerprint
tip-append p [] e = refl
tip-append p (x ∷ es) e = tip-append x.fingerprint es e

module _ (stamp : ℕ) (c : Cache) (e : Event) (s : Ledger) where
  commit-lines : (commit stamp c e s).files.lines ≡ s.files.lines ++ e ∷ []
  unfolding commit
  commit-lines = refl

  commit-head : (commit stamp c e s).files.head ≡ some (head_of e)
  unfolding commit
  commit-head = refl

  commit-IsCoherent : Describes c s.files → IsCoherent (commit stamp c e s)
  unfolding commit
  commit-IsCoherent d = record {
    describes = λ c' at_hand _.
        let same = some-eq at_hand in
        subst (λ c'. Describes c' (commit stamp c e s).files) same
          (record {
            events = ap (λ x. x ++ e ∷ []) d.events;
            sequence = ap (λ n. n + 1) d.sequence ∙ sym (length-append s.files.lines (e ∷ []));
            fingerprint = sym (tip-append genesis_fingerprint s.files.lines e);
            whole = d.whole;
          });
  }

module _ (env : Environment) (l : Identity) (c : Cache) (q : Request) where
  new_event-sequence : (new_event env l c.integrity q).sequence ≡ pos (c.integrity.sequence + 1)
  unfolding new_event
  new_event-sequence = refl

  new_event-previous :
      (new_event env l c.integrity q).previous_fingerprint ≡ c.integrity.fingerprint
  unfolding new_event
  new_event-previous = refl

  new_event-fingerprint :
      let e = new_event env l c.integrity q in e.fingerprint ≡ env.digest (event_body e)
  unfolding new_event event_body
  new_event-fingerprint = refl

-- The record is in the file, whole; the anchor is its own, or the one before.
abbrev pub Added : Event → Files → Files → Type 0
Added e f g =
    (g.lines ≡ f.lines ++ e ∷ [])
    × (g.torn ≡ f.torn)
    × ((g.head ≡ some (head_of e)) ⊎ (g.head ≡ f.head))

-- The records are kept, and a part of one stands behind them.
abbrev pub Torn : Files → Files → Type 0
Torn f g = (g.lines ≡ f.lines) × (g.torn ≡ true)

tear-cases :
    (stamp : ℕ) (partial : Bool) (f : Files)
    → Kept f (tear stamp partial f) ⊎ Torn f (tear stamp partial f)
unfolding tear
tear-cases stamp true f = inr (refl, ground arith)
tear-cases stamp false f = inl (refl, ground arith)

conclude-failure :
    (fate : WriteFate) (stamp : ℕ) (c : Cache) (e : Event) (s : Ledger) {x : LedgerError}
    {t : Ledger}
    → conclude fate stamp c e s ≡ (err x, t)
    → Kept s.files t.files
      ⊎ (((x ≡ short_append) × Torn s.files t.files)
          ⊎ ((x ≡ write_failed) × Added e s.files t.files))
unfolding conclude write_line write_head
conclude-failure (unwritten signature) stamp c e s h =
    inl (subst (λ t. Kept s.files (Ledger.files t)) (ap (λ p. p.1) h) (refl, refl))
conclude-failure (short_write partial) stamp c e s h = elim (tear-cases stamp partial s.files) [
  | inl kept ↦ inl (subst (λ t. Kept s.files (Ledger.files t)) (ap (λ p. p.1) h) kept)
  | inr torn ↦ inr (
      inl (
        sym (err-eq (ap (λ p. p.0) h)),
        subst (λ t. Torn s.files (Ledger.files t)) (ap (λ p. p.1) h) torn,
      ))
]
conclude-failure unsynced stamp c e s h = inr (
    inr (
      sym (err-eq (ap (λ p. p.0) h)),
      subst (λ t. Added e s.files (Ledger.files t)) (ap (λ p. p.1) h) (refl, refl, inr refl),
    ))
conclude-failure (unanchored false) stamp c e s h = inr (
    inr (
      sym (err-eq (ap (λ p. p.0) h)),
      subst (λ t. Added e s.files (Ledger.files t)) (ap (λ p. p.1) h) (refl, refl, inr refl),
    ))
conclude-failure (unanchored true) stamp c e s h = inr (
    inr (
      sym (err-eq (ap (λ p. p.0) h)),
      subst (λ t. Added e s.files (Ledger.files t)) (ap (λ p. p.1) h) (refl, refl, inl refl),
    ))
conclude-failure written stamp c e s h = cc (ap (λ p. p.0) h)

conclude-success :
    (fate : WriteFate) (stamp : ℕ) (c : Cache) (f : Event) (s : Ledger) {e : Event} {t : Ledger}
    → conclude fate stamp c f s ≡ (ok e, t)
    → (f ≡ e) × (t ≡ commit stamp c e s)
unfolding conclude
conclude-success (unwritten signature) stamp c f s h = cc (ap (λ p. p.0) h)
conclude-success (short_write partial) stamp c f s h = cc (ap (λ p. p.0) h)
conclude-success unsynced stamp c f s h = cc (ap (λ p. p.0) h)
conclude-success (unanchored false) stamp c f s h = cc (ap (λ p. p.0) h)
conclude-success (unanchored true) stamp c f s h = cc (ap (λ p. p.0) h)
conclude-success written stamp c f s h =
    let same = ok-injective (ap (λ p. p.0) h) in
    (same, sym (ap (λ p. p.1) h) ∙ ap (λ e. commit stamp c e s) same)

module _ (env : Environment) (l : Identity) where
  append_to-failure :
      (fate : WriteFate) (stamp : ℕ) (q : Request) (r : Result LedgerError Cache × Ledger)
      {x : LedgerError} {t : Ledger}
      → append_to env l fate stamp q r ≡ (err x, t)
      → Kept r.1.files t.files
        ⊎ (((x ≡ short_append) × Torn r.1.files t.files)
            ⊎ ((x ≡ write_failed)
                × ((e : Event) × (c : Cache) × (r.0 ≡ ok c)
                    × ((append_to env l written stamp q r).0 ≡ ok e)
                    × Added e r.1.files t.files)))
  unfolding append_to finish conclude
  append_to-failure fate stamp q (err y, s) h =
      inl (subst (λ t. Kept s.files (Ledger.files t)) (ap (λ p. p.1) h) (refl, refl))
  append_to-failure fate stamp q (ok c, s) h = split (checked_event env l c q) h
    where
      split :
          (v : Result LedgerError Event) {x : LedgerError} {t : Ledger}
          → finish env l fate stamp c s v ≡ (err x, t)
          → Kept s.files t.files
            ⊎ (((x ≡ short_append) × Torn s.files t.files)
                ⊎ ((x ≡ write_failed)
                    × ((e : Event) × (d : Cache) × (◌≡◌ {A = Result LedgerError Cache}
                          (ok c)
                          (ok d))
                        × ((finish env l written stamp c s v).0 ≡ ok e)
                        × Added e s.files t.files)))
      split (err y) h =
          inl (subst (λ t. Kept s.files (Ledger.files t)) (ap (λ p. p.1) h) (refl, refl))
      split (ok e) h = elim (conclude-failure fate stamp c e s h) [
        | inl kept ↦ inl kept
        | inr rest ↦ elim rest [
          | inl torn ↦ inr (inl torn)
          | inr (failed, added) ↦ inr (inr (failed, (e, c, refl, refl, added)))
        ]
      ]

  append_to-success :
      (fate : WriteFate) (stamp : ℕ) (q : Request) (r : Result LedgerError Cache × Ledger)
      {e : Event} {t : Ledger}
      → append_to env l fate stamp q r ≡ (ok e, t)
      → (c : Cache) × (r.0 ≡ ok c) × (checked_event env l c q ≡ ok e) × (t ≡ commit stamp c e r.1)
  unfolding append_to finish
  append_to-success fate stamp q (err y, s) h = cc (ap (λ p. p.0) h)
  append_to-success fate stamp q (ok c, s) h =
      let (checked, after) = split (checked_event env l c q) h in (c, refl, checked, after)
    where
      split :
          (v : Result LedgerError Event) {e : Event} {t : Ledger}
          → finish env l fate stamp c s v ≡ (ok e, t)
          → (v ≡ ok e) × (t ≡ commit stamp c e s)
      split (err y) h = cc (ap (λ p. p.0) h)
      split (ok f) h =
          let (same, after) = conclude-success fate stamp c f s h in (ap ok same, after)

  append-reached :
      (fate : WriteFate) (stamp : ℕ) (q : Request) (s : Ledger)
      → contains q.event_type event_types ≡ true
      → is_workflow_type q.workflow_type ≡ true
      → append env l fate stamp q s ≡ append_to env l fate stamp q (read_for_append env l s)
  unfolding append
  append-reached fate stamp q s h k = rw (h, k) refl

  append-cases :
      (fate : WriteFate) (stamp : ℕ) (q : Request) (s : Ledger)
      → ((x : LedgerError) × (append env l fate stamp q s ≡ (err x, s)))
        ⊎ ((contains q.event_type event_types ≡ true)
            × (is_workflow_type q.workflow_type ≡ true)
            × (append env l fate stamp q s
                ≡ append_to env l fate stamp q (read_for_append env l s)))
  unfolding append
  append-cases fate stamp q s = elim (Bool-cases (contains q.event_type event_types)) [
    | inr h ↦ inl (unsupported_event_type, rw h refl)
    | inl h ↦ elim (Bool-cases (is_workflow_type q.workflow_type)) [
      | inr k ↦ inl (invalid_workflow, rw (h, k) refl)
      | inl k ↦ inr (h, k, rw (h, k) refl)
    ]
  ]

  -- What an append that raises has done to a file that the cache describes: the records are as they were, and
  -- the file is as torn as it was; or the write came up short, the records are as they were, and a part of a
  -- record stands behind them; or a write failed behind the record: the one record that the append without a
  -- failure returns is added whole, and the anchor is its own or the one that the reading left.
  pub append_failure :
      (fate : WriteFate) (stamp : ℕ) (q : Request) (s : Ledger) {x : LedgerError} {t : Ledger}
      → IsCoherent s
      → append env l fate stamp q s ≡ (err x, t)
      → Kept s.files t.files
        ⊎ (((x ≡ short_append) × (t.files.lines ≡ s.files.lines) × (t.files.torn ≡ true))
            ⊎ ((x ≡ write_failed)
                × (t.files.torn ≡ false)
                × ((e : Event) × ((append env l written stamp q s).0 ≡ ok e)
                    × (t.files.lines ≡ s.files.lines ++ e ∷ [])
                    × ((t.files.head ≡ some (head_of e))
                        ⊎ (t.files.head ≡ (read_for_append env l s).1.files.head)))))
  unfolding read_for_append
  append_failure fate stamp q s {x} {t} k h = elim (append-cases fate stamp q s) [
    | inl refused ↦ inl (
        subst (λ t. Kept s.files (Ledger.files t)) (ap (λ p. p.1) (sym refused.1 ∙ h)) (refl, refl))
    | inr (known, typed, reached) ↦
        let u = (read_for_append env l s).1 in
        let (lines, torn) = cached-Kept env l s.cache s in
        elim (append_to-failure fate stamp q (read_for_append env l s) (sym reached ∙ h)) [
          | inl kept ↦ inl (kept.0 ∙ lines, kept.1 ∙ torn)
          | inr rest ↦ elim rest [
            | inl (short, (same, partial)) ↦ inr (inl (short, same ∙ lines, partial))
            | inr (failed, (e, c, found, finished, (added, whole, anchor))) ↦
                let d = cached-Describes env l s.cache s k.describes found in
                inr (
                  inr (
                    failed,
                    whole ∙ torn ∙ d.whole,
                    (
                      e,
                      ap (λ r. r.0) (append-reached written stamp q s known typed) ∙ finished,
                      added ∙ ap (λ es. es ++ e ∷ []) lines,
                      anchor,
                    ),
                  ))
          ]
        ]
  ]

  checked_event-fields :
      (c : Cache) (q : Request) {e : Event}
      → checked_event env l c q ≡ ok e
      → (e ≡ new_event env l c.integrity q) × (validate_append c.events e ≡ ok tt)
  unfolding checked_event
  checked_event-fields c q h =
      let (_, h₁) = guard-bind-ok (is_object (redacted env l q)) payload_invalid _ h in
      let (_, valid, h₂) =
        bind-ok (validate_append c.events (new_event env l c.integrity q)) _ h₁ in
      let same = sym (ok-injective h₂) in
      (same, subst (λ e. validate_append c.events e ≡ ok tt) (sym same) valid)

  -- An append that returns an event, from a cache that describes the file or none: the event is the one
  -- record added, numbered next and linked to the tip; the anchor is its own; the cache describes the
  -- new file.
  pub append_success :
      (fate : WriteFate) (stamp : ℕ) (q : Request) (s : Ledger) {e : Event} {t : Ledger}
      → IsCoherent s
      → append env l fate stamp q s ≡ (ok e, t)
      → (t.files.lines ≡ s.files.lines ++ e ∷ [])
        × (t.files.head ≡ some (head_of e))
        × (e.sequence ≡ pos (length s.files.lines + 1))
        × (e.previous_fingerprint ≡ tip genesis_fingerprint s.files.lines)
        × (e.fingerprint ≡ env.digest (event_body e))
        × IsCoherent t
  unfolding read_for_append
  append_success fate stamp q s {e} {t} k h = elim (append-cases fate stamp q s) [
    | inl refused ↦ cc (ap (λ p. p.0) (sym h ∙ refused.1))
    | inr reached ↦
        let u = (read_for_append env l s).1 in
        let (c, found, checked, after) =
          append_to-success fate stamp q (read_for_append env l s) (sym reached.2 ∙ h) in
        let d = cached-Describes env l s.cache s k.describes found in
        let (same, _) = checked_event-fields c q checked in
        let kept = cached-Kept env l s.cache s in
        let same_lines = kept.0 in
        let d' : Describes c u.files = Describes-Kept c kept d in
        (
          ap (λ t. t.files.lines) after
              ∙ commit-lines stamp c e u
              ∙ ap (λ x. x ++ e ∷ []) same_lines,
          ap (λ t. t.files.head) after ∙ commit-head stamp c e u,
          ap (λ e. e.sequence) same
              ∙ new_event-sequence env l c q
              ∙ ap (λ n. pos (n + 1)) d.sequence,
          ap (λ e. e.previous_fingerprint) same ∙ new_event-previous env l c q ∙ d.fingerprint,
          subst (λ e. e.fingerprint ≡ env.digest (event_body e)) (sym same)
              (new_event-fingerprint env l c q),
          subst IsCoherent (sym after) (commit-IsCoherent stamp c e u d'),
        )
  ]
