-- ===== src/Projection/Active.antt =====
-- The `active_ids` of `rebuild` in src/development_conveyor/projection.py against the ledger it reads.
use development_conveyor.Base.{
  String, ◌≡◌, refl, sym, ap, ◌∙◌, inl, inr, Bool, true, false, not, Option, none, some, List, [],
  ◌∷◌, ◌++◌, ◌==◌, string_eq, lookup, all, is_some, some-eq, Option-cases, select, map, Bool-cases,
  eq_of_beq, ok, bind-ok,
}
use mathlib.Core.Path.{subst}
use development_conveyor.Json.{Fields}
use development_conveyor.Ledger.Event.{Event}
use development_conveyor.Ledger.Check.{Identity, Environment}
use development_conveyor.Ledger.History.{Integrity, validate}
use development_conveyor.Ledger.Append.{
  same_transaction, event_history, has_terminal, history_empty,
}
use development_conveyor.Projection.View.{View, view_step}
use development_conveyor.Projection.Facts.{no_facts, project_events}
use development_conveyor.Projection.Rebuild.{active, only_active, is_incomplete}
use development_conveyor.Projection.Engine.{project}
use development_conveyor.Projection.Locality.{view_of, project_events-view_of}
use development_conveyor.Projection.Endings.{names_ending, is_incomplete-ended}

-- A list in which an entry stands.
Around : List (String × View) → String × View → Type 0
Around m x = (pre : List (String × View)) × (post : List (String × View)) × (m ≡ pre ++ x ∷ post)

lookup-Around :
    (p : String × View → Bool) (t : String) (m : List (String × View)) {v : View}
    → lookup t m ≡ some v
    → p (t, v) ≡ true
    → Around (select p m) (t, v)
unfolding Around
lookup-Around p t [] h k = cc h
lookup-Around p t ((u, w) ∷ m) {v} h k = elim (Bool-cases (u == t)) [
  | inl q ↦ ([], select p m, rw (eq_of_beq {a = u} q, some-eq (rw q at h), k) refl)
  | inr q ↦
      let (pre, post, e) = lookup-Around p t m (rw q at h) k in
      elim (Bool-cases (p (u, w))) [
        | inl r ↦ ((u, w) ∷ pre, post, rw r (ap (λ xs. (u, w) ∷ xs) e))
        | inr r ↦ (pre, post, rw r e)
      ]
]

only_active-split :
    (pre post : List (String × View)) (x : String × View) {found : Option (String × View)}
    → only_active (pre ++ x ∷ post) ≡ ok found
    → found ≡ some x
unfolding only_active
only_active-split [] [] x h = cc h
only_active-split [] (y ∷ post) x h = cc h
only_active-split (y ∷ []) post x h = cc h
only_active-split (y ∷ z ∷ pre) post x h = cc h

view_of-some : (v : View) (es : List Event) → is_some (view_of (some v) es) ≡ true
view_of-some v [] = refl
view_of-some v (e ∷ es) = view_of-some (view_step e (some v)) es

view_of-nonempty :
    (es : List Event)
    → history_empty (map (λ e. e.event_type) es) ≡ false
    → is_some (view_of none es) ≡ true
view_of-nonempty [] h = cc h
view_of-nonempty (e ∷ es) h = view_of-some (view_step e none) es

module _ (env : Environment) (l : Identity) (es : List Event) where
  -- In a ledger that `_validate` accepts, where every block that names a terminal state names one of the
  -- known ones: if `rebuild` finds at most one active transaction, then a transaction that has begun and
  -- not ended is that one.
  pub only_active-unended :
      {i : Integrity} {found : Option (String × View)}
      → validate env l es ≡ ok i
      → all names_ending es ≡ true
      → only_active (active (project_events no_facts es)) ≡ ok found
      → (t : String) → history_empty (event_history t es) ≡ false
      → has_terminal (event_history t es) ≡ false
      → (v : View) × (found ≡ some (t, v))
  unfolding Around
  only_active-unended {i} {found} h n one t begun ongoing =
      elim (Option-cases (lookup t (project_events no_facts es).transactions)) [
        | inl (v, k) ↦
            let (pre, post, e) =
              lookup-Around (λ entry. is_incomplete entry.1) t
                (project_events no_facts es).transactions k
                (is_incomplete-ended env l es h n t k ∙ ap not ongoing) in
            (v, only_active-split pre post (t, v) (subst (λ m. only_active m ≡ ok found) e one))
        | inr k ↦ cc (
          ap is_some (sym (project_events-view_of t no_facts es) ∙ k),
          view_of-nonempty (select (same_transaction t) es) begun,
        )
      ]

  -- In a ledger that `_validate` accepts, where every block that names a terminal state names one of the
  -- known ones: if `rebuild` makes a projection, then at most one transaction has begun and not ended.
  pub project-unended :
      {i : Integrity} (observations : Option Fields) {d : Fields}
      → validate env l es ≡ ok i
      → all names_ending es ≡ true
      → project env l es i observations ≡ ok d
      → (t u : String) → history_empty (event_history t es) ≡ false
      → has_terminal (event_history t es) ≡ false
      → history_empty (event_history u es) ≡ false
      → has_terminal (event_history u es) ≡ false
      → t ≡ u
  unfolding project
  project-unended observations h n made t u begun_t ongoing_t begun_u ongoing_u =
      let (found, one, _) = bind-ok (only_active (active (project_events no_facts es))) _ made in
      let (v, at_t) = only_active-unended h n one t begun_t ongoing_t in
      let (w, at_u) = only_active-unended h n one u begun_u ongoing_u in
      ap (λ entry. entry.0) (some-eq (sym at_t ∙ at_u))
