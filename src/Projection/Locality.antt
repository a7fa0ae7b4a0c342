-- ===== src/Projection/Locality.antt =====
-- The loop of `rebuild` in src/development_conveyor/projection.py keeps transactions apart: the entry of
-- one is made from its own events.
use development_conveyor.Base.{
  String, ◌≡◌, refl, ap, ◌∙◌, inl, inr, false, Option, some, List, [], ◌∷◌, ◌==◌, string_eq, lookup,
  select, lookup-insert_self, lookup-insert_ne, Bool-cases, eq_of_beq,
}
use mathlib.Core.Path.{subst}
use development_conveyor.Ledger.Event.{Event}
use development_conveyor.Ledger.Append.{same_transaction}
use development_conveyor.Projection.View.{View, view_step}
use development_conveyor.Projection.Facts.{Facts, project_event, project_events}

-- The entry of one transaction, from its events alone.
abbrev pub view_of : Option View → List Event → Option View
view_of found [] = found
view_of found (e ∷ es) = view_of (some (view_step e found)) es

project_event_self :
    (f : Facts) (e : Event)
    → lookup e.transaction_id (project_event f e).transactions
      ≡ some (view_step e (lookup e.transaction_id f.transactions))
unfolding project_event
project_event_self f e = lookup-insert_self e.transaction_id _ f.transactions

project_event_ne :
    (f : Facts) (e : Event) (t : String)
    → (e.transaction_id == t) ≡ false
    → lookup t (project_event f e).transactions ≡ lookup t f.transactions
unfolding project_event
project_event_ne f e t h = lookup-insert_ne e.transaction_id t _ f.transactions h

-- The entry of a transaction in the projected facts is the one that its own events make, whatever the
-- events of other transactions between them.
pub project_events-view_of :
    (t : String) (f : Facts) (es : List Event)
    → lookup t (project_events f es).transactions
      ≡ view_of (lookup t f.transactions) (select (same_transaction t) es)
unfolding project_events
project_events-view_of t f [] = refl
project_events-view_of t f (e ∷ es) = elim (Bool-cases (e.transaction_id == t)) [
  | inl h ↦ rw h (
      project_events-view_of t (project_event f e) es
      ∙ ap (λ m. view_of m (select (same_transaction t) es))
          (subst
            (λ u.
              lookup u (project_event f e).transactions
              ≡ some (view_step e (lookup u f.transactions)))
            (eq_of_beq h) (project_event_self f e)))
  | inr h ↦ rw h (
      project_events-view_of t (project_event f e) es
      ∙ ap (λ m. view_of m (select (same_transaction t) es)) (project_event_ne f e t h))
]
