-- ===== src/Projection/Endings.antt =====
-- Incomplete transactions in the projection of src/development_conveyor/projection.py are those that the
-- ledger has not ended.
use development_conveyor.Base.{
  String, ◌≡◌, refl, sym, ap, ◌∙◌, inl, inr, Bool, true, false, not, ◌||◌, Option, none, some, List,
  [], ◌∷◌, ◌==◌, string_eq, lookup, contains, all, all-contains, all-select, All, All-lookup,
  Option-cases, is_some, map, select, Bool-cases, eq_of_beq, ||-cases, &&-true,
}
use mathlib.Core.Path.{subst}
use development_conveyor.Json.{Json, str}
use development_conveyor.Dict.{value_or}
use development_conveyor.Ledger.Event.{Event, terminal_event_types, post_terminal_event_types}
use development_conveyor.Base.{ok}
use development_conveyor.Ledger.Check.{Identity, Environment, is_terminal}
use development_conveyor.Ledger.History.{Integrity, validate}
use development_conveyor.Ledger.Sound.{validate-IsSound}
use development_conveyor.Ledger.Append.{same_transaction, event_history, has_terminal}
use development_conveyor.Ledger.Steps.{frozen, may_follow_terminal}
use development_conveyor.Projection.View.{View, view_step, view_branches, branch_of, branched}
use development_conveyor.Projection.Locality.{view_of, project_events-view_of}
use development_conveyor.Projection.Facts.{no_facts, project_events}
use development_conveyor.Projection.Rebuild.{is_incomplete, text_in, terminal_names}

-- A block names a terminal state, if it names one.
abbrev pub names_ending : Event → Bool
names_ending e =
    not (e.event_type == "TransactionBlocked")
    || text_in terminal_names (value_or "terminal_state" e.payload (str "blocked"))

named :
    (e : Event)
    → e.event_type ≡ "TransactionBlocked"
    → names_ending e ≡ true
    → text_in terminal_names (value_or "terminal_state" e.payload (str "blocked")) ≡ true
named e k n =
    subst
      (λ b.
        (not b || text_in terminal_names (value_or "terminal_state" e.payload (str "blocked")))
        ≡ true)
      (ap (λ x. x == "TransactionBlocked") k) n

-- Every branch for an entry sets its state, to a terminal one if the event is terminal.
branches_set_state :
    All
      (λ entry.
        (e : Event) (v : View)
        → e.event_type ≡ entry.0
        → names_ending e ≡ true
        → is_incomplete (entry.1 e.payload v) ≡ not (is_terminal entry.0))
      view_branches
branches_set_state = (
  (λ e v k n. refl),
  (
    (λ e v k n. refl),
    (
      (λ e v k n. refl),
      (
        (λ e v k n. refl),
        (
          (λ e v k n. refl),
          (
            (λ e v k n. refl),
            (
              (λ e v k n. refl),
              (
                (λ e v k n. refl),
                (
                  (λ e v k n. refl),
                  (
                    (λ e v k n. refl),
                    (
                      (λ e v k n. refl),
                      (
                        (λ e v k n. ap not (named e k n)),
                        ((λ e v k n. refl), ((λ e v k n. refl), tt)),
                      ),
                    ),
                  ),
                ),
              ),
            ),
          ),
        ),
      ),
    ),
  ),
)

known_endings : all (λ x. is_some (lookup x view_branches)) terminal_event_types ≡ true
known_endings = refl

-- An event without a branch leaves the entry, and is not terminal.
branch_state :
    (e : Event) (v : View)
    → names_ending e ≡ true
    → is_incomplete v ≡ true
    → is_incomplete (branch_of e.event_type e.payload v) ≡ not (is_terminal e.event_type)
unfolding branch_of
branch_state e v n open_before = elim (Option-cases (lookup e.event_type view_branches)) [
  | inl (branch, h) ↦
      ap (λ m. is_incomplete (branched m e.payload v)) h
      ∙ All-lookup
          (λ k b.
            (e : Event) (v : View)
            → e.event_type ≡ k
            → names_ending e ≡ true
            → is_incomplete (b e.payload v) ≡ not (is_terminal k))
          e.event_type view_branches branches_set_state h e v refl n
  | inr h ↦ elim (Bool-cases (is_terminal e.event_type)) [
    | inl k ↦ cc (
      ap is_some h,
      all-contains (λ x. is_some (lookup x view_branches)) terminal_event_types e.event_type
          known_endings k,
    )
    | inr k ↦ ap (λ m. is_incomplete (branched m e.payload v)) h ∙ open_before ∙ sym (ap not k)
  ]
]

known_followers : all (λ x. not (is_some (lookup x view_branches))) post_terminal_event_types ≡ true
known_followers = refl

unbranched :
    (x : String) → may_follow_terminal x ≡ true → not (is_some (lookup x view_branches)) ≡ true
unbranched x h = elim (||-cases (contains x post_terminal_event_types) _ h) [
  | inl c ↦
      all-contains (λ y. not (is_some (lookup y view_branches))) post_terminal_event_types x
        known_followers c
  | inr q ↦
      subst (λ y. not (is_some (lookup y view_branches)) ≡ true) (sym (eq_of_beq {a = x} q)) refl
]

-- What may follow an end leaves the entry.
branch_after_end :
    (x : String) (payload : Json) (v : View)
    → may_follow_terminal x ≡ true
    → branch_of x payload v ≡ v
unfolding branch_of
branch_after_end x payload v h = elim (Option-cases (lookup x view_branches)) [
  | inl (branch, k) ↦ cc (ap (λ m. not (is_some m)) k, unbranched x h)
  | inr k ↦ ap (λ m. branched m payload v) k
]

-- Whether the entry is as the end of its transaction has it.
Matches : Bool → Option View → Type 0
Matches ended none = ended ≡ false
Matches ended (some v) = is_incomplete v ≡ not ended

Matches-view_step :
    (ended : Bool) (found : Option View) (e : Event)
    → Matches ended found
    → (not ended || may_follow_terminal e.event_type) ≡ true
    → names_ending e ≡ true
    → Matches (ended || is_terminal e.event_type) (some (view_step e found))
unfolding Matches view_step
Matches-view_step false none e m f n = branch_state e _ n refl
Matches-view_step false (some v) e m f n =
    branch_state e (record v { last_sequence = e.sequence }) n m
Matches-view_step true none e m f n = cc m
Matches-view_step true (some v) e m f n =
    ap is_incomplete
      (branch_after_end e.event_type e.payload (record v { last_sequence = e.sequence }) f)
    ∙ m

||-nil : (a : Bool) → (a || false) ≡ a
||-nil true = refl
||-nil false = refl

||-assoc : (a b c : Bool) → ((a || b) || c) ≡ (a || (b || c))
||-assoc true b c = refl
||-assoc false b c = refl

Matches-view_of :
    (ended : Bool) (found : Option View) (es : List Event)
    → Matches ended found
    → frozen is_terminal may_follow_terminal ended (map (λ e. e.event_type) es) ≡ true
    → all names_ending es ≡ true
    → Matches (ended || has_terminal (map (λ e. e.event_type) es)) (view_of found es)
Matches-view_of ended found [] m f n = subst (λ b. Matches b found) (sym (||-nil ended)) m
Matches-view_of ended found (e ∷ es) m f n =
    let follows = &&-true (not ended || may_follow_terminal e.event_type) _ f in
    let named = &&-true (names_ending e) _ n in
    subst (λ b. Matches b (view_of (some (view_step e found)) es)) (||-assoc ended _ _)
      (Matches-view_of (ended || is_terminal e.event_type) (some (view_step e found)) es
        (Matches-view_step ended found e m follows.0 named.0) follows.1 named.1)

-- In a ledger that `_validate` accepts, where every block that names a terminal state names one of the
-- known ones, the entry of a transaction is incomplete exactly if no event has ended the transaction.
pub is_incomplete-ended :
    (env : Environment) (l : Identity) (es : List Event) {i : Integrity}
    → validate env l es ≡ ok i
    → all names_ending es ≡ true
    → (t : String) {v : View} → lookup t (project_events no_facts es).transactions ≡ some v
    → is_incomplete v ≡ not (has_terminal (event_history t es))
unfolding Matches
is_incomplete-ended env l es h n t {v} found =
    subst (λ m. Matches (has_terminal (event_history t es)) m)
      (sym (project_events-view_of t no_facts es) ∙ found)
      (Matches-view_of false none (select (same_transaction t) es) refl
        ((validate-IsSound env l es h).immutable_after_end t)
        (all-select names_ending (same_transaction t) es n))
