-- ===== src/Ledger/Lifecycle.antt =====
-- The lifecycle order that `_validate` enforces on the history of each transaction.
use mathlib.Core.Path.{subst}
use mathlib.Core.List.{append_assoc}
use development_conveyor.Base.{
  ℕ, String, ◌≡◌, ◌≢◌, refl, sym, ap, ◌∙◌, ◌⊎◌, inl, inr, Bool, true, false, not, ◌||◌, Option,
  none, some, List, [], ◌∷◌, ◌++◌, contains, contains-append, all, get_elem?, all-get_elem?, lookup,
  ◌==◌, string_eq, Bool-cases, ||-left, ||-right, eq_of_beq, beq_refl, ok, bind-ok, guard-bind-ok,
  guard-ok, arith,
}
use development_conveyor.Ledger.Event.{
  Event, no_start, lease_without_recovery, invalid_order, result_without_session,
  passed_without_start, commit_without_validation, projected_before_terminal, skipped_lifecycle,
}
use development_conveyor.Ledger.Check.{
  Identity, Environment, nothing_seen, check_events, or_empty, history_of,
}
use development_conveyor.Ledger.Append.{event_history}
use development_conveyor.Ledger.History.{
  Integrity, validate, check_history, check_histories, in_order, ordered_pairs, first_position,
  starts_canonically, needs, lifecycle_events, completed_by_import,
}
use development_conveyor.Ledger.Chain.{check_events-Linked}
use development_conveyor.Ledger.Tracks.{Tracks-nothing_seen, check_events-Tracks}

first_position-contains :
    (a : String) (h : List String) → contains a h ≡ true → first_position a h ≢ none
first_position-contains a [] c e = cc c
first_position-contains a (x ∷ h) c e = ground (arith, first_position-contains a h)

-- Where `a` stands first no later than `b`, every `b` has an `a` before it.
in_order-split :
    (a b : String) (pre post : List String)
    → (b == a) ≡ false
    → in_order (pre ++ b ∷ post) (a, b) ≡ true
    → contains a (pre ++ b ∷ post) ≡ true
    → contains a pre ≡ true
in_order-split a b [] post n o c = ground (arith, beq_refl b, first_position-contains a post)
in_order-split a b (x ∷ pre) post n o c = ground (
  arith,
  eq_of_beq {a = x} {b = b},
  first_position-contains a (pre ++ b ∷ post),
  in_order-split a b pre post n,
)

lookup-check :
    (events : List Event) (t : String) (hs : List (String × List String)) {h : List String}
    → check_histories events hs ≡ ok tt
    → lookup t hs ≡ some h
    → check_history events t h ≡ ok tt
unfolding check_histories
lookup-check events t [] k e = cc e
lookup-check events t ((u, g) ∷ hs) {h} k e =
    let (_, first, later) = bind-ok (check_history events u g) _ k in
    elim (Bool-cases (u == t)) [
      | inl p ↦
          let same : g ≡ h = cc (rw p at e) in
          subst (λ h. check_history events t h ≡ ok tt) same
            (subst (λ u. check_history events u g ≡ ok tt) (eq_of_beq p) first)
      | inr p ↦ lookup-check events t hs later (rw p at e)
    ]

-- The lifecycle of transaction `t` with history `h`: how it begins, what stands before a finalized
-- commit and before an accepted result, and what a completion rests on.
pub record IsLifecycle (events : List Event) (t : String) (h : List String) : Type 0 where
  pub begins : (rest : List String) × (h ≡ "TransactionStarted" ∷ rest)
  pub commit :
      (pre post : List String)
      → h ≡ pre ++ "CommitFinalized" ∷ post
      → (contains "ValidationPassed" pre ≡ true) × (contains "ValidationStarted" pre ≡ true)
  pub result :
      (pre post : List String)
      → h ≡ pre ++ "SessionResultAccepted" ∷ post
      → contains "SessionLaunched" pre ≡ true
  pub completed :
      contains "TransactionCompleted" h ≡ true
      → (all (λ name. contains name h) lifecycle_events ≡ true)
        ⊎ (completed_by_import t events ≡ true)

-- The tests of `check_history` that the lifecycle rests on.
record Checked (events : List Event) (t : String) (h : List String) : Type 0 where
  canonical : starts_canonically h ≡ true
  ordered : all (in_order h) ordered_pairs ≡ true
  launched : needs h "SessionResultAccepted" "SessionLaunched" ≡ true
  begun : needs h "ValidationPassed" "ValidationStarted" ≡ true
  passed : needs h "CommitFinalized" "ValidationPassed" ≡ true
  complete :
      (not (contains "TransactionCompleted" h)
        || all (λ name. contains name h) lifecycle_events
        || completed_by_import t events)
      ≡ true

check_history-Checked :
    (events : List Event) (t : String) (h : List String)
    → check_history events t h ≡ ok tt
    → Checked events t h
unfolding check_history
check_history-Checked events t h k =
    let (canonical, k₁) = guard-bind-ok _ no_start _ k in
    let (_, k₂) = guard-bind-ok _ lease_without_recovery _ k₁ in
    let (ordered, k₃) = guard-bind-ok _ invalid_order _ k₂ in
    let (launched, k₄) = guard-bind-ok _ result_without_session _ k₃ in
    let (begun, k₅) = guard-bind-ok _ passed_without_start _ k₄ in
    let (passed, k₆) = guard-bind-ok _ commit_without_validation _ k₅ in
    let (_, k₇) = guard-bind-ok _ projected_before_terminal _ k₆ in
    record {
      canonical = canonical;
      ordered = ordered;
      launched = launched;
      begun = begun;
      passed = passed;
      complete = guard-ok _ skipped_lifecycle k₇;
    }

contains_split : (a : String) (pre post : List String) → contains a (pre ++ a ∷ post) ≡ true
contains_split a pre post =
    contains-append a pre (a ∷ post)
    ∙ ||-right (contains a pre) (||-left (contains a post) (beq_refl a))

-- A history with `a` in it splits at some `a`.
split_at :
    (a : String) (h : List String)
    → contains a h ≡ true
    → (pre : List String) × (post : List String) × (h ≡ pre ++ a ∷ post)
split_at a [] c = cc c
split_at a (x ∷ h) c = elim (Bool-cases (x == a)) [
  | inl p ↦ ([], h, ap (λ x. x ∷ h) (eq_of_beq p))
  | inr p ↦ let (pre, post, e) = split_at a h (rw p at c) in (x ∷ pre, post, ap (λ h. x ∷ h) e)
]

needed :
    (h : List String) (a b : String)
    → needs h a b ≡ true
    → contains a h ≡ true
    → contains b h ≡ true
needed h a b n c = ground arith

begins_canonically :
    (h : List String)
    → starts_canonically h ≡ true
    → (rest : List String) × (h ≡ "TransactionStarted" ∷ rest)
begins_canonically [] c = cc c
begins_canonically (x ∷ h) c = (h, ap (λ x. x ∷ h) (eq_of_beq {a = x} {b = "TransactionStarted"} c))

completion_rests : (c l b : Bool) → (not c || l || b) ≡ true → c ≡ true → (l ≡ true) ⊎ (b ≡ true)
completion_rests c true b h k = inl refl
completion_rests c false b h k = inr (ground arith)

known_check :
    (events : List Event) (t : String) (hs : List (String × List String))
    → check_histories events hs ≡ ok tt
    → history_of t hs ≢ []
    → check_history events t (history_of t hs) ≡ ok tt
known_check events t hs k n = split (lookup t hs) refl
  where
    split :
        (found : Option (List String))
        → lookup t hs ≡ found
        → check_history events t (history_of t hs) ≡ ok tt
    split none e = absurd (n (ap or_empty e))
    split (some h) e =
        subst (λ h. check_history events t h ≡ ok tt) (sym (ap or_empty e))
          (lookup-check events t hs k e)

module _ {events : List Event} {t : String} {h : List String} (k : Checked events t h) where
  before :
      (a b : String) (i : ℕ) (pre post : List String)
      → get_elem? ordered_pairs i ≡ some (a, b)
      → (b == a) ≡ false
      → needs h b a ≡ true
      → h ≡ pre ++ b ∷ post
      → contains a pre ≡ true
  before a b i pre post at_i n need e =
      in_order-split a b pre post n
        (subst (λ h. in_order h (a, b) ≡ true) e
          (all-get_elem? (in_order h) ordered_pairs i k.ordered at_i))
        (subst (λ h. contains a h ≡ true) e
          (needed h b a need
            (subst (λ h. contains b h ≡ true) (sym e) (contains_split b pre post))))

  validated_before_commit :
      (pre post : List String)
      → h ≡ pre ++ "CommitFinalized" ∷ post
      → (contains "ValidationPassed" pre ≡ true) × (contains "ValidationStarted" pre ≡ true)
  validated_before_commit pre post e =
      let passed = before "ValidationPassed" "CommitFinalized" 7 pre post refl refl k.passed e in
      let (a, b, f) = split_at "ValidationPassed" pre passed in
      let started =
        before "ValidationStarted" "ValidationPassed" 6 a (b ++ "CommitFinalized" ∷ post) refl refl
          k.begun
          (e
            ∙ ap (λ x. x ++ "CommitFinalized" ∷ post) f
            ∙ append_assoc a ("ValidationPassed" ∷ b) ("CommitFinalized" ∷ post)) in
      (
        passed,
        subst (λ h. contains "ValidationStarted" h ≡ true) (sym f)
            (contains-append "ValidationStarted" a ("ValidationPassed" ∷ b) ∙ ||-left _ started),
      )

  Checked-IsLifecycle : IsLifecycle events t h
  Checked-IsLifecycle = record {
    begins = begins_canonically h k.canonical;
    commit = validated_before_commit;
    result = λ pre post e.
        before "SessionLaunched" "SessionResultAccepted" 3 pre post refl refl k.launched e;
    completed = λ c. completion_rests _ _ _ k.complete c;
  }

module _ (env : Environment) (l : Identity) where
  -- In a ledger that validates, every transaction that occurs has a lifecycle.
  pub validate-IsLifecycle :
      (es : List Event) {i : Integrity} (t : String)
      → validate env l es ≡ ok i
      → event_history t es ≢ []
      → IsLifecycle es t (event_history t es)
  unfolding validate
  validate-IsLifecycle es t h n =
      let (s, looped, h₁) = bind-ok (check_events env l nothing_seen es) _ h in
      let (_, checked, _) = bind-ok (check_histories s.events s.histories) _ h₁ in
      let (_, _, events) = check_events-Linked env l nothing_seen es looped in
      let tracks = check_events-Tracks env l nothing_seen es looped Tracks-nothing_seen in
      let same = tracks.histories t ∙ ap (event_history t) events in
      subst (λ es. IsLifecycle es t (event_history t es)) events
        (Checked-IsLifecycle (
          check_history-Checked s.events t (event_history t s.events) (
            subst (λ g. check_history s.events t g ≡ ok tt) (tracks.histories t)
              (known_check s.events t s.histories checked (λ e. n (sym same ∙ e))))))
