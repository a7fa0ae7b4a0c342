-- ===== src/Ledger/Steps.antt =====
-- What the loop of `_validate` has checked of an accepted event, stated on the events before it.
use development_conveyor.Base.{
  is_some, ℕ, suc, ◌+◌, String, ◌≡◌, refl, sym, ap, ◌∙◌, inl, inr, Bool, true, false, not, ◌&&◌,
  ◌||◌, List, [], ◌∷◌, ◌++◌, contains, contains-append, any, ◌==◌, nat_eq, string_eq, Bool-cases,
  &&-true, ||-left, ||-right, eq_of_beq, ok, guard-bind-ok, arith, if◌then◌else◌, lookup,
}
use development_conveyor.Json.{pos, int_eq}
use development_conveyor.Ledger.Event.{
  Event, post_terminal_event_types, sequence_mismatch, duplicate_event_id, duplicate_start,
  conflicting_terminals, terminal_mutated, unsupported_event_type, project_mismatch,
  repository_mismatch, path_mismatch,
}
use development_conveyor.Ledger.Check.{
  Identity, Environment, Seen, is_terminal, check_identity, note_start, note_terminal, note_gate,
  enter, mutates_terminal,
}
use development_conveyor.Ledger.Append.{event_history, has_terminal}
use development_conveyor.Ledger.Accepted.{Accepted, note_start-marks, note_terminal-marks}
use development_conveyor.Ledger.Tracks.{Tracks}

-- The event of a ledger of project `l` that stands at position `k`.
pub record IsRecord (l : Identity) (k : ℕ) (e : Event) : Type 0 where
  pub version : e.schema_version ≡ pos 1
  pub sequence : e.sequence ≡ pos k
  pub project_id : e.project_id ≡ l.project_id
  pub repository_identity : e.repository_identity ≡ l.repository_identity
  pub path_fingerprint : e.repository_path_fingerprint ≡ l.repository_path_fingerprint

abbrev pub Numbered : Identity → ℕ → List Event → Type 0
Numbered l k [] = Unit
Numbered l k (e ∷ es) = IsRecord l k e × Numbered l (suc k) es

-- No text stands twice.
abbrev pub distinct : List String → Bool
distinct [] = true
distinct (x ∷ xs) = not (contains x xs) && distinct xs

abbrev pub count {ℓ} : {A : Type ℓ} → (A → Bool) → List A → ℕ
count p [] = 0
count p (x ∷ xs) = let n = count p xs in if p x then suc n else n

-- What may stand behind a terminal event in a history.
abbrev pub may_follow_terminal : String → Bool
may_follow_terminal x = contains x post_terminal_event_types || x == "HumanGateResolved"

-- Whether each entry may stand where it stands; `b` tells that an ending entry came before.
module _ {ℓ} {A : Type ℓ} (ends follows : A → Bool) where
  abbrev pub frozen : Bool → List A → Bool
  frozen b [] = true
  frozen b (x ∷ xs) = (not b || follows x) && frozen (b || ends x) xs

  pub frozen-append :
      (b : Bool) (h : List A) (x : A)
      → frozen b (h ++ x ∷ []) ≡ (frozen b h && (not (b || any ends h) || follows x))
  frozen-append b [] x = ground arith
  frozen-append b (y ∷ h) x = ground (arith, frozen-append (b || ends y) h x)

  pub frozen-split :
      (b : Bool) (pre post : List A) (x : A)
      → frozen b (pre ++ x ∷ post) ≡ true
      → (b || any ends pre) ≡ true
      → follows x ≡ true
  frozen-split b [] post x f h = ground arith
  frozen-split b (y ∷ pre) post x f h = ground (arith, frozen-split (b || ends y) pre post x)

pub count-append {ℓ} :
    {A : Type ℓ} (p : A → Bool) (xs ys : List A) → count p (xs ++ ys) ≡ count p xs + count p ys
count-append p [] ys = omega arith
count-append p (x ∷ xs) ys = ground (arith, count-append p xs ys)

pub count_none {ℓ} : {A : Type ℓ} (p : A → Bool) (xs : List A) → any p xs ≡ false → count p xs ≡ 0
count_none p [] h = refl
count_none p (x ∷ xs) h = ground (arith, count_none p xs)

pub distinct-append :
    (xs : List String) (x : String)
    → distinct xs ≡ true
    → contains x xs ≡ false
    → distinct (xs ++ x ∷ []) ≡ true
distinct-append [] x h c = refl
distinct-append (y ∷ xs) x h c = ground (
  arith,
  distinct-append xs x,
  contains-append y xs (x ∷ []),
  string_eq.beq_iff x y,
  string_eq.beq_iff y x,
)

false_of_not : (b : Bool) → not b ≡ true → b ≡ false
false_of_not b h = ground arith

module _ (l : Identity) where
  pub check_identity-IsRecord :
      (k : ℕ) (ids : List String) (e : Event)
      → check_identity l k ids e ≡ ok tt
      → IsRecord l k e × (contains e.event_id ids ≡ false)
  unfolding check_identity
  check_identity-IsRecord k ids e h =
      let (first, h₁) =
        guard-bind-ok (e.schema_version == pos 1 && e.sequence == pos k) sequence_mismatch _ h in
      let (version, number) = &&-true (e.schema_version == pos 1) (e.sequence == pos k) first in
      let (fresh, h₂) = guard-bind-ok (not (contains e.event_id ids)) duplicate_event_id _ h₁ in
      let (_, h₃) = guard-bind-ok _ unsupported_event_type _ h₂ in
      let (project, h₄) = guard-bind-ok (e.project_id == l.project_id) project_mismatch _ h₃ in
      let (repository, h₅) =
        guard-bind-ok (e.repository_identity == l.repository_identity) repository_mismatch _ h₄ in
      let (path, _) =
        guard-bind-ok (e.repository_path_fingerprint == l.repository_path_fingerprint) path_mismatch
          _ h₅ in
      (
        record {
          version = eq_of_beq version;
          sequence = eq_of_beq number;
          project_id = eq_of_beq project;
          repository_identity = eq_of_beq repository;
          path_fingerprint = eq_of_beq path;
        },
        false_of_not (contains e.event_id ids) fresh,
      )

starts_fresh :
    (e : Event) (s : Seen) {t : Seen}
    → note_start e s ≡ ok t
    → (e.event_type == "TransactionStarted") ≡ true
    → contains e.transaction_id s.started ≡ false
unfolding note_start
starts_fresh e s h p =
    false_of_not (contains e.transaction_id s.started)
      ((guard-bind-ok _ duplicate_start _ (rw p at h)).0)

ends_fresh :
    (e : Event) (s : Seen) {t : Seen}
    → note_terminal e s ≡ ok t
    → is_terminal e.event_type ≡ true
    → is_some (lookup e.transaction_id s.terminals) ≡ false
unfolding note_terminal
ends_fresh e s h p =
    false_of_not (is_some (lookup e.transaction_id s.terminals))
      ((guard-bind-ok _ conflicting_terminals _ (rw p at h)).0)

allowed_of_kept :
    (x y z : Bool) → not (x && not y && not z) ≡ true → x ≡ true → y ≡ false → z ≡ true
allowed_of_kept x y z h p q = ground arith

gate_follows :
    (env : Environment) (e : Event) (s : Seen) {t : Seen}
    → note_gate env e s ≡ ok t
    → is_terminal e.event_type ≡ false
    → is_some (lookup e.transaction_id s.terminals) ≡ true
    → may_follow_terminal e.event_type ≡ true
unfolding note_gate
gate_follows env e s h p q = elim (Bool-cases (e.event_type == "HumanGateResolved")) [
  | inl r ↦ ||-right _ r
  | inr r ↦ elim (Bool-cases (e.event_type == "HumanGateRaised")) [
    | inl v ↦ cc (ap is_terminal (eq_of_beq {a = e.event_type} {b = "HumanGateRaised"} v), p)
    | inr v ↦
        let kept =
          (guard-bind-ok (not (mutates_terminal e s)) terminal_mutated (ok s) (rw (v, r) at h)).0 in
        ||-left _ (allowed_of_kept _ _ _ kept q p)
  ]
]

module _ (env : Environment) (l : Identity) {s t : Seen} {e : Event} (a : Accepted env l s e t)
    (k : Tracks s) where
  abbrev pub history : List String
  history = event_history e.transaction_id s.events

  pub ends_once : is_terminal e.event_type ≡ true → has_terminal history ≡ false
  ends_once p =
      sym (k.terminals e.transaction_id)
      ∙ ap (λ m. is_some (lookup e.transaction_id m))
          (sym (note_start-marks e (enter e s) a.start).0)
      ∙ ends_fresh e a.begun a.terminal p

  pub starts_once :
      (e.event_type == "TransactionStarted") ≡ true → contains "TransactionStarted" history ≡ false
  starts_once p = sym (k.started e.transaction_id) ∙ starts_fresh e (enter e s) a.start p

  pub follows_terminal : has_terminal history ≡ true → may_follow_terminal e.event_type ≡ true
  follows_terminal p = gate_follows env e a.ended a.gate not_terminal marked
    where
      not_terminal : is_terminal e.event_type ≡ false
      not_terminal = elim (Bool-cases (is_terminal e.event_type)) [
        | inl q ↦ cc (ends_once q, p)
        | inr q ↦ q
      ]

      kept : a.ended.terminals ≡ s.terminals
      kept =
          (note_terminal-marks e a.begun a.terminal).1
          ∙ rw not_terminal (note_start-marks e (enter e s) a.start).0

      marked : is_some (lookup e.transaction_id a.ended.terminals) ≡ true
      marked = ap (λ m. is_some (lookup e.transaction_id m)) kept ∙ k.terminals e.transaction_id ∙ p
