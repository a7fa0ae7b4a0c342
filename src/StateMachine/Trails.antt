-- ===== src/StateMachine/Trails.antt =====
-- Runs of a state machine, and states that every run into another state must leave.
use mathlib.Core.Path.{subst}
use development_conveyor.Base.{
  String, ◌≡◌, ◌≢◌, refl, ◌⊎◌, inl, inr, Bool, true, not, ◌&&◌, ◌||◌, List, [], ◌∷◌, Option, none,
  some, ok, ◌==◌, ◌!=◌, string_eq, contains, lookup, Bool-cases, &&-true, ||-left, ||-right,
  eq_of_beq, beq_refl, arith,
}
use development_conveyor.StateMachine.{StateMachine, Transition, transition, targets, is_known}

-- What a machine allows: to stay in a known state, or to follow an edge to a known state.
pub data Allows (m : StateMachine) (s t : String) : Type 0 where
  stay : is_known m s ≡ true → s ≡ t → Allows m s t
  follow : contains t (targets m s) ≡ true → is_known m t ≡ true → Allows m s t

known_of_target :
    (m : StateMachine) (s t : String) → contains t (targets m s) ≡ true → is_known m s ≡ true
known_of_target m s t h = ground arith

abbrev pub moved : String → String → Transition
moved s t = record { previous = s; current = t; changed = s != t }

pub transition-Allows :
    (m : StateMachine) (s t : String) {r : Transition}
    → transition m s t ≡ ok r
    → Allows m s t × (r ≡ moved s t)
unfolding transition
transition-Allows m s t h = elim (Bool-cases (s == t)) [
  | inl e ↦ (stay (ground arith) (eq_of_beq e), ground arith)
  | inr e ↦ (follow (ground arith) (ground arith), ground arith)
]

pub Allows-transition :
    (m : StateMachine) (s t : String) → Allows m s t → transition m s t ≡ ok (moved s t)
unfolding transition
Allows-transition m s t (stay k e) = rw (← e) (ground (arith, k, beq_refl s))
Allows-transition m s t (follow c k) = ground (arith, known_of_target m s t c)

-- The states that a run has left, the last one first.
pub data Trail (m : StateMachine) (s : String) : List String → String → Type 0 where
  here : Trail m s [] s
  next :
      {visited : List String} {t u : String} {r : Transition}
      → Trail m s visited t
      → transition m t u ≡ ok r
      → Trail m s (t ∷ visited) u

pub Trail-cons :
    (m : StateMachine) {s t u : String} {visited : List String} {r : Transition}
    → transition m s t ≡ ok r
    → Trail m t visited u
    → (w : List String) × Trail m s w u
Trail-cons m {s} e here = (s ∷ [], next here e)
Trail-cons m e (next {t = x} tr f) = let (w, tr') = Trail-cons m e tr in (x ∷ w, next tr' f)

abbrev enters_only_from : String → String → List (String × List String) → Bool
enters_only_from d x [] = true
enters_only_from d x ((s, ts) ∷ rest) = (s == d || not (contains x ts)) && enters_only_from d x rest

-- Every edge into `x` starts at `d`.
abbrev pub only_from : StateMachine → String → String → Bool
only_from m d x = enters_only_from d x m.transitions

source_of_edge :
    (d x s : String) (table : List (String × List String)) (ts : List String)
    → enters_only_from d x table ≡ true
    → lookup s table ≡ some ts
    → contains x ts ≡ true
    → s ≡ d
source_of_edge d x s [] ts o l c = cc
source_of_edge d x s ((k, us) ∷ rest) ts o l c = elim (Bool-cases (k == s)) [
  | inl e ↦ ground (arith, eq_of_beq {a = k} {b = s} e, string_eq.beq_iff k d)
  | inr e ↦
      source_of_edge d x s rest ts (&&-true (k == d || not (contains x us)) _ o).1 (rw e at l) c
]

edge_source :
    (m : StateMachine) (d x s : String)
    → only_from m d x ≡ true
    → contains x (targets m s) ≡ true
    → s ≡ d
edge_source m d x s o c = split (lookup s m.transitions) refl
  where
    split : (found : Option (List String)) → lookup s m.transitions ≡ found → s ≡ d
    split none e = ground (arith, e)
    split (some ts) e = source_of_edge d x s m.transitions ts o e (ground (arith, e))

module _ (m : StateMachine) (d x : String) (o : only_from m d x ≡ true) where
  pub step_from : {s : String} {r : Transition} → transition m s x ≡ ok r → (s ≡ x) ⊎ (s ≡ d)
  step_from {s} h = elim ((transition-Allows m s x h).0) [
    | stay k e ↦ inl e
    | follow c k ↦ inr (edge_source m d x s o c)
  ]

  through :
      {s y : String} {visited : List String}
      → s ≢ x
      → Trail m s visited y
      → y ≡ x
      → (contains d visited ≡ true)
        × (w : List String) × Trail m s w d
        × ((z : String) → contains z w ≡ true → contains z visited ≡ true)
  through n here e = absurd (n e)
  through {s} n (next {visited = v} {t = y} {r = q} run f) e =
      elim (step_from (subst (λ u. transition m y u ≡ ok q) e f)) [
        | inl same ↦
            let (left, w, part, sub) = through n run same in
            (||-right (y == d) left, w, part, λ z h. ||-right (y == z) (sub z h))
        | inr from ↦ (
          ||-left {a = y == d} (contains d v) (rw from (beq_refl d)),
          v,
          subst (λ t. Trail m s v t) from run,
          λ z h. ||-right (y == z) h,
        )
      ]

  -- A run that ends in `x` and began elsewhere has left `d`, and has a part that ends there.
  pub Trail-through :
      {s : String} {visited : List String}
      → s ≢ x
      → Trail m s visited x
      → (contains d visited ≡ true)
        × (w : List String) × Trail m s w d
        × ((z : String) → contains z w ≡ true → contains z visited ≡ true)
  Trail-through n run = through n run refl
