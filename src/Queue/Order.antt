-- ===== src/Queue/Order.antt =====
-- Which feature `select_next` of src/development_conveyor/queue.py takes: eligible, and least in the
-- order of priority and position.
use mathlib.Core.Path.{subst}
use development_conveyor.Base.{
  ℕ, suc, ◌+◌, String, Bool, true, false, not, ◌||◌, some, List, [], ◌∷◌, map, string_eq, nat_eq,
  ◌≡◌, refl, sym, ap, ◌∙◌, inl, inr, arith, Bool-cases, &&-true, some-eq, all, any, select,
  get_elem?, is_sorted, is_sorted-sort_by, is_some, All, All-sort_by, All-select, all-select_rest,
  all-sort_by, any-sort_by,
}
use development_conveyor.Json.{get_field}
use development_conveyor.Queue.Names.{Casing, priority_of}
use development_conveyor.Queue.Item.{Feature, Files}
use development_conveyor.Queue.Load.{FeatureQueue}
use development_conveyor.Queue.Query.{features_for_milestone}
use development_conveyor.Queue.Select.{
  Selection, selection_of, by_order, enumerate, is_eligible, key_le, candidate_le, candidates,
  ready, first_selection, select_next,
}

key_total : (p i q j : ℕ) → key_le (p, i) (q, j) ≡ false → key_le (q, j) (p, i) ≡ true
key_total p i q j h = ground arith

key_trans :
    (p i q j r k : ℕ)
    → key_le (p, i) (q, j) ≡ true
    → key_le (q, j) (r, k) ≡ true
    → key_le (p, i) (r, k) ≡ true
key_trans p i q j r k h g = ground arith

abbrev priority : Casing → Feature → ℕ
priority c f = priority_of c (get_field "priority" (Feature.entry f))

total : (c : Casing) (x y : Feature × ℕ) → candidate_le c x y ≡ false → candidate_le c y x ≡ true
unfolding candidate_le
total c (f, i) (g, j) h = key_total (priority c f) i (priority c g) j h

trans :
    (c : Casing) (x y z : Feature × ℕ)
    → candidate_le c x y ≡ true
    → candidate_le c y z ≡ true
    → candidate_le c x z ≡ true
unfolding candidate_le
trans c (f, i) (g, j) (e, k) h l = key_trans (priority c f) i (priority c g) j (priority c e) k h l

zero_add : (k : ℕ) → k ≡ 0 + k
zero_add k = omega arith

-- Each pair of an enumeration is an element and its place.
All-enumerate :
    (i : ℕ) (fs : List Feature) (P : Feature × ℕ → Type 0)
    → ((k : ℕ) (f : Feature) → get_elem? fs k ≡ some f → P (f, i + k))
    → All P (enumerate i fs)
All-enumerate i [] P h = tt
All-enumerate i (f ∷ fs) P h = (
  subst (λ j. P (f, j)) (omega arith) (h 0 f refl),
  All-enumerate (suc i) fs P (λ k g e. subst (λ j. P (g, j)) (omega arith) (h (suc k) g e)),
)

-- The selection is of the feature at a place of the milestone's features, which is eligible; no eligible feature of
-- the milestone comes before it in the order of priority and place.
unfoldable pub IsLeast : Casing → Files → FeatureQueue → String → Selection → Type 0
IsLeast c files q m s =
    (i : ℕ) × (s ≡ selection_of by_order (Selection.feature s))
    × (get_elem? (features_for_milestone c q m) i ≡ some (Selection.feature s))
    × (is_eligible c files q (Selection.feature s) ≡ true)
    × (all
          (λ pair.
            not (is_eligible c files q pair.0) || candidate_le c (Selection.feature s, i) pair)
          (enumerate 0 (features_for_milestone c q m))
        ≡ true)

abbrev IsPlaced : Casing → Files → FeatureQueue → String → Feature × ℕ → Type 0
IsPlaced c files q m pair =
    (get_elem? (features_for_milestone c q m) pair.1 ≡ some pair.0)
    × (is_eligible c files q pair.0 ≡ true)

le_self : (c : Casing) (x : Feature × ℕ) → candidate_le c x x ≡ true
le_self c x = elim (Bool-cases (candidate_le c x x)) [ inl h ↦ h | inr h ↦ total c x x h ]

candidates-IsLeast :
    (c : Casing) (files : Files) (q : FeatureQueue) (m : String) (xs : List (Feature × ℕ))
    {s : Selection}
    → All (IsPlaced c files q m) xs
    → is_sorted (candidate_le c) xs ≡ true
    → ((x : Feature × ℕ)
        → all (candidate_le c x) xs ≡ true
        → all
            (λ pair. not (is_eligible c files q pair.0) || candidate_le c x pair)
            (enumerate 0 (features_for_milestone c q m))
          ≡ true)
    → first_selection (map (λ pair. pair.0) xs) ≡ some s
    → IsLeast c files q m s
unfolding IsLeast selection_of
candidates-IsLeast c files q m [] placed sorted back h = cc h
candidates-IsLeast c files q m (x ∷ xs) placed sorted back h =
    let least = (&&-true (all (candidate_le c x) xs) (is_sorted (candidate_le c) xs) sorted).0 in
    subst (IsLeast c files q m) (some-eq h)
      (x.1, refl, placed.0.0, placed.0.1, back x (rw (le_self c x) least))

-- A selection by `select_next` is a feature at some place among the milestone's features. It is eligible,
-- and no eligible feature of the milestone comes before it by priority and then by place.
pub select_next-IsLeast :
    (c : Casing) (files : Files) (q : FeatureQueue) (m : String) {s : Selection}
    → select_next c files q m ≡ some s
    → IsLeast c files q m s
unfolding select_next ready candidates IsLeast
select_next-IsLeast c files q m h =
    let listed = enumerate 0 (features_for_milestone c q m) in
    let chosen = select (λ pair. is_eligible c files q pair.0) listed in
    candidates-IsLeast c files q m (candidates c files q m)
      (All-sort_by (candidate_le c) (IsPlaced c files q m) chosen (
        All-select (λ pair. get_elem? (features_for_milestone c q m) pair.1 ≡ some pair.0)
          (λ pair. is_eligible c files q pair.0) listed
          (All-enumerate 0 (features_for_milestone c q m)
            (λ pair. get_elem? (features_for_milestone c q m) pair.1 ≡ some pair.0)
            (λ k f e.
              subst (λ j. get_elem? (features_for_milestone c q m) j ≡ some f) (zero_add k) e))))
      (is_sorted-sort_by (candidate_le c) (total c) (trans c) chosen)
      (λ x h.
        all-select_rest (λ pair. is_eligible c files q pair.0) (candidate_le c x) listed
          (sym (all-sort_by (candidate_le c) (candidate_le c x) chosen) ∙ h))
      h

any-enumerate :
    (p : Feature → Bool) (i : ℕ) (fs : List Feature)
    → any (λ pair. p pair.0) (enumerate i fs) ≡ any p fs
any-enumerate p i [] = refl
any-enumerate p i (f ∷ fs) = ap (λ b. p f || b) (any-enumerate p (suc i) fs)

any-select_self :
    (p : Feature × ℕ → Bool) (xs : List (Feature × ℕ)) → any (λ x. true) (select p xs) ≡ any p xs
any-select_self p [] = refl
any-select_self p (x ∷ xs) = elim (Bool-cases (p x)) [
  | inl h ↦ rw h refl
  | inr h ↦ rw h (any-select_self p xs)
]

-- There is a ready feature exactly if a feature of the milestone is eligible.
pub any-candidates :
    (c : Casing) (files : Files) (q : FeatureQueue) (m : String)
    → any (λ x. true) (candidates c files q m)
      ≡ any (is_eligible c files q) (features_for_milestone c q m)
unfolding candidates
any-candidates c files q m =
    let listed = enumerate 0 (features_for_milestone c q m) in
    any-sort_by (candidate_le c) (λ x. true) (select (λ pair. is_eligible c files q pair.0) listed)
    ∙ any-select_self (λ pair. is_eligible c files q pair.0) listed
    ∙ any-enumerate (is_eligible c files q) 0 (features_for_milestone c q m)

is_some-first :
    (xs : List (Feature × ℕ))
    → is_some (first_selection (map (λ pair. pair.0) xs)) ≡ any (λ x. true) xs
is_some-first [] = refl
is_some-first (x ∷ xs) = refl

-- `select_next` returns a selection exactly if some feature of the milestone is eligible.
pub is_some-select_next :
    (c : Casing) (files : Files) (q : FeatureQueue) (m : String)
    → is_some (select_next c files q m) ≡ any (is_eligible c files q) (features_for_milestone c q m)
unfolding select_next ready
is_some-select_next c files q m =
    is_some-first (candidates c files q m) ∙ any-candidates c files q m
