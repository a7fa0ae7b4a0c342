-- ===== src/Retries/Spent.antt =====
-- What the attempts of a `RetryBudget` of src/development_conveyor/retries.py have in common.
use development_conveyor.Base.{
  arith, ℕ, ◌+◌, ◌≤◌, ◌≡◌, refl, sym, ap, Bool, true, false, not, ◌&&◌, List, [], ◌∷◌, ◌++◌, length,
  length-append, any, Result, ok, err, guard, &&-true, guard-bind-ok, ◌>>◌, leb,
}
use mathlib.Core.List.{append-nil}
use mathlib.Core.Path.{subst}
use development_conveyor.Json.{ℤ, pos}
use development_conveyor.Retries.{
  Texts, RetryError, Attempt, RetryBudget, Retry, reaches, complete, attempt_of, repeats,
  check_retry, appended, record_retry, incomplete_retry, repeated_retry, limit_exhausted,
}

guard-true : (t : Bool) {u : Unit} → guard t limit_exhausted ≡ ok u → t ≡ true
guard-true true h = refl
guard-true false h = cc h

below : (k n : ℕ) → not (leb n k) ≡ true → k + 1 ≤ n
below k n h = ground arith

-- A budget that is not spent has room for one more.
room :
    (k n : ℕ) (limit : ℤ) {grown : ℕ}
    → limit ≡ pos n
    → not (reaches limit k) ≡ true
    → grown ≡ k + 1
    → grown ≤ n
room k n limit e h g =
    subst (λ m. m ≤ n) (sym g) (below k n (subst (λ x. not (reaches x k) ≡ true) e h))

++-assoc_snoc : (xs ys : List Attempt) (a : Attempt) → (xs ++ a ∷ []) ++ ys ≡ xs ++ a ∷ ys
++-assoc_snoc [] ys a = refl
++-assoc_snoc (x ∷ xs) ys a = ap (λ zs. x ∷ zs) (++-assoc_snoc xs ys a)

module _ (texts : Texts) where
  -- No attempt repeats one before it.
  abbrev pub fresh : List Attempt → List Attempt → Bool
  fresh before [] = true
  fresh before (a ∷ later) =
      let rest = fresh (before ++ a ∷ []) later in not (any (repeats texts a) before) && rest

  fresh-snoc :
      (before later : List Attempt) (a : Attempt)
      → fresh before later ≡ true
      → not (any (repeats texts a) (before ++ later)) ≡ true
      → fresh before (later ++ a ∷ []) ≡ true
  fresh-snoc before [] a f n =
      rw (subst (λ xs. not (any (repeats texts a) xs) ≡ true) (append-nil before) n) refl
  fresh-snoc before (x ∷ later) a f n =
      let (new, rest) =
        &&-true (not (any (repeats texts x) before)) (fresh (before ++ x ∷ []) later) f in
      rw new (
        fresh-snoc (before ++ x ∷ []) later a rest (
          subst (λ xs. not (any (repeats texts a) xs) ≡ true) (sym (++-assoc_snoc before later x))
            n))

  -- A budget of which no attempt repeats another, and no more are spent than the limit.
  pub record IsWithin (n : ℕ) (b : RetryBudget) : Type 0 where
    pub limited : b.limit ≡ pos n
    pub all_new : fresh [] b.attempts ≡ true
    pub few : length b.attempts ≤ n

  appended-IsWithin :
      (n : ℕ) (q : Retry) (b : RetryBudget) (m : Result RetryError Unit)
      → check_retry texts q b ≡ m
      → IsWithin n b
      → IsWithin n (appended texts q b m).1
  appended-IsWithin n q b (err e) h w = w
  appended-IsWithin n q b (ok done) h w =
      let seen = any (repeats texts (attempt_of texts q)) b.attempts in
      let spent = reaches b.limit (length b.attempts) in
      let second = guard (not spent) limit_exhausted in
      let (_, h1) =
        guard-bind-ok (complete q) incomplete_retry (guard (not seen) repeated_retry >> second) h in
      let (new, h2) = guard-bind-ok (not seen) repeated_retry second h1 in
      record {
        limited = w.limited;
        all_new = fresh-snoc [] b.attempts (attempt_of texts q) w.all_new new;
        few =
            room (length b.attempts) n b.limit w.limited (guard-true (not spent) h2)
              (length-append b.attempts (attempt_of texts q ∷ []));
      }

  unfoldable pub run : List Retry → RetryBudget → RetryBudget
  unfolding record_retry
  run [] b = b
  run (q ∷ qs) b = run qs (record_retry texts q b).1

  run-IsWithin : (n : ℕ) (qs : List Retry) (b : RetryBudget) → IsWithin n b → IsWithin n (run qs b)
  unfolding run record_retry
  run-IsWithin n [] b w = w
  run-IsWithin n (q ∷ qs) b w =
      run-IsWithin n qs (record_retry texts q b).1
        (appended-IsWithin n q b (check_retry texts q b) refl w)

  -- After any sequence of calls of `record`, those that raise included, on a new budget of a limit that is
  -- not negative: no attempt has the normalized hypothesis or the signature of an earlier one, and there
  -- are no more attempts than the limit.
  pub spent_on_new :
      (n : ℕ) (qs : List Retry) → IsWithin n (run qs (record { limit = pos n; attempts = [] }))
  spent_on_new n qs =
      run-IsWithin n qs (record { limit = pos n; attempts = [] })
        (record { limited = refl; all_new = refl; few = omega arith })
