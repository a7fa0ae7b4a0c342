-- ===== src/Projection/Verified.antt =====
-- `LedgerStore.verify` as the engine of src/development_conveyor/projection.py calls it: what it leaves of the
-- ledger, and what it gives when it is called again.
use development_conveyor.Base.{
  ◌≡◌, refl, sym, ap, ◌∙◌, inl, inr, true, false, Option, none, some, last?, Result, ok, err, ok-eq,
  Bool-cases, beq_refl, string_eq,
}
use mathlib.Core.Path.{subst}
use development_conveyor.Json.{int_eq}
use development_conveyor.Ledger.Event.{LedgerError, Event}
use development_conveyor.Ledger.Check.{Identity, Environment}
use development_conveyor.Ledger.History.{Integrity, validate}
use development_conveyor.Ledger.Coherent.{settle-Kept, settle-ok, validate_file-ok}
use development_conveyor.Ledger.Store.{
  Head, Ledger, anchors, head_of, one_ahead, verify_tail, verify_head, validate_file, settle,
  verify,
}

anchors-head_of : (tail : Event) → anchors (head_of tail) tail ≡ true
anchors-head_of tail = rw (beq_refl tail.sequence, beq_refl tail.fingerprint) refl

-- A head that the check gives passes the check.
verify_tail-again :
    (tail : Option Event) (head : Option Head) {kept : Option Head}
    → verify_tail true tail head ≡ ok kept
    → verify_tail true tail kept ≡ ok kept
unfolding verify_tail
verify_tail-again none none h = subst (λ kept. verify_tail true none kept ≡ ok kept) (ok-eq h) refl
verify_tail-again none (some x) h = cc h
verify_tail-again (some tail) none h = cc h
verify_tail-again (some tail) (some x) {kept} h = elim (Bool-cases (anchors x tail)) [
  | inl p ↦ subst (λ m. verify_tail true (some tail) m ≡ ok m) (ok-eq (rw p at h)) (rw p refl)
  | inr p ↦ elim (Bool-cases (one_ahead x tail)) [
    | inl q ↦
        subst (λ m. verify_tail true (some tail) m ≡ ok m) (ok-eq (rw q at (rw p at h)))
          (rw (anchors-head_of tail) refl)
    | inr q ↦ cc (rw q at (rw p at h))
  ]
]

-- What a verification that gives an integrity has checked, and the ledger that it leaves.
pub record IsVerified (env : Environment) (l : Identity) (s : Ledger) (i : Integrity)
    (after : Ledger) : Type 0 where
  pub valid : validate env l s.files.lines ≡ ok i
  pub whole : s.files.torn ≡ false
  pub same_torn : after.files.torn ≡ s.files.torn
  pub same_lines : after.files.lines ≡ s.files.lines
  pub anchored : verify_head true s.files.lines s.files.head ≡ ok after.files.head

module _ (env : Environment) (l : Identity) where
  pub verify-lines : (s : Ledger) → (verify env l s).1.files.lines ≡ s.files.lines
  unfolding verify
  verify-lines s =
      (settle-Kept env l s (validate_file env l s.files)
        (verify_head true s.files.lines s.files.head)).0

  pub verify-valid :
      (s : Ledger) {i : Integrity} → (verify env l s).0 ≡ ok i → validate env l s.files.lines ≡ ok i
  unfolding verify
  verify-valid s h =
      (validate_file-ok env l s.files (
        settle-ok env l s (validate_file env l s.files)
          (verify_head true s.files.lines s.files.head) h)).1

  settle-IsVerified :
      (s : Ledger) (r : Result LedgerError Integrity) (m : Result LedgerError (Option Head))
      {i : Integrity} {after : Ledger}
      → settle env l s r m ≡ (ok i, after)
      → (r ≡ ok i)
        × (after.files.torn ≡ s.files.torn)
        × (after.files.lines ≡ s.files.lines)
        × (m ≡ ok after.files.head)
  unfolding settle
  settle-IsVerified s (err e) m h = cc (ap (λ p. p.0) h)
  settle-IsVerified s (ok i) (err e) h = cc (ap (λ p. p.0) h)
  settle-IsVerified s (ok i) (ok head) h = (
    ap (λ p. p.0) h,
    sym (ap (λ p. p.1.files.torn) h),
    sym (ap (λ p. p.1.files.lines) h),
    ap (λ p. ok p.1.files.head) h,
  )

  pub verify-IsVerified :
      (s : Ledger) {i : Integrity} {after : Ledger}
      → verify env l s ≡ (ok i, after)
      → IsVerified env l s i after
  unfolding verify
  verify-IsVerified s h =
      let (checked, torn, lines, anchored) = settle-IsVerified s _ _ h in
      let (whole, valid) = validate_file-ok env l s.files checked in
      record {
        valid = valid;
        whole = whole;
        same_torn = torn;
        same_lines = lines;
        anchored = anchored;
      }

  -- A verified ledger verifies again, with the same integrity, and stays as it is.
  pub verify-again :
      (s : Ledger) {i : Integrity} {after : Ledger}
      → verify env l s ≡ (ok i, after)
      → verify env l after ≡ (ok i, after)
  unfolding verify settle verify_head validate_file
  verify-again s {i} {after} h =
      let v = verify-IsVerified s h in
      let valid : validate env l after.files.lines ≡ ok i =
        subst (λ es. validate env l es ≡ ok i) (sym v.same_lines) v.valid in
      let checked : validate_file env l after.files ≡ ok i = rw (v.same_torn ∙ v.whole) valid in
      let anchored : verify_tail true (last? after.files.lines) after.files.head
          ≡ ok after.files.head =
        subst (λ es. verify_tail true (last? es) after.files.head ≡ ok after.files.head)
          (sym v.same_lines) (verify_tail-again (last? s.files.lines) s.files.head v.anchored) in
      ap (λ r. settle env l after r (verify_tail true (last? after.files.lines) after.files.head))
        checked
      ∙ ap (λ m. settle env l after (ok i) m) anchored
