-- ===== src/Ledger/Rollback.antt =====
-- A ledger file that is cut short contradicts its anchor.
use development_conveyor.Base.{
  ℕ, suc, ◌+◌, ◌<◌, ◌≡◌, refl, sym, ap, ◌∙◌, true, Option, none, some, List, [], ◌∷◌, ◌++◌, length,
  length-append, last?, some-eq, nat_eq, string_eq, ok, err, arith,
}
use development_conveyor.Json.{pos, int_eq}
use development_conveyor.Ledger.Event.{LedgerError, Event, shorter_than_head, contradicts_head}
use development_conveyor.Ledger.Check.{Identity, Environment}
use development_conveyor.Ledger.History.{Integrity, validate}
use development_conveyor.Ledger.Store.{Head, verify_head, verify_tail, head_of}
use development_conveyor.Ledger.Steps.{Numbered}
use development_conveyor.Ledger.Sound.{validate-IsSound}

-- The last record's number is the length of the file.
last_number :
    (l : Identity) (k : ℕ) (es : List Event) (tail : Event)
    → Numbered l k es
    → last? es ≡ some tail
    → (n : ℕ) × (tail.sequence ≡ pos n) × (suc n ≡ k + length es)
last_number l k [] tail n e = cc e
last_number l k (x ∷ []) tail n e =
    (k, ap (λ t. t.sequence) (sym (some-eq e)) ∙ n.0.sequence, omega arith)
last_number l k (x ∷ y ∷ es) tail n e =
    let (m, number, size) = last_number l (suc k) (y ∷ es) tail n.1 e in (m, number, omega arith)

Numbered-prefix :
    (l : Identity) (k : ℕ) (xs ys : List Event) → Numbered l k (xs ++ ys) → Numbered l k xs
Numbered-prefix l k [] ys n = tt
Numbered-prefix l k (x ∷ xs) ys n = (n.0, Numbered-prefix l (suc k) xs ys n.1)

-- An anchor with a higher number fits no shorter file.
later_anchor :
    (tail last : Event) (m n : ℕ)
    → tail.sequence ≡ pos m
    → last.sequence ≡ pos n
    → m < n
    → verify_tail true (some tail) (some (head_of last)) ≡ err contradicts_head
unfolding verify_tail
later_anchor tail last m n t u lt =
    ground (
      arith,
      int_eq.beq_iff last.sequence tail.sequence,
      int_eq.beq_iff tail.sequence (pos (suc n)),
    )

empty_rejected : (h : Head) → verify_tail true none (some h) ≡ err shorter_than_head
unfolding verify_tail
empty_rejected h = refl

module _ (l : Identity) where
  prefix_rejected :
      (kept : List Event) (last : Event) (n : ℕ)
      → Numbered l 1 kept
      → last.sequence ≡ pos n
      → length kept < n
      → (e : LedgerError) × (verify_head true kept (some (head_of last)) ≡ err e)
  unfolding verify_head
  prefix_rejected kept last n numbered number short = split (last? kept) refl
    where
      split :
          (tail : Option Event)
          → last? kept ≡ tail
          → (e : LedgerError) × (verify_head true kept (some (head_of last)) ≡ err e)
      split none e = (
        shorter_than_head,
        ap (λ o. verify_tail true o (some (head_of last))) e ∙ empty_rejected (head_of last),
      )
      split (some tail) e =
          let (m, tail_number, size) = last_number l 1 kept tail numbered e in
          (
            contradicts_head,
            ap (λ o. verify_tail true o (some (head_of last))) e
                ∙ later_anchor tail last m n tail_number number (omega arith),
          )

module _ (env : Environment) (l : Identity) where
  -- From a valid ledger whose anchor is that of its last record, no proper prefix passes the check of
  -- the anchor, with repair or without.
  pub truncation_detected :
      (kept : List Event) (x : Event) (lost : List Event) (last : Event) {i : Integrity}
      → validate env l (kept ++ x ∷ lost) ≡ ok i
      → last? (kept ++ x ∷ lost) ≡ some last
      → (e : LedgerError) × (verify_head true kept (some (head_of last)) ≡ err e)
  unfolding verify_head
  truncation_detected kept x lost last h at_end =
      let numbered = (validate-IsSound env l (kept ++ x ∷ lost) h).numbered in
      let (n, number, size) = last_number l 1 (kept ++ x ∷ lost) last numbered at_end in
      prefix_rejected l kept last n (Numbered-prefix l 1 kept (x ∷ lost) numbered) number
        (omega (arith, length-append kept (x ∷ lost)))
