-- ===== src/Ledger/Durable.antt =====
-- Crashes and rollbacks between the record file and its durable head anchor.
use mathlib.Core.Path.{ap₂}
use development_conveyor.Base.{
  ℕ, suc, ◌≡◌, refl, ap, ◌∙◌, true, false, Option, none, some, [], ◌∷◌, last?, last?-snoc, nat_eq,
  string_eq, beq_refl, Result, ok, err, ◌>>=◌, arith,
}
use development_conveyor.Json.{pos, int_eq}
use development_conveyor.Ledger.Event.{LedgerError, Event, no_head}
use development_conveyor.Ledger.Check.{Identity, Environment}
use development_conveyor.Ledger.History.{Integrity, validate}
use development_conveyor.Ledger.Store.{
  Files, Ledger, verify_head, verify_tail, settle, Cache, head_of, anchors, verify, read,
}
use development_conveyor.Ledger.Append.{write_line, write_head}

-- The anchor of a file is that of its last record.
abbrev pub Anchored : Files → Type 0
Anchored f = (tail : Event) × (last? f.lines ≡ some tail) × (f.head ≡ some (head_of tail))

-- A record that continues the file: the next number, and the last fingerprint.
abbrev pub Continues : Files → Event → Type 0
Continues f e =
    (tail : Event) × (n : ℕ) × (last? f.lines ≡ some tail)
    × (tail.sequence ≡ pos n)
    × (e.sequence ≡ pos (suc n))
    × (e.previous_fingerprint ≡ tail.fingerprint)

anchors-head_of : (e : Event) → anchors (head_of e) e ≡ true
anchors-head_of e = rw (beq_refl e.sequence, beq_refl e.fingerprint) refl

-- Both writes leave a file that passes the check of the anchor with nothing to repair.
pub verify_head-write_head :
    (stamp : ℕ) (e : Event) (f : Files)
    → let g = write_head e (write_line stamp e f) in verify_head false g.lines g.head ≡ ok g.head
unfolding verify_head verify_tail write_head write_line
verify_head-write_head stamp e f =
    ap (λ o. verify_tail false o (some (head_of e))) (last?-snoc f.lines e)
    ∙ rw (anchors-head_of e) refl

-- A record behind an anchored one is not anchored itself, and is one ahead.
continues_anchor :
    (e tail : Event) (n : ℕ)
    → tail.sequence ≡ pos n
    → e.sequence ≡ pos (suc n)
    → e.previous_fingerprint ≡ tail.fingerprint
    → verify_tail true (some e) (some (head_of tail)) ≡ ok (some (head_of e))
unfolding verify_tail
continues_anchor e tail n t u p = ground (
  arith,
  int_eq.beq_iff tail.sequence e.sequence,
  int_eq.beq_iff e.sequence (pos (suc n)),
  string_eq.beq_iff e.previous_fingerprint tail.fingerprint,
)

-- A crash after the record and before the anchor is repaired, to the anchor of the finished append.
pub crash_repaired :
    (stamp : ℕ) (e : Event) (f : Files)
    → Anchored f
    → Continues f e
    → let g = write_line stamp e f in verify_head true g.lines g.head ≡ ok (write_head e g).head
unfolding verify_head write_head write_line
crash_repaired stamp e f (tail, at_end, head) (tail', n, at_end', number, next, previous) =
    let same : tail ≡ tail' = cc in
    ap₂ (λ o h. verify_tail true o h) (last?-snoc f.lines e) head
    ∙ continues_anchor e tail n (cc) next (cc)

module _ (env : Environment) (l : Identity) where
  stuck_either_way :
      (t : Ledger) (r : Result LedgerError Integrity)
      → (x : LedgerError) × (settle env l t r (err no_head) ≡ (err x, t))
  unfolding settle
  stuck_either_way t (err x) = (x, refl)
  stuck_either_way t (ok i) = (no_head, refl)

  -- The same crash in the first append of a ledger leaves a file that no later `verify` or `read`
  -- accepts, whatever the record.
  pub first_crash_stuck :
      (stamp : ℕ) (e : Event) (signature : Option ℕ) (cache : Option Cache)
      → let empty : Files = record {
        lines = [];
        torn = false;
        head = none;
        signature = signature;
      } in
        let t : Ledger = record { files = write_line stamp e empty; cache = cache } in
        (x : LedgerError) × (verify env l t ≡ (err x, t)) × (read env l t ≡ (err x, t))
  unfolding read verify verify_head verify_tail write_line
  first_crash_stuck stamp e signature cache =
      let t : Ledger = record {
        files = record { lines = e ∷ []; torn = false; head = none; signature = some stamp };
        cache = cache;
      } in
      let (x, h) = stuck_either_way t (validate env l (e ∷ [])) in
      (x, h, ap (λ r. (r.0 >>= λ _. ok t.files.lines, r.1)) h)
