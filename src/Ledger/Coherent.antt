-- ===== src/Ledger/Coherent.antt =====
-- What `verify` and `_read_for_append` leave of the file, and when the append cache describes it.
use mathlib.Core.Path.{subst}
use development_conveyor.Base.{
  ◌≡◌, refl, sym, ap, ◌∙◌, inl, inr, true, false, not, not-true, Option, none, some, length, ◌==◌,
  nat_eq, string_eq, option_eq, Bool-cases, eq_of_beq, Result, ok, err, ok-injective, guard-bind-ok,
}
use development_conveyor.Ledger.Event.{LedgerError, truncated_record}
use development_conveyor.Ledger.Check.{Identity, Environment, genesis_fingerprint}
use development_conveyor.Ledger.History.{Integrity, validate}
use development_conveyor.Ledger.Store.{
  Files, Head, Cache, Ledger, validate_file, remember, fresh_cache, cached, verify, settle,
  verify_head,
}
use development_conveyor.Ledger.Chain.{tip, validate-Linked}

-- A cache that describes a file.
pub record Describes (c : Cache) (f : Files) : Type 0 where
  pub events : c.events ≡ f.lines
  pub sequence : c.integrity.sequence ≡ length f.lines
  pub fingerprint : c.integrity.fingerprint ≡ tip genesis_fingerprint f.lines
  pub whole : f.torn ≡ false

-- The object's cache describes the file wherever its signature is the file's.
pub record IsCoherent (s : Ledger) : Type 0 where
  pub describes :
      (c : Cache) → s.cache ≡ some c → c.signature ≡ s.files.signature → Describes c s.files

-- The records of a file are kept, and no part of one is added.
abbrev pub Kept : Files → Files → Type 0
Kept f g = (g.lines ≡ f.lines) × (g.torn ≡ f.torn)

pub Describes-Kept : (c : Cache) {f g : Files} → Kept f g → Describes c f → Describes c g
Describes-Kept c (e, t) d = record {
  events = d.events ∙ sym e;
  sequence = d.sequence ∙ ap length (sym e);
  fingerprint = d.fingerprint ∙ ap (tip genesis_fingerprint) (sym e);
  whole = t ∙ d.whole;
}

module _ (env : Environment) (l : Identity) where
  pub validate_file-ok :
      (f : Files) {i : Integrity}
      → validate_file env l f ≡ ok i
      → (f.torn ≡ false) × (validate env l f.lines ≡ ok i)
  unfolding validate_file
  validate_file-ok f h =
      let (whole, valid) = guard-bind-ok (not f.torn) truncated_record _ h in
      (not-true f.torn whole, valid)

  pub settle-Kept :
      (s : Ledger) (r : Result LedgerError Integrity) (h : Result LedgerError (Option Head))
      → Kept s.files (settle env l s r h).1.files
  unfolding settle
  settle-Kept s (err e) h = (refl, refl)
  settle-Kept s (ok i) (err e) = (refl, refl)
  settle-Kept s (ok i) (ok h) = (refl, refl)

  pub settle-ok :
      (s : Ledger) (r : Result LedgerError Integrity) (h : Result LedgerError (Option Head))
      {i : Integrity}
      → (settle env l s r h).0 ≡ ok i
      → r ≡ ok i
  unfolding settle
  settle-ok s (err e) h k = cc k
  settle-ok s (ok i) (err e) k = cc k
  settle-ok s (ok i) (ok h) k = k

  remember-files :
      (r : Result LedgerError Integrity) (s : Ledger) → (remember env l r s).1.files ≡ s.files
  unfolding remember
  remember-files (err e) s = refl
  remember-files (ok i) s = refl

  remember-ok :
      (r : Result LedgerError Integrity) (s : Ledger) {c : Cache}
      → (remember env l r s).0 ≡ ok c
      → (i : Integrity) × (r ≡ ok i) × (c.events ≡ s.files.lines) × (c.integrity ≡ i)
  unfolding remember
  remember-ok (err e) s k = cc k
  remember-ok (ok i) s k = (i, refl, cc (ok-injective k), cc (ok-injective k))

  fresh_cache-Kept : (s : Ledger) → Kept s.files (fresh_cache env l s).1.files
  unfolding fresh_cache verify
  fresh_cache-Kept s =
      subst (Kept s.files) (sym (remember-files (verify env l s).0 (verify env l s).1))
        (settle-Kept s (validate_file env l s.files) (verify_head true s.files.lines s.files.head))

  fresh_cache-Describes :
      (s : Ledger) {c : Cache} → (fresh_cache env l s).0 ≡ ok c → Describes c s.files
  unfolding fresh_cache verify
  fresh_cache-Describes s k =
      let checked = validate_file env l s.files in
      let head = verify_head true s.files.lines s.files.head in
      let (i, verified, events, same) = remember-ok (verify env l s).0 (verify env l s).1 k in
      let (whole, valid) = validate_file-ok s.files (settle-ok s checked head verified) in
      let (_, at_tip, size) = validate-Linked env l s.files.lines valid in
      record {
        events = events ∙ (settle-Kept s checked head).0;
        sequence = ap (λ i. i.sequence) same ∙ size;
        fingerprint = ap (λ i. i.fingerprint) same ∙ at_tip;
        whole = whole;
      }

  pub cached-Kept : (o : Option Cache) (s : Ledger) → Kept s.files (cached env l o s).1.files
  unfolding cached
  cached-Kept none s = fresh_cache-Kept s
  cached-Kept (some c) s = elim (Bool-cases (c.signature == s.files.signature)) [
    | inl h ↦ rw h (refl, refl)
    | inr h ↦ rw h (fresh_cache-Kept s)
  ]

  pub cached-Describes :
      (o : Option Cache) (s : Ledger) {c : Cache}
      → ((d : Cache) → o ≡ some d → d.signature ≡ s.files.signature → Describes d s.files)
      → (cached env l o s).0 ≡ ok c
      → Describes c s.files
  unfolding cached
  cached-Describes none s d k = fresh_cache-Describes s k
  cached-Describes (some c) s d k = elim (Bool-cases (c.signature == s.files.signature)) [
    | inl h ↦ subst (λ c. Describes c s.files) (ok-injective (rw h at k)) (d c refl (eq_of_beq h))
    | inr h ↦ fresh_cache-Describes s (rw h at k)
  ]
