-- ===== src/Projection/Served.antt =====
-- What `ProjectionEngine.current` of src/development_conveyor/projection.py returns: the document of the cache
-- file, or a projection rebuilt from the ledger.
use development_conveyor.Base.{
  ◌≡◌, ◌⊎◌, refl, sym, ap, ◌∙◌, inl, inr, true, Option, none, some, Result, ok, err, ok-eq,
  guard-bind-ok, guard, ◌>>◌, not, require, some-eq, bind-ok, Bool-cases, string_eq,
}
use mathlib.Core.Path.{subst}
use development_conveyor.Json.{Json, null, bool, int, fraction, str, arr, obj, Fields}
use development_conveyor.Dict.{int_of, value_at}
use development_conveyor.Ledger.Event.{LedgerError}
use development_conveyor.Ledger.Check.{Identity, Environment}
use development_conveyor.Ledger.History.{Integrity, validate}
use development_conveyor.Ledger.Store.{verify}
use development_conveyor.Projection.Rebuild.{
  ProjectionError, stale_cache, invalid_sequence, invalid_fingerprint, invalid_schema, other_ledger,
  later_sequence,
}
use development_conveyor.Projection.Engine.{
  Engine, CacheFile, absent, unsafe, unreadable, document, check_document, check_binding,
  load_cache, unless_stale, bound_to, is_sealed, has_schema, has_ledger, earlier_than, later_than,
  serve, current, rebuild, load_document, load_file, bind_ledger, verified, answer,
}
use development_conveyor.Projection.Verified.{verify-lines, verify-valid}

module _ (env : Environment) (l : Identity) where
  -- A document of the cache file that is bound to the ledger.
  pub record IsCached (s : Engine) (d : Fields) : Type 0 where
    pub stored : s.cache ≡ some (document (obj d))
    pub checked : check_document env l (obj d) ≡ ok d
    pub integrity : Integrity
    pub valid : validate env l s.ledger.files.lines ≡ ok integrity
    pub bound : bound_to integrity d ≡ true

  fields_checked : (d : Fields) {kept : Fields} → check_document env l (obj d) ≡ ok kept → d ≡ kept
  unfolding check_document
  fields_checked d h =
      ok-eq
        (guard-bind-ok (is_sealed env l d) invalid_fingerprint (ok d)
          (guard-bind-ok (has_schema d) invalid_schema
            (guard (is_sealed env l d) invalid_fingerprint >> ok d) h).1).1

  check_document-same :
      (value : Json) {d : Fields} → check_document env l value ≡ ok d → value ≡ obj d
  unfolding check_document
  check_document-same (obj d) h = ap obj (fields_checked d h)
  check_document-same null h = cc h
  check_document-same (bool b) h = cc h
  check_document-same (int n) h = cc h
  check_document-same (fraction n k) h = cc h
  check_document-same (str s) h = cc h
  check_document-same (arr xs) h = cc h

  check_binding-same :
      (i : Integrity) (d : Fields) {kept : Fields} → check_binding env l i d ≡ ok kept → d ≡ kept
  unfolding check_binding
  check_binding-same i d h =
      let (n, _, rest) =
        bind-ok (require (int_of (value_at "ledger_sequence" (obj d))) invalid_sequence) _ h in
      let named = guard (has_ledger i d) other_ledger >> ok d in
      let current = guard (not (earlier_than n i.sequence)) stale_cache >> named in
      ok-eq
        (guard-bind-ok (has_ledger i d) other_ledger (ok d)
          (guard-bind-ok (not (earlier_than n i.sequence)) stale_cache named
            (guard-bind-ok (not (later_than n i.sequence)) later_sequence current rest).1).1).1

  bind_ledger-some :
      (d : Fields) (r : Result LedgerError Integrity) {found : Fields}
      → bind_ledger env l d r ≡ ok (some found)
      → d ≡ found
  bind_ledger-some d (err e) h = cc h
  bind_ledger-some d (ok i) h =
      let (kept, bound, same) = bind-ok (check_binding env l i d) (λ kept. ok (some kept)) h in
      check_binding-same i d bound ∙ some-eq (ok-eq same)

  load_document-some :
      (m : Result ProjectionError Fields) (s : Engine) {d : Fields} {after : Engine}
      → load_document env l m s ≡ (ok (some d), after)
      → (m ≡ ok d) × (after.ledger.files.lines ≡ s.ledger.files.lines)
  load_document-some (err e) s h = cc (ap (λ p. p.0) h)
  load_document-some (ok d) s h = (
    ap ok (bind_ledger-some d (verify env l s.ledger).0 (ap (λ p. p.0) h)),
    sym (ap (λ p. p.1.ledger.files.lines) h) ∙ verify-lines env l s.ledger,
  )

  -- What a load that gives a document has found.
  load_file-some :
      (file : Option CacheFile) (s : Engine) {d : Fields} {after : Engine}
      → load_file env l file s ≡ (ok (some d), after)
      → (file ≡ some (document (obj d)))
        × (check_document env l (obj d) ≡ ok d)
        × (after.ledger.files.lines ≡ s.ledger.files.lines)
  load_file-some none s h = cc (ap (λ p. p.0) h)
  load_file-some (some absent) s h = cc (ap (λ p. p.0) h)
  load_file-some (some unsafe) s h = cc (ap (λ p. p.0) h)
  load_file-some (some unreadable) s h = cc (ap (λ p. p.0) h)
  load_file-some (some (document value)) s {d} h =
      let (checked, same) = load_document-some (check_document env l value) s h in
      let stored = check_document-same value checked in
      (
        ap (λ v. some (document v)) stored,
        subst (λ v. check_document env l v ≡ ok d) stored checked,
        same,
      )

  unless_stale-some :
      (m : Result ProjectionError (Option Fields)) {d : Fields}
      → unless_stale m ≡ ok (some d)
      → m ≡ ok (some d)
  unless_stale-some (ok found) h = h
  unless_stale-some (err stale_cache) h = cc h
  unless_stale-some (err e) h = cc h

  load_document-lines :
      (m : Result ProjectionError Fields) (s : Engine)
      → (load_document env l m s).1.ledger.files.lines ≡ s.ledger.files.lines
  load_document-lines (err e) s = refl
  load_document-lines (ok d) s = verify-lines env l s.ledger

  load_file-lines :
      (file : Option CacheFile) (s : Engine)
      → (load_file env l file s).1.ledger.files.lines ≡ s.ledger.files.lines
  load_file-lines none s = refl
  load_file-lines (some absent) s = refl
  load_file-lines (some unsafe) s = refl
  load_file-lines (some unreadable) s = refl
  load_file-lines (some (document value)) s = load_document-lines (check_document env l value) s

  -- A projection rebuilt from the events that the engine's ledger holds.
  pub IsRebuilt : Engine → Fields → Engine → Type 0
  IsRebuilt s d after =
      (before : Engine) × (before.ledger.files.lines ≡ s.ledger.files.lines)
      × (rebuild env l true none before ≡ (ok d, after))

  serve-outcome :
      (found : Option Fields) (i : Integrity) (s : Engine) {d : Fields} {after : Engine}
      → serve env l found i s ≡ (ok d, after)
      → ((found ≡ some d) × (bound_to i d ≡ true)) ⊎ IsRebuilt s d after
  unfolding IsRebuilt
  serve-outcome none i s h = inr (s, refl, h)
  serve-outcome (some e) i s {d} h = elim (Bool-cases (bound_to i e)) [
    | inl b ↦
        let same = ok-eq (ap (λ p. p.0) (rw b at h)) in
        inl (ap some same, subst (λ x. bound_to i x ≡ true) same b)
    | inr b ↦ inr (s, refl, rw b at h)
  ]

  verified-outcome :
      (found : Option Fields) (r : Result LedgerError Integrity) (s : Engine) {d : Fields}
      {after : Engine}
      → verified env l found r s ≡ (ok d, after)
      → ((i : Integrity) × (r ≡ ok i) × (found ≡ some d) × (bound_to i d ≡ true))
        ⊎ IsRebuilt s d after
  verified-outcome found (err e) s h = cc (ap (λ p. p.0) h)
  verified-outcome found (ok i) s h = elim (serve-outcome found i s h) [
    | inl (same, bound) ↦ inl (i, refl, same, bound)
    | inr rebuilt ↦ inr rebuilt
  ]

  same_lines :
      (s t : Engine) (d : Fields) (after : Engine)
      → t.ledger.files.lines ≡ s.ledger.files.lines
      → IsRebuilt t d after
      → IsRebuilt s d after
  unfolding IsRebuilt
  same_lines s t d after e (before, same, r) = (before, same ∙ e, r)

  answer-outcome :
      (s t : Engine) (m : Result ProjectionError (Option Fields)) {d : Fields} {after : Engine}
      → t.ledger.files.lines ≡ s.ledger.files.lines
      → (m ≡ ok (some d)
          → (s.cache ≡ some (document (obj d))) × (check_document env l (obj d) ≡ ok d))
      → answer env l m t ≡ (ok d, after)
      → IsCached s d ⊎ IsRebuilt s d after
  answer-outcome s t (err e) lines cached h = cc (ap (λ p. p.0) h)
  answer-outcome s t (ok found) {d} {after} lines cached h =
      elim (verified-outcome found (verify env l t.ledger).0
        (record t { ledger = (verify env l t.ledger).1 }) h) [
          | inl (i, valid, same, bound) ↦
              let (stored, checked) = cached (ap ok same) in
              inl (record {
                stored = stored;
                checked = checked;
                integrity = i;
                valid =
                    subst (λ es. validate env l es ≡ ok i) lines
                      (verify-valid env l t.ledger valid);
                bound = bound;
              })
          | inr rebuilt ↦ inr (same_lines s _ d after (verify-lines env l t.ledger ∙ lines) rebuilt)
        ]

  -- A projection that `current` returns either is the document of the cache file, whose schema and
  -- fingerprint hold and whose sequence and ledger fingerprint are those of the ledger as it stands, or is
  -- what `rebuild` makes of the same events.
  pub current_outcome :
      (s : Engine) {d : Fields} {after : Engine}
      → current env l s ≡ (ok d, after)
      → IsCached s d ⊎ IsRebuilt s d after
  unfolding current load_cache
  current_outcome s {d} h =
      let (m, t) = load_file env l s.cache s in
      answer-outcome s t (unless_stale m) (load_file-lines s.cache s)
        (λ k.
          let (stored, checked, _) =
            load_file-some s.cache s {after = t} (ap (λ r. (r, t)) (unless_stale-some m k)) in
          (stored, checked))
        h
