-- ===== src/Projection/Persisted.antt =====
-- The projection that `ProjectionEngine.rebuild` of src/development_conveyor/projection.py writes is the one
-- that `load_cache` reads.
use development_conveyor.Base.{
  ◌≡◌, refl, sym, ap, ◌∙◌, true, none, some, List, Result, ok, err, ok-eq, bind-ok, ◌>>=◌,
}
use mathlib.Core.Path.{subst}
use development_conveyor.Json.{obj, Fields}
use development_conveyor.Ledger.Event.{LedgerError, Event}
use development_conveyor.Ledger.Check.{Identity, Environment}
use development_conveyor.Ledger.History.{Integrity}
use development_conveyor.Ledger.Store.{Ledger, verify, read}
use development_conveyor.Projection.Rebuild.{ProjectionError}
use development_conveyor.Projection.Engine.{
  Engine, CacheFile, unsafe, document, project, bind_ledger, load_document, load_file, load_cache,
  rebuild, persist, keep, after_read, after_verify,
}
use development_conveyor.Projection.Verified.{verify-again}
use development_conveyor.Projection.Sealing.{
  IsBound, KeepsKeys, project-IsBound, check_document-IsBound, check_binding-IsBound,
}

module _ (env : Environment) (l : Identity) where
  -- A persisted projection with its ledger.
  pub record IsPersisted (events : List Event) (d : Fields) (after : Engine) : Type 0 where
    pub integrity : Integrity
    pub made : project env l events integrity none ≡ ok d
    pub stable : verify env l after.ledger ≡ (ok integrity, after.ledger)
    pub written : after.cache ≡ some (document (env.redact_value (obj d)))

  persist-ok :
      (file : CacheFile) (d : Fields) (s : Engine) {e : Fields} {after : Engine}
      → persist env l (some file) d s ≡ (ok e, after)
      → (d ≡ e)
        × (after.ledger ≡ s.ledger)
        × (after.cache ≡ some (document (env.redact_value (obj e))))
  persist-ok unsafe d s h = cc (ap (λ p. p.0) h)
  persist-ok file d s h =
      let same = ok-eq (ap (λ p. p.0) h) in
      (
        same,
        sym (ap (λ p. p.1.ledger) h),
        sym (ap (λ p. p.1.cache) h) ∙ ap (λ e. some (document (env.redact_value (obj e)))) same,
      )

  keep-ok :
      (m : Result ProjectionError Fields) (file : CacheFile) (s : Engine) {d : Fields}
      {after : Engine}
      → s.cache ≡ some file
      → keep env l true m s ≡ (ok d, after)
      → (m ≡ ok d)
        × (after.ledger ≡ s.ledger)
        × (after.cache ≡ some (document (env.redact_value (obj d))))
  keep-ok (err e) file s c h = cc (ap (λ p. p.0) h)
  keep-ok (ok e) file s {d} {after} c h =
      let (same, ledger, cache) =
        persist-ok file e s (subst (λ m. persist env l m e s ≡ (ok d, after)) c h) in
      (ap ok same, ledger, cache)

  after_verify-IsPersisted :
      (events : List Event) (before : Ledger) (r : Result LedgerError Integrity) (file : CacheFile)
      (s : Engine) {d : Fields} {after : Engine}
      → s.cache ≡ some file
      → verify env l before ≡ (r, s.ledger)
      → after_verify env l true none events r s ≡ (ok d, after)
      → IsPersisted events d after
  after_verify-IsPersisted events before (err e) file s c v h = cc (ap (λ p. p.0) h)
  after_verify-IsPersisted events before (ok i) file s c v h =
      let (made, ledger, cache) = keep-ok (project env l events i none) file s c h in
      record {
        integrity = i;
        made = made;
        stable = subst (λ x. verify env l x ≡ (ok i, x)) (sym ledger) (verify-again env l before v);
        written = cache;
      }

  after_read-IsPersisted :
      (m : Result LedgerError (List Event)) (file : CacheFile) (s : Engine) {d : Fields}
      {after : Engine}
      → s.cache ≡ some file
      → after_read env l true none m s ≡ (ok d, after)
      → (events : List Event) × (m ≡ ok events) × IsPersisted events d after
  after_read-IsPersisted (err e) file s c h = cc (ap (λ p. p.0) h)
  after_read-IsPersisted (ok events) file s c h =
      let (integrity, ledger) = verify env l s.ledger in
      (
        events,
        refl,
        after_verify-IsPersisted events s.ledger integrity file (record s { ledger = ledger }) c
            refl h,
      )

  read-lines :
      (s : Ledger) {events : List Event} → (read env l s).0 ≡ ok events → events ≡ s.files.lines
  unfolding read
  read-lines s h = sym (ok-eq (bind-ok (verify env l s).0 _ h).2)

  rebuild-IsPersisted :
      (file : CacheFile) (s : Engine) {d : Fields} {after : Engine}
      → s.cache ≡ some file
      → rebuild env l true none s ≡ (ok d, after)
      → IsPersisted s.ledger.files.lines d after
  unfolding rebuild
  rebuild-IsPersisted file s {d} {after} c h =
      let (events, ledger) = read env l s.ledger in
      let (es, same, kept) =
        after_read-IsPersisted events file (record s { ledger = ledger }) c h in
      subst (λ xs. IsPersisted xs d after) (read-lines s.ledger same) kept

  -- What `load_cache` gives for a document with the keys it tests.
  load_file-IsBound :
      (i : Integrity) (d : Fields) (s : Engine)
      → IsBound env l i d
      → verify env l s.ledger ≡ (ok i, s.ledger)
      → load_file env l (some (document (obj d))) s ≡ (ok (some d), s)
  load_file-IsBound i d s b v =
      ap (λ m. load_document env l m s) (check_document-IsBound env l i d b)
      ∙ ap (λ r. (bind_ledger env l d r.0, record s { ledger = r.1 })) v
      ∙ ap (λ m. (m >>= (λ kept. ok (some kept)), s)) (check_binding-IsBound env l i d b)

  -- Where redaction leaves the projection as it is, and the facts that a migration imported name none of
  -- the three keys that a load tests: the projection that a rebuild returns and persists is the one that
  -- the next load of the cache returns.
  pub rebuild-load_cache :
      (s : Engine) {file : CacheFile} {d : Fields} {after : Engine}
      → s.cache ≡ some file
      → rebuild env l true none s ≡ (ok d, after)
      → env.redact_value (obj d) ≡ obj d
      → KeepsKeys env l s.ledger.files.lines
      → load_cache env l after ≡ (ok (some d), after)
  unfolding load_cache
  rebuild-load_cache s {file} {d} {after} c h same keeps =
      let p = rebuild-IsPersisted file s c h in
      ap (λ m. load_file env l m after) (p.written ∙ ap (λ v. some (document v)) same)
      ∙ load_file-IsBound p.integrity d after
          (project-IsBound env l s.ledger.files.lines p.integrity none p.made keeps) p.stable
