-- ===== src/Locks/Sessions.antt =====
-- The session of a planning lease of src/development_conveyor/locks.py, once bound.
use development_conveyor.Base.{
  String, ◌≡◌, refl, ap, ◌∙◌, sym, inl, inr, Bool, true, false, ◌||◌, ◌==◌, string_eq, Result, ok,
  err, ok-eq, Bool-cases, bind-ok, eq_of_beq, beq_refl, guard, guard-bind-ok, ◌>>=◌, ◌>>◌,
}
use mathlib.Core.Path.{subst}
use development_conveyor.Json.{
  Json, null, str, obj, Fields, json_eq, set_field, get_field-set_field_self,
  get_field-set_field_ne,
}
use development_conveyor.Dict.{value_at, or_null}
use development_conveyor.Ledger.Check.{Environment}
use development_conveyor.Lease.Writer.{System}
use development_conveyor.Locks.File.{
  LockFile, document, LockError, planning_mismatch, session_mismatch, read_lock, rewrite,
}
use development_conveyor.Locks.Planning.{only_run, checks, free_or, revalidate, bind_session}

str_injective : {s t : String} → ◌≡◌ {A = Json} (str s) (str t) → s ≡ t
str_injective h = cc

differs : (s t : String) → (s == t) ≡ false → (◌==◌ {A = Json} (str s) (str t)) ≡ false
differs s t n = elim (Bool-cases (◌==◌ {A = Json} (str s) (str t))) [
  | inl h ↦ cc (
    subst (λ u. (s == u) ≡ true) (str_injective (eq_of_beq {a = str s} {b = str t} h)) (beq_refl s),
    n,
  )
  | inr h ↦ h
]

not_null : (s : String) → (◌==◌ {A = Json} (str s) null) ≡ false
not_null s = elim (Bool-cases (◌==◌ {A = Json} (str s) null)) [
  | inl h ↦ cc (eq_of_beq {a = str s} {b = null} h)
  | inr h ↦ h
]

rejects :
    (a : Bool) (d : Fields) (f : Fields → Result LockError Fields) (e : LockError)
    → f d ≡ err e
    → (x : LockError) × (((guard a planning_mismatch >> ok d) >>= f) ≡ err x)
rejects true d f e h = (e, h)
rejects false d f e h = (planning_mismatch, refl)

module _ (env : Environment) (system : System) (repository : String) where
  abbrev session_record : Fields → String → String → Fields
  session_record d session stamp =
      set_field "last_heartbeat" (str stamp) (set_field "session_id" (str session) d)

  has_session :
      (d : Fields) (session stamp : String)
      → value_at "session_id" (obj (session_record d session stamp)) ≡ str session
  has_session d session stamp = ap or_null (
      get_field-set_field_ne "last_heartbeat" "session_id" (str stamp)
        (set_field "session_id" (str session) d) refl
      ∙ get_field-set_field_self "session_id" (str session) d)

  rewrite-ok :
      (m : Result LockError Fields) (s : LockFile) {d : Fields} {after : LockFile}
      → rewrite env m s ≡ (ok d, after)
      → (m ≡ ok d) × (after ≡ document (env.redact_value (obj d)))
  rewrite-ok (err e) s h = cc (ap (λ p. p.0) h)
  rewrite-ok (ok x) s h =
      let same = ap (λ p. p.0) h in
      (same, sym (ap (λ p. p.1) h) ∙ ap (λ y. document (env.redact_value (obj y))) (ok-eq same))

  bind_session-bound :
      (s : LockFile) (run session stamp : String) {d : Fields} {after : LockFile}
      → bind_session env system repository run session stamp s ≡ (ok d, after)
      → (after ≡ document (env.redact_value (obj d)))
        × (value_at "session_id" (obj d) ≡ str session)
  unfolding bind_session
  bind_session-bound s run session stamp h =
      let (made, written) = rewrite-ok _ s h in
      let (x, _, rest) = bind-ok (revalidate env system repository (only_run run) s) _ made in
      let (_, bound) =
        guard-bind-ok (free_or env system repository session (value_at "session_id" (obj x)))
          session_mismatch (ok (session_record x session stamp)) rest in
      (
        written,
        subst (λ y. value_at "session_id" (obj y) ≡ str session) (ok-eq bound)
            (has_session x session stamp),
      )

  refused :
      (d : Fields) (run session other stamp : String)
      → value_at "session_id" (obj d) ≡ str session
      → (session == other) ≡ false
      → (e : LockError) × (bind_session env system repository run other stamp (document (obj d))
          ≡ (err e, document (obj d)))
  unfolding bind_session revalidate read_lock
  refused d run session other stamp bound n =
      let attempt : Fields → Result LockError Fields = λ y.
        guard (free_or env system repository other (value_at "session_id" (obj y))) session_mismatch
        >> ok (session_record y other stamp) in
      let taken : free_or env system repository other (value_at "session_id" (obj d)) ≡ false =
        ap (free_or env system repository other) bound
        ∙ ap (λ b. b || str session == str other) (not_null session)
        ∙ differs session other n in
      let (e, fails) =
        rejects (checks env system repository (only_run run) d) d attempt session_mismatch
          (ap (λ b. guard b session_mismatch >> ok (session_record d other stamp)) taken) in
      (e, ap (λ m. rewrite env m (document (obj d))) fails)

  -- After a session is bound, where redaction leaves the record as it is, the lock holds the record with
  -- that session, and to bind another session, for whatever run, raises and changes nothing.
  pub bind_session_final :
      (s : LockFile) (run session stamp : String) {d : Fields} {after : LockFile}
      → bind_session env system repository run session stamp s ≡ (ok d, after)
      → env.redact_value (obj d) ≡ obj d
      → (other_run other other_stamp : String) → (session == other) ≡ false
      → (after ≡ document (obj d))
        × (value_at "session_id" (obj d) ≡ str session)
        × ((e : LockError) × (bind_session env system repository other_run other other_stamp after
              ≡ (err e, after)))
  bind_session_final s run session stamp {d} h same other_run other other_stamp n =
      let (written, bound) = bind_session-bound s run session stamp h in
      let kept = written ∙ ap document same in
      let (e, fails) = refused d other_run session other other_stamp bound n in
      (
        kept,
        bound,
        (
          e,
          subst (λ t. bind_session env system repository other_run other other_stamp t ≡ (err e, t))
              (sym kept) fails,
        ),
      )
