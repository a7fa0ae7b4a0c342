-- ===== src/Locks/Takeover.antt =====
-- Who `RepositoryWriterLease.acquire_or_resume` of src/development_conveyor/locks.py lets in.
use development_conveyor.Base.{
  ◌≡◌, ◌⊎◌, refl, ap, ◌∙◌, sym, inl, inr, Bool, true, false, not, ◌||◌, Option, none, some, ◌==◌,
  string_eq, option_eq, Result, ok, err, ok-eq, Result-cases, bind-ok, guard, guard-bind-ok,
  require, ◌>>=◌, ◌>>◌,
}
use development_conveyor.Json.{
  null, bool, int, fraction, arr, obj, str, pos, int_eq, Fields, json_eq,
}
use development_conveyor.Dict.{int_of}
use development_conveyor.Ledger.Check.{Environment}
use development_conveyor.Lease.Writer.{System, Process}
use development_conveyor.Locks.File.{
  LockFile, missing, unreadable, document, LockError, other_feature, owner_ambiguous, owner_alive,
  appeared_concurrently, read_lock, create, owner_alive_at, rewrite,
}
use development_conveyor.Locks.Recovery.{read_lock-some}
use development_conveyor.Locks.Writers.{
  Claim, new_record, matches, host_of, owner_of, may_take, resume, resumed, acquire_over,
  acquire_or_resume,
}

read_lock-none : (s : LockFile) → read_lock s ≡ ok none → s ≡ missing
unfolding read_lock
read_lock-none missing h = refl
read_lock-none unreadable h = cc h
read_lock-none (document (obj d)) h = cc h
read_lock-none (document null) h = cc h
read_lock-none (document (bool b)) h = cc h
read_lock-none (document (int n)) h = cc h
read_lock-none (document (fraction n k)) h = cc h
read_lock-none (document (str t)) h = cc h
read_lock-none (document (arr xs)) h = cc h

require-ok : (m : Option Bool) {a : Bool} → require m owner_ambiguous ≡ ok a → m ≡ some a
require-ok none h = cc h
require-ok (some a) h = ap some (ok-eq h)

module _ (env : Environment) (system : System) (p : Process) (c : Claim) where
  -- A record that the claim may resume.
  pub record IsResumable (d : Fields) : Type 0 where
    pub same_claim : matches system p c d ≡ true
    pub of_host : (host_of d == str p.host) ≡ true
    pub free :
        (owner_alive_at system p (host_of d) (owner_of d) ≡ some false)
        ⊎ ((int_of (owner_of d) == some (pos p.pid)) ≡ true)

  take-free :
      (alive : Bool) (mine : Bool)
      → (not alive || mine) ≡ true
      → (◌≡◌ {A = Option Bool} (some alive) (some false)) ⊎ (mine ≡ true)
  take-free false mine h = inl refl
  take-free true mine h = inr h

  resume-IsResumable :
      (d : Fields) {e : Fields}
      → resume system p c d ≡ ok e
      → IsResumable d × (resumed system p c d ≡ e)
  resume-IsResumable d h =
      let mine = int_of (owner_of d) == some (pos p.pid) in
      let last : Bool → Result LockError Fields =
        λ alive. guard (may_take system p alive d) owner_alive >> ok (resumed system p c d) in
      let answer = owner_alive_at system p (host_of d) (owner_of d) in
      let rest = require answer owner_ambiguous >>= last in
      let (g1, h1) =
        guard-bind-ok (matches system p c d) other_feature
          (guard (host_of d == str p.host) owner_ambiguous >> rest) h in
      let (g2, h2) = guard-bind-ok (host_of d == str p.host) owner_ambiguous rest h1 in
      let (alive, answered, h3) = bind-ok (require answer owner_ambiguous) last h2 in
      let (g4, h4) =
        guard-bind-ok (may_take system p alive d) owner_alive (ok (resumed system p c d)) h3 in
      let known = require-ok answer answered in
      (
        record {
          same_claim = g1;
          of_host = g2;
          free = elim (take-free alive mine g4) [ inl q ↦ inl (known ∙ q) | inr q ↦ inr q ];
        },
        ok-eq h4,
      )

  -- A creation, a resumption, or a raise.
  abbrev pub Takeover : LockFile → Type 0
  Takeover s =
      ((s ≡ missing)
        × (acquire_or_resume env system p c s
            ≡ (ok (new_record p c), document (obj (new_record p c)))))
      ⊎ ((d : Fields) × (s ≡ document (obj d))
          × IsResumable d
          × (acquire_or_resume env system p c s ≡ (
            ok (resumed system p c d),
            document (env.redact_value (obj (resumed system p c d))),
          )))
      ⊎ ((e : LockError) × (acquire_or_resume env system p c s ≡ (err e, s)))

  found-Takeover : (s : LockFile) (found : Option Fields) → read_lock s ≡ ok found → Takeover s
  unfolding acquire_or_resume create
  found-Takeover s none k =
      let absent = read_lock-none s k in
      inl (
        absent,
        ap (λ m. acquire_over env system p c m s) k
            ∙ ap (create appeared_concurrently (new_record p c)) absent,
      )
  found-Takeover s (some d) k = elim (Result-cases (resume system p c d)) [
    | inl (r, resumes) ↦
        let (resumable, same) = resume-IsResumable d resumes in
        inr (
          inl (
            d,
            read_lock-some s k,
            resumable,
            ap (λ m. acquire_over env system p c m s) k
                ∙ ap (λ m. rewrite env m s) (resumes ∙ ap ok (sym same)),
          ))
    | inr (e, refused) ↦
        inr
          (inr (e, ap (λ m. acquire_over env system p c m s) k ∙ ap (λ m. rewrite env m s) refused))
  ]

  -- `acquire_or_resume` either finds no lock and creates one that holds the new record of this process; or
  -- resumes a lock that names the claim's repository, worktree, feature, branch and run and this host, and
  -- whose process is known not to run or is this one, and writes the record with this process, redacted;
  -- or raises and changes nothing.
  pub acquire_or_resume-Takeover : (s : LockFile) → Takeover s
  unfolding acquire_or_resume
  acquire_or_resume-Takeover s = elim (Result-cases (read_lock s)) [
    | inl (found, k) ↦ found-Takeover s found k
    | inr (e, k) ↦ inr (inr (e, ap (λ m. acquire_over env system p c m s) k))
  ]
