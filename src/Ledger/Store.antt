-- ===== src/Ledger/Store.antt =====
-- The files of one ledger in ledger.py: the records, the durable head anchor, and the append cache of the
-- `EvidenceLedger` object. A file's signature (inode, size, modification time) is one number.
use development_conveyor.Base.{
  ℕ, zero, suc, String, Bool, true, false, not, ◌&&◌, Option, none, some, List, ◌==◌, nat_eq,
  string_eq, option_eq, last?, Result, ok, err, guard, ◌>>=◌, ◌>>◌, if◌then◌else◌,
}
use development_conveyor.Json.{ℤ, pos, negsuc, int_eq}
use development_conveyor.Ledger.Event.{
  LedgerError, Event, shorter_than_head, truncated_record, no_head, contradicts_head,
}
use development_conveyor.Ledger.Check.{Identity, Environment}
use development_conveyor.Ledger.History.{Integrity, validate}

-- The anchor file, once its contract is checked.
pub record Head : Type 0 where
  pub sequence : ℤ
  pub fingerprint : String

-- The file is torn where bytes that are no whole record stand in it.
pub record Files : Type 0 where
  pub lines : List Event
  pub torn : Bool
  pub head : Option Head
  pub signature : Option ℕ

pub record Cache : Type 0 where
  pub signature : Option ℕ
  pub events : List Event
  pub integrity : Integrity

-- The files and the cache of one ledger object.
pub record Ledger : Type 0 where
  pub files : Files
  pub cache : Option Cache

-- A method that may write before it raises.
abbrev pub Action : Type 0 → Type 0
Action A = Ledger → Result LedgerError A × Ledger

abbrev pub successor : ℤ → ℤ
successor (pos n) = pos (suc n)
successor (negsuc n) = elim n [ zero ↦ pos 0 | suc k ↦ negsuc k ]

abbrev pub head_of : Event → Head
head_of e = record { sequence = e.sequence; fingerprint = e.fingerprint }

abbrev pub anchors : Head → Event → Bool
anchors h tail = h.sequence == tail.sequence && h.fingerprint == tail.fingerprint

-- The tail continues the anchored record.
abbrev pub one_ahead : Head → Event → Bool
one_ahead h tail =
    tail.sequence == successor h.sequence && tail.previous_fingerprint == h.fingerprint

abbrev pub is_absent {ℓ} : {A : Type ℓ} → Option A → Bool
is_absent none = true
is_absent (some a) = false

unfoldable pub verify_tail : Bool → Option Event → Option Head → Result LedgerError (Option Head)
verify_tail repair none head = do guard (is_absent head) shorter_than_head; ok head
verify_tail repair (some tail) none = err no_head
verify_tail repair (some tail) (some h) =
    if anchors h tail
    then ok (some h)
    else if repair && one_ahead h tail
    then ok (some (head_of tail))
    else err contradicts_head

-- `_verify_head`: the anchor as it is after the check, replaced where one record is repaired.
unfoldable pub verify_head : Bool → List Event → Option Head → Result LedgerError (Option Head)
unfolding verify_tail
verify_head repair events head = verify_tail repair (last? events) head

module _ (env : Environment) (l : Identity) where
  -- `_decode`, of a file whose records are whole or that ends within one, and `_validate`
  unfoldable pub validate_file : Files → Result LedgerError Integrity
  validate_file f = do guard (not f.torn) truncated_record; validate env l f.lines

  unfoldable pub settle :
      Ledger
      → Result LedgerError Integrity
      → Result LedgerError (Option Head)
      → Result LedgerError Integrity × Ledger
  settle s (err e) _ = (err e, s)
  settle s (ok i) (err e) = (err e, s)
  settle s (ok i) (ok head) = (ok i, record s { files = record s.files { head = head } })

  -- `verify`
  unfoldable pub verify : Action Integrity
  unfolding settle validate_file
  verify s = settle s (validate_file s.files) (verify_head true s.files.lines s.files.head)

  -- `read`
  unfoldable pub read : Action (List Event)
  unfolding verify
  read s = let (r, s') = verify s in (r >>= λ _. ok s.files.lines, s')

  unfoldable pub remember :
      Result LedgerError Integrity → Ledger → Result LedgerError Cache × Ledger
  remember (err e) s = (err e, s)
  remember (ok i) s =
      let c : Cache = record {
        signature = s.files.signature;
        events = s.files.lines;
        integrity = i;
      } in
      (ok c, record s { cache = some c })

  unfoldable pub fresh_cache : Action Cache
  unfolding verify remember
  fresh_cache s = let (r, s') = verify s in remember r s'

  unfoldable pub cached : Option Cache → Action Cache
  unfolding fresh_cache
  cached none s = fresh_cache s
  cached (some c) s = if c.signature == s.files.signature then (ok c, s) else fresh_cache s

  -- `_read_for_append`: the cached events and integrity, or those of a full validation.
  unfoldable pub read_for_append : Action Cache
  unfolding cached
  read_for_append s = cached s.cache s
