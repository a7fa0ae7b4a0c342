-- ===== src/Lib.antt =====
-- Development Conveyor: a model of the controller's deterministic core.
--
-- The controller coordinates coding sessions by state machines, writer leases, an append-only
-- hash-chained evidence ledger and a projection that is rebuilt from it. The library models these parts
-- of src/development_conveyor/:
--   Base, Json      shared helpers; JSON values and their truth values as Python reads them
--   Dict            Python's `dict` displays, `get`, `or`, `pop` and `update` on JSON values
--   StateMachine    state_machine.py: the two transition tables and `StateMachine.transition`
--   Contracts       contracts.py: workflow and lease enumerations, `validate_human_gate`,
--                   `bind_human_gate` (Contracts/Gate), the tables of classifications
--                   (Contracts/Envelope, Successes), `SessionResultEnvelope` (Contracts/Envelope), the
--                   normalization of legacy envelopes (Contracts/Legacy) and
--                   `extract_terminal_envelope` (Contracts/Terminal)
--   Mutation        contracts.py: `safe_relative_path` and `MutationPolicy`
--   Transaction     contracts.py: `PhaseTransaction` with `create`, `transition` and `terminate`
--   Ledger          ledger.py: `_validate` (Ledger/Event, Check, History), the files, the head anchor and
--                   the append cache (Ledger/Store), `_validate_append` and `append` (Ledger/Append)
--   Lease           workflow_lease.py: the record and its JSON form (Lease/Record), the paths, nodes and
--                   processes that a call sees (Lease/Site), the guarded read and the two writes
--                   (Lease/Writer), the methods of `WorkflowWriterLease` (Lease/Methods, Adoption,
--                   Ending)
--   Locks           locks.py: the lock file (Locks/File), `DurableLock` (Locks/Reservation),
--                   `RepositoryWriterLease` (Locks/Writers) and `PlanningWriterLease` (Locks/Planning)
--   Retries         retries.py: `RetryBudget`
--   Warning         warning_evidence.py: the normalization and the comparison of evidence on warnings
--   Profiles        execution_profiles.py: `_validate_child_delegation` (Profiles/Delegation),
--                   `validate_feature_execution_policy` (Profiles/Policy), the configuration and the
--                   policy of a feature (Profiles/Configuration), `_eligible_escalation`
--                   (Profiles/Escalation), `resolve_execution_profile` (Profiles/Resolve),
--                   `validate_authenticated_profile_binding` (Profiles/Binding), `to_dict` of a policy
--                   (Profiles/Written) and `resolve_feature_execution_policy` (Profiles/Resolution)
--   Queue           queue.py: statuses, names and priorities (Queue/Names), the checks of an item
--                   (Queue/Item) and of a queue (Queue/Load), the queries (Queue/Query), the selections
--                   (Queue/Select), the state of a milestone (Queue/Report) and `resolve_feature_commit`
--                   (Queue/Commit)
--   Projection      projection.py: one transaction's entry (Projection/View), the other variables of the
--                   loop of `rebuild` (Projection/Facts), what follows the loop (Projection/Rebuild), and
--                   `rebuild`, `load_cache` and `current` over the ledger and the cache file
--                   (Projection/Engine)
-- The lease and the transaction take their tables from Contracts; the projection calls `read` and
-- `verify` of the ledger, and reads the events that `append` wrote. A queue's items carry execution
-- policies, which Profiles validates; a transaction carries the mutation policy of Mutation.
--
-- Correspondence. A raise is a value of an error type, one constructor for each raise site; messages are
-- left out. A method that may write before it raises returns its result beside the new state. A `set` is a
-- list that is read by membership, a `dict` an association list. JSON numbers are integers or decimal
-- fractions; two JSON values are equal if they are written alike, so `1`, `1.0` and `true` differ. A tuple
-- in a JSON value is an array. A value that is no `dict` has no keys, where Python raises.
--
-- What is taken as given, as fields of `Ledger.Check.Environment`: SHA-256 over canonical JSON, the
-- redaction of payloads (redaction.py), and `str()` of a JSON value that is no text; as fields of
-- `Lease.Writer.System`: the joining, expansion and resolution of paths, the digest of a text,
-- whether a process lives, its start as `ps` tells it, and `str()`; as fields of `Retries.Texts`:
-- lower-casing, splitting and joining of texts, and the two regular expressions of retries.py. What
-- `str` does to letters is taken as given by `Queue.Names.Casing`, the file system that a queue asks
-- by `Queue.Item.Files`, and Git by `Queue.Commit.Repository`. Some theorems on leases assume that a
-- resolved path is not the empty text. The file system is modelled by the records of a file, its
-- anchor, a mark for bytes that are no whole record, and a signature that stands for inode, size and
-- time. The writes of `append` fail at the points that `Ledger.Append.WriteFate` names: before the first
-- byte, within the line, at its synchronization, and at the anchor before or after its replacement; the
-- write of a repaired anchor and the writes of the other files are whole. Every failure of the operating
-- system in `append` is the one error `write_failed`. Advisory locks are not modelled, and of the bytes of
-- the records (`_decode`) only that a last line without its end is refused: a record is given as its
-- canonical JSON value. Of the lease, a call is atomic, but
-- for `acquire`, whose exclusive open may come later than its guards; disk errors and the flags of
-- secure opening are left out. So are they of the locks of locks.py, where every call is atomic and
-- every path can be resolved. Of the projection, the unsafe nodes of the cache path are one kind of
-- file, and a feature identifier that is a list or a `dict` is a key like any other. Of a queue, the
-- keys that the validation writes are fields of the item's record and the other keys are read from
-- its object; a milestone's list of integrated features that is no list, text or `dict` holds
-- nothing, where Python raises; reading the file and its JSON text is left out. Of contracts.py,
-- SHA-256 over canonical JSON and `json.loads` are arguments of the definitions that use them. Not
-- modelled: the rest of execution_profiles.py (the Markdown form of a policy), the transactional
-- kernel, and the flows over Git and sessions behind them.
-- All loops run over a list or a text, so no fuel is needed.
pub mod Base
pub mod Json
pub mod Dict
pub mod Contracts
pub mod StateMachine
pub mod Mutation
pub mod Transaction
pub mod Ledger
pub mod Lease
pub mod Projection
pub mod Locks
pub mod Retries
pub mod Warning
pub mod Profiles
pub mod Queue
