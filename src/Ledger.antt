-- ===== src/Ledger.antt =====
-- The append-only evidence ledger of src/development_conveyor/ledger.py.
pub mod Event
pub mod Check
pub mod History
pub mod Store
pub mod Append
pub mod Accepted
pub mod Chain
pub mod Tracks
pub mod Steps
pub mod Sound
pub mod Lifecycle
pub mod Durable
pub mod Rollback
pub mod Coherent
pub mod Outcome
mod Witnesses
