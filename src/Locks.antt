-- ===== src/Locks.antt =====
-- The launch reservation and the repository writer leases of src/development_conveyor/locks.py.
pub mod File
pub mod Reservation
pub mod Writers
pub mod Planning
pub mod Reserved
pub mod Recovery
pub mod Takeover
pub mod Sessions
mod Witnesses
