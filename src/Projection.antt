-- ===== src/Projection.antt =====
-- The projection of the ledger in src/development_conveyor/projection.py.
pub mod View
pub mod Facts
pub mod Rebuild
pub mod Engine
pub mod Locality
pub mod Endings
pub mod Active
pub mod Verified
pub mod Served
pub mod Sealing
pub mod Persisted
mod Witnesses
