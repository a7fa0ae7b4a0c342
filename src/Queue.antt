-- ===== src/Queue.antt =====
-- The feature queue of src/development_conveyor/queue.py.
pub mod Names
pub mod Item
pub mod Load
pub mod Query
pub mod Select
pub mod Report
pub mod Commit
pub mod Order
pub mod WellFormed
pub mod Choice
pub mod Completion
pub mod Classified
pub mod Resolved
mod Witnesses
