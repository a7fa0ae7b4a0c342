-- ===== src/Profiles.antt =====
-- Which model works on a feature: src/development_conveyor/execution_profiles.py.
pub mod Delegation
pub mod Normal
pub mod Delegated
pub mod Policy
pub mod Bounds
pub mod Written
pub mod Canonical
pub mod Configuration
pub mod Escalation
pub mod Resolve
pub mod Binding
pub mod Affordable
pub mod Escalated
pub mod Resolution
pub mod Resolved
pub mod Outcome
mod Witnesses
mod Features
