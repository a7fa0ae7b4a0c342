-- ===== src/Lease.antt =====
-- The typed writer lease of src/development_conveyor/workflow_lease.py.
pub mod Record
pub mod Site
pub mod Writer
pub mod Methods
pub mod Adoption
pub mod Ending
pub mod RoundTrip
pub mod Owner
pub mod Rewrites
pub mod Adopted
pub mod Exclusion
pub mod Calls
pub mod Refusals
pub mod Tenure
pub mod Handback
pub mod Bindings
pub mod Stale
mod Witnesses
