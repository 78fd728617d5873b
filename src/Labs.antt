-- ===== src/Labs.antt =====
-- The small stores around the labs: locks, sandbox flags and the requests for new labs.
pub mod Keys
pub mod Locks
pub mod Sandbox
pub mod Requests
pub mod Flags
pub mod Workflow
pub mod Handled
mod Capacity
mod Fitting
mod Tests
