-- ===== src/Lease.antt =====
-- memory/stream_lease.py: leases on owned paths, kept in .agent/stream_leases.json.
pub mod Liveness
pub mod Registry
pub mod Requests
pub mod Outcomes
pub mod Exclusive
pub mod Claims
pub mod Progress
pub mod Holders
pub mod Reach
pub mod Unique
pub mod Freed
mod Tests
