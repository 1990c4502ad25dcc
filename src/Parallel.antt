-- ===== src/Parallel.antt =====
-- memory/supervisor_parallel.py: streams side by side, from the leases to one integration branch.
pub mod Hub
pub mod Stream
pub mod Phases
pub mod Run
pub mod Keeps
pub mod Binds
pub mod Joined
pub mod Decision
pub mod Merges
pub mod Success
pub mod Claimed
pub mod Claims
pub mod Released
pub mod Promises
mod Tests
