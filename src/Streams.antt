-- ===== src/Streams.antt =====
-- memory/streams.py: stream plans and the ownership of paths.
pub mod Paths
pub mod Gate
pub mod Plans
pub mod Provision
pub mod Separation
mod Tests
