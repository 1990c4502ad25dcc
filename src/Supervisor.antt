-- ===== src/Supervisor.antt =====
-- memory/supervisor.py: the role loop.
pub mod Roles
pub mod Turn
pub mod Loop
pub mod Start
mod Tests
