-- ===== src/Mcpacknpc.antt =====
-- mcpacknpc/: functions that are called over npc with mcpack bodies.
pub mod Handler
pub mod Checked
pub mod Client
pub mod Call
mod Tests
