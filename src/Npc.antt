-- ===== src/Npc.antt =====
-- npc/: the framing of requests and responses.
pub mod Header
pub mod Message
pub mod Selector
pub mod Serve
pub mod Listen
pub mod Notify
pub mod TestServer
pub mod Call
pub mod Client
mod Tests
