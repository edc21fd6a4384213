-- ===== src/Server.antt =====
-- server: the host of the engine. State holds what its parts share, Wiring consumes the shared state's
-- operations, Backend takes entities in and out.
pub mod State
pub mod Wiring
pub mod Backend
pub mod Text
pub mod Config
