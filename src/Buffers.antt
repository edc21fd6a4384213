-- ===== src/Buffers.antt =====
-- engine/buffers: the jitter buffer between the network and the render tick.
pub mod Ring
pub mod Stats
pub mod Servo
pub mod Jitter
