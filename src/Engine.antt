-- ===== src/Engine.antt =====
-- engine/engine: the mixer's registry and its audio thread, and the channels that decide who hears
-- whom.
pub mod Params
pub mod Plane
pub mod Mixer
pub mod Channels
pub mod Pose
pub mod Group
pub mod Decoder
pub mod Source
pub mod Render
