-- ===== src/Lab.antt =====
-- engine/jitterlab: the retired jitter buffer of the simulation laboratory.
pub mod V3
