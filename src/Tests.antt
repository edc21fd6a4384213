-- ===== src/Tests.antt =====
-- Examples: each component on concrete inputs.
mod Buffers
mod Jitter
mod Mixer
mod Channels
mod Streams
mod Splices
mod Lab
mod Server
mod Leak
mod Config
mod Source
mod Lockstep
mod Render
mod Threads
mod Sets
