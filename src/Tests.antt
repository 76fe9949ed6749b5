-- ===== src/Tests.antt =====
-- Runs of the model at concrete inputs.
mod Samples
mod Parser
mod Buffers
mod Client
mod Runs
mod Decoders
