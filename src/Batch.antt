-- ===== src/Batch.antt =====
-- src/batch.rs: the rate limiter that the workers of a batch share.
pub mod Limiter
pub mod Engine
mod Spacing
mod Sound
mod Answers
mod Completes
mod InFlight
mod Streamed
mod BatchRuns
mod Progress
mod Runs
