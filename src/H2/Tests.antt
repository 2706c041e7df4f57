-- ===== src/H2/Tests.antt =====
-- The theorems on src/h2 at concrete inputs, and what the functions compute there.
mod FrameRuns
pub mod CodecRuns
pub mod HpackRuns
mod ProbeRuns
mod DecoderRuns
