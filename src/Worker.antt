-- ===== src/Worker.antt =====
-- The worker (worker/src): evaluation of interviews and analysis of resumes.
pub mod Vocabulary
pub mod Report
pub mod Group
pub mod Transcript
pub mod Evaluator
pub mod Retry
pub mod Aggregate
pub mod Generation
pub mod Audio
pub mod Entry
pub mod Chunking
pub mod Repository
mod Tests
mod ChunkTests
