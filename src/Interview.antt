-- ===== src/Interview.antt =====
-- The interview agent (agent/src/interview).
pub mod Utterance
pub mod Log
pub mod Json
pub mod EndState
pub mod Context
pub mod EndSequence
pub mod EndSignal
pub mod InterviewClock
pub mod Orchestrator
pub mod PresenceMonitor
pub mod Restore
pub mod TurnPipeline
mod Tests
mod EndTests
mod JsonTests
mod Runs
