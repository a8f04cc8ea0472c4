-- ===== src/Interview/TurnPipeline/Sound.antt =====
-- The invariant of the pipeline: what holds between any two steps of the event loop.
mod Tasks
mod Pieces
mod Committing
mod Speaking
mod Turning
mod Keeps
pub mod Reached
pub use Tasks.{is_valid, is_fit, holders, closers}
use kkori_ai.Interview.EndState.{is_ending}
use kkori_ai.Prelude.{
  length, ℕ, ◌+◌, ◌≤◌, ◌≡◌, Bool, true, false, [], ◌++◌, all, is_empty, ◌||◌, if◌then◌else◌,
}
use kkori_ai.Interview.Utterance.{ValueError}
use kkori_ai.Interview.Log.{ConversationLog}
use kkori_ai.Interview.Log.Append.{Grows}
use kkori_ai.Interview.Log.Succeeds.{is_attachable, is_sound_log}
use kkori_ai.Interview.TurnPipeline.{TurnPipeline, Task}
use kkori_ai.Interview.TurnPipeline.Steps.{live, opened}

abbrev pub room_for : Bool → Bool → ℕ
room_for nothing_said opened = if nothing_said || opened then 0 else 1

pub record IsSound (base : ConversationLog) (s : TurnPipeline) : Type 0 where
  -- what every task has to say fits the log's schema
  pub valid : all is_valid s.tasks ≡ true
  -- no task is of a later turn, and a follow-up of the current turn can attach
  pub fit : all (is_fit s.turn_seq (is_attachable s.log)) s.tasks ≡ true
  -- at most one task works for the current turn, and none while nothing was said or the initial
  -- question is to be spoken
  pub single :
      live s.turn_seq s.tasks ≤ room_for (is_empty s.log.utterances) (opened s.turn_seq s.tasks)
  -- the speech lock is held exactly by the task that speaks
  pub lock : holders s.tasks ≡ (if s.speaking then 1 else 0)
  pub log : is_sound_log s.log ≡ true
  -- no task has ended with an exception
  pub clean : s.failures ≡ []
  -- the log is the one it started from and what was handed to the writer, in this order
  pub mirror : s.log.utterances ≡ base.utterances ++ s.enqueued
  -- and every utterance came through a method of the log
  pub grown : Grows base s.log
  -- at most one closing task, none before the end, and it calls the cleanup at most once
  pub once : closers s.tasks + length s.cleanups ≤ (if is_ending s.end_state then 1 else 0)
