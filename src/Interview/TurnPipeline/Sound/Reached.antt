-- ===== src/Interview/TurnPipeline/Sound/Reached.antt =====
-- The invariant read off the states that the event loop of the agent can reach.
use kkori_ai.Interview.TurnPipeline.Sound.Keeps.{Reach-IsSound, new_pipeline-IsSound}
use kkori_ai.Prelude.{
  length, if◌then◌else◌, is_empty, ◌||◌, ◌+◌, ℕ, ◌≤◌, ◌≡◌, true, [], ◌++◌, arith,
}
use kkori_ai.Interview.Log.{ConversationLog, last_question_number}
use kkori_ai.Interview.Log.Numbering.{question_numbers, count_up, Grows-numbers}
use kkori_ai.Interview.Log.Succeeds.{is_sound_log}
use kkori_ai.Interview.EndState.{is_ending, EndState}
use kkori_ai.Interview.TurnPipeline.{TurnPipeline}
use kkori_ai.Interview.TurnPipeline.Steps.{Reach, new_pipeline, live, opened}
use kkori_ai.Interview.TurnPipeline.Sound.{closers}
use kkori_ai.Interview.TurnPipeline.Sound.Tasks.{holders}

-- However the tasks and the room's events interleave after a start on a sound log, no append of the
-- pipeline is ever rejected, at most one task holds the speech lock, and at most one task works for
-- the current turn, not counting those that speak the initial question; while there is one of
-- these, or nothing was said yet, no other task works for the turn. The inputs have moments in UTC
-- and texts that are not empty, and the initial question is begun only while the log is empty.
pub Reach-never_fails :
    (log : ConversationLog) (e : EndState) (n : ℕ) (s : TurnPipeline)
    → is_sound_log log ≡ true
    → Reach (new_pipeline log e n) s
    → (s.failures ≡ [])
      × (holders s.tasks ≤ 1)
      × (live s.turn_seq s.tasks ≤ 1)
      × (is_empty s.log.utterances || opened s.turn_seq s.tasks ≡ true
          → live s.turn_seq s.tasks ≡ 0)
Reach-never_fails log e n s h r =
    let k = Reach-IsSound r (new_pipeline-IsSound log e n h) in
    (k.clean, ground (arith, k.lock), ground (arith, k.single), λ o. ground (arith, k.single))

-- However they interleave, the cleanup is called at most once, and only in an interview that is ending;
-- at most one task of the closing has yet to call it.
pub Reach-cleans_up_once :
    (log : ConversationLog) (e : EndState) (n : ℕ) (s : TurnPipeline)
    → is_sound_log log ≡ true
    → Reach (new_pipeline log e n) s
    → closers s.tasks + length s.cleanups ≤ (if is_ending s.end_state then 1 else 0)
Reach-cleans_up_once log e n s h r =
    let k = Reach-IsSound r (new_pipeline-IsSound log e n h) in k.once

-- In every such state the log is the one of the start followed by what was handed to the writer,
-- in the same order.
pub Reach-mirrors :
    (log : ConversationLog) (e : EndState) (n : ℕ) (s : TurnPipeline)
    → is_sound_log log ≡ true
    → Reach (new_pipeline log e n) s
    → s.log.utterances ≡ log.utterances ++ s.enqueued
Reach-mirrors log e n s h r = let k = Reach-IsSound r (new_pipeline-IsSound log e n h) in k.mirror

-- And the questions that were asked since the start have the numbers that follow the last one of
-- the start, with no gap and no repetition.
pub Reach-numbers :
    (log : ConversationLog) (e : EndState) (n : ℕ) (s : TurnPipeline)
    → is_sound_log log ≡ true
    → Reach (new_pipeline log e n) s
    → (k : ℕ) × (question_numbers s.log.utterances
        ≡ question_numbers log.utterances ++ count_up (last_question_number log) k)
Reach-numbers log e n s h r =
    let k = Reach-IsSound r (new_pipeline-IsSound log e n h) in
    let (j, eq, last) = Grows-numbers log k.grown in (j, eq)
