-- ===== src/Interview/TurnPipeline.antt =====
-- agent/src/interview/turn_pipeline.py: `class TurnPipeline`, its state and what its methods do
-- between two awaits. An asyncio task that waits is a value of `Task`: the place where it waits
-- and the variables that it needs afterwards. What it waits for comes back as an argument of the
-- function that goes on from there; the event loop runs one such function at a time.
-- The marker and the cleanup function are given.
-- The commit lock is never held across an await, so a commit is one piece with what precedes it.
pub mod Turns
pub mod Steps
pub mod Cases
pub mod Sound
use kkori_ai.Prelude.{
  ℕ, ◌+◌, ◌*◌, ◌/◌, ◌%◌, Bool, true, false, Option, none, some, List, [], ◌∷◌, ◌++◌, Text, Outcome,
  ok, err, ◌==◌, ltb, leb, not, ◌&&◌, ◌||◌, is_some, if◌then◌else◌,
}
use kkori_ai.Prelude.Int.{ℤ, pos, negsuc}
use kkori_ai.Interview.Utterance.{
  QuestionType, FollowUpType, Datetime, Utterance, ValueError, root_missing, is_follow_up,
}
use kkori_ai.Interview.Log.{
  ConversationLog, Appended, append_question, append_closing, last_question_number, current_root,
}
use kkori_ai.Interview.EndState.{EndPhase, EndCause, EndState, init, try_advance, is_ending}
use kkori_ai.Interview.EndState.Wins.{state_after, won}
use kkori_ai.Interview.InterviewClock.{InterviewClock, started, in_wrap_up, remaining_seconds}
use kkori_ai.Interview.Orchestrator.{Decision}

-- Something to be said, with what happens around it.
pub data Speech : Type 0 where
  -- `_speak_and_commit`
  asking : ℕ → Text → QuestionType → Option FollowUpType → Option Text → Option ℕ → Speech
  -- `_speak_final_question`
  last_asking : ℕ → Text → Option Text → Speech
  -- the notice of `resume_after_reconnect`
  notice : Text → Speech
  -- `_respeak_question`
  respeaking : Text → Speech
  -- the statement of `_closing_task`
  farewell : EndCause → Text → Speech

pub data Task : Type 0 where
  -- `_run`, spawned
  starting : ℕ → Task
  -- `_decide`, in `orchestrator_fn`; with the remaining minutes that it was called for
  deciding : ℕ → Option ℕ → Task
  -- `_generate`, in `generate_fn`
  generating : ℕ → Decision → Task
  -- at the speech lock
  waiting : Speech → Task
  -- in `say_fn`, holding the speech lock; `true` in the second attempt
  saying : Speech → Bool → Task
  -- `_closing_task`, spawned; in `marker_fn`; in `cleanup_fn`
  closing : Task
  marking : EndCause → Task
  cleaning : EndCause → Task

pub data Shutdown : Type 0 where
  tts_playout_failure cleanup_failure : Shutdown

pub record TurnPipeline : Type 0 where
  pub log : ConversationLog
  pub end_state : EndState
  pub max_followups : ℕ
  pub closing_reason : Option Text
  pub turn_seq : ℕ
  pub closed : Bool
  -- whether the speech lock is held
  pub speaking : Bool
  pub tasks : List Task
  -- what was handed to the writer, to the cleanup and to the shutdown, in order
  pub enqueued : List Utterance
  pub cleanups : List EndCause
  pub shutdowns : List Shutdown
  -- the exceptions that tasks ended with
  pub failures : List ValueError

pub record SpeechResult : Type 0 where
  pub ok : Bool
  pub started_at : Option Datetime

-- `result.started_at or self._clock()`
abbrev pub stamp : SpeechResult → Datetime → Datetime
stamp r now = elim r.started_at [ none ↦ now | some t ↦ t ]

-- `_spawn`, and a task that goes on waiting
abbrev pub spawn : TurnPipeline → Task → TurnPipeline
spawn s t = record s { tasks = t ∷ s.tasks }

abbrev pub is_running : EndPhase → Bool
is_running EndPhase.running = true
is_running _ = false

unfoldable pub is_stale : TurnPipeline → ℕ → Bool
is_stale s seq = s.closed || not (seq == s.turn_seq) || not (is_running s.end_state.phase)

-- `self._closed or self._end_state.phase >= EndPhase.CLOSING`
unfoldable pub is_over : TurnPipeline → Bool
is_over s = s.closed || is_ending s.end_state

-- `self._end_state.try_advance(to)`, where no exception is possible
unfoldable pub advance : TurnPipeline → EndPhase → TurnPipeline
unfolding try_advance
advance s to = record s { end_state = state_after s.end_state (try_advance s.end_state to none) }

-- the result says whether this call won the transition
unfoldable pub begin_closing : TurnPipeline → EndCause → Option Text → Bool × TurnPipeline
unfolding try_advance
begin_closing s cause reason =
    let r = try_advance s.end_state EndPhase.closing (some cause) in
    if s.closed
    then (false, s)
    else if won r
    then (
      true,
      spawn (record s { end_state = state_after s.end_state r; closing_reason = reason }) closing,
    )
    else (false, s)

-- an append and the `_commit` of what it returns; the exception of a failed append ends the task
unfoldable pub commit : TurnPipeline → Appended → TurnPipeline
commit s (ok (u, log)) = record s { log = log; enqueued = s.enqueued ++ u ∷ [] }
commit s (err e) = record s { failures = s.failures ++ e ∷ [] }

-- `turn_seq != self._turn_seq`, a closed pipeline or nobody there: what was said is not committed
unfoldable pub is_void : TurnPipeline → ℕ → Bool → Bool
is_void s seq present = s.closed || not (seq == s.turn_seq) || not present

-- lines 521-538; a follow-up of no root fails in `append_question` as one of a missing root
unfoldable pub append_asked :
    ConversationLog
    → Text
    → QuestionType
    → Option FollowUpType
    → Option Text
    → Option ℕ
    → Datetime
    → Appended
append_asked log text t f reason ref at =
    let number = last_question_number log + 1 in
    if is_follow_up (some t)
    then elim (current_root log) [
      | none ↦ err root_missing
      | some root ↦ append_question log number root t text at f reason ref
    ]
    else append_question log number number t text at f reason ref

-- lines 509-538
unfoldable pub commit_asked :
    TurnPipeline
    → ℕ
    → Text
    → QuestionType
    → Option FollowUpType
    → Option Text
    → Option ℕ
    → Bool
    → Datetime
    → TurnPipeline
commit_asked s seq text t f reason ref present at =
    if is_void s seq present then s else commit s (append_asked s.log text t f reason ref at)

-- lines 450-466 with the append's result: its exception comes before the transition
unfoldable pub commit_last : TurnPipeline → Appended → TurnPipeline
unfolding commit advance
commit_last s (ok v) = advance (commit s (ok v)) EndPhase.waiting_final_answer
commit_last s (err e) = commit s (err e)

-- lines 439-466
unfoldable pub commit_final : TurnPipeline → ℕ → Text → Option Text → Bool → Datetime → TurnPipeline
commit_final s seq text reason present at =
    let number = last_question_number s.log + 1 in
    if is_void s seq present
    then s
    else commit_last s
        (append_question s.log number number QuestionType.final text at none reason none)

-- lines 311-315
unfoldable pub finish_closing : TurnPipeline → EndCause → TurnPipeline
finish_closing s cause =
    let t = advance s EndPhase.cleaning in
    spawn (record t { cleanups = t.cleanups ++ cause ∷ [] }) (cleaning cause)

-- lines 298-315 with the append's result: its exception ends the closing task
unfoldable pub commit_farewell : TurnPipeline → EndCause → Appended → TurnPipeline
unfolding commit finish_closing
commit_farewell s cause (ok v) = finish_closing (commit s (ok v)) cause
commit_farewell s cause (err e) = commit s (err e)

-- What is checked under the speech lock before the first attempt.
unfoldable pub is_dropped : TurnPipeline → Speech → Bool
is_dropped s (asking seq _ _ _ _ _) = is_stale s seq
is_dropped s (last_asking seq _ _) = is_stale s seq
is_dropped s (notice _) = is_over s
is_dropped s (respeaking _) = is_over s
is_dropped s (farewell _ _) = false

-- the body of `async with self._speech_lock` up to `say_fn`, once the lock is free
unfoldable pub take_lock : TurnPipeline → Speech → TurnPipeline
take_lock s sp =
    if is_dropped s sp then s else spawn (record s { speaking = true }) (saying sp false)

-- whether a task waits at the speech lock
abbrev pub has_waiter : List Task → Bool
has_waiter [] = false
has_waiter (waiting sp ∷ ts) = true
has_waiter (t ∷ ts) = has_waiter ts

-- the lock is taken at once if it is free and nobody waits for it
unfoldable pub acquire : TurnPipeline → Speech → TurnPipeline
acquire s sp = if s.speaking || has_waiter s.tasks then spawn s (waiting sp) else take_lock s sp

-- the end of `async with self._speech_lock`
abbrev pub release : TurnPipeline → TurnPipeline
release s = record s { speaking = false }
