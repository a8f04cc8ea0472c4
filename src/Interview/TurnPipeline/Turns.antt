-- ===== src/Interview/TurnPipeline/Turns.antt =====
-- agent/src/interview/turn_pipeline.py: the methods, from one await to the next.
use kkori_ai.Prelude.{
  ℕ, ◌+◌, ◌*◌, ◌/◌, ◌%◌, Bool, true, false, Option, none, some, [], ◌∷◌, ◌++◌, Text, ok, err, strip,
  is_empty, last, select, any, ◌==◌, ltb, leb, not, ◌&&◌, ◌||◌, is_some, if◌then◌else◌,
}
use kkori_ai.Prelude.Int.{ℤ, pos, negsuc}
use kkori_ai.Interview.Utterance.{
  Action, QuestionType, FollowUpType, Datetime, Utterance, is_final, is_initial,
}
use kkori_ai.Interview.Log.{
  Appended, append_answer, append_closing, last_question_number, question_for,
  has_valid_current_root, has_topic_or_followup_question, followup_count_in_current_branch,
  is_question,
}
use kkori_ai.Interview.EndState.{EndPhase, EndCause}
use kkori_ai.Interview.InterviewClock.{InterviewClock, in_wrap_up, remaining_seconds}
use kkori_ai.Interview.Orchestrator.{Decision, forced_next_topic, forced_final_question}
use kkori_ai.Interview.Orchestrator.Contract.{from_orchestrator, is_follow_up_action}
use kkori_ai.Interview.TurnPipeline.{
  TurnPipeline, Speech, asking, last_asking, notice, respeaking, farewell, starting, deciding,
  generating, waiting, saying, marking, Task, Shutdown, tts_playout_failure, cleanup_failure,
  SpeechResult, stamp, spawn, is_stale, is_over, begin_closing, commit, commit_asked, commit_final,
  commit_farewell, finish_closing, acquire, release,
}

-- `question.py`'s `GeneratedQuestion`
pub record GeneratedQuestion : Type 0 where
  pub text : Text
  pub is_fallback : Bool

-- `self._shutdown_fn(...)`
abbrev pub shut_down : TurnPipeline → Shutdown → TurnPipeline
shut_down s r = record s { shutdowns = s.shutdowns ++ r ∷ [] }

-- What follows a failed first attempt: give up where it became stale, or try again.
unfoldable pub retry : TurnPipeline → Bool → Speech → TurnPipeline
retry s stale sp = if stale then release s else spawn s (saying sp true)

-- What follows a success (`played`), the first failure and the second one of `say_fn`.
unfoldable pub say_ended : Bool → Bool → TurnPipeline → TurnPipeline → TurnPipeline → TurnPipeline
say_ended true second played again exhausted = played
say_ended false false played again exhausted = again
say_ended false true played again exhausted = exhausted

-- lines 200-212: the anchor after the notice; the last utterance of the log is `u`
unfoldable pub anchor : TurnPipeline → Option Utterance → TurnPipeline
anchor s none = s
anchor s (some u) =
    if is_question u
    then acquire s (respeaking u.content)
    else spawn (record s { turn_seq = s.turn_seq + 1 }) (starting (s.turn_seq + 1))

-- The task that waits in `say_fn` goes on: the lock is released or kept for a second attempt, and
-- what was played is committed. `present` is `_listener_present()` and `now` is `_clock()`.
unfoldable pub after_say :
    TurnPipeline → Speech → Bool → SpeechResult → Bool → Datetime → TurnPipeline
after_say s (asking seq text t f reason ref) second r present now =
    say_ended r.ok second (commit_asked (release s) seq text t f reason ref present (stamp r now))
      (retry s (is_stale s seq) (asking seq text t f reason ref))
      (shut_down (release s) tts_playout_failure)
after_say s (last_asking seq text reason) second r present now =
    say_ended r.ok second (commit_final (release s) seq text reason present (stamp r now))
      (retry s (is_stale s seq) (last_asking seq text reason))
      (begin_closing (release s) EndCause.final_question none).1
after_say s (notice text) second r present now = anchor (release s) (last s.log.utterances)
after_say s (respeaking text) second r present now =
    say_ended r.ok second (release s) (retry s (is_over s) (respeaking text))
      (shut_down (release s) tts_playout_failure)
after_say s (farewell cause text) second r present now =
    say_ended r.ok second
      (commit_farewell (release s) cause (append_closing s.log text (stamp r now) s.closing_reason))
      (spawn s (saying (farewell cause text) true)) (finish_closing (release s) cause)

-- `boundary is not None and speech_started_at is not None and speech_started_at < boundary`
abbrev pub is_before : Option ℕ → Option ℕ → Bool
is_before (some started) (some boundary) = ltb started boundary
is_before _ _ = false

abbrev pub is_waiting : EndPhase → Bool
is_waiting EndPhase.waiting_final_answer = true
is_waiting _ = false

-- the last committed question is the final one
abbrev pub is_final_question : Option Utterance → Bool
is_final_question none = false
is_final_question (some u) = is_final u.question_type

-- lines 164-165 with the append's result
unfoldable pub accept_final : TurnPipeline → Appended → TurnPipeline
accept_final s (ok v) = (begin_closing (commit s (ok v)) EndCause.final_question none).1
accept_final s (err e) = commit s (err e)

-- lines 167-169 with the append's result: the next turn starts
unfoldable pub start_turn : TurnPipeline → Appended → TurnPipeline
start_turn s (ok v) =
    let t = commit s (ok v) in
    spawn (record t { turn_seq = t.turn_seq + 1 }) (starting (t.turn_seq + 1))
start_turn s (err e) = commit s (err e)

-- lines 155-169: the exception of a failed append leaves the caller, with nothing done
unfoldable pub accept_answer : TurnPipeline → Text → Datetime → TurnPipeline
accept_answer s text now =
    if is_waiting s.end_state.phase
    then (if is_final_question (question_for s.log (last_question_number s.log))
        then accept_final s (append_answer s.log text now)
        else s)
    else start_turn s (append_answer s.log text now)

-- `present` is `_listener_present()` and `boundary` is `_input_boundary_fn()`
unfoldable pub on_user_turn_completed :
    TurnPipeline → Text → Option ℕ → Bool → Option ℕ → Datetime → TurnPipeline
on_user_turn_completed s answer speech_started_at present boundary now =
    if is_over s
    then s
    else if not present
    then s
    else if is_before speech_started_at boundary
    then s
    else if is_empty (strip answer)
    then s
    else if last_question_number s.log == 0
    then s
    else accept_answer s (strip answer) now

unfoldable pub invalidate_inflight : TurnPipeline → TurnPipeline
invalidate_inflight s = record s { turn_seq = s.turn_seq + 1 }

-- up to the notice
unfoldable pub resume_after_reconnect : TurnPipeline → Text → TurnPipeline
resume_after_reconnect s text = if is_over s then s else acquire s (notice text)

-- up to the speech lock; the same for the initial question and for a generated one
unfoldable pub speak_and_commit :
    TurnPipeline
    → ℕ
    → Text
    → QuestionType
    → Option FollowUpType
    → Option Text
    → Option ℕ
    → TurnPipeline
speak_and_commit s seq text t f reason ref =
    if is_stale s seq then s else acquire s (asking seq text t f reason ref)

unfoldable pub speak_initial : TurnPipeline → Text → TurnPipeline
speak_initial s text = speak_and_commit s s.turn_seq text QuestionType.initial none none none

-- one round of `_guard_hard_limit`; the delay has passed if `exceeded`
unfoldable pub guard_hard_limit : TurnPipeline → Bool → TurnPipeline
guard_hard_limit s exceeded =
    if is_over s || not exceeded then s else (begin_closing s EndCause.hard_timeout none).1

-- `_closing_task` up to `marker_fn`; the cause was settled by the winner of the transition
unfoldable pub start_closing : TurnPipeline → TurnPipeline
start_closing s = elim s.end_state.cause [ none ↦ s | some cause ↦ spawn s (marking cause) ]

-- `cause in (RECONNECT_TIMEOUT, RECOVERED_CLOSING)`
abbrev pub is_silent : EndCause → Bool
is_silent EndCause.reconnect_timeout = true
is_silent EndCause.recovered_closing = true
is_silent _ = false

-- `text` is the chosen statement; an exception of the marker changes nothing
unfoldable pub after_marker : TurnPipeline → EndCause → Text → Bool → TurnPipeline
after_marker s cause text present =
    if is_silent cause || not present
    then finish_closing s cause
    else acquire s (farewell cause text)

-- `failed` if `cleanup_fn` raised
unfoldable pub after_cleanup : TurnPipeline → Bool → TurnPipeline
after_cleanup s failed = if failed then shut_down s cleanup_failure else s

-- `round(remaining / 60)` to the even neighbour at a half, of microseconds
minutes : ℤ → ℕ
minutes (negsuc n) = 0
minutes (pos n) =
    let q = n / 60000000 in
    let r = n % 60000000 in
    if ltb (2 * r) 60000000
    then q
    else if ltb 60000000 (2 * r)
    then q + 1
    else if q % 2 == 0
    then q
    else q + 1

-- `_wrap_up_minutes`: of the clock at the reading `now`
unfoldable pub wrap_up_minutes : Option InterviewClock → ℤ → Option ℕ
unfolding minutes in_wrap_up remaining_seconds
wrap_up_minutes none now = none
wrap_up_minutes (some clock) now = elim (in_wrap_up clock now) [
  | some true ↦ elim (remaining_seconds clock now) [ none ↦ none | some r ↦ some (minutes r) ]
  | _ ↦ none
]

-- what the code decides without the orchestrator
unfoldable pub forced : Option ℕ → Decision
forced wrap_up = if is_some wrap_up then forced_final_question else forced_next_topic

-- whether `_decide` does without the orchestrator
unfoldable pub is_forced : TurnPipeline → Bool
is_forced s =
    not (has_valid_current_root s.log)
    || not (has_topic_or_followup_question s.log)
    || leb s.max_followups (followup_count_in_current_branch s.log)

-- lines 347-348 and 421-423; `final_text` is the chosen final question
unfoldable pub speak_final_question : TurnPipeline → ℕ → Decision → Text → TurnPipeline
speak_final_question s seq d final_text =
    if is_stale s seq
    then s
    else acquire s
        (last_asking seq final_text (if from_orchestrator d.source then d.reason else none))

-- what an action leads to
unfoldable pub act : TurnPipeline → ℕ → Decision → Text → Action → TurnPipeline
act s seq d final_text Action.end =
    (begin_closing s EndCause.llm_end (if from_orchestrator d.source then d.reason else none)).1
act s seq d final_text Action.final_question = speak_final_question s seq d final_text
act s seq d final_text _ = spawn s (generating seq d)

-- `_run` from the decision to `generate_fn`
unfoldable pub after_decision : TurnPipeline → ℕ → Decision → Text → TurnPipeline
after_decision s seq d final_text = if is_stale s seq then s else act s seq d final_text d.action

-- `_run` and `_decide` up to `orchestrator_fn`
unfoldable pub start_run : TurnPipeline → ℕ → Option ℕ → Text → TurnPipeline
start_run s seq wrap_up final_text =
    if is_forced s
    then after_decision s seq (forced wrap_up) final_text
    else spawn s (deciding seq wrap_up)

-- `orchestrator_fn` returned a decision, or raised
unfoldable pub after_orchestrator :
    TurnPipeline → ℕ → Option ℕ → Option Decision → Text → TurnPipeline
after_orchestrator s seq wrap_up none final_text = after_decision s seq (forced wrap_up) final_text
after_orchestrator s seq wrap_up (some d) final_text = after_decision s seq d final_text

-- `_run` after `generate_fn`; an exception of it was turned into a fallback question
unfoldable pub after_generation : TurnPipeline → ℕ → Decision → GeneratedQuestion → TurnPipeline
after_generation s seq d g =
    let follows = is_follow_up_action d.action && not g.is_fallback in
    if is_stale s seq
    then s
    else speak_and_commit s seq g.text
        (if follows then QuestionType.follow_up else QuestionType.topic)
        (if follows then d.follow_up_type else none)
        (if from_orchestrator d.source && not g.is_fallback then d.reason else none)
        (if follows then d.ref_question_number else none)

-- A speech of `speak_initial` or `resume_after_reconnect`, which are awaited by a task of their
-- caller; every other task was spawned by the pipeline.
abbrev pub is_awaited_speech : Speech → Bool
is_awaited_speech (asking _ _ t _ _ _) = is_initial t
is_awaited_speech (notice _) = true
is_awaited_speech (respeaking _) = true
is_awaited_speech _ = false

abbrev pub is_awaited : Task → Bool
is_awaited (waiting sp) = is_awaited_speech sp
is_awaited (saying sp second) = is_awaited_speech sp
is_awaited _ = false

abbrev pub is_saying : Task → Bool
is_saying (saying sp second) = true
is_saying _ = false

-- a cancelled task leaves `async with self._speech_lock`
abbrev pub cancel : TurnPipeline → Task → TurnPipeline
cancel s t = if is_saying t then record s { speaking = false } else s

-- the spawned tasks are cancelled, which releases the lock if one of them holds it
unfoldable pub aclose : TurnPipeline → TurnPipeline
aclose s = if s.closed then s else record s {
  closed = true;
  turn_seq = s.turn_seq + 1;
  tasks = select is_awaited s.tasks;
  speaking = any is_saying (select is_awaited s.tasks);
}
