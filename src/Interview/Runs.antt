-- ===== src/Interview/Runs.antt =====
-- A run of the pipeline: the initial question is spoken and answered, a turn asks the model and
-- speaks its question, and the interview is ended meanwhile.
use kkori_ai.Prelude.{
  is_empty, ◌||◌, length, ◌∷◌, ◌+◌, ℕ, ◌≤◌, ◌≡◌, refl, true, false, none, some, [], ◌++◌, strip,
  if◌then◌else◌,
}
use kkori_ai.Interview.Utterance.{QuestionType}
use kkori_ai.Interview.Log.{
  append_closing, empty, last_question, last_question_number, append_question, append_answer,
  has_valid_current_root, has_topic_or_followup_question,
}
use kkori_ai.Interview.Log.Succeeds.{is_sound_log}
use kkori_ai.Interview.Log.Numbering.{question_numbers, count_up}
use kkori_ai.Interview.EndState.{is_ending, EndPhase, EndCause, init}
use kkori_ai.Interview.TurnPipeline.{
  marking, farewell, commit_farewell, finish_closing, advance, TurnPipeline, asking, Task, starting,
  saying, begin_closing, spawn, is_over, acquire, take_lock, is_dropped, is_stale, commit_asked,
  append_asked, is_void, commit,
}
use kkori_ai.Interview.TurnPipeline.Turns.{
  start_closing, after_marker, on_user_turn_completed, accept_answer, speak_initial,
  speak_and_commit, after_say, say_ended, start_turn, start_run, is_forced, after_decision, forced,
  act,
}
use kkori_ai.Interview.TurnPipeline.Cases.{begin_closing-cases}
use kkori_ai.Interview.TurnPipeline.Steps.{
  Input, IsInput, go_on, goes_on, user_turn, ends, begins, Reach, here, more, new_pipeline, live,
  opened,
}
use kkori_ai.Interview.TurnPipeline.Sound.{closers, holders}
use kkori_ai.Interview.TurnPipeline.Sound.Reached.{
  Reach-cleans_up_once, Reach-never_fails, Reach-mirrors, Reach-numbers,
}
use kkori_ai.Interview.Tests.{hi, spoken, noon, wrong_reference}

abbrev input : Input
input = record {
  wrap_up = none;
  chosen = hi;
  answer = some (some wrong_reference);
  generated = record { text = hi; is_fallback = false };
  result = record { ok = true; started_at = some noon };
  present = true;
  now = noon;
  raised = false;
}

input-IsInput : IsInput input
input-IsInput = record { chosen = refl; generated = refl; now = refl; started = refl }

abbrev fresh : TurnPipeline
fresh = new_pipeline empty init 3

abbrev speaking_first : TurnPipeline
speaking_first = speak_initial fresh hi

abbrev resume : TurnPipeline → Task → TurnPipeline
resume s t = go_on (record s { tasks = [] }) t input

abbrev asked_first : TurnPipeline
asked_first = resume speaking_first (saying (asking 0 hi QuestionType.initial none none none) false)

abbrev answered_first : TurnPipeline
answered_first = on_user_turn_completed asked_first spoken none true none noon

abbrev generating_first : TurnPipeline
generating_first = resume answered_first (starting 1)

abbrev ended_by_user : TurnPipeline
ended_by_user = (begin_closing generating_first EndCause.user_request none).1

five_steps : Reach fresh ended_by_user
unfolding speak_initial go_on on_user_turn_completed speak_and_commit acquire take_lock is_dropped
    is_stale after_say say_ended commit_asked append_asked append_question is_void commit is_over
    strip last_question_number accept_answer append_answer start_turn start_run is_forced
    has_valid_current_root has_topic_or_followup_question after_decision forced act
five_steps =
    more
      (more
        (more
          (more (more here (begins hi refl refl refl)) (
            goes_on [] [] (saying (asking 0 hi QuestionType.initial none none none) false) input
              refl refl input-IsInput refl))
          (user_turn spoken none none true noon refl refl))
        (goes_on [] [] (starting 1) input refl refl input-IsInput refl))
      (ends EndCause.user_request refl)

empty-is_sound : is_sound_log empty ≡ true
unfolding is_sound_log last_question has_topic_or_followup_question
empty-is_sound = refl

Reach-never_fails_example :
    (ended_by_user.failures ≡ [])
    × (holders ended_by_user.tasks ≤ 1)
    × (live ended_by_user.turn_seq ended_by_user.tasks ≤ 1)
    × (is_empty ended_by_user.log.utterances || opened ended_by_user.turn_seq ended_by_user.tasks
          ≡ true
        → live ended_by_user.turn_seq ended_by_user.tasks ≡ 0)
Reach-never_fails_example = Reach-never_fails empty init 3 ended_by_user empty-is_sound five_steps

Reach-mirrors_example : ended_by_user.log.utterances ≡ empty.utterances ++ ended_by_user.enqueued
Reach-mirrors_example = Reach-mirrors empty init 3 ended_by_user empty-is_sound five_steps

Reach-numbers_example :
    (k : ℕ) × (question_numbers ended_by_user.log.utterances
      ≡ question_numbers empty.utterances ++ count_up (last_question_number empty) k)
Reach-numbers_example = Reach-numbers empty init 3 ended_by_user empty-is_sound five_steps

begin_closing-cases_example : begin_closing generating_first EndCause.user_request none ≡ (
    if is_over generating_first then (false, generating_first) else (
      true,
      spawn
          (record generating_first {
            end_state = record { phase = EndPhase.closing; cause = some EndCause.user_request };
            closing_reason = none;
          })
          Task.closing,
    ))
begin_closing-cases_example = begin_closing-cases generating_first EndCause.user_request none

-- an interview that is ended at once: the closing is spoken and committed, and the cleanup begins
abbrev ending : TurnPipeline
ending = (begin_closing fresh EndCause.user_request none).1

abbrev marked : TurnPipeline
marked = resume ending Task.closing

abbrev saying_goodbye : TurnPipeline
saying_goodbye = resume marked (marking EndCause.user_request)

abbrev said_goodbye : TurnPipeline
said_goodbye = resume saying_goodbye (saying (farewell EndCause.user_request hi) false)

four_steps : Reach fresh said_goodbye
unfolding begin_closing go_on start_closing after_marker acquire take_lock is_dropped after_say
    say_ended commit_farewell append_closing commit finish_closing
four_steps =
    more
      (more
        (more (more here (ends EndCause.user_request refl))
          (goes_on [] [] Task.closing input refl refl input-IsInput refl))
        (goes_on [] [] (marking EndCause.user_request) input refl refl input-IsInput refl))
      (goes_on [] [] (saying (farewell EndCause.user_request hi) false) input refl refl
        input-IsInput refl)

goodbye_committed : said_goodbye.cleanups ≡ EndCause.user_request ∷ []
unfolding begin_closing go_on start_closing after_marker acquire take_lock is_dropped after_say
    say_ended commit_farewell append_closing commit finish_closing advance
goodbye_committed = refl

Reach-cleans_up_once_example :
    closers said_goodbye.tasks + length said_goodbye.cleanups
    ≤ (if is_ending said_goodbye.end_state then 1 else 0)
Reach-cleans_up_once_example =
    Reach-cleans_up_once empty init 3 said_goodbye empty-is_sound four_steps
