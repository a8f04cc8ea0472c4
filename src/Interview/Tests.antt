-- ===== src/Interview/Tests.antt =====
-- Small runs of the modelled code and the theorems at concrete inputs.
use kkori_ai.Prelude.{
  ℕ, ◌+◌, ◌≤◌, ◌≡◌, ◌↔◌, refl, true, false, Option, none, some, List, [], ◌∷◌, ◌++◌, Text, ok,
  is_empty, any, leb, ◌&&◌,
}
use kkori_ai.Prelude.Int.{pos, ◌+ℤ◌, ◌-ℤ◌}
use kkori_ai.Interview.Utterance.{
  Action, FollowUpType, QuestionType, Datetime, is_utc, Utterance, post_init,
}
use kkori_ai.Interview.Utterance.Form.{IsForm, post_init-accepts_forms}
use kkori_ai.Interview.Log.{
  ConversationLog, empty, question, push, answer_to, append_question, append_answer,
  last_question_number,
}
use kkori_ai.Interview.Log.Append.{asked, answered, Grows}
use kkori_ai.Interview.Log.Numbering.{question_numbers, count_up, Grows-numbers}
use kkori_ai.Interview.Log.Roots.{IsCoherent, Grows-IsCoherent}
use kkori_ai.Interview.EndState.{EndPhase, value, EndCause, EndState, init}
use kkori_ai.Interview.EndState.Wins.{
  Attempt, run, wins, IsSettled, wins-at_most_one, run-IsSettled, run-keeps_cause,
}
use kkori_ai.Interview.EndSignal.{Packet, receiver}
use kkori_ai.Interview.EndSignal.Delivery
use kkori_ai.Interview.InterviewClock.{new_clock, start, in_wrap_up, hard_exceeded}
use kkori_ai.Interview.Orchestrator.{OrchestratorAnswer, decide}
use kkori_ai.Interview.Orchestrator.Contract.{IsDecision, decide-IsDecision}

-- the texts "Hi" and " A "
abbrev pub hi : Text
hi = 72 ∷ 105 ∷ []

abbrev pub spoken : Text
spoken = 32 ∷ 65 ∷ 32 ∷ []

abbrev pub noon : Datetime
noon = record { wall = 43200000000; utcoffset = some (pos 0) }

abbrev first_question : Utterance
first_question = question 1 1 QuestionType.initial hi noon none none none

abbrev pub first_log : ConversationLog
first_log = push empty first_question

abbrev first_answer : Utterance
first_answer = answer_to first_question hi noon

abbrev probing_question : Utterance
probing_question =
    question 2 1 QuestionType.follow_up hi noon (some FollowUpType.verify) (some hi) none

abbrev grown_log : ConversationLog
grown_log = push (push first_log first_answer) probing_question

three_appends : Grows empty grown_log
unfolding append_question append_answer
three_appends =
    Grows.more
      (Grows.more
        (Grows.more Grows.here
          (asked 1 1 QuestionType.initial hi noon none none none first_question refl))
        (answered hi noon first_answer refl))
      (asked 2 1 QuestionType.follow_up hi noon (some FollowUpType.verify) (some hi) none
        probing_question refl)

Grows-IsCoherent_example : IsCoherent grown_log
Grows-IsCoherent_example = Grows-IsCoherent three_appends

Grows-numbers_example :
    (k : ℕ) × (question_numbers grown_log.utterances
      ≡ question_numbers empty.utterances ++ count_up (last_question_number empty) k)
    × (last_question_number grown_log ≡ last_question_number empty + k)
Grows-numbers_example = Grows-numbers empty three_appends

post_init-accepts_forms_example : (post_init probing_question ≡ ok probing_question) ↔ (
    (probing_question ≡ probing_question)
    × (is_empty hi ≡ false)
    × (is_utc noon ≡ true)
    × IsForm probing_question)
post_init-accepts_forms_example = post_init-accepts_forms probing_question probing_question

-- a model that refers to a question of the current branch
abbrev pub wrong_reference : OrchestratorAnswer
wrong_reference = record {
  reason = hi;
  action = Action.follow_up;
  follow_up_type = some FollowUpType.consistency;
  ref_question_number = some 1;
}

decide-IsDecision_example :
    IsDecision false grown_log (decide false (some wrong_reference) grown_log)
decide-IsDecision_example = decide-IsDecision false (some wrong_reference) grown_log

-- two callers race for the closing
abbrev race : List Attempt
race =
    record { to = EndPhase.closing; cause = some EndCause.llm_end }
    ∷ record { to = EndPhase.closing; cause = some EndCause.hard_timeout }
    ∷ record { to = EndPhase.cleaning; cause = none }
    ∷ []

wins-at_most_one_example : wins EndPhase.closing init race ≤ 1
wins-at_most_one_example = wins-at_most_one EndPhase.closing init race

run-IsSettled_example : IsSettled (run init race)
run-IsSettled_example = run-IsSettled race

abbrev ended : EndState
ended = record { phase = EndPhase.closing; cause = some EndCause.user_request }

run-keeps_cause_example :
    ((run ended race).cause ≡ some EndCause.user_request) × (2 ≤ value (run ended race).phase)
run-keeps_cause_example = run-keeps_cause ended race refl

-- the payload is the session's id itself
abbrev plain_session : Text → Option Text
plain_session payload = some payload

abbrev end_packet : Packet
end_packet = record { participant = none; topic = some spoken; payload = hi }

abbrev early_signal : List (Delivery.Event plain_session)
early_signal = Delivery.received end_packet ∷ Delivery.bound ∷ []

run-delivers_example :
    leb 1 (Delivery.run plain_session (receiver spoken hi) early_signal).delivered ≡ (
      any (Delivery.is_signal plain_session spoken hi) early_signal
      && any (Delivery.is_bound plain_session) early_signal)
run-delivers_example = Delivery.run-delivers plain_session spoken hi early_signal

wrapping_up :
    in_wrap_up (start (new_clock (pos 1800) (pos 300) (pos 120)) (pos 0)) (pos 1500) ≡ some true
unfolding in_wrap_up start ◌-ℤ◌
wrapping_up = refl

exceeded :
    hard_exceeded (start (new_clock (pos 1800) (pos 300) (pos 120)) (pos 0)) (pos 1920) ≡ some true
unfolding hard_exceeded start ◌-ℤ◌ ◌+ℤ◌
exceeded = refl
