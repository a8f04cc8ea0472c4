-- ===== src/Interview/Restore.antt =====
-- agent/src/interview/restore.py: the phase that is derived from the last utterance of a log.
pub mod Phases
pub mod Plan
pub mod Planned
use mathlib.Core.List.{reverse}
use kkori_ai.Prelude.{
  ℕ, Bool, true, false, Option, none, some, List, [], ◌∷◌, find, is_number, not, ◌&&◌,
  if◌then◌else◌,
}
use kkori_ai.Interview.Utterance.{Utterance, is_interviewer, is_closing, is_final}
use kkori_ai.Interview.Log.{ConversationLog}
use kkori_ai.Interview.EndState.{EndCause}

pub data ResumeMode : Type 0 where
  running waiting_final_answer close_final_answered close_recovered : ResumeMode

-- the nearest question before an answer, in the utterances before it, latest first
unfoldable pub question_of : Option ℕ → List Utterance → Option Utterance
question_of none earlier = none
question_of (some n) earlier =
    find (λ q. is_interviewer q.speaker && is_number q.question_number n) earlier

-- `question is not None and question.question_type is QuestionType.FINAL`
abbrev pub is_final_question : Option Utterance → Bool
is_final_question none = false
is_final_question (some q) = is_final q.question_type

-- of the utterances, latest first
unfoldable pub derive_from : List Utterance → ResumeMode × Option EndCause
derive_from [] = (running, none)
derive_from (u ∷ earlier) =
    if is_closing u.question_type
    then (close_recovered, some EndCause.recovered_closing)
    else if not (is_interviewer u.speaker)
        && is_final_question (question_of u.question_number earlier)
    then (close_final_answered, some EndCause.final_question)
    else if is_interviewer u.speaker && is_final u.question_type
    then (waiting_final_answer, none)
    else (running, none)

unfoldable pub derive_mode : ConversationLog → ResumeMode × Option EndCause
derive_mode log = derive_from (reverse log.utterances)
