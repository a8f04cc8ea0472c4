-- ===== src/Interview/Restore/Phases.antt =====
-- The derived phase of a log that the pipeline has just appended to.
use mathlib.Core.List.{reverse, reverse-append}
use kkori_ai.Prelude.{
  ℕ, ◌≡◌, refl, ap, ◌∙◌, false, Option, none, some, List, [], ◌∷◌, Text, find, is_number, ◌&&◌,
  if◌then◌else◌, arith,
}
use kkori_ai.Interview.Utterance.{
  Utterance, Datetime, QuestionType, FollowUpType, is_interviewer, is_final, is_closing,
}
use kkori_ai.Interview.Log.{
  ConversationLog, is_question, last_question, push, question, closing_utterance, answer_to,
}
use kkori_ai.Interview.EndState.{EndCause}
use kkori_ai.Interview.Restore.{
  running, waiting_final_answer, close_final_answered, close_recovered, question_of, derive_from,
  derive_mode,
}

derive_mode-push :
    (log : ConversationLog) (u : Utterance)
    → derive_mode (push log u) ≡ derive_from (u ∷ reverse log.utterances)
unfolding derive_mode
derive_mode-push log u = ap derive_from (reverse-append log.utterances (u ∷ []))

-- the last question is the nearest one with its number
nearest :
    (us : List Utterance) (q : Utterance) (n : ℕ)
    → find is_question us ≡ some q
    → q.question_number ≡ some n
    → find (λ u. is_interviewer u.speaker && is_number u.question_number n) us ≡ some q
nearest [] q n h e = absurd (ground arith)
nearest (u ∷ us) q n h e = ground (arith, nearest us q n)

module _ (log : ConversationLog) (content : Text) (at : Datetime) where
  -- After an answer to the last question `q`, numbered `n`, a restored interview is closed if
  -- `q` was the final question, and else goes on.
  pub derive_mode-answered :
      (q : Utterance) (n : ℕ)
      → last_question log ≡ some q
      → q.question_number ≡ some n
      → derive_mode (push log (answer_to q content at)) ≡ (
          if is_final q.question_type
          then (close_final_answered, some EndCause.final_question)
          else (running, none))
  derive_mode-answered q n h e = derive_mode-push log (answer_to q content at) ∙ derived
    where
      found : question_of q.question_number (reverse log.utterances) ≡ some q
      found =
          unfold last_question in
          unfold question_of in ground (arith, nearest (reverse log.utterances) q n)

      derived : derive_from (answer_to q content at ∷ reverse log.utterances) ≡ (
          if is_final q.question_type
          then (close_final_answered, some EndCause.final_question)
          else (running, none))
      derived = unfold derive_from in ground (arith, found)

  -- After a closing, a restored interview is recovered as closed; after a question that is no
  -- closing it waits for the final answer if the question was the final one, and else goes on.
  pub derive_mode-said :
      (n p : ℕ) (t : QuestionType) (f : Option FollowUpType) (reason : Option Text) (ref : Option ℕ)
      → is_closing (some t) ≡ false
      → (derive_mode (push log (closing_utterance content at reason))
          ≡ (close_recovered, some EndCause.recovered_closing))
        × (derive_mode (push log (question n p t content at f reason ref))
            ≡ (if is_final (some t) then (waiting_final_answer, none) else (running, none)))
  derive_mode-said n p t f reason ref h = (
    derive_mode-push log (closing_utterance content at reason) ∙ (unfold derive_from in refl),
    derive_mode-push log (question n p t content at f reason ref)
        ∙ (unfold derive_from in ground arith),
  )
