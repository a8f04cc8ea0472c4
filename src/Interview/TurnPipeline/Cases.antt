-- ===== src/Interview/TurnPipeline/Cases.antt =====
-- What the hook of a user turn and the transition to the closing do, case by case.
use kkori_ai.Prelude.{
  ℕ, ◌≡◌, refl, Bool, true, false, Option, some, Text, is_empty, not, strip, ◌==◌, if◌then◌else◌,
  arith, ◌||◌,
}
use kkori_ai.Interview.Utterance.{Datetime}
use kkori_ai.Interview.Log.{last_question_number}
use kkori_ai.Interview.EndState.{EndPhase, EndCause}
use kkori_ai.Interview.TurnPipeline.{TurnPipeline, Task, spawn, begin_closing, is_over}
use kkori_ai.Interview.TurnPipeline.Turns.{on_user_turn_completed, is_before, accept_answer}

-- the utterances that are no answers
abbrev pub is_ignored : TurnPipeline → Text → Option ℕ → Bool → Option ℕ → Bool
is_ignored s answer speech_started_at present boundary =
    is_over s
    || not present
    || is_before speech_started_at boundary
    || is_empty (strip answer)
    || last_question_number s.log == 0

early_returns :
    (a b c d e : Bool) (x y : TurnPipeline)
    → (if a then x else if not b then x else if c then x else if d then x else if e then x else y)
      ≡ (if a || not b || c || d || e then x else y)
early_returns true b c d e x y = refl
early_returns false false c d e x y = refl
early_returns false true true d e x y = refl
early_returns false true false true e x y = refl
early_returns false true false false true x y = refl
early_returns false true false false false x y = refl

-- The early returns of the hook as one test.
pub user_turn-cases :
    (s : TurnPipeline) (answer : Text) (started boundary : Option ℕ) (present : Bool)
    (now : Datetime)
    → on_user_turn_completed s answer started present boundary now ≡ (
        if is_ignored s answer started present boundary
        then s
        else accept_answer s (strip answer) now)
unfolding on_user_turn_completed
user_turn-cases s answer started boundary present now =
    early_returns (is_over s) present (is_before started boundary) (is_empty (strip answer))
      (last_question_number s.log == 0) _ _

-- The closing begins exactly if the pipeline is not over: the phase and the cause are entered, the
-- reason is kept and the closing task is spawned, all in one piece. Otherwise nothing changes.
pub begin_closing-cases :
    (s : TurnPipeline) (cause : EndCause) (reason : Option Text)
    → begin_closing s cause reason ≡ (
        if is_over s then (false, s) else (
          true,
          spawn
              (record s {
                end_state = record { phase = EndPhase.closing; cause = some cause };
                closing_reason = reason;
              })
              Task.closing,
        ))
unfolding begin_closing is_over
begin_closing-cases s cause reason = ground arith
