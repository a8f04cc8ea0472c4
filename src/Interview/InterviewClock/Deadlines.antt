-- ===== src/Interview/InterviewClock/Deadlines.antt =====
-- The deadlines of agent/src/interview/interview_clock.py over later readings.
use kkori_ai.Prelude.{◌≡◌, ap, true, some, arith, if◌then◌else◌}
use kkori_ai.Prelude.Int.{ℤ, pos, ◌-ℤ◌, ◌+ℤ◌, ◌≤ℤ◌, ltb_ℤ, int_laws}
use kkori_ai.Interview.InterviewClock.{
  InterviewClock, new_clock, start, start_with_elapsed, elapsed_seconds, in_wrap_up, hard_exceeded,
}

abbrev pub clamp : ℤ → ℤ
clamp e = if ltb_ℤ e (pos 0) then pos 0 else e

-- A clock restored with an elapsed time at `now` shows, at any later reading, that time (0 if it
-- was negative) plus what has passed since; it is as if it had been started that much earlier.
pub start_with_elapsed-elapsed :
    (d w g elapsed now later : ℤ)
    → elapsed_seconds (start_with_elapsed (new_clock d w g) elapsed now) later
      ≡ some (clamp elapsed +ℤ (later -ℤ now))
unfolding start_with_elapsed elapsed_seconds
start_with_elapsed-elapsed d w g elapsed now later = ap (λ x. some x) (omega int_laws)

-- Once started, by either way, a clock ignores every further start.
pub start-once :
    (c : InterviewClock) (first second elapsed : ℤ)
    → (start (start c first) second ≡ start c first)
      × (start_with_elapsed (start c first) elapsed second ≡ start c first)
      × (start (start_with_elapsed c elapsed first) second ≡ start_with_elapsed c elapsed first)
unfolding start start_with_elapsed
start-once c first second elapsed = (ground arith, ground arith, ground arith)

-- Once the wrap-up is reached, every reading that is not earlier is in it too.
pub in_wrap_up-stays :
    (c : InterviewClock) (now later : ℤ)
    → now ≤ℤ later
    → in_wrap_up c now ≡ some true
    → in_wrap_up c later ≡ some true
unfolding in_wrap_up
in_wrap_up-stays c now later le h = grind int_laws

-- Once the hard limit is exceeded, it is so at every reading that is not earlier.
pub hard_exceeded-stays :
    (c : InterviewClock) (now later : ℤ)
    → now ≤ℤ later
    → hard_exceeded c now ≡ some true
    → hard_exceeded c later ≡ some true
unfolding hard_exceeded
hard_exceeded-stays c now later le h = grind int_laws

-- With a grace and a wrap-up time that are not negative, the hard limit is only reached in the
-- wrap-up.
pub hard_exceeded-in_wrap_up :
    (c : InterviewClock) (now : ℤ)
    → pos 0 ≤ℤ c.hard_grace
    → pos 0 ≤ℤ c.wrap_up_remaining
    → hard_exceeded c now ≡ some true
    → in_wrap_up c now ≡ some true
unfolding hard_exceeded in_wrap_up
hard_exceeded-in_wrap_up c now g w h = grind int_laws
