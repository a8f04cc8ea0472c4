-- ===== src/Interview/InterviewClock.antt =====
-- agent/src/interview/interview_clock.py: the interview clock. Seconds are whole microseconds,
-- and every reading of the monotonic clock is the argument `now`.
pub mod Deadlines
use kkori_ai.Prelude.{Bool, true, false, Option, none, some, not, if◌then◌else◌}
use kkori_ai.Prelude.Int.{ℤ, pos, ◌-ℤ◌, ◌+ℤ◌, ltb_ℤ}

pub record InterviewClock : Type 0 where
  pub duration : ℤ
  pub wrap_up_remaining : ℤ
  pub hard_grace : ℤ
  pub started_at : Option ℤ

abbrev pub new_clock : ℤ → ℤ → ℤ → InterviewClock
new_clock d w g = record { duration = d; wrap_up_remaining = w; hard_grace = g; started_at = none }

abbrev pub leb_ℤ : ℤ → ℤ → Bool
leb_ℤ a b = not (ltb_ℤ b a)

unfoldable pub started : InterviewClock → Bool
started c = elim c.started_at [ none ↦ false | some t ↦ true ]

unfoldable pub start : InterviewClock → ℤ → InterviewClock
start c now = elim c.started_at [ none ↦ record c { started_at = some now } | some t ↦ c ]

unfoldable pub start_with_elapsed : InterviewClock → ℤ → ℤ → InterviewClock
start_with_elapsed c elapsed now =
    let clamped = if ltb_ℤ elapsed (pos 0) then pos 0 else elapsed in
    elim c.started_at [ none ↦ record c { started_at = some (now -ℤ clamped) } | some t ↦ c ]

-- the four readings raise `RuntimeError`, here `none`, before the start
unfoldable pub elapsed_seconds : InterviewClock → ℤ → Option ℤ
elapsed_seconds c now = elim c.started_at [ none ↦ none | some t ↦ some (now -ℤ t) ]

unfoldable pub remaining_seconds : InterviewClock → ℤ → Option ℤ
unfolding elapsed_seconds
remaining_seconds c now = elim (elapsed_seconds c now) [
  | none ↦ none
  | some e ↦ some (c.duration -ℤ e)
]

unfoldable pub in_wrap_up : InterviewClock → ℤ → Option Bool
unfolding remaining_seconds
in_wrap_up c now = elim (remaining_seconds c now) [
  | none ↦ none
  | some r ↦ some (leb_ℤ r c.wrap_up_remaining)
]

unfoldable pub hard_deadline_in : InterviewClock → ℤ → Option ℤ
unfolding remaining_seconds
hard_deadline_in c now = elim (remaining_seconds c now) [
  | none ↦ none
  | some r ↦ some (r +ℤ c.hard_grace)
]

unfoldable pub hard_exceeded : InterviewClock → ℤ → Option Bool
unfolding hard_deadline_in
hard_exceeded c now = elim (hard_deadline_in c now) [
  | none ↦ none
  | some d ↦ some (leb_ℤ d (pos 0))
]
