-- ===== src/Interview/EndState.antt =====
-- agent/src/interview/end_state.py: the end phases, which only move forward.
pub mod Wins
use kkori_ai.Prelude.{
  ℕ, Bool, true, false, Option, none, some, Outcome, ok, err, leb, ltb, ◌&&◌, not, is_some,
  if◌then◌else◌,
}

-- the order of the constructors is that of the `IntEnum`'s values
pub data EndPhase : Type 0 where
  running waiting_final_answer closing cleaning closed : EndPhase

abbrev pub value : EndPhase → ℕ
value running = 0
value waiting_final_answer = 1
value closing = 2
value cleaning = 3
value closed = 4

pub data EndCause : Type 0 where
  final_question llm_end hard_timeout user_request reconnect_timeout recovered_closing : EndCause

pub record EndState : Type 0 where
  pub phase : EndPhase
  pub cause : Option EndCause

-- `EndState()`
abbrev pub init : EndState
init = record { phase = running; cause = none }

pub data EndError : Type 0 where
  cause_missing cause_unexpected closing_skipped : EndError

-- `to is EndPhase.CLOSING`
abbrev pub is_closing : EndPhase → Bool
is_closing closing = true
is_closing _ = false

-- `self._phase >= EndPhase.CLOSING`
abbrev pub is_ending : EndState → Bool
is_ending s = leb 2 (value s.phase)

-- `True` with the state that was entered, or `False` and no change; the errors leave no state
unfoldable pub try_advance :
    EndState → EndPhase → Option EndCause → Outcome EndError (Bool × EndState)
try_advance s to cause =
    if is_closing to && not (is_some cause)
    then err cause_missing
    else if not (is_closing to) && is_some cause
    then err cause_unexpected
    else if leb (value to) (value s.phase)
    then ok (false, s)
    else if ltb 2 (value to) && ltb (value s.phase) 2
    then err closing_skipped
    else ok (true, record { phase = to; cause = if is_closing to then cause else s.cause })
