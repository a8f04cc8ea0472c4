-- ===== src/Interview/EndState/Wins.antt =====
-- Any sequence of transition attempts: who wins, and which cause stays.
use kkori_ai.Prelude.{
  ℕ, ◌+◌, ◌≤◌, ◌≡◌, refl, ◌∙◌, Bool, true, false, Option, List, [], ◌∷◌, ok, err, leb, is_some,
  ◌&&◌, if◌then◌else◌, arith, Outcome,
}
use kkori_ai.Interview.EndState.{
  EndPhase, value, EndCause, EndState, init, EndError, try_advance, is_ending,
}

pub record Attempt : Type 0 where
  pub to : EndPhase
  pub cause : Option EndCause

-- the state after a call, which an exception leaves rest it was
abbrev pub state_after : EndState → Outcome EndError (Bool × EndState) → EndState
state_after s (ok (won, after)) = after
state_after s (err e) = s

abbrev pub won : Outcome EndError (Bool × EndState) → Bool
won (ok (w, after)) = w
won (err e) = false

abbrev pub attempt : EndState → Attempt → EndState
attempt s a = state_after s (try_advance s a.to a.cause)

unfoldable pub run : EndState → List Attempt → EndState
run s [] = s
run s (a ∷ rest) = run (attempt s a) rest

abbrev same_phase : EndPhase → EndPhase → Bool
same_phase a b = leb (value a) (value b) && leb (value b) (value a)

-- How many of the calls entered the phase `to`.
unfoldable pub wins : EndPhase → EndState → List Attempt → ℕ
wins to s [] = 0
wins to s (a ∷ rest) =
    let later = wins to (attempt s a) rest in
    if won (try_advance s a.to a.cause) && same_phase a.to to then 1 + later else later

-- A cause is known exactly from CLOSING on.
abbrev pub IsSettled : EndState → Type 0
IsSettled s = is_some s.cause ≡ is_ending s

attempt-IsSettled : (s : EndState) (a : Attempt) → IsSettled s → IsSettled (attempt s a)
unfolding try_advance
attempt-IsSettled s a h = ground arith

attempt-forward : (s : EndState) (a : Attempt) → value s.phase ≤ value (attempt s a).phase
unfolding try_advance
attempt-forward s a = ground arith

attempt-cause : (s : EndState) (a : Attempt) → is_ending s ≡ true → (attempt s a).cause ≡ s.cause
unfolding try_advance
attempt-cause s a h = ground arith

win-enters :
    (s : EndState) (a : Attempt)
    → won (try_advance s a.to a.cause) ≡ true
    → ((attempt s a).phase ≡ a.to) × (value s.phase + 1 ≤ value a.to)
unfolding try_advance
win-enters s a h = ground arith

-- a phase that has been reached is not entered again
wins_past :
    (to : EndPhase) (s : EndState) (rest : List Attempt)
    → value to ≤ value s.phase
    → wins to s rest ≡ 0
unfolding wins
wins_past to s [] h = refl
wins_past to s (a ∷ rest) h =
    ground
      (arith, wins_past to (attempt s a) rest (omega (arith, attempt-forward s a)), win-enters s a)

-- Whatever calls are made from whatever state, at most one of them enters any given phase.
pub wins-at_most_one : (to : EndPhase) (s : EndState) (rest : List Attempt) → wins to s rest ≤ 1
unfolding wins
wins-at_most_one to s [] = omega arith
wins-at_most_one to s (a ∷ rest) =
    ground (
      arith,
      wins-at_most_one to (attempt s a) rest,
      wins_past to (attempt s a) rest,
      win-enters s a,
    )

from_IsSettled : (s : EndState) (rest : List Attempt) → IsSettled s → IsSettled (run s rest)
unfolding run
from_IsSettled s [] h = h
from_IsSettled s (a ∷ rest) h = from_IsSettled (attempt s a) rest (attempt-IsSettled s a h)

-- From the initial state, after any calls, failed ones included, a cause is known exactly if the
-- phase is CLOSING or later.
pub run-IsSettled : (rest : List Attempt) → IsSettled (run init rest)
run-IsSettled rest = from_IsSettled init rest refl

-- Once CLOSING is reached no call moves the phase back or changes the cause.
pub run-keeps_cause :
    (s : EndState) (rest : List Attempt)
    → is_ending s ≡ true
    → ((run s rest).cause ≡ s.cause) × (value s.phase ≤ value (run s rest).phase)
unfolding run
run-keeps_cause s [] h = (refl, omega arith)
run-keeps_cause s (a ∷ rest) h =
    let forward = attempt-forward s a in
    let (same, on) = run-keeps_cause (attempt s a) rest (ground arith) in
    (same ∙ attempt-cause s a h, omega arith)
