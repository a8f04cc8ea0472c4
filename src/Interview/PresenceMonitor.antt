-- ===== src/Interview/PresenceMonitor.antt =====
-- agent/src/interview/reconnect.py: class PresenceMonitor, the owner of the reconnect window. The
-- callbacks are lists of what was called: the operations on the stored deadline in the order in
-- which they were spawned, which is the order they run in, the resumptions and the causes that
-- begin_closing_fn was called with. The functions of the store are given. Moments are whole
-- microseconds, and the reading of the wall clock is the argument `now`.
pub mod Window
use kkori_ai.Prelude.{
  ℕ, ◌+◌, Bool, true, false, Option, none, some, List, [], ◌∷◌, ◌++◌, Text, text_eq, leb, not,
  if◌then◌else◌,
}
use kkori_ai.Interview.EndState.{EndCause}

pub data StoreOp : Type 0 where
  record_deadline : ℕ → StoreOp
  clear_deadline : StoreOp

pub record PresenceMonitor : Type 0 where
  pub candidate_identity : Text
  pub window : ℕ
  pub present : Bool
  pub left_at : Option ℕ
  pub epoch : ℕ
  -- the deadline that a running watch task waits for
  pub watch : Option ℕ
  pub closed : Bool
  pub store_ops : List StoreOp
  pub invalidations : ℕ
  pub resumptions : ℕ
  pub closings : List EndCause

-- armed with the candidate in the room
abbrev pub monitor : Text → ℕ → PresenceMonitor
monitor identity window = record {
  candidate_identity = identity;
  window = window;
  present = true;
  left_at = none;
  epoch = 0;
  watch = none;
  closed = false;
  store_ops = [];
  invalidations = 0;
  resumptions = 0;
  closings = [];
}

unfoldable pub on_participant_disconnected : PresenceMonitor → Text → ℕ → PresenceMonitor
on_participant_disconnected m identity now =
    if m.closed
    then m
    else if not (text_eq identity m.candidate_identity)
    then m
    else if not m.present
    then m
    else record m {
      present = false;
      epoch = m.epoch + 1;
      left_at = some now;
      invalidations = m.invalidations + 1;
      store_ops = m.store_ops ++ record_deadline (now + m.window) ∷ [];
      watch = some (now + m.window);
    }

unfoldable pub on_participant_connected : PresenceMonitor → Text → PresenceMonitor
on_participant_connected m identity =
    if m.closed
    then m
    else if not (text_eq identity m.candidate_identity)
    then m
    else if m.present
    then m
    else record m {
      present = true;
      watch = none;
      store_ops = m.store_ops ++ clear_deadline ∷ [];
      resumptions = m.resumptions + 1;
    }

-- `_watch` wakes up at `now`: it sleeps on or ends with a cause
unfoldable pub wake : PresenceMonitor → ℕ → Bool → PresenceMonitor
wake m now hard_exceeded =
    let cause = if hard_exceeded then EndCause.hard_timeout else EndCause.reconnect_timeout in
    elim m.watch [
      | none ↦ m
      | some deadline ↦
          if leb deadline now
          then record m { watch = none; closings = m.closings ++ cause ∷ [] }
          else m
    ]

unfoldable pub aclose : PresenceMonitor → PresenceMonitor
aclose m = if m.closed then m else record m { closed = true; watch = none }
