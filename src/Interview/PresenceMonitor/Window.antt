-- ===== src/Interview/PresenceMonitor/Window.antt =====
-- The reconnect window over any sequence of events.
use kkori_ai.Prelude.{
  ℕ, ◌+◌, ◌≤◌, ◌≡◌, refl, Bool, true, false, Option, none, some, List, [], ◌∷◌, ◌++◌, Text,
  if◌then◌else◌, arith, Option-cases, inl, inr, length, length-append, ◌==◌, is_some, All,
}
use kkori_ai.Interview.EndState.{EndCause}
use kkori_ai.Interview.PresenceMonitor.{
  PresenceMonitor, StoreOp, record_deadline, clear_deadline, monitor, on_participant_disconnected,
  on_participant_connected, wake, aclose,
}

pub data Event : Type 0 where
  disconnected : Text → ℕ → Event
  connected : Text → Event
  wakes : ℕ → Bool → Event
  closes : Event

unfoldable pub handle : PresenceMonitor → Event → PresenceMonitor
handle m (disconnected identity now) = on_participant_disconnected m identity now
handle m (connected identity) = on_participant_connected m identity
handle m (wakes now hard) = wake m now hard
handle m closes = aclose m

unfoldable pub run : PresenceMonitor → List Event → PresenceMonitor
run m [] = m
run m (e ∷ es) = run (handle m e) es

-- the deadline in the store after the operations have run in order
abbrev pub stored_after : Option ℕ → List StoreOp → Option ℕ
stored_after d [] = d
stored_after d (record_deadline t ∷ ops) = stored_after (some t) ops
stored_after d (clear_deadline ∷ ops) = stored_after none ops

-- the end of the current window
abbrev pub window_end : PresenceMonitor → Option ℕ
window_end m =
    if m.present then none else elim m.left_at [ none ↦ none | some t ↦ some (t + m.window) ]

stored_after-append :
    (d : Option ℕ) (ops : List StoreOp) (op : StoreOp)
    → stored_after d (ops ++ op ∷ []) ≡ stored_after (stored_after d ops) (op ∷ [])
stored_after-append d [] op = refl
stored_after-append d (record_deadline t ∷ ops) op = stored_after-append (some t) ops op
stored_after-append d (clear_deadline ∷ ops) op = stored_after-append none ops op

-- a watch only waits for the end of the current window
abbrev pub is_window_end : Option ℕ → Option ℕ → Bool
is_window_end none e = true
is_window_end (some d) none = false
is_window_end (some d) (some e) = d == e

pub record IsWatched (m : PresenceMonitor) : Type 0 where
  -- the store agrees with the window
  pub stored : stored_after none m.store_ops ≡ window_end m
  pub watching : is_window_end m.watch (window_end m) ≡ true
  -- every departure invalidates once, and every return resumes once
  pub invalidated : m.invalidations ≡ m.epoch
  pub resumed : m.epoch ≡ m.resumptions + (if m.present then 0 else 1)
  -- the interview was not ended more often than the candidate left
  pub ended : length m.closings + (if is_some m.watch then 1 else 0) ≤ m.epoch

monitor-IsWatched : (identity : Text) (window : ℕ) → IsWatched (monitor identity window)
monitor-IsWatched identity window = record {
  stored = refl;
  watching = refl;
  invalidated = refl;
  resumed = omega arith;
  ended = omega arith;
}

module _ (m : PresenceMonitor) where
  disconnected-IsWatched :
      (identity : Text) (now : ℕ)
      → IsWatched m
      → IsWatched (on_participant_disconnected m identity now)
  unfolding on_participant_disconnected
  disconnected-IsWatched identity now h = record {
    stored =
        ground (
          arith,
          h.stored,
          stored_after-append none m.store_ops (record_deadline (now + m.window)),
        );
    watching = ground (arith, h.watching);
    invalidated = ground (arith, h.invalidated);
    resumed = ground (arith, h.resumed);
    ended = ground (arith, h.ended);
  }

  connected-IsWatched :
      (identity : Text) → IsWatched m → IsWatched (on_participant_connected m identity)
  unfolding on_participant_connected
  connected-IsWatched identity h = record {
    stored = ground (arith, h.stored, stored_after-append none m.store_ops clear_deadline);
    watching = ground (arith, h.watching);
    invalidated = ground (arith, h.invalidated);
    resumed = ground (arith, h.resumed);
    ended = ground (arith, h.ended);
  }

  wake-IsWatched : (now : ℕ) (hard : Bool) → IsWatched m → IsWatched (wake m now hard)
  unfolding wake
  wake-IsWatched now hard h =
      let c = if hard then EndCause.hard_timeout else EndCause.reconnect_timeout in
      record {
        stored = ground (arith, h.stored);
        watching = ground (arith, h.watching);
        invalidated = ground (arith, h.invalidated);
        resumed = ground (arith, h.resumed);
        ended = ground (arith, h.ended, length-append m.closings (c ∷ []));
      }

  aclose-IsWatched : IsWatched m → IsWatched (aclose m)
  unfolding aclose
  aclose-IsWatched h = record {
    stored = ground (arith, h.stored);
    watching = ground (arith, h.watching);
    invalidated = ground (arith, h.invalidated);
    resumed = ground (arith, h.resumed);
    ended = ground (arith, h.ended);
  }

handle-IsWatched : (m : PresenceMonitor) (e : Event) → IsWatched m → IsWatched (handle m e)
unfolding handle
handle-IsWatched m (disconnected identity now) h = disconnected-IsWatched m identity now h
handle-IsWatched m (connected identity) h = connected-IsWatched m identity h
handle-IsWatched m (wakes now hard) h = wake-IsWatched m now hard h
handle-IsWatched m closes h = aclose-IsWatched m h

from_IsWatched : (m : PresenceMonitor) (es : List Event) → IsWatched m → IsWatched (run m es)
unfolding run
from_IsWatched m [] h = h
from_IsWatched m (e ∷ es) h = from_IsWatched (handle m e) es (handle-IsWatched m e h)

-- Events after which the same window goes on: none of them is a departure.
abbrev pub is_departure : Event → Bool
is_departure (disconnected identity now) = true
is_departure _ = false

-- The ends that were called for, with one that a watch may still call for.
abbrev ends_due : PresenceMonitor → ℕ
ends_due m = length m.closings + (if is_some m.watch then 1 else 0)

handle-ends :
    (m : PresenceMonitor) (e : Event) → is_departure e ≡ false → ends_due (handle m e) ≤ ends_due m
unfolding handle
handle-ends m (disconnected identity now) h = absurd (ground arith)
handle-ends m (connected identity) h = unfold on_participant_connected in ground arith
handle-ends m (wakes now hard) h =
    let c = if hard then EndCause.hard_timeout else EndCause.reconnect_timeout in
    unfold wake in ground (arith, length-append m.closings (c ∷ []))
handle-ends m closes h = unfold aclose in ground arith

run-ends :
    (m : PresenceMonitor) (es : List Event)
    → All (λ e. is_departure e ≡ false) es
    → ends_due (run m es) ≤ ends_due m
unfolding run
run-ends m [] h = omega arith
run-ends m (e ∷ es) h = omega (arith, run-ends (handle m e) es h.1, handle-ends m e h.0)

one_end :
    (m u : PresenceMonitor) → ends_due u ≤ ends_due m → length u.closings ≤ length m.closings + 1
one_end m u h = ground (arith, h)

-- After any events, the deadline that the spawned operations leave in the store, run in their
-- order, is the end of the current window, or none if the candidate is there; every departure
-- invalidated the turn once, and all but a current one were followed by one resumption. In any
-- further events without a departure, so in one window, the interview is ended at most once.
pub run-IsWatched :
    (identity : Text) (window : ℕ) (es : List Event)
    → IsWatched (run (monitor identity window) es)
      × ((more : List Event)
          → All (λ e. is_departure e ≡ false) more
          → length (run (run (monitor identity window) es) more).closings
            ≤ length (run (monitor identity window) es).closings + 1)
run-IsWatched identity window es = (
  from_IsWatched (monitor identity window) es (monitor-IsWatched identity window),
  λ more h.
      one_end (run (monitor identity window) es) (run (run (monitor identity window) es) more)
        (run-ends (run (monitor identity window) es) more h),
)

-- After any events, a watch that wakes up ends the interview only if the candidate is away and
-- left at least a whole window ago.
pub run-times_out :
    (identity : Text) (window : ℕ) (es : List Event) (now : ℕ) (hard : Bool)
    → let m = run (monitor identity window) es in
      length (wake m now hard).closings ≡ length m.closings + 1
      → (m.present ≡ false) × (t : ℕ) × (m.left_at ≡ some t) × (t + m.window ≤ now)
run-times_out identity window es now hard h =
    absent_for (run (monitor identity window) es) (run-IsWatched identity window es).0 h
  where
    absent_for :
        (m : PresenceMonitor)
        → IsWatched m
        → length (wake m now hard).closings ≡ length m.closings + 1
        → (m.present ≡ false) × (t : ℕ) × (m.left_at ≡ some t) × (t + m.window ≤ now)
    absent_for m w h = elim (Option-cases m.left_at) [
      | inl e ↦ absurd (unfold wake in ground (arith, w.watching))
      | inr (t, e) ↦ (
        unfold wake in ground (arith, w.watching),
        t,
        e,
        unfold wake in ground (arith, w.watching),
      )
    ]
