-- ===== src/Interview/EndSequence.antt =====
-- agent/src/interview/end_sequence.py: the end sequence. The injected functions may be missing
-- (`None`), and every call may fail or run out of time, which the code treats alike. A run is the
-- list of the calls that it makes, in order, and whether an exception leaves it; what the calls
-- answer is the record `Answers`.
pub mod Order
pub mod Promises
use kkori_ai.Prelude.{
  ℕ, zero, suc, ◌+◌, Bool, true, false, Option, none, some, List, [], ◌∷◌, ◌++◌, not, ◌&&◌,
  if◌then◌else◌,
}
use kkori_ai.Interview.EndState.{EndCause}

pub record EndSequence : Type 0 where
  pub has_writer : Bool
  pub has_flush : Bool
  pub has_purge : Bool
  pub has_publish : Bool
  pub has_delete_room : Bool
  pub has_guard : Bool
  pub room_delete_attempts : ℕ

-- `none` is an exception or a timeout; the guard is asked before three of the steps, and the
-- deletion of the room answers every attempt on its own. Where a call has no value, `false` is the
-- exception.
pub record Answers : Type 0 where
  pub guard_of_flush : Option Bool
  pub guard_of_purge : Option Bool
  pub guard_of_room : Option Bool
  pub drained : Bool
  pub flushed : Option Bool
  pub purged : Bool
  pub published : Bool
  pub deleted : ℕ → Bool

pub data Call : Type 0 where
  guard drain flush purge publish delete_room backoff : Call
  shutdown : EndCause → Call

-- The calls of a piece of the code, and whether it ends with an exception.
pub record Trace : Type 0 where
  pub calls : List Call
  pub raised : Bool

abbrev pub quiet : List Call → Trace
quiet calls = record { calls = calls; raised = false }

-- a call that succeeds or raises
abbrev pub called : Call → Bool → Trace
called c succeeds = record { calls = c ∷ []; raised = not succeeds }

-- `try: ... except Exception: ...` with nothing but a log in the handler
abbrev pub caught : Trace → Trace
caught t = record { calls = t.calls; raised = false }

-- one piece and then the next, which an exception skips
abbrev pub and_then : Trace → Trace → Trace
and_then t u = if t.raised then t else record { calls = t.calls ++ u.calls; raised = u.raised }

-- `_allowed`: the answer and the calls
unfoldable pub allowed : EndSequence → Option Bool → Bool × List Call
allowed e answer =
    if not e.has_guard then (true, []) else (elim answer [ none ↦ true | some b ↦ b ], guard ∷ [])

unfoldable pub finalize_log : EndSequence → Answers → Trace
finalize_log e a = if e.has_writer then caught (called drain a.drained) else quiet []

-- `_flush`: whether the transcript is stored, and the calls
unfoldable pub flush_log : EndSequence → Answers → Bool × List Call
unfolding allowed
flush_log e a =
    let (permitted, asked) = allowed e a.guard_of_flush in
    if not e.has_flush
    then (false, [])
    else if not permitted
    then (false, asked)
    else (elim a.flushed [ none ↦ false | some b ↦ b ], asked ++ flush ∷ [])

unfoldable pub purge_redis : EndSequence → Answers → Trace
unfolding allowed
purge_redis e a =
    let (permitted, asked) = allowed e a.guard_of_purge in
    if not e.has_purge
    then quiet []
    else if not permitted
    then quiet asked
    else and_then (quiet asked) (caught (called purge a.purged))

unfoldable pub publish_report_request : EndSequence → Answers → Trace
publish_report_request e a = if e.has_publish then caught (called publish a.published) else quiet []

-- the loop from `attempt` on, with so many attempts left; there is no pause after the last one
unfoldable pub delete_from : (ℕ → Bool) → ℕ → ℕ → List Call
delete_from deleted attempt zero = []
delete_from deleted attempt (suc zero) = delete_room ∷ []
delete_from deleted attempt (suc (suc left)) =
    let rest = delete_from deleted (attempt + 1) (suc left) in
    delete_room ∷ (if deleted attempt then [] else backoff ∷ rest)

unfoldable pub delete_the_room : EndSequence → Answers → List Call
unfolding allowed delete_from
delete_the_room e a =
    let (permitted, asked) = allowed e a.guard_of_room in
    if not e.has_delete_room
    then []
    else if not permitted
    then asked
    else asked ++ delete_from a.deleted 1 e.room_delete_attempts

-- `cause is EndCause.RECONNECT_TIMEOUT`
abbrev pub is_reconnect_timeout : EndCause → Bool
is_reconnect_timeout EndCause.reconnect_timeout = true
is_reconnect_timeout _ = false

-- the steps between the drain and the deletion of the room
unfoldable pub store_and_publish : EndSequence → Answers → EndCause → Trace
unfolding flush_log purge_redis publish_report_request
store_and_publish e a cause =
    let (flush_ok, calls) = flush_log e a in
    if is_reconnect_timeout cause
    then quiet []
    else if flush_ok
    then and_then (quiet calls) (and_then (purge_redis e a) (publish_report_request e a))
    else quiet calls

unfoldable pub run : EndSequence → Answers → EndCause → Trace
unfolding finalize_log store_and_publish delete_the_room
run e a cause = and_then (finalize_log e a) (
    and_then (store_and_publish e a cause)
      (and_then (quiet (delete_the_room e a)) (quiet (shutdown cause ∷ []))))
