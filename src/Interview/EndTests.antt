-- ===== src/Interview/EndTests.antt =====
-- Small runs of the end sequence, the reconnect window and the restored phase.
use kkori_ai.Interview.Tests.{hi, noon, first_log}
use kkori_ai.Interview.PresenceMonitor.{
  monitor, wake, on_participant_disconnected, on_participant_connected,
}
use kkori_ai.Interview.PresenceMonitor.Window
use kkori_ai.Prelude.{
  ℕ, ◌+◌, ◌≤◌, ◌≡◌, refl, true, false, none, some, List, [], ◌∷◌, leb, last, All, length,
}
use kkori_ai.Interview.Utterance.{QuestionType, Utterance}
use kkori_ai.Interview.Log.{last_question, ConversationLog, question, push}
use kkori_ai.Interview.EndState.{EndCause}
use kkori_ai.Interview.EndSequence
use kkori_ai.Interview.EndSequence.{
  EndSequence, Answers, guard, drain, flush, purge, publish, delete_room, backoff, shutdown,
}
use kkori_ai.Interview.EndSequence.Order.{is_purge, is_publish, is_delete_room, is_shutdown, count}
use kkori_ai.Interview.EndSequence.Promises.{
  flushes_first, run-shuts_down, run-publishes, run-deletes, run-flushes_first,
}

-- everything is there, and the first attempt to delete the room fails
abbrev full_sequence : EndSequence
full_sequence = record {
  has_writer = true;
  has_flush = true;
  has_purge = true;
  has_publish = true;
  has_delete_room = true;
  has_guard = true;
  room_delete_attempts = 3;
}

abbrev second_time : Answers
second_time = record {
  guard_of_flush = some true;
  guard_of_purge = none;
  guard_of_room = some true;
  drained = false;
  flushed = some true;
  purged = false;
  published = true;
  deleted = λ n. leb 2 n;
}

sequence_run :
    (EndSequence.run full_sequence second_time EndCause.llm_end).calls
    ≡ drain
      ∷ guard
      ∷ flush
      ∷ guard
      ∷ purge
      ∷ publish
      ∷ guard
      ∷ delete_room
      ∷ backoff
      ∷ delete_room
      ∷ shutdown EndCause.llm_end
      ∷ []
unfolding EndSequence.run
sequence_run = refl

run-shuts_down_example :
    ((EndSequence.run full_sequence second_time EndCause.llm_end).raised ≡ false)
    × (count is_shutdown (EndSequence.run full_sequence second_time EndCause.llm_end).calls ≡ 1)
    × (last (EndSequence.run full_sequence second_time EndCause.llm_end).calls
        ≡ some (shutdown EndCause.llm_end))
run-shuts_down_example = run-shuts_down full_sequence second_time EndCause.llm_end

run-publishes_example :
    (count is_purge (EndSequence.run full_sequence second_time EndCause.llm_end).calls ≡ 1)
    × (count is_publish (EndSequence.run full_sequence second_time EndCause.llm_end).calls ≡ 1)
run-publishes_example = run-publishes full_sequence second_time EndCause.llm_end

run-deletes_example :
    (count is_delete_room (EndSequence.run full_sequence second_time EndCause.llm_end).calls ≡ 2)
    × (count is_delete_room (EndSequence.run full_sequence second_time EndCause.llm_end).calls ≤ 3)
run-deletes_example = run-deletes full_sequence second_time EndCause.llm_end

run-flushes_first_example :
    flushes_first (EndSequence.run full_sequence second_time EndCause.llm_end).calls ≡ true
run-flushes_first_example = run-flushes_first full_sequence second_time EndCause.llm_end

-- the candidate leaves, comes back, leaves again, and the second window runs out
abbrev two_windows : List Window.Event
two_windows =
    Window.disconnected hi 100
    ∷ Window.wakes 120 false
    ∷ Window.connected hi
    ∷ Window.disconnected hi 200
    ∷ []

run-IsWatched_example :
    Window.IsWatched (Window.run (monitor hi 60) two_windows)
    × ((more : List Window.Event)
        → All (λ e. Window.is_departure e ≡ false) more
        → length (Window.run (Window.run (monitor hi 60) two_windows) more).closings
          ≤ length (Window.run (monitor hi 60) two_windows).closings + 1)
run-IsWatched_example = Window.run-IsWatched hi 60 two_windows

run-times_out_example :
    ((Window.run (monitor hi 60) two_windows).present ≡ false)
    × (t : ℕ) × ((Window.run (monitor hi 60) two_windows).left_at ≡ some t)
    × (t + (Window.run (monitor hi 60) two_windows).window ≤ 260)
unfolding Window.run Window.handle wake on_participant_disconnected on_participant_connected
run-times_out_example = Window.run-times_out hi 60 two_windows 260 false refl

abbrev final_utterance : Utterance
final_utterance = question 2 2 QuestionType.final hi noon none none none

abbrev final_log : ConversationLog
final_log = push first_log final_utterance

final_last : last_question final_log ≡ some final_utterance
unfolding last_question
final_last = refl
