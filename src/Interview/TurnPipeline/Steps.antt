-- ===== src/Interview/TurnPipeline/Steps.antt =====
-- The event loop of the agent (the callers in agent/src/main.py): which of the pipeline's pieces
-- can run in which state. Any waiting task may go on next, and any event of the room may come
-- next, so every interleaving is a sequence of steps.
use kkori_ai.Prelude.{
  ℕ, ◌+◌, ◌≡◌, Bool, true, false, Option, none, some, List, [], ◌∷◌, ◌++◌, Text, is_empty, is_some,
  not, if◌then◌else◌, ◌==◌, ◌&&◌, ◌||◌,
}
use kkori_ai.Interview.Utterance.{Datetime, is_utc, is_initial}
use kkori_ai.Interview.Log.{ConversationLog}
use kkori_ai.Interview.EndState.{EndCause, EndPhase, EndState}
use kkori_ai.Interview.Orchestrator.{Decision, OrchestratorAnswer, decide}
use kkori_ai.Interview.TurnPipeline.{
  TurnPipeline, advance, Speech, asking, last_asking, Task, starting, deciding, generating, waiting,
  saying, closing, marking, cleaning, SpeechResult, take_lock, begin_closing,
}
use kkori_ai.Interview.TurnPipeline.Turns.{
  GeneratedQuestion, after_say, on_user_turn_completed, invalidate_inflight, resume_after_reconnect,
  speak_initial, guard_hard_limit, start_closing, after_marker, after_cleanup, start_run,
  after_orchestrator, after_generation, aclose, is_awaited, cancel,
}

-- What the world answers to a task that waits; each task reads what it waited for.
pub record Input : Type 0 where
  -- `_wrap_up_minutes()` and the texts that `random.choice` takes
  pub wrap_up : Option ℕ
  pub chosen : Text
  -- the model's answer inside `orchestrator_fn`; `none` where `orchestrator_fn` itself raises
  pub answer : Option (Option OrchestratorAnswer)
  pub generated : GeneratedQuestion
  pub result : SpeechResult
  pub present : Bool
  pub now : Datetime
  pub raised : Bool

-- `orchestrator_fn` is `decide`, which reads the log when the model has answered.
unfoldable pub orchestrate :
    Option ℕ → Option (Option OrchestratorAnswer) → ConversationLog → Option Decision
orchestrate wrap_up none log = none
orchestrate wrap_up (some answer) log = some (decide (is_some wrap_up) answer log)

-- The task goes on; the state has it no more among its tasks.
unfoldable pub go_on : TurnPipeline → Task → Input → TurnPipeline
go_on s (starting seq) i = start_run s seq i.wrap_up i.chosen
go_on s (deciding seq w) i = after_orchestrator s seq w (orchestrate w i.answer s.log) i.chosen
go_on s (generating seq d) i = after_generation s seq d i.generated
go_on s (waiting sp) i = take_lock s sp
go_on s (saying sp second) i = after_say s sp second i.result i.present i.now
go_on s closing i = start_closing s
go_on s (marking cause) i = after_marker s cause i.chosen i.present
go_on s (cleaning cause) i = after_cleanup s i.raised

-- A waiter at the lock goes on when the lock is free.
abbrev pub can_go_on : TurnPipeline → Task → Bool
can_go_on s (waiting sp) = not s.speaking
can_go_on s _ = true

-- `datetime.now(timezone.utc)` is in UTC, and the fixed and the generated texts are not empty.
pub record IsInput (i : Input) : Type 0 where
  pub chosen : is_empty i.chosen ≡ false
  pub generated : is_empty i.generated.text ≡ false
  pub now : is_utc i.now ≡ true
  pub started : elim i.result.started_at [ none ↦ true | some t ↦ is_utc t ] ≡ true

-- The turn that a task belongs to.
abbrev pub speech_seq : Speech → Option ℕ
speech_seq (asking n _ _ _ _ _) = some n
speech_seq (last_asking n _ _) = some n
speech_seq _ = none

abbrev pub seq_of : Task → Option ℕ
seq_of (starting n) = some n
seq_of (deciding n _) = some n
seq_of (generating n _) = some n
seq_of (waiting sp) = speech_seq sp
seq_of (saying sp _) = speech_seq sp
seq_of _ = none

-- The speech of the initial question, which `speak_initial` runs in the task of its caller.
abbrev pub is_initial_speech : Speech → Bool
is_initial_speech (asking _ _ t _ _ _) = is_initial t
is_initial_speech _ = false

abbrev pub is_initial_task : Task → Bool
is_initial_task (waiting sp) = is_initial_speech sp
is_initial_task (saying sp second) = is_initial_speech sp
is_initial_task _ = false

abbrev pub is_of : ℕ → Task → Bool
is_of n t = elim (seq_of t) [ none ↦ false | some m ↦ m == n ]

-- A task that works for turn `n`, other than one that speaks the initial question.
abbrev pub belongs : ℕ → Task → Bool
belongs n t = is_of n t && not (is_initial_task t)

-- How many tasks belong to turn `n`.
abbrev pub live : ℕ → List Task → ℕ
live n [] = 0
live n (t ∷ ts) = (if belongs n t then 1 else 0) + live n ts

-- Whether the initial question is to be spoken in turn `n`.
abbrev pub opens : ℕ → Task → Bool
opens n t = is_of n t && is_initial_task t

abbrev pub opened : ℕ → List Task → Bool
opened n [] = false
opened n (t ∷ ts) = let rest = opened n ts in opens n t || rest

pub data Step (s : TurnPipeline) (next : TurnPipeline) : Type 0 where
  goes_on :
      (before after : List Task) (t : Task) (i : Input)
      → s.tasks ≡ before ++ t ∷ after
      → can_go_on s t ≡ true
      → IsInput i
      → next ≡ go_on (record s { tasks = before ++ after }) t i
      → Step s next
  user_turn :
      (answer : Text) (started boundary : Option ℕ) (present : Bool) (now : Datetime)
      → is_utc now ≡ true
      → next ≡ on_user_turn_completed s answer started present boundary now
      → Step s next
  -- the room's end signal, the reconnect window and a restored end
  ends : (cause : EndCause) → next ≡ (begin_closing s cause none).1 → Step s next
  hard_limit : (exceeded : Bool) → next ≡ guard_hard_limit s exceeded → Step s next
  leaves : next ≡ invalidate_inflight s → Step s next
  returns : (text : Text) → next ≡ resume_after_reconnect s text → Step s next
  -- `main` and its `resume_interview` speak the initial question when the log is empty
  begins :
      (text : Text)
      → is_empty text ≡ false
      → is_empty s.log.utterances ≡ true
      → next ≡ speak_initial s text
      → Step s next
  -- the phase that `main` restores
  waits_final : next ≡ advance s EndPhase.waiting_final_answer → Step s next
  -- the task that awaits a speech for `main` or the monitor is cancelled
  is_cancelled :
      (before after : List Task) (t : Task)
      → s.tasks ≡ before ++ t ∷ after
      → is_awaited t ≡ true
      → next ≡ cancel (record s { tasks = before ++ after }) t
      → Step s next
  job_ends : next ≡ aclose s → Step s next

pub data Reach (start : TurnPipeline) : TurnPipeline → Type 0 where
  here : Reach start start
  more : {s u : TurnPipeline} → Reach start s → Step s u → Reach start u

-- `TurnPipeline(log=..., ...)`; a restored one may begin in the phase of the final answer
abbrev pub new_pipeline : ConversationLog → EndState → ℕ → TurnPipeline
new_pipeline log e max_followups = record {
  log = log;
  end_state = e;
  max_followups = max_followups;
  closing_reason = none;
  turn_seq = 0;
  closed = false;
  speaking = false;
  tasks = [];
  enqueued = [];
  cleanups = [];
  shutdowns = [];
  failures = [];
}
