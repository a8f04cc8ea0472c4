-- ===== src/Interview/TurnPipeline/Sound/Keeps.antt =====
-- The invariant through every step of the event loop.
use kkori_ai.Prelude.{
  if◌then◌else◌, ◌+◌, ℕ, ◌≡◌, refl, sym, subst, Bool, true, false, Option, none, some, select, any,
  Text, is_empty, not, strip, ◌||◌, arith, Bool-cases, inl, inr, append-nil,
}
use kkori_ai.Interview.Utterance.{Datetime, QuestionType, is_utc}
use kkori_ai.Interview.Log.{ConversationLog}
use kkori_ai.Interview.Log.Append.{Grows}
use kkori_ai.Interview.Log.Succeeds.{is_sound_log, is_attachable}
use kkori_ai.Interview.EndState.{EndCause, EndState}
use kkori_ai.Interview.TurnPipeline.{
  TurnPipeline, asking, notice, farewell, Task, starting, deciding, generating, waiting, saying,
  closing, marking, cleaning, spawn, is_stale, is_over,
}
use kkori_ai.Interview.TurnPipeline.Turns.{
  on_user_turn_completed, invalidate_inflight, resume_after_reconnect, speak_initial,
  speak_and_commit, guard_hard_limit, start_closing, after_marker, after_cleanup, is_silent, aclose,
  is_awaited, is_saying, cancel,
}
use kkori_ai.Interview.TurnPipeline.Cases.{is_ignored, user_turn-cases}
use kkori_ai.Interview.TurnPipeline.Steps.{
  Input, IsInput, go_on, can_go_on, Step, goes_on, user_turn, ends, hard_limit, leaves, returns,
  begins, waits_final, is_cancelled, job_ends, Reach, here, more, new_pipeline,
}
use kkori_ai.Interview.TurnPipeline.Sound.{IsSound}
use kkori_ai.Interview.TurnPipeline.Sound.Tasks.{
  is_valid, is_fit, fit_bump, all-select, holders-select, holders-saying, closers-select,
}
use kkori_ai.Interview.TurnPipeline.Sound.Pieces.{
  pick, drop, move, acquire-IsSound, take_lock-IsSound, release-IsSound,
}
use kkori_ai.Interview.TurnPipeline.Sound.Committing.{
  begin_closing-IsSound, finish_closing-IsSound, spawn-IsSound, advance-IsSound,
}
use kkori_ai.Interview.TurnPipeline.Sound.Speaking.{
  bump-IsSound, shut_down-IsSound, after_say-IsSound,
}
use kkori_ai.Interview.TurnPipeline.Sound.Turning.{
  start_run-IsSound, after_orchestrator-IsSound, after_generation-IsSound, accept_answer-IsSound,
}

module _ {base : ConversationLog} (s : TurnPipeline) where
  start_closing-IsSound : IsSound base (spawn s closing) → IsSound base (start_closing s)
  unfolding start_closing
  start_closing-IsSound h = go s.end_state.cause
    where
      go :
          (c : Option EndCause)
          → IsSound base (elim c [ none ↦ s | some cause ↦ spawn s (marking cause) ])
      go none = drop s closing refl h
      go (some cause) =
          move s closing (marking cause) refl refl (λ e. e) (λ e. e) refl (omega arith) h

  after_marker-IsSound :
      (cause : EndCause) (text : Text) (present : Bool)
      → is_empty text ≡ false
      → IsSound base (spawn s (marking cause))
      → IsSound base (after_marker s cause text present)
  unfolding after_marker
  after_marker-IsSound cause text present b h = elim (Bool-cases (is_silent cause || not present)) [
    | inl e ↦ rw e (finish_closing-IsSound s cause h.once (drop s (marking cause) refl h))
    | inr e ↦ rw e (
        acquire-IsSound s (farewell cause text) (
          move s (marking cause) (waiting (farewell cause text)) (ground arith) refl (λ e. e)
            (λ e. e) refl (omega arith) h))
  ]

  after_cleanup-IsSound :
      (cause : EndCause) (raised : Bool)
      → IsSound base (spawn s (cleaning cause))
      → IsSound base (after_cleanup s raised)
  unfolding after_cleanup
  after_cleanup-IsSound cause true h = shut_down-IsSound s _ (drop s (cleaning cause) refl h)
  after_cleanup-IsSound cause false h = drop s (cleaning cause) refl h

  go_on-IsSound :
      (t : Task) (i : Input)
      → can_go_on s t ≡ true
      → IsInput i
      → IsSound base (spawn s t)
      → IsSound base (go_on s t i)
  unfolding go_on
  go_on-IsSound (starting seq) i c g h = start_run-IsSound s seq i.wrap_up i.chosen g.chosen h
  go_on-IsSound (deciding seq w) i c g h =
      after_orchestrator-IsSound s seq w i.answer i.chosen g.chosen h
  go_on-IsSound (generating seq d) i c g h =
      after_generation-IsSound s seq d i.generated g.generated h
  go_on-IsSound (waiting sp) i c g h = take_lock-IsSound s sp (ground arith) h
  go_on-IsSound (saying sp second) i c g h =
      after_say-IsSound s sp second i.result i.present i.now g.now g.started h
  go_on-IsSound closing i c g h = start_closing-IsSound h
  go_on-IsSound (marking cause) i c g h = after_marker-IsSound cause i.chosen i.present g.chosen h
  go_on-IsSound (cleaning cause) i c g h = after_cleanup-IsSound cause i.raised h

  user_turn-IsSound :
      (answer : Text) (started boundary : Option ℕ) (present : Bool) (now : Datetime)
      → is_utc now ≡ true
      → IsSound base s
      → IsSound base (on_user_turn_completed s answer started present boundary now)
  user_turn-IsSound answer started boundary present now b h =
      subst (IsSound _) (sym (user_turn-cases s answer started boundary present now))
        (elim (Bool-cases (is_ignored s answer started present boundary)) [
          | inl e ↦ rw e h
          | inr e ↦
              rw e (accept_answer-IsSound s (strip answer) now (ground arith) (ground arith) b h)
        ])

  guard_hard_limit-IsSound :
      (exceeded : Bool) → IsSound base s → IsSound base (guard_hard_limit s exceeded)
  unfolding guard_hard_limit
  guard_hard_limit-IsSound exceeded h = elim (Bool-cases (is_over s || not exceeded)) [
    | inl e ↦ rw e h
    | inr e ↦ rw e (begin_closing-IsSound s EndCause.hard_timeout none h)
  ]

  resume-IsSound : (text : Text) → IsSound base s → IsSound base (resume_after_reconnect s text)
  unfolding resume_after_reconnect
  resume-IsSound text h = elim (Bool-cases (is_over s)) [
    | inl e ↦ rw e h
    | inr e ↦ rw e (
        acquire-IsSound s (notice text)
          (spawn-IsSound s (waiting (notice text)) refl refl refl (omega (arith, h.once)) h))
  ]

  speak_initial-IsSound :
      (text : Text)
      → is_empty text ≡ false
      → is_empty s.log.utterances ≡ true
      → IsSound base s
      → IsSound base (speak_initial s text)
  unfolding speak_initial speak_and_commit
  speak_initial-IsSound text b none_said h = elim (Bool-cases (is_stale s s.turn_seq)) [
    | inl e ↦ rw e h
    | inr e ↦ rw e (
        acquire-IsSound s (asking s.turn_seq text QuestionType.initial none none none) (record {
          valid = ground (arith, h.valid);
          fit = ground (arith, h.fit);
          single = ground (arith, h.single);
          lock = h.lock;
          log = h.log;
          clean = h.clean;
          mirror = h.mirror;
          grown = h.grown;
          once = omega (arith, h.once);
        }))
  ]

  aclose-IsSound : IsSound base s → IsSound base (aclose s)
  unfolding aclose
  aclose-IsSound h = go s.closed
    where
      go :
          (c : Bool)
          → IsSound base (
              if c then s else record s {
                closed = true;
                turn_seq = s.turn_seq + 1;
                tasks = select is_awaited s.tasks;
                speaking = any is_saying (select is_awaited s.tasks);
              })
      go true = h
      go false =
          let fits =
            all-select (is_fit s.turn_seq (is_attachable s.log)) is_awaited s.tasks h.fit in
          let (f, old, shut) =
            fit_bump s.turn_seq (is_attachable s.log) (is_attachable s.log)
              (select is_awaited s.tasks) fits in
          record {
            valid = all-select is_valid is_awaited s.tasks h.valid;
            fit = f;
            single = ground (arith, old);
            lock =
                holders-saying (select is_awaited s.tasks)
                  (ground (arith, holders-select is_awaited s.tasks, h.lock));
            log = h.log;
            clean = h.clean;
            mirror = h.mirror;
            grown = h.grown;
            once = omega (arith, closers-select s.tasks, h.once);
          }

  cancel-IsSound : (t : Task) → IsSound base (spawn s t) → IsSound base (cancel s t)
  cancel-IsSound (saying sp second) h = release-IsSound s sp second h
  cancel-IsSound (starting seq) h = drop s (starting seq) refl h
  cancel-IsSound (deciding seq w) h = drop s (deciding seq w) refl h
  cancel-IsSound (generating seq d) h = drop s (generating seq d) refl h
  cancel-IsSound (waiting sp) h = drop s (waiting sp) refl h
  cancel-IsSound closing h = drop s closing refl h
  cancel-IsSound (marking cause) h = drop s (marking cause) refl h
  cancel-IsSound (cleaning cause) h = drop s (cleaning cause) refl h

Step-IsSound :
    {base : ConversationLog} {s u : TurnPipeline} → Step s u → IsSound base s → IsSound base u
Step-IsSound (goes_on xs ys t i e c g n) h =
    subst (IsSound _) (sym n) (go_on-IsSound _ t i c g (pick _ xs ys t e h))
Step-IsSound (user_turn answer started boundary present now b n) h =
    subst (IsSound _) (sym n) (user_turn-IsSound _ answer started boundary present now b h)
Step-IsSound (ends cause n) h = subst (IsSound _) (sym n) (begin_closing-IsSound _ cause none h)
Step-IsSound (hard_limit exceeded n) h =
    subst (IsSound _) (sym n) (guard_hard_limit-IsSound _ exceeded h)
Step-IsSound (leaves n) h =
    subst (IsSound _) (sym n) (unfold invalidate_inflight in bump-IsSound _ h)
Step-IsSound (returns text n) h = subst (IsSound _) (sym n) (resume-IsSound _ text h)
Step-IsSound (waits_final n) h = subst (IsSound _) (sym n) (advance-IsSound _ _ h)
Step-IsSound (is_cancelled xs ys t e a n) h =
    subst (IsSound _) (sym n) (cancel-IsSound _ t (pick _ xs ys t e h))
Step-IsSound (begins text b l n) h = subst (IsSound _) (sym n) (speak_initial-IsSound _ text b l h)
Step-IsSound (job_ends n) h = subst (IsSound _) (sym n) (aclose-IsSound _ h)

pub Reach-IsSound :
    {base : ConversationLog} {start s : TurnPipeline}
    → Reach start s
    → IsSound base start
    → IsSound base s
Reach-IsSound here h = h
Reach-IsSound (more r st) h = Step-IsSound st (Reach-IsSound r h)

pub new_pipeline-IsSound :
    (log : ConversationLog) (e : EndState) (n : ℕ)
    → is_sound_log log ≡ true
    → IsSound log (new_pipeline log e n)
new_pipeline-IsSound log e n h = record {
  valid = refl;
  fit = refl;
  single = omega arith;
  lock = refl;
  log = h;
  clean = refl;
  mirror = sym (append-nil log.utterances);
  grown = Grows.here;
  once = omega arith;
}
