-- ===== src/Interview/TurnPipeline/Sound/Turning.antt =====
-- The invariant through a turn: the run of a task up to the next thing to be said.
use kkori_ai.Prelude.{
  ℕ, ◌≡◌, refl, sym, subst, Bool, true, false, Option, none, some, Text, ok, is_some, is_empty,
  ◌==◌, if◌then◌else◌, arith, Bool-cases, inl, inr,
}
use kkori_ai.Interview.Utterance.{
  QuestionType, FollowUpType, Datetime, Action, is_utc, is_follow_up, is_initial,
}
use kkori_ai.Interview.Log.{ConversationLog, answer_to, push, last_question_number, question_for}
use kkori_ai.Interview.Log.Succeeds.{
  is_attachable, is_askable, asked-is_attachable, append_answer-succeeds,
}
use kkori_ai.Interview.Log.Append.{answered}
use kkori_ai.Interview.EndState.{EndCause}
use kkori_ai.Interview.Orchestrator.{
  Decision, OrchestratorAnswer, decide, forced_next_topic, forced_final_question,
}
use kkori_ai.Interview.Orchestrator.Contract.{
  is_follow_up_action, from_orchestrator, IsDecision, decide-IsDecision,
}
use kkori_ai.Interview.TurnPipeline.{
  TurnPipeline, asking, last_asking, Task, starting, deciding, generating, waiting, spawn, is_stale,
  commit,
}
use kkori_ai.Interview.TurnPipeline.Turns.{
  GeneratedQuestion, start_run, after_orchestrator, after_decision, after_generation, forced,
  is_forced, act, speak_final_question, speak_and_commit, accept_answer, accept_final, start_turn,
  is_final_question, is_waiting,
}
use kkori_ai.Interview.TurnPipeline.Steps.{seq_of, is_initial_task, orchestrate}
use kkori_ai.Interview.TurnPipeline.Sound.{IsSound}
use kkori_ai.Interview.TurnPipeline.Sound.Tasks.{turn-closer, is_valid_decision, needs_root, holds}
use kkori_ai.Interview.TurnPipeline.Sound.Pieces.{
  move, drop, acquire-IsSound, commit_other-IsSound, said_now,
}
use kkori_ai.Interview.TurnPipeline.Sound.Committing.{begin_closing-IsSound}
use kkori_ai.Interview.TurnPipeline.Sound.Speaking.{next_turn-IsSound}

-- a decision that the schema of its phase allows has what its action needs
decision-is_valid :
    (w : Bool) (log : ConversationLog) (d : Decision)
    → IsDecision w log d
    → is_valid_decision d ≡ true
decision-is_valid w log d h = ground (arith, h.typed, h.referred)

forced-plain : (w : Option ℕ) → is_follow_up_action (forced w).action ≡ false
unfolding forced forced_next_topic forced_final_question
forced-plain w = ground arith

plain-is_valid : (d : Decision) → is_follow_up_action d.action ≡ false → is_valid_decision d ≡ true
plain-is_valid d e = ground arith

module _ {base : ConversationLog} (s : TurnPipeline) where
  speak_and_commit-IsSound :
      (t : Task) (seq : ℕ) (text : Text) (q : QuestionType) (f : Option FollowUpType)
      (r : Option Text) (ref : Option ℕ)
      → seq_of t ≡ some seq
      → holds t ≡ 0
      → is_initial_task t ≡ false
      → is_empty text ≡ false
      → is_askable q f r ref ≡ true
      → is_initial q ≡ false
      → (is_follow_up (some q) ≡ true → needs_root t ≡ true)
      → IsSound base (spawn s t)
      → IsSound base (speak_and_commit s seq text q f r ref)
  unfolding speak_and_commit
  speak_and_commit-IsSound t seq text q f r ref e l o b a i n h =
      elim (Bool-cases (is_stale s seq)) [
        | inl v ↦ rw v (drop s t l h)
        | inr v ↦ rw v (
            acquire-IsSound s (asking seq text q f r ref) (
              move s t (waiting (asking seq text q f r ref)) (ground arith) (ground (arith, h.fit))
                (ground arith) (ground arith) (sym l) (omega (arith, turn-closer t seq e)) h))
      ]

  pub after_generation-IsSound :
      (seq : ℕ) (d : Decision) (g : GeneratedQuestion)
      → is_empty g.text ≡ false
      → IsSound base (spawn s (generating seq d))
      → IsSound base (after_generation s seq d g)
  unfolding after_generation
  after_generation-IsSound seq d g b h = elim (Bool-cases (is_stale s seq)) [
    | inl v ↦ rw v (drop s (generating seq d) refl h)
    | inr v ↦ rw v (
        speak_and_commit-IsSound (generating seq d) seq g.text _ _ _ _ refl refl refl b
          (ground (arith, h.valid)) (ground arith) (ground arith) h)
  ]

  speak_final_question-IsSound :
      (t : Task) (seq : ℕ) (d : Decision) (text : Text)
      → seq_of t ≡ some seq
      → holds t ≡ 0
      → is_initial_task t ≡ false
      → is_empty text ≡ false
      → IsSound base (spawn s t)
      → IsSound base (speak_final_question s seq d text)
  unfolding speak_final_question
  speak_final_question-IsSound t seq d text e l i b h = elim (Bool-cases (is_stale s seq)) [
    | inl v ↦ rw v (drop s t l h)
    | inr v ↦
        let sp = last_asking seq text (if from_orchestrator d.source then d.reason else none) in
        rw v (
          acquire-IsSound s sp (
            move s t (waiting sp) (ground arith) (ground (arith, h.fit)) (ground arith)
              (ground arith) (sym l) (omega (arith, turn-closer t seq e)) h))
  ]

  act-IsSound :
      (t : Task) (seq : ℕ) (d : Decision) (text : Text) (a : Action)
      → d.action ≡ a
      → seq_of t ≡ some seq
      → holds t ≡ 0
      → is_initial_task t ≡ false
      → is_empty text ≡ false
      → is_valid_decision d ≡ true
      → (is_follow_up_action d.action ≡ true → needs_root t ≡ true)
      → IsSound base (spawn s t)
      → IsSound base (act s seq d text a)
  unfolding act
  act-IsSound t seq d text Action.end x e l i b v n h =
      begin_closing-IsSound s EndCause.llm_end
        (if from_orchestrator d.source then d.reason else none) (drop s t l h)
  act-IsSound t seq d text Action.final_question x e l i b v n h =
      speak_final_question-IsSound t seq d text e l i b h
  act-IsSound t seq d text Action.next_topic x e l i b v n h =
      move s t (generating seq d) v (ground (arith, h.fit)) (ground arith) (ground arith) (sym l)
        (omega (arith, turn-closer t seq e)) h
  act-IsSound t seq d text Action.follow_up x e l i b v n h =
      move s t (generating seq d) v (ground (arith, h.fit)) (ground arith) (ground arith) (sym l)
        (omega (arith, turn-closer t seq e)) h

  pub after_decision-IsSound :
      (t : Task) (seq : ℕ) (d : Decision) (text : Text)
      → seq_of t ≡ some seq
      → holds t ≡ 0
      → is_initial_task t ≡ false
      → is_empty text ≡ false
      → is_valid_decision d ≡ true
      → (is_follow_up_action d.action ≡ true → needs_root t ≡ true)
      → IsSound base (spawn s t)
      → IsSound base (after_decision s seq d text)
  unfolding after_decision
  after_decision-IsSound t seq d text e l i b v n h = elim (Bool-cases (is_stale s seq)) [
    | inl o ↦ rw o (drop s t l h)
    | inr o ↦ rw o (act-IsSound t seq d text d.action refl e l i b v n h)
  ]

  forced-IsSound :
      (t : Task) (seq : ℕ) (w : Option ℕ) (text : Text)
      → seq_of t ≡ some seq
      → holds t ≡ 0
      → is_initial_task t ≡ false
      → is_empty text ≡ false
      → IsSound base (spawn s t)
      → IsSound base (after_decision s seq (forced w) text)
  forced-IsSound t seq w text e l i b h =
      after_decision-IsSound t seq (forced w) text e l i b
        (plain-is_valid (forced w) (forced-plain w)) (ground (arith, forced-plain w)) h

  pub start_run-IsSound :
      (seq : ℕ) (w : Option ℕ) (text : Text)
      → is_empty text ≡ false
      → IsSound base (spawn s (starting seq))
      → IsSound base (start_run s seq w text)
  unfolding start_run
  start_run-IsSound seq w text b h = elim (Bool-cases (is_forced s)) [
    | inl o ↦ rw o (forced-IsSound (starting seq) seq w text refl refl refl b h)
    | inr o ↦ rw o (
        move s (starting seq) (deciding seq w) refl (ground (arith, h.fit, root o)) (λ e. e)
          (λ e. e) refl (omega arith) h)
  ]
    where
      root : is_forced s ≡ false → is_attachable s.log ≡ true
      root o =
          asked-is_attachable s.log h.log (unfold is_forced in ground arith)
            (unfold is_forced in ground arith)

  pub after_orchestrator-IsSound :
      (seq : ℕ) (w : Option ℕ) (answer : Option (Option OrchestratorAnswer)) (text : Text)
      → is_empty text ≡ false
      → IsSound base (spawn s (deciding seq w))
      → IsSound base (after_orchestrator s seq w (orchestrate w answer s.log) text)
  unfolding after_orchestrator orchestrate
  after_orchestrator-IsSound seq w none text b h =
      forced-IsSound (deciding seq w) seq w text refl refl refl b h
  after_orchestrator-IsSound seq w (some answer) text b h =
      let d = decide (is_some w) answer s.log in
      after_decision-IsSound (deciding seq w) seq d text refl refl refl b
        (decision-is_valid (is_some w) s.log d (decide-IsDecision (is_some w) answer s.log))
        (λ e. refl) h

  pub accept_answer-IsSound :
      (text : Text) (at : Datetime)
      → (last_question_number s.log == 0) ≡ false
      → is_empty text ≡ false
      → is_utc at ≡ true
      → IsSound base s
      → IsSound base (accept_answer s text at)
  unfolding accept_answer commit
  accept_answer-IsSound text at n b c h =
      let (q, e, a) = append_answer-succeeds s.log text at h.log n b c in
      let u = answer_to q text at in
      let k = commit_other-IsSound s u refl refl (answered text at u a) h in
      elim (Bool-cases (is_waiting s.end_state.phase)) [
        | inl w ↦
            elim (Bool-cases
              (is_final_question (question_for s.log (last_question_number s.log)))) [
                | inl f ↦
                    rw (w, f)
                      (subst (λ x. IsSound base (accept_final s x)) (sym a)
                        (unfold accept_final in
                          begin_closing-IsSound (commit s (ok (u, push s.log u)))
                            EndCause.final_question none k))
                | inr f ↦ rw (w, f) h
              ]
        | inr w ↦ rw w (
            subst (λ x. IsSound base (start_turn s x)) (sym a)
              (unfold start_turn in
                next_turn-IsSound (commit s (ok (u, push s.log u))) (said_now s.log.utterances u)
                  k))
      ]
