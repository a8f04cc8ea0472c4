-- ===== src/Interview/TurnPipeline/Sound/Pieces.antt =====
-- The invariant through the pieces that the methods share. That a task `t` is taken from the list
-- and goes on in the state `s` is read as `IsSound (spawn s t)`.
use kkori_ai.Interview.EndState.{is_ending}
use kkori_ai.Prelude.{
  length, if◌then◌else◌, ℕ, ◌+◌, ◌≤◌, ◌≡◌, refl, sym, subst, is_empty, ◌∙◌, ap, Bool, true, false,
  Option, List, [], ◌∷◌, ◌++◌, Text, ok, all, ◌||◌, arith, Bool-cases, ◌⊎◌, inl, inr, append_assoc,
}
use kkori_ai.Interview.Utterance.{
  Utterance, QuestionType, FollowUpType, Datetime, is_topic_or_follow_up,
}
use kkori_ai.Interview.Log.{ConversationLog, last_question_number, push, question, is_question}
use kkori_ai.Interview.Log.Succeeds.{
  is_attachable, is_sound_log, is_attachable-push_other, is_sound_log-push_other,
  is_sound_log-push-question,
}
use kkori_ai.Interview.Log.Append.{Append, Grows, more}
use kkori_ai.Interview.TurnPipeline.{
  TurnPipeline, Speech, Task, waiting, saying, spawn, commit, is_dropped, take_lock, has_waiter,
  acquire, release,
}
use kkori_ai.Interview.TurnPipeline.Steps.{live, belongs, opens, opened}
use kkori_ai.Interview.TurnPipeline.Sound.{IsSound, room_for}
use kkori_ai.Interview.TurnPipeline.Sound.Tasks.{
  closer, closers, closers-middle, is_valid, is_fit, holders, holds, holders-cons, holders-middle,
  live-middle, opened-middle, all-middle, fit_old,
}

-- a task is taken out of the list
pub pick :
    {base : ConversationLog} (s : TurnPipeline) (xs ys : List Task) (t : Task)
    → s.tasks ≡ xs ++ t ∷ ys
    → IsSound base s
    → IsSound base (spawn (record s { tasks = xs ++ ys }) t)
pick s xs ys t e h = record {
  valid = sym (all-middle t is_valid xs ys) ∙ ap (all is_valid) (sym e) ∙ h.valid;
  fit =
      sym (all-middle t (is_fit s.turn_seq (is_attachable s.log)) xs ys)
      ∙ ap (all (is_fit s.turn_seq (is_attachable s.log))) (sym e)
      ∙ h.fit;
  single =
      subst (λ b. live s.turn_seq (t ∷ xs ++ ys) ≤ room_for (is_empty s.log.utterances) b)
        (ap (opened s.turn_seq) e ∙ opened-middle t s.turn_seq xs ys)
        (omega (arith, live-middle t s.turn_seq xs ys, ap (live s.turn_seq) e, h.single));
  lock = sym (holders-middle t xs ys) ∙ ap holders (sym e) ∙ h.lock;
  log = h.log;
  clean = h.clean;
  mirror = h.mirror;
  grown = h.grown;
  once = omega (arith, closers-middle t xs ys, ap closers e, h.once);
}

mirrored :
    (base xs es : List Utterance) (u : Utterance)
    → xs ≡ base ++ es
    → xs ++ u ∷ [] ≡ base ++ (es ++ u ∷ [])
mirrored base xs es u m = ap (λ x. x ++ u ∷ []) m ∙ append_assoc base es (u ∷ [])

pub said_something :
    (xs : List Utterance) (u : Utterance) → is_empty (xs ++ u ∷ []) ≡ true → is_empty xs ≡ true
said_something [] u h = refl
said_something (x ∷ xs) u h = h

pub said_now : (xs : List Utterance) (u : Utterance) → is_empty (xs ++ u ∷ []) ≡ false
said_now [] u = refl
said_now (x ∷ xs) u = refl

more_room : (a b o : Bool) (n : ℕ) → (b ≡ true → a ≡ true) → n ≤ room_for a o → n ≤ room_for b o
more_room a b o n h k = ground arith

module _ {base : ConversationLog} (s : TurnPipeline) where
  -- the task ends without a trace
  pub drop : (t : Task) → holds t ≡ 0 → IsSound base (spawn s t) → IsSound base s
  drop t e h = record {
    valid = ground (arith, h.valid);
    fit = ground (arith, h.fit);
    single = ground (arith, h.single);
    lock = omega (arith, holders-cons t s.tasks, h.lock);
    log = h.log;
    clean = h.clean;
    mirror = h.mirror;
    grown = h.grown;
    once = omega (arith, h.once);
  }

  -- the task goes on to another place in the same turn
  pub move :
      (t t' : Task)
      → is_valid t' ≡ true
      → is_fit s.turn_seq (is_attachable s.log) t' ≡ true
      → (belongs s.turn_seq t' ≡ true → belongs s.turn_seq t ≡ true)
      → (opens s.turn_seq t' ≡ true → opens s.turn_seq t ≡ true)
      → holds t' ≡ holds t
      → closer t' ≤ closer t
      → IsSound base (spawn s t)
      → IsSound base (spawn s t')
  move t t' v f b o e cl h = record {
    valid = ground (arith, h.valid);
    fit = ground (arith, h.fit);
    single = ground (arith, h.single);
    lock = omega (arith, holders-cons t s.tasks, holders-cons t' s.tasks, h.lock);
    log = h.log;
    clean = h.clean;
    mirror = h.mirror;
    grown = h.grown;
    once = omega (arith, h.once);
  }

  pub take_lock-IsSound :
      (sp : Speech)
      → s.speaking ≡ false
      → IsSound base (spawn s (waiting sp))
      → IsSound base (take_lock s sp)
  unfolding take_lock
  take_lock-IsSound sp free h = elim (Bool-cases (is_dropped s sp)) [
    | inl d ↦ rw d (drop (waiting sp) refl h)
    | inr d ↦ rw d (record {
      valid = h.valid;
      fit = h.fit;
      single = h.single;
      lock = ground (arith, h.lock);
      log = h.log;
      clean = h.clean;
      mirror = h.mirror;
      grown = h.grown;
      once = h.once;
    })
  ]

  pub acquire-IsSound :
      (sp : Speech) → IsSound base (spawn s (waiting sp)) → IsSound base (acquire s sp)
  unfolding acquire
  acquire-IsSound sp h = elim (Bool-cases (s.speaking || has_waiter s.tasks)) [
    | inl e ↦ rw e h
    | inr e ↦ rw e (take_lock-IsSound sp (ground arith) h)
  ]

  -- the lock is released by the task that holds it
  pub release-IsSound :
      (sp : Speech) (second : Bool)
      → IsSound base (spawn s (saying sp second))
      → IsSound base (release s)
  release-IsSound sp second h = record {
    valid = ground (arith, h.valid);
    fit = ground (arith, h.fit);
    single = ground (arith, h.single);
    lock = ground (arith, h.lock);
    log = h.log;
    clean = h.clean;
    mirror = h.mirror;
    grown = h.grown;
    once = omega (arith, h.once);
  }

  -- a state with the same tasks, turn, lock and failures, whose log is as good
  pub relog :
      (u : TurnPipeline)
      → u.tasks ≡ s.tasks
      → u.turn_seq ≡ s.turn_seq
      → u.speaking ≡ s.speaking
      → u.failures ≡ s.failures
      → (is_attachable u.log ≡ is_attachable s.log) ⊎ (live s.turn_seq s.tasks ≡ 0)
      → (is_empty u.log.utterances ≡ true → is_empty s.log.utterances ≡ true)
      → is_sound_log u.log ≡ true
      → u.log.utterances ≡ base.utterances ++ u.enqueued
      → Grows base u.log
      → closers u.tasks + length u.cleanups ≤ (if is_ending u.end_state then 1 else 0)
      → IsSound base s
      → IsSound base u
  relog u a b c d e said g m gr o h = record {
    valid = ap (all is_valid) a ∙ h.valid;
    fit = refit e;
    single =
        rw (a, b)
          (more_room (is_empty s.log.utterances) (is_empty u.log.utterances)
            (opened s.turn_seq s.tasks) (live s.turn_seq s.tasks) said h.single);
    lock = ap holders a ∙ (ground (arith, h.lock));
    log = g;
    clean = d ∙ h.clean;
    mirror = m;
    grown = gr;
    once = o;
  }
    where
      refit :
          (is_attachable u.log ≡ is_attachable s.log) ⊎ (live s.turn_seq s.tasks ≡ 0)
          → all (is_fit u.turn_seq (is_attachable u.log)) u.tasks ≡ true
      refit (inl same) = rw (a, b, same) h.fit
      refit (inr old) =
          rw (a, b)
            (fit_old s.turn_seq (is_attachable s.log) (is_attachable u.log) s.tasks h.fit old)

  -- something that is no question is appended
  pub commit_other-IsSound :
      (u : Utterance)
      → is_question u ≡ false
      → is_topic_or_follow_up u.question_type ≡ false
      → Append s.log (push s.log u)
      → IsSound base s
      → IsSound base (commit s (ok (u, push s.log u)))
  unfolding commit
  commit_other-IsSound u iq tp call h =
      relog (record s { log = push s.log u; enqueued = s.enqueued ++ u ∷ [] }) refl refl refl refl
        (inl (is_attachable-push_other s.log u iq)) (said_something s.log.utterances u)
        (is_sound_log-push_other s.log u iq tp ∙ h.log)
        (mirrored base.utterances s.log.utterances s.enqueued u h.mirror) (more h.grown call) h.once
        h

  -- a question is appended when no other task is of the current turn
  pub commit-question-IsSound :
      (p : ℕ) (t : QuestionType) (text : Text) (at : Datetime) (f : Option FollowUpType)
      (r : Option Text) (ref : Option ℕ)
      → p ≤ last_question_number s.log + 1
      → live s.turn_seq s.tasks ≡ 0
      → Append s.log (push s.log (question (last_question_number s.log + 1) p t text at f r ref))
      → IsSound base s
      → let q = question (last_question_number s.log + 1) p t text at f r ref in
        IsSound base (commit s (ok (q, push s.log q)))
  unfolding commit
  commit-question-IsSound p t text at f r ref le old call h =
      let q = question (last_question_number s.log + 1) p t text at f r ref in
      relog (record s { log = push s.log q; enqueued = s.enqueued ++ q ∷ [] }) refl refl refl refl
        (inr old) (said_something s.log.utterances q)
        (is_sound_log-push-question s.log p t text at f r ref le)
        (mirrored base.utterances s.log.utterances s.enqueued q h.mirror) (more h.grown call) h.once
        h
