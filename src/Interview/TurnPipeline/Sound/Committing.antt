-- ===== src/Interview/TurnPipeline/Sound/Committing.antt =====
-- The invariant through the commits and the transitions of the end.
use kkori_ai.Interview.TurnPipeline.Cases.{begin_closing-cases}
use kkori_ai.Prelude.{
  length, length-append, if◌then◌else◌, false, Bool, ℕ, ◌+◌, ◌≤◌, ◌≡◌, refl, sym, subst, true,
  Option, none, some, [], ◌∷◌, ◌++◌, Text, ok, is_empty, arith, Bool-cases, Option-cases, inl, inr,
}
use kkori_ai.Interview.Utterance.{QuestionType, FollowUpType, Datetime, is_utc, is_follow_up}
use kkori_ai.Interview.Log.{
  ConversationLog, append_question, append_closing, current_root, last_question_number, push,
  question, closing_utterance,
}
use kkori_ai.Interview.Log.Succeeds.{
  is_attachable, is_sound_log, is_askable, append_question_self, append_question-follow_up,
  append_closing-succeeds, root_below,
}
use kkori_ai.Interview.Log.Append.{Append, asked, closed}
use kkori_ai.Interview.EndState.{EndState, is_ending, EndPhase, EndCause, try_advance}
use kkori_ai.Interview.EndState.Wins.{state_after}
use kkori_ai.Interview.TurnPipeline.{
  is_over, TurnPipeline, Task, closing, cleaning, spawn, begin_closing, commit, is_void,
  append_asked, commit_asked, commit_last, commit_final, advance, finish_closing, commit_farewell,
}
use kkori_ai.Interview.TurnPipeline.Steps.{live, seq_of}
use kkori_ai.Interview.TurnPipeline.Sound.{IsSound}
use kkori_ai.Interview.TurnPipeline.Sound.Tasks.{closer, closers, is_valid, holds, holders-cons}
use kkori_ai.Interview.TurnPipeline.Sound.Pieces.{
  relog, commit_other-IsSound, commit-question-IsSound,
}

-- a closing task was taken from the list, and the cleanup is still to be called
abbrev pub IsClosing : TurnPipeline → Type 0
IsClosing s = 1 + closers s.tasks + length s.cleanups ≤ (if is_ending s.end_state then 1 else 0)

-- the end is not taken back
advance-is_ending :
    (e : EndState) (to : EndPhase)
    → is_ending e ≡ true
    → is_ending (state_after e (try_advance e to none)) ≡ true
unfolding try_advance
advance-is_ending e to h = ground arith

abbrev begun_state : TurnPipeline → EndCause → Option Text → TurnPipeline
begun_state s cause reason = record s {
  end_state = record { phase = EndPhase.closing; cause = some cause };
  closing_reason = reason;
}

-- the append of a question with the parent `p` succeeds, by a call of the log's method
abbrev Asks :
    ConversationLog
    → Text
    → QuestionType
    → Option FollowUpType
    → Option Text
    → Option ℕ
    → Datetime
    → ℕ
    → Type 0
Asks log text t f r ref at p =
    let q = question (last_question_number log + 1) p t text at f r ref in
    (p ≤ last_question_number log + 1)
    × Append log (push log q)
    × (append_asked log text t f r ref at ≡ ok (q, push log q))

self_asked :
    (log : ConversationLog) (t : QuestionType) (text : Text) (at : Datetime)
    (f : Option FollowUpType) (r : Option Text) (ref : Option ℕ)
    → let n = last_question_number log + 1 in
      let q = question n n t text at f r ref in
      append_question log n n t text at f r ref ≡ ok (q, push log q)
      → append_asked log text t f r ref at ≡ ok (q, push log q)
      → Asks log text t f r ref at n
self_asked log t text at f r ref e d = (omega arith, asked _ _ _ _ _ _ _ _ _ e, d)

append_asked-succeeds :
    (log : ConversationLog) (text : Text) (t : QuestionType) (f : Option FollowUpType)
    (r : Option Text) (ref : Option ℕ) (at : Datetime)
    → is_sound_log log ≡ true
    → is_askable t f r ref ≡ true
    → is_empty text ≡ false
    → is_utc at ≡ true
    → (is_follow_up (some t) ≡ true → is_attachable log ≡ true)
    → (p : ℕ) × Asks log text t f r ref at p
append_asked-succeeds log text QuestionType.follow_up f r ref at s a b c d =
    elim (Option-cases (current_root log)) [
      | inl e ↦ absurd (no_root e)
      | inr (p, e) ↦ (
        p,
        (
          omega (arith, root_below log p e s),
          asked _ _ _ _ _ _ _ _ _ (appended p e),
          appended_asked p e,
        ),
      )
    ]
  where
    no_root : current_root log ≡ none → ⊥
    no_root e = unfold is_attachable in ground (arith, d refl)

    appended :
        (p : ℕ)
        → current_root log ≡ some p
        → let n = last_question_number log + 1 in
          let q = question n p QuestionType.follow_up text at f r ref in
          append_question log n p QuestionType.follow_up text at f r ref ≡ ok (q, push log q)
    appended p e = append_question-follow_up log p text at f r ref e (d refl) s a b c

    appended_asked :
        (p : ℕ)
        → current_root log ≡ some p
        → append_asked log text QuestionType.follow_up f r ref at
          ≡ ok (
            question (last_question_number log + 1) p QuestionType.follow_up text at f r ref,
            push log
                (question (last_question_number log + 1) p QuestionType.follow_up text at f r ref),
          )
    appended_asked p e = unfold append_asked in rw e (appended p e)
append_asked-succeeds log text QuestionType.closing f r ref at s a b c d = absurd (ground arith)
append_asked-succeeds log text QuestionType.initial f r ref at s a b c d = (
  last_question_number log + 1,
  self_asked log QuestionType.initial text at f r ref
      (append_question_self log QuestionType.initial text at f r ref refl a b c)
      (unfold append_asked in
        append_question_self log QuestionType.initial text at f r ref refl a b c),
)
append_asked-succeeds log text QuestionType.topic f r ref at s a b c d = (
  last_question_number log + 1,
  self_asked log QuestionType.topic text at f r ref
      (append_question_self log QuestionType.topic text at f r ref refl a b c)
      (unfold append_asked in
        append_question_self log QuestionType.topic text at f r ref refl a b c),
)
append_asked-succeeds log text QuestionType.final f r ref at s a b c d = (
  last_question_number log + 1,
  self_asked log QuestionType.final text at f r ref
      (append_question_self log QuestionType.final text at f r ref refl a b c)
      (unfold append_asked in
        append_question_self log QuestionType.final text at f r ref refl a b c),
)

module _ {base : ConversationLog} (s : TurnPipeline) where
  -- `release` comes before: `s` is without the task that asked
  pub commit_asked-IsSound :
      (seq : ℕ) (text : Text) (t : QuestionType) (f : Option FollowUpType) (r : Option Text)
      (ref : Option ℕ) (present : Bool) (at : Datetime)
      → is_askable t f r ref ≡ true
      → is_empty text ≡ false
      → is_utc at ≡ true
      → (seq ≡ s.turn_seq → live s.turn_seq s.tasks ≡ 0)
      → (seq ≡ s.turn_seq → is_follow_up (some t) ≡ true → is_attachable s.log ≡ true)
      → IsSound base s
      → IsSound base (commit_asked s seq text t f r ref present at)
  unfolding commit_asked
  commit_asked-IsSound seq text t f r ref present at a b c alone root h =
      elim (Bool-cases (is_void s seq present)) [
        | inl v ↦ rw v h
        | inr v ↦
            let same : seq ≡ s.turn_seq = unfold is_void in ground arith in
            let (p, (le, call, e)) =
              append_asked-succeeds s.log text t f r ref at h.log a b c (root same) in
            rw v (
              subst (λ x. IsSound base (commit s x)) (sym e)
                (commit-question-IsSound s p t text at f r ref le (alone same) call h))
      ]

  pub advance-IsSound : (to : EndPhase) → IsSound base s → IsSound base (advance s to)
  unfolding advance
  advance-IsSound to h =
      relog s (record s { end_state = state_after s.end_state (try_advance s.end_state to none) })
        refl refl refl refl (inl refl) (λ e. e) h.log h.mirror h.grown
        (ground (arith, h.once, advance-is_ending s.end_state to)) h

  -- a task of no turn is spawned
  pub spawn-IsSound :
      (t : Task)
      → seq_of t ≡ none
      → is_valid t ≡ true
      → holds t ≡ 0
      → closer t + closers s.tasks + length s.cleanups ≤ (if is_ending s.end_state then 1 else 0)
      → IsSound base s
      → IsSound base (spawn s t)
  spawn-IsSound t e v l o h = record {
    valid = ground (arith, h.valid);
    fit = ground (arith, h.fit);
    single = ground (arith, h.single);
    lock = omega (arith, holders-cons t s.tasks, h.lock);
    log = h.log;
    clean = h.clean;
    mirror = h.mirror;
    grown = h.grown;
    once = omega (arith, o);
  }

module _ {base : ConversationLog} (s : TurnPipeline) where
  pub begin_closing-IsSound :
      (cause : EndCause) (reason : Option Text)
      → IsSound base s
      → IsSound base (begin_closing s cause reason).1
  begin_closing-IsSound cause reason h =
      subst (λ x. IsSound base x.1) (sym (begin_closing-cases s cause reason))
        (begun (is_over s) (λ o. unfold is_over in ground (arith, h.once)))
    where
      begun :
          (o : Bool)
          → (o ≡ false → closers s.tasks + length s.cleanups ≡ 0)
          → IsSound base
              (if◌then◌else◌ {A = Bool × TurnPipeline} o
                (false, s)
                (true, spawn (begun_state s cause reason) closing)).1
      begun true none_yet = h
      begun false none_yet =
          spawn-IsSound (begun_state s cause reason) closing refl refl refl
            (omega (arith, none_yet refl))
            (relog s (begun_state s cause reason) refl refl refl refl (inl refl) (λ e. e) h.log
              h.mirror h.grown (omega (arith, none_yet refl)) h)

  pub finish_closing-IsSound :
      (cause : EndCause) → IsClosing s → IsSound base s → IsSound base (finish_closing s cause)
  unfolding finish_closing advance
  finish_closing-IsSound cause o h =
      let t = advance s EndPhase.cleaning in
      let u = record t { cleanups = t.cleanups ++ cause ∷ [] } in
      let ending = advance-is_ending s.end_state EndPhase.cleaning in
      let counted = length-append s.cleanups (cause ∷ []) in
      spawn-IsSound u (cleaning cause) refl refl refl (ground (arith, o, ending, counted)) (
        relog s u refl refl refl refl (inl refl) (λ e. e) h.log h.mirror h.grown
          (ground (arith, o, ending, counted)) h)

module _ {base : ConversationLog} (s : TurnPipeline) where
  pub commit_final-IsSound :
      (seq : ℕ) (text : Text) (reason : Option Text) (present : Bool) (at : Datetime)
      → is_empty text ≡ false
      → is_utc at ≡ true
      → (seq ≡ s.turn_seq → live s.turn_seq s.tasks ≡ 0)
      → IsSound base s
      → IsSound base (commit_final s seq text reason present at)
  unfolding commit_final
  commit_final-IsSound seq text reason present at b c alone h =
      let n = last_question_number s.log + 1 in
      let q = question n n QuestionType.final text at none reason none in
      elim (Bool-cases (is_void s seq present)) [
        | inl v ↦ rw v h
        | inr v ↦ rw v (
            subst (λ x. IsSound base (commit_last s x))
              (sym (
                append_question_self s.log QuestionType.final text at none reason none refl refl b
                  c))
              (unfold commit_last in
                advance-IsSound (commit s (ok (q, push s.log q))) EndPhase.waiting_final_answer (
                  commit-question-IsSound s n QuestionType.final text at none reason none
                    (omega arith) (alone (unfold is_void in ground arith))
                    (asked _ _ _ _ _ _ _ _ _ (
                      append_question_self s.log QuestionType.final text at none reason none refl
                        refl b c))
                    h)))
      ]

  pub commit_farewell-IsSound :
      (cause : EndCause) (text : Text) (reason : Option Text) (at : Datetime)
      → is_empty text ≡ false
      → is_utc at ≡ true
      → IsClosing s
      → IsSound base s
      → IsSound base (commit_farewell s cause (append_closing s.log text at reason))
  commit_farewell-IsSound cause text reason at b c o h =
      let u = closing_utterance text at reason in
      subst (λ x. IsSound base (commit_farewell s cause x))
        (sym (append_closing-succeeds s.log text at reason b c))
        (unfold commit_farewell in
          finish_closing-IsSound (commit s (ok (u, push s.log u))) cause o (
            commit_other-IsSound s u refl refl
              (closed text at reason u (append_closing-succeeds s.log text at reason b c)) h))
