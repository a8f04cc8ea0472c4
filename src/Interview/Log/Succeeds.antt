-- ===== src/Interview/Log/Succeeds.antt =====
-- When the appends of the pipeline succeed, and what a log needs for that.
use kkori_ai.Prelude.{
  ℕ, ◌+◌, ◌≤◌, ◌≡◌, refl, ◌∙◌, sym, Bool, true, false, not, ◌&&◌, ◌||◌, Option, none, some, Text,
  ok, is_some, is_empty, leb, ltb, ◌==◌, lt→ltb, if◌then◌else◌, arith, inl, inr, Option-cases,
  any-append_false,
}
use kkori_ai.Interview.Utterance.{
  Utterance, QuestionType, Datetime, FollowUpType, post_init, is_utc, is_follow_up, is_consistency,
  is_topic_or_follow_up,
}
use kkori_ai.Interview.Log.{
  ConversationLog, is_question, last_question, last_question_number, current_root, push, question,
  closing_utterance, answer_to, append_checked, check_parent, append_question, append_answer,
  append_closing, question_for, is_root, has_valid_current_root, has_topic_or_followup_question,
}
use kkori_ai.Interview.Log.Append.{last_question-push}
use kkori_ai.Interview.Log.Roots.{
  last_question-push_other, current_root-push_other, last_question_number-push_other,
  has_valid-push_other, has_valid-at,
}

-- The last question has a number from 1 up and a parent that is not above it.
abbrev pub is_anchored : Option Utterance → Bool
is_anchored none = true
is_anchored (some q) = elim q.question_number [
  | none ↦ false
  | some n ↦ elim q.parent_question_number [ none ↦ false | some p ↦ leb 1 n && leb p n ]
]

-- A log with a last number or a question on a topic has a last question, and that is anchored.
unfoldable pub is_sound_log : ConversationLog → Bool
unfolding last_question last_question_number
is_sound_log log =
    (last_question_number log == 0 && not (has_topic_or_followup_question log)
      || is_some (last_question log))
    && is_anchored (last_question log)

-- A follow-up can attach: there is a current root, and it is valid.
unfoldable pub is_attachable : ConversationLog → Bool
unfolding has_valid_current_root current_root
is_attachable log = has_valid_current_root log && is_some (current_root log)

-- The metadata that a question of the pipeline may have.
abbrev pub is_askable : QuestionType → Option FollowUpType → Option Text → Option ℕ → Bool
is_askable QuestionType.initial f r ref = not (is_some f) && not (is_some r) && not (is_some ref)
is_askable QuestionType.topic f r ref = not (is_some f) && not (is_some ref)
is_askable QuestionType.final f r ref = not (is_some f) && not (is_some ref)
is_askable QuestionType.follow_up f r ref =
    is_some f && (if is_consistency f then is_some ref else not (is_some ref))
is_askable QuestionType.closing f r ref = false

-- the constructor accepts what the pipeline asks
question_valid :
    (n p : ℕ) (t : QuestionType) (text : Text) (at : Datetime) (f : Option FollowUpType)
    (r : Option Text) (ref : Option ℕ)
    → is_askable t f r ref ≡ true
    → is_empty text ≡ false
    → is_utc at ≡ true
    → 1 ≤ n
    → (if is_follow_up (some t) then ltb p n else p == n) ≡ true
    → post_init (question n p t text at f r ref) ≡ ok (question n p t text at f r ref)
unfolding post_init
question_valid n p t text at f r ref a b c d e = ground arith

answer_valid :
    (q : Utterance) (text : Text) (at : Datetime)
    → is_anchored (some q) ≡ true
    → is_empty text ≡ false
    → is_utc at ≡ true
    → post_init (answer_to q text at) ≡ ok (answer_to q text at)
unfolding post_init
answer_valid q text at a b c = ground arith

module _ (log : ConversationLog) where
  append_question_lem :
      (n p : ℕ) (t : QuestionType) (text : Text) (at : Datetime) (f : Option FollowUpType)
      (r : Option Text) (ref : Option ℕ)
      → n ≡ last_question_number log + 1
      → check_parent log t p ≡ ok tt
      → post_init (question n p t text at f r ref) ≡ ok (question n p t text at f r ref)
      → append_question log n p t text at f r ref
        ≡ ok (question n p t text at f r ref, push log (question n p t text at f r ref))
  unfolding append_question
  append_question_lem n p t text at f r ref a b c = ground arith

  self_parent :
      (t : QuestionType) (p : ℕ) → is_follow_up (some t) ≡ false → check_parent log t p ≡ ok tt
  unfolding check_parent
  self_parent t p h = ground arith

  follow_up_parent :
      (p : ℕ)
      → is_root (question_for log p) ≡ true
      → current_root log ≡ some p
      → check_parent log QuestionType.follow_up p ≡ ok tt
  unfolding check_parent
  follow_up_parent p h k = ground arith

  parent_below :
      (p : ℕ) → current_root log ≡ some p → is_sound_log log ≡ true → p ≤ last_question_number log
  unfolding is_sound_log current_root
  parent_below p h k = ground arith

  attachable_root :
      (p : ℕ)
      → current_root log ≡ some p
      → is_attachable log ≡ true
      → is_root (question_for log p) ≡ true
  attachable_root p h k = sym (has_valid-at log p h) ∙ attachable_valid k
    where
      attachable_valid : is_attachable log ≡ true → has_valid_current_root log ≡ true
      attachable_valid k = unfold is_attachable in ground arith

  pub append_question_self :
      (t : QuestionType) (text : Text) (at : Datetime) (f : Option FollowUpType) (r : Option Text)
      (ref : Option ℕ)
      → is_follow_up (some t) ≡ false
      → is_askable t f r ref ≡ true
      → is_empty text ≡ false
      → is_utc at ≡ true
      → let n = last_question_number log + 1 in
        let q = question n n t text at f r ref in
        append_question log n n t text at f r ref ≡ ok (q, push log q)
  append_question_self t text at f r ref a b c d =
      let n = last_question_number log + 1 in
      append_question_lem n n t text at f r ref refl (self_parent t n a)
        (question_valid n n t text at f r ref b c d (omega arith) (ground arith))

  pub append_question-follow_up :
      (p : ℕ) (text : Text) (at : Datetime) (f : Option FollowUpType) (r : Option Text)
      (ref : Option ℕ)
      → current_root log ≡ some p
      → is_attachable log ≡ true
      → is_sound_log log ≡ true
      → is_askable QuestionType.follow_up f r ref ≡ true
      → is_empty text ≡ false
      → is_utc at ≡ true
      → let n = last_question_number log + 1 in
        let q = question n p QuestionType.follow_up text at f r ref in
        append_question log n p QuestionType.follow_up text at f r ref ≡ ok (q, push log q)
  append_question-follow_up p text at f r ref a b c d e g =
      append_question_lem (last_question_number log + 1) p QuestionType.follow_up text at f r ref
        refl (follow_up_parent p (attachable_root p a b) a)
        (question_valid (last_question_number log + 1) p QuestionType.follow_up text at f r ref d e
          g (omega arith)
          (lt→ltb p (last_question_number log + 1) (omega (arith, parent_below p a c))))

  pub append_answer-succeeds :
      (text : Text) (at : Datetime)
      → is_sound_log log ≡ true
      → (last_question_number log == 0) ≡ false
      → is_empty text ≡ false
      → is_utc at ≡ true
      → (q : Utterance) × (last_question log ≡ some q)
        × (append_answer log text at ≡ ok (answer_to q text at, push log (answer_to q text at)))
  append_answer-succeeds text at a b c d = elim (Option-cases (last_question log)) [
    | inl e ↦ absurd (no_number e)
    | inr (q, e) ↦ (q, e, answer_appended q e (answer_valid q text at (last_anchored q e) c d))
  ]
    where
      no_number : last_question log ≡ none → ⊥
      no_number e = unfold is_sound_log in ground arith

      last_anchored : (q : Utterance) → last_question log ≡ some q → is_anchored (some q) ≡ true
      last_anchored q e = unfold is_sound_log in ground arith

      answer_appended :
          (q : Utterance)
          → last_question log ≡ some q
          → post_init (answer_to q text at) ≡ ok (answer_to q text at)
          → append_answer log text at ≡ ok (answer_to q text at, push log (answer_to q text at))
      answer_appended q e v = unfold append_answer in ground arith

  pub append_closing-succeeds :
      (text : Text) (at : Datetime) (r : Option Text)
      → is_empty text ≡ false
      → is_utc at ≡ true
      → append_closing log text at r
        ≡ ok (closing_utterance text at r, push log (closing_utterance text at r))
  unfolding append_closing append_checked post_init
  append_closing-succeeds text at r a b = ground arith

  -- what is no question leaves both judgements alone
  pub is_attachable-push_other :
      (u : Utterance) → is_question u ≡ false → is_attachable (push log u) ≡ is_attachable log
  unfolding is_attachable
  is_attachable-push_other u h = rw (has_valid-push_other log u h, current_root-push_other log u h)

  topics-push_other :
      (u : Utterance)
      → is_topic_or_follow_up u.question_type ≡ false
      → has_topic_or_followup_question (push log u) ≡ has_topic_or_followup_question log
  unfolding has_topic_or_followup_question
  topics-push_other u k =
      any-append_false (λ u. is_topic_or_follow_up u.question_type) log.utterances u k

  -- and the next question makes a sound log
  pub is_sound_log-push-question :
      (p : ℕ) (t : QuestionType) (text : Text) (at : Datetime) (f : Option FollowUpType)
      (r : Option Text) (ref : Option ℕ)
      → p ≤ last_question_number log + 1
      → is_sound_log (push log (question (last_question_number log + 1) p t text at f r ref)) ≡ true
  unfolding is_sound_log
  is_sound_log-push-question p t text at f r ref h =
      rw (last_question-push log (question (last_question_number log + 1) p t text at f r ref))
        (ground arith)

  pub is_sound_log-push_other :
      (u : Utterance)
      → is_question u ≡ false
      → is_topic_or_follow_up u.question_type ≡ false
      → is_sound_log (push log u) ≡ is_sound_log log
  unfolding is_sound_log
  is_sound_log-push_other u h k = rw (
    last_question_number-push_other log u h,
    last_question-push_other log u h,
    topics-push_other u k,
  )

  pub root_below :
      (p : ℕ) → current_root log ≡ some p → is_sound_log log ≡ true → p ≤ last_question_number log
  root_below = parent_below

  -- where the orchestrator is asked, a follow-up can attach
  pub asked-is_attachable :
      is_sound_log log ≡ true
      → has_valid_current_root log ≡ true
      → has_topic_or_followup_question log ≡ true
      → is_attachable log ≡ true
  unfolding is_sound_log is_attachable current_root
  asked-is_attachable a b c = ground arith
