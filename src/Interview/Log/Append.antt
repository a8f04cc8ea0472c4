-- ===== src/Interview/Log/Append.antt =====
-- What an append does to the questions of a conversation log.
use mathlib.Core.List.{reverse-append}
use kkori_ai.Prelude.{
  ℕ, ◌+◌, ◌≡◌, ◌∙◌, true, Option, none, some, [], ◌∷◌, Text, ok, find-append_some, find-append_none,
  if◌then◌else◌, arith, inl, inr, Option-cases,
}
use kkori_ai.Interview.Utterance.{
  QuestionType, FollowUpType, Datetime, Utterance, post_init, is_follow_up,
}
use kkori_ai.Interview.Log.{
  ConversationLog, is_question, last_question, last_question_number, current_root, question_for,
  is_question_numbered, is_root, push, append_checked, question, check_parent, append_question,
  closing_utterance, append_closing, answer_to, append_answer,
}

-- One call of a method that appended.
pub data Append (log : ConversationLog) (next : ConversationLog) : Type 0 where
  asked :
      (n p : ℕ) (t : QuestionType) (content : Text) (at : Datetime) (f : Option FollowUpType)
      (reason : Option Text) (ref : Option ℕ) (u : Utterance)
      → append_question log n p t content at f reason ref ≡ ok (u, next)
      → Append log next
  closed :
      (content : Text) (at : Datetime) (reason : Option Text) (u : Utterance)
      → append_closing log content at reason ≡ ok (u, next)
      → Append log next
  answered :
      (content : Text) (at : Datetime) (u : Utterance)
      → append_answer log content at ≡ ok (u, next)
      → Append log next

-- Any number of appends.
pub data Grows (start : ConversationLog) : ConversationLog → Type 0 where
  here : Grows start start
  more : {log after : ConversationLog} → Grows start log → Append log after → Grows start after

append_checked-ok :
    (log next : ConversationLog) (u v : Utterance)
    → append_checked log u ≡ ok (v, next)
    → (v ≡ u) × (next ≡ push log u) × (post_init u ≡ ok u)
unfolding append_checked post_init
append_checked-ok log next u v h = ground arith

module _ (log : ConversationLog) (u : Utterance) where
  pub last_question-push :
      last_question (push log u) ≡ (if is_question u then some u else last_question log)
  unfolding last_question
  last_question-push = rw (reverse-append log.utterances (u ∷ [])) (ground arith)

  pub question_for-push_known :
      (n : ℕ) (q : Utterance) → question_for log n ≡ some q → question_for (push log u) n ≡ some q
  unfolding question_for
  question_for-push_known n q h =
      find-append_some (is_question_numbered n) log.utterances (u ∷ []) q h

  pub question_for-push_new :
      (n : ℕ)
      → question_for log n ≡ none
      → question_for (push log u) n ≡ (if is_question_numbered n u then some u else none)
  unfolding question_for
  question_for-push_new n h =
      find-append_none (is_question_numbered n) log.utterances (u ∷ []) h ∙ (ground arith)

-- What an appended question passed.
pub record Asked (log next : ConversationLog) (n p : ℕ) (t : QuestionType) (q : Utterance)
    : Type 0 where
  pub pushed : next ≡ push log q
  pub number : n ≡ last_question_number log + 1
  pub valid : post_init q ≡ ok q
  pub parent :
      is_follow_up (some t) ≡ true
      → (is_root (question_for log p) ≡ true) × (current_root log ≡ some p)

module _ (log next : ConversationLog) (n p : ℕ) (t : QuestionType) (content : Text) (at : Datetime)
    (f : Option FollowUpType) (reason : Option Text) (ref : Option ℕ) (u : Utterance)
    (h : append_question log n p t content at f reason ref ≡ ok (u, next)) where
  abbrev asked_utterance : Utterance
  asked_utterance = question n p t content at f reason ref

  checked : append_checked log asked_utterance ≡ ok (u, next)
  unfolding append_question
  checked = ground arith

  pub append_question-Asked : Asked log next n p t asked_utterance
  unfolding append_question check_parent
  append_question-Asked = record {
    pushed = (append_checked-ok log next asked_utterance u checked).1;
    number = ground arith;
    valid = (append_checked-ok log next asked_utterance u checked).2;
    parent = λ e. (ground arith, ground arith);
  }

  pub append_question-value : u ≡ asked_utterance
  append_question-value = (append_checked-ok log next asked_utterance u checked).0

pub append_closing-ok :
    (log next : ConversationLog) (content : Text) (at : Datetime) (reason : Option Text)
    (u : Utterance)
    → append_closing log content at reason ≡ ok (u, next)
    → (u ≡ closing_utterance content at reason)
      × (next ≡ push log (closing_utterance content at reason))
unfolding append_closing
append_closing-ok log next content at reason u h =
    let e = append_checked-ok log next (closing_utterance content at reason) u h in (e.0, e.1)

-- An answer takes the number and the parent of the last question.
pub append_answer-ok :
    (log next : ConversationLog) (content : Text) (at : Datetime) (u : Utterance)
    → append_answer log content at ≡ ok (u, next)
    → (q : Utterance) × (last_question log ≡ some q)
      × (u ≡ answer_to q content at)
      × (next ≡ push log (answer_to q content at))
unfolding append_answer
append_answer-ok log next content at u h = elim (Option-cases (last_question log)) [
  | inl e ↦ absurd (ground arith)
  | inr (q, e) ↦
      let same : append_checked log (answer_to q content at) ≡ ok (u, next) = ground arith in
      let parts = append_checked-ok log next (answer_to q content at) u same in
      (q, e, parts.0, parts.1)
]
