-- ===== src/Interview/Utterance.antt =====
-- agent/src/interview/conversation_log.py: the enumerations, the utterance and its checks.
-- A `datetime` is its wall-clock reading in microseconds and its offset to UTC, if it has one.
-- Question numbers are naturals: the agent numbers from 1 up.
pub mod Form
use kkori_ai.Prelude.{
  ℕ, Bool, true, false, Option, none, some, Text, Outcome, ok, err, ltb, leb, ◌==◌, not, ◌&&◌, ◌||◌,
  is_some, is_empty, if◌then◌else◌,
}
use kkori_ai.Prelude.Int.{ℤ, pos, negsuc}

pub data Speaker : Type 0 where
  interviewer candidate : Speaker

pub data QuestionType : Type 0 where
  initial topic follow_up final closing : QuestionType

pub data Action : Type 0 where
  follow_up next_topic final_question end : Action

pub data FollowUpType : Type 0 where
  deepen concrete verify boundary consistency : FollowUpType

pub record Datetime : Type 0 where
  pub wall : ℕ
  pub utcoffset : Option ℤ

-- `moment.utcoffset() == timedelta(0)`; a naive moment has no offset
abbrev pub is_utc : Datetime → Bool
is_utc d = elim d.utcoffset [ none ↦ false | some z ↦ elim z [ pos n ↦ n == 0 | negsuc n ↦ false ] ]

pub record Utterance : Type 0 where
  pub question_number : Option ℕ
  pub parent_question_number : Option ℕ
  pub speaker : Speaker
  pub content : Text
  pub spoken_at : Datetime
  pub question_type : Option QuestionType
  pub follow_up_type : Option FollowUpType
  pub reason : Option Text
  pub ref_question_number : Option ℕ

-- The `ValueError`s of the module, one for each message.
pub data ValueError : Type 0 where
  empty_content not_utc : ValueError
  closing_not_interviewer closing_numbered closing_metadata : ValueError
  number_missing number_below_one candidate_metadata type_missing : ValueError
  parent_not_before follow_up_type_missing parent_not_self root_follow_up_type : ValueError
  initial_reason ref_missing ref_unexpected : ValueError
  number_gap root_missing root_not_current no_question : ValueError

-- `x is Speaker.INTERVIEWER`
abbrev pub is_interviewer : Speaker → Bool
is_interviewer interviewer = true
is_interviewer candidate = false

abbrev pub is_closing : Option QuestionType → Bool
is_closing (some closing) = true
is_closing _ = false

abbrev pub is_final : Option QuestionType → Bool
is_final (some final) = true
is_final _ = false

abbrev pub is_follow_up : Option QuestionType → Bool
is_follow_up (some QuestionType.follow_up) = true
is_follow_up _ = false

-- `question_type in (QuestionType.INITIAL, QuestionType.TOPIC)`
abbrev pub is_root_type : Option QuestionType → Bool
is_root_type (some initial) = true
is_root_type (some topic) = true
is_root_type _ = false

abbrev pub is_topic_or_follow_up : Option QuestionType → Bool
is_topic_or_follow_up (some topic) = true
is_topic_or_follow_up (some QuestionType.follow_up) = true
is_topic_or_follow_up _ = false

abbrev pub is_initial : QuestionType → Bool
is_initial initial = true
is_initial _ = false

abbrev pub is_consistency : Option FollowUpType → Bool
is_consistency (some consistency) = true
is_consistency _ = false

-- lines 73-80: a closing has no numbers and no question metadata
check_closing : Utterance → Outcome ValueError Utterance
check_closing u =
    if not (is_interviewer u.speaker)
    then err closing_not_interviewer
    else if is_some u.question_number || is_some u.parent_question_number
    then err closing_numbered
    else if is_some u.follow_up_type || is_some u.ref_question_number
    then err closing_metadata
    else ok u

-- lines 113-117: only CONSISTENCY refers to another question
check_ref : Utterance → Outcome ValueError Utterance
check_ref u =
    if is_consistency u.follow_up_type
    then (if is_some u.ref_question_number then ok u else err ref_missing)
    else if is_some u.ref_question_number
    then err ref_unexpected
    else ok u

-- lines 97-117: a question of type `t`, number `n` and parent `p`
check_question : Utterance → ℕ → ℕ → Option QuestionType → Outcome ValueError Utterance
unfolding check_ref
check_question u n p none = err type_missing
check_question u n p (some QuestionType.follow_up) =
    if leb n p
    then err parent_not_before
    else if not (is_some u.follow_up_type)
    then err follow_up_type_missing
    else check_ref u
check_question u n p (some t) =
    if not (p == n)
    then err parent_not_self
    else if is_some u.follow_up_type
    then err root_follow_up_type
    else if is_initial t && is_some u.reason
    then err initial_reason
    else check_ref u

-- lines 87-95: an answer has no question metadata
check_candidate : Utterance → Outcome ValueError Utterance
check_candidate u =
    if is_some u.question_type
      || is_some u.follow_up_type
      || is_some u.reason
      || is_some u.ref_question_number
    then err candidate_metadata
    else ok u

-- lines 82-117: everything but a closing has a number and a parent
check_numbered : Utterance → Option ℕ → Option ℕ → Outcome ValueError Utterance
unfolding check_candidate check_question
check_numbered u (some n) (some p) =
    if ltb n 1
    then err number_below_one
    else if is_interviewer u.speaker
    then check_question u n p u.question_type
    else check_candidate u
check_numbered u _ _ = err number_missing

-- `Utterance(...)`: `__post_init__` raises, or the constructor returns the value.
unfoldable pub post_init : Utterance → Outcome ValueError Utterance
unfolding check_closing check_numbered
post_init u =
    if is_empty u.content
    then err empty_content
    else if not (is_utc u.spoken_at)
    then err not_utc
    else if is_closing u.question_type
    then check_closing u
    else check_numbered u u.question_number u.parent_question_number
