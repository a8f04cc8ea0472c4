-- ===== src/Interview/Log.antt =====
-- agent/src/interview/conversation_log.py: `class ConversationLog`. A method that appends returns
-- the new utterance with the log, or the `ValueError` that it raises.
pub mod Append
pub mod Numbering
pub mod Roots
pub mod Succeeds
use mathlib.Core.List.{reverse}
use kkori_ai.Prelude.{
  ℕ, zero, suc, ◌+◌, ◌-◌, max, Bool, true, false, Option, none, some, List, [], ◌∷◌, ◌++◌, map,
  Text, Outcome, ok, err, ◌==◌, not, ◌&&◌, is_some, is_number, is_empty, find, select, any, length,
  if◌then◌else◌, ltb, ◌>>=◌, ◌>>◌,
}
use kkori_ai.Interview.Utterance.{
  Speaker, QuestionType, FollowUpType, Datetime, Utterance, ValueError, post_init, is_interviewer,
  is_follow_up, is_root_type, is_topic_or_follow_up, number_gap, root_missing, root_not_current,
  no_question,
}

pub record ConversationLog : Type 0 where
  pub utterances : List Utterance
  pub number_floor : ℕ

-- `ConversationLog()`
abbrev pub empty : ConversationLog
empty = record { utterances = []; number_floor = 0 }

-- `u.speaker is Speaker.INTERVIEWER and u.question_number is not None`
abbrev pub is_question : Utterance → Bool
is_question u = is_interviewer u.speaker && is_some u.question_number

-- `_last_question`
unfoldable pub last_question : ConversationLog → Option Utterance
last_question log = find is_question (reverse log.utterances)

-- `last.question_number if last else 0`
abbrev pub number_of : Option Utterance → ℕ
number_of none = 0
number_of (some u) = elim u.question_number [ none ↦ 0 | some n ↦ n ]

unfoldable pub last_question_number : ConversationLog → ℕ
unfolding last_question
last_question_number log = max log.number_floor (number_of (last_question log))

abbrev pub parent_of : Option Utterance → Option ℕ
parent_of none = none
parent_of (some u) = u.parent_question_number

unfoldable pub current_root : ConversationLog → Option ℕ
unfolding last_question
current_root log = parent_of (last_question log)

unfoldable pub branch : ConversationLog → ℕ → List Utterance
branch log root = select (λ u. is_number u.parent_question_number root) log.utterances

branch_at : ConversationLog → Option ℕ → List Utterance
unfolding branch
branch_at log none = []
branch_at log (some root) = branch log root

unfoldable pub current_branch : ConversationLog → List Utterance
unfolding branch_at current_root
current_branch log = branch_at log (current_root log)

abbrev pub mem_number : ℕ → List ℕ → Bool
mem_number n = any (λ m. m == n)

-- the loop of `branch_roots`
abbrev add_root : List ℕ → Option ℕ → List ℕ
add_root roots none = roots
add_root roots (some n) = if mem_number n roots then roots else roots ++ n ∷ []

roots_from : List ℕ → List Utterance → List ℕ
roots_from roots [] = roots
roots_from roots (u ∷ us) = roots_from (add_root roots u.parent_question_number) us

unfoldable pub branch_roots : ConversationLog → List ℕ
unfolding roots_from
branch_roots log = roots_from [] log.utterances

unfoldable pub previous_branches : ConversationLog → List (List Utterance)
unfolding branch_roots branch current_root
previous_branches log =
    map (branch log) (select (λ root. not (is_number (current_root log) root)) (branch_roots log))

-- `xs[-n:]` for a positive `n`
abbrev pub take_last {ℓ} : {A : Type ℓ} → ℕ → List A → List A
take_last n [] = []
take_last n (x ∷ xs) = let rest = take_last n xs in if ltb n (length (x ∷ xs)) then rest else x ∷ xs

unfoldable pub recent_branches : ConversationLog → ℕ → List (List Utterance)
unfolding branch_roots branch
recent_branches log n = map (branch log) (if ltb 0 n then take_last n (branch_roots log) else [])

unfoldable pub followup_count_in_current_branch : ConversationLog → ℕ
unfolding current_branch
followup_count_in_current_branch log =
    length (select (λ u. is_follow_up u.question_type) (current_branch log))

abbrev pub is_question_numbered : ℕ → Utterance → Bool
is_question_numbered n u = is_interviewer u.speaker && is_number u.question_number n

unfoldable pub question_for : ConversationLog → ℕ → Option Utterance
question_for log n = find (is_question_numbered n) log.utterances

unfoldable pub all_question_contents : ConversationLog → List Text
all_question_contents log = map (λ u. u.content) (select is_question log.utterances)

unfoldable pub has_topic_or_followup_question : ConversationLog → Bool
has_topic_or_followup_question log = any (λ u. is_topic_or_follow_up u.question_type) log.utterances

-- `root is not None and root.question_type in (INITIAL, TOPIC)`
abbrev pub is_root : Option Utterance → Bool
is_root none = false
is_root (some u) = is_root_type u.question_type

root_at : ConversationLog → Option ℕ → Bool
unfolding question_for
root_at log none = true
root_at log (some root) = is_root (question_for log root)

unfoldable pub has_valid_current_root : ConversationLog → Bool
unfolding root_at current_root
has_valid_current_root log = root_at log (current_root log)

-- `self._utterances.append(utterance)`
abbrev pub push : ConversationLog → Utterance → ConversationLog
push log u = record log { utterances = log.utterances ++ u ∷ [] }

abbrev pub Appended : Type 0
Appended = Outcome ValueError (Utterance × ConversationLog)

-- the constructor's checks, then the append
append_checked : ConversationLog → Utterance → Appended
unfolding post_init
append_checked log u = elim (post_init u) [ ok v ↦ ok (v, push log v) | err e ↦ err e ]

abbrev pub question :
    ℕ
    → ℕ
    → QuestionType
    → Text
    → Datetime
    → Option FollowUpType
    → Option Text
    → Option ℕ
    → Utterance
question n p t content at f reason ref = record {
  question_number = some n;
  parent_question_number = some p;
  speaker = Speaker.interviewer;
  content = content;
  spoken_at = at;
  question_type = some t;
  follow_up_type = f;
  reason = reason;
  ref_question_number = ref;
}

-- the checks of a follow-up's parent
check_parent : ConversationLog → QuestionType → ℕ → Outcome ValueError (Unit {0})
unfolding question_for current_root
check_parent log t p =
    if not (is_follow_up (some t))
    then ok tt
    else if not (is_root (question_for log p))
    then err root_missing
    else if not (is_number (current_root log) p)
    then err root_not_current
    else ok tt

unfoldable pub append_question :
    ConversationLog
    → ℕ
    → ℕ
    → QuestionType
    → Text
    → Datetime
    → Option FollowUpType
    → Option Text
    → Option ℕ
    → Appended
unfolding last_question_number check_parent append_checked
append_question log n p t content at f reason ref =
    if not (n == last_question_number log + 1)
    then err number_gap
    else (do check_parent log t p; append_checked log (question n p t content at f reason ref))

abbrev pub closing_utterance : Text → Datetime → Option Text → Utterance
closing_utterance content at reason = record {
  question_number = none;
  parent_question_number = none;
  speaker = Speaker.interviewer;
  content = content;
  spoken_at = at;
  question_type = some QuestionType.closing;
  follow_up_type = none;
  reason = reason;
  ref_question_number = none;
}

unfoldable pub append_closing : ConversationLog → Text → Datetime → Option Text → Appended
unfolding append_checked
append_closing log content at reason = append_checked log (closing_utterance content at reason)

abbrev pub answer_to : Utterance → Text → Datetime → Utterance
answer_to q content at = record {
  question_number = q.question_number;
  parent_question_number = q.parent_question_number;
  speaker = Speaker.candidate;
  content = content;
  spoken_at = at;
  question_type = none;
  follow_up_type = none;
  reason = none;
  ref_question_number = none;
}

unfoldable pub append_answer : ConversationLog → Text → Datetime → Appended
unfolding last_question append_checked
append_answer log content at = elim (last_question log) [
  | none ↦ err no_question
  | some q ↦ append_checked log (answer_to q content at)
]
