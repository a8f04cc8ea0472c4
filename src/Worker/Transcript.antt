-- ===== src/Worker/Transcript.antt =====
-- worker/src/contract/transcript.py, and the part of worker/src/report/repository.py that reads a
-- transcript. `moment` is datetime.fromisoformat on the texts of one group, as instants;
-- it is an error where that raises.
pub mod Pairs
use kkori_ai.Prelude.{
  ℕ, Bool, true, false, not, ◌&&◌, Option, none, some, List, [], ◌∷◌, ◌++◌, Text, ◌==◌, leb,
  text_eq, is_some, is_empty, select, map, if◌then◌else◌, Outcome, ok, err, ◌>>=◌,
}
use kkori_ai.Worker.Report.{Failure, value_error, index_error}
use kkori_ai.Worker.Group.{traverse, sort_by, grouped}

pub data Speaker : Type 0 where
  interviewer : Speaker
  user : Speaker

pub data QuestionType : Type 0 where
  main : QuestionType
  tail : QuestionType

-- An item of the jsonb array; `none` for a key that it lacks or that is null.
pub record RawUtterance : Type 0 where
  pub question_number : Option ℕ
  pub parent_question_number : Option ℕ
  pub speaker : Option Text
  pub question_type : Option Text
  pub content : Option Text
  pub spoken_at : Option Text

pub record Utterance : Type 0 where
  pub question_number : ℕ
  pub parent_question_number : ℕ
  pub speaker : Speaker
  pub question_type : QuestionType
  pub content : Text
  pub spoken_at : Text

pub record QuestionAnswer : Type 0 where
  pub question_number : ℕ
  pub parent_question_number : ℕ
  pub question_type : QuestionType
  pub question : Text
  pub answer : Text

-- "CANDIDATE"
abbrev pub candidate_text : Text
candidate_text = 67 ∷ 65 ∷ 78 ∷ 68 ∷ 73 ∷ 68 ∷ 65 ∷ 84 ∷ 69 ∷ []

-- "USER"
abbrev pub user_text : Text
user_text = 85 ∷ 83 ∷ 69 ∷ 82 ∷ []

-- "INTERVIEWER"
abbrev pub interviewer_text : Text
interviewer_text = 73 ∷ 78 ∷ 84 ∷ 69 ∷ 82 ∷ 86 ∷ 73 ∷ 69 ∷ 87 ∷ 69 ∷ 82 ∷ []

-- "MAIN"
abbrev pub main_text : Text
main_text = 77 ∷ 65 ∷ 73 ∷ 78 ∷ []

-- "TAIL"
abbrev pub tail_text : Text
tail_text = 84 ∷ 65 ∷ 73 ∷ 76 ∷ []

-- "initial"
abbrev pub initial_text : Text
initial_text = 105 ∷ 110 ∷ 105 ∷ 116 ∷ 105 ∷ 97 ∷ 108 ∷ []

-- "topic"
abbrev pub topic_text : Text
topic_text = 116 ∷ 111 ∷ 112 ∷ 105 ∷ 99 ∷ []

-- "final"
abbrev pub final_text : Text
final_text = 102 ∷ 105 ∷ 110 ∷ 97 ∷ 108 ∷ []

-- "closing"
abbrev pub closing_text : Text
closing_text = 99 ∷ 108 ∷ 111 ∷ 115 ∷ 105 ∷ 110 ∷ 103 ∷ []

-- "followup"
abbrev pub followup_text : Text
followup_text = 102 ∷ 111 ∷ 108 ∷ 108 ∷ 111 ∷ 119 ∷ 117 ∷ 112 ∷ []

abbrev pub speaker_aliases : List (Text × Text)
speaker_aliases = (candidate_text, user_text) ∷ []

abbrev pub question_type_aliases : List (Text × Text)
question_type_aliases =
    (main_text, main_text)
    ∷ (tail_text, tail_text)
    ∷ (initial_text, main_text)
    ∷ (topic_text, main_text)
    ∷ (final_text, main_text)
    ∷ (closing_text, main_text)
    ∷ (followup_text, tail_text)
    ∷ []

-- `aliases.get(key, default)`
abbrev pub get_or : List (Text × Text) → Text → Text → Text
get_or [] key default = default
get_or ((k, v) ∷ rest) key default =
    let found = get_or rest key default in if text_eq k key then v else found

-- `value or "MAIN"`
abbrev pub or_main : Option Text → Text
or_main none = main_text
or_main (some t) = if is_empty t then main_text else t

abbrev pub alias_speaker : Option Text → Option Text
alias_speaker none = none
alias_speaker (some t) = some (get_or speaker_aliases t t)

unfoldable pub normalize_utterance : RawUtterance → RawUtterance
normalize_utterance raw = record raw {
  speaker = alias_speaker raw.speaker;
  question_type = some (get_or question_type_aliases (or_main raw.question_type) main_text);
}

-- The value of a required field.
abbrev pub required : {A : Type 0} → Option A → Outcome Failure A
required none = err value_error
required (some a) = ok a

abbrev pub validate_speaker : Text → Outcome Failure Speaker
validate_speaker t =
    if text_eq t interviewer_text
    then ok interviewer
    else if text_eq t user_text
    then ok user
    else err value_error

abbrev pub validate_question_type : Text → Outcome Failure QuestionType
validate_question_type t =
    if text_eq t main_text
    then ok main
    else if text_eq t tail_text
    then ok tail
    else err value_error

-- `Utterance.model_validate`
unfoldable pub model_validate : RawUtterance → Outcome Failure Utterance
model_validate raw = do
  number ← required raw.question_number
  parent ← required raw.parent_question_number
  speaker_text ← required raw.speaker
  speaker ← validate_speaker speaker_text
  type_text ← required raw.question_type
  question_type ← validate_question_type type_text
  content ← required raw.content
  spoken_at ← required raw.spoken_at
  ok (record {
    question_number = number;
    parent_question_number = parent;
    speaker = speaker;
    question_type = question_type;
    content = content;
    spoken_at = spoken_at;
  })

-- The argument is the content of the session's row of interview_transcript, if it has one.
unfoldable pub load_transcript :
    Option (List RawUtterance) → Outcome Failure (Option (List Utterance))
load_transcript none = ok none
load_transcript (some content) = do
  utterances ←
      traverse (λ u. model_validate (normalize_utterance u))
        (select (λ (u : RawUtterance). is_some u.question_number) content)
  ok (some utterances)

abbrev pub is_user : Utterance → Bool
is_user u = elim u.speaker [ user ↦ true | interviewer ↦ false ]

-- `" ".join(texts)`
abbrev pub join : List Text → Text
join [] = []
join (t ∷ []) = t
join (t ∷ u ∷ r) = t ++ 32 ∷ join (u ∷ r)

-- `sorted(group, key=lambda u: datetime.fromisoformat(u.spokenAt))`
abbrev pub by_time : (Text → Outcome Failure ℕ) → List Utterance → Outcome Failure (List Utterance)
by_time moment group = do
  timed ← traverse (λ u. do t ← moment u.spoken_at; ok (t, u)) group
  ok (map (λ (p : ℕ × Utterance). p.1) (sort_by (λ p q. leb p.0 q.0) timed))

abbrev pub pair_of : ℕ → List Utterance → Outcome Failure QuestionAnswer
pair_of number [] = err index_error
pair_of number (first ∷ rest) = ok (record {
  question_number = number;
  parent_question_number = first.parent_question_number;
  question_type = first.question_type;
  question = join (map (λ u. u.content) (select (λ u. not (is_user u)) (first ∷ rest)));
  answer = join (map (λ u. u.content) (select is_user (first ∷ rest)));
})

-- The pair that the utterances of one number make.
unfoldable pub pair_for :
    (Text → Outcome Failure ℕ) → ℕ × List Utterance → Outcome Failure QuestionAnswer
pair_for moment (number, group) = by_time moment group >>= pair_of number

unfoldable pub group_utterances :
    (Text → Outcome Failure ℕ) → List Utterance → Outcome Failure (List QuestionAnswer)
group_utterances moment utterances =
    traverse (pair_for moment)
      (sort_by (λ p q. leb p.0 q.0) (grouped (λ (u : Utterance). u.question_number) utterances))
