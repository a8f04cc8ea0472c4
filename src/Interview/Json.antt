-- ===== src/Interview/Json.antt =====
-- agent/src/interview/conversation_log.py: the JSON form of an utterance, and the log that is built
-- again from such forms. datetime.isoformat and datetime.fromisoformat are parameters; the second
-- gives `none` where it raises.
pub mod RoundTrip
use kkori_ai.Prelude.{
  ℕ, zero, suc, Bool, true, false, ◌&&◌, Option, none, some, List, [], ◌∷◌, ◌++◌, Text, ◌==◌, max,
  text_eq, is_empty, if◌then◌else◌, Outcome, ok, err, ◌>>=◌,
}
use kkori_ai.Interview.Utterance.{
  Speaker, interviewer, candidate, QuestionType, FollowUpType, deepen, concrete, verify, boundary,
  consistency, initial, topic, final, closing, Datetime, Utterance, ValueError, post_init,
}
use kkori_ai.Interview.Log.{ConversationLog}

-- "+00:00"
abbrev pub utc_suffix : Text
utc_suffix = 43 ∷ 48 ∷ 48 ∷ 58 ∷ 48 ∷ 48 ∷ []

-- "INTERVIEWER"
abbrev pub interviewer_text : Text
interviewer_text = 73 ∷ 78 ∷ 84 ∷ 69 ∷ 82 ∷ 86 ∷ 73 ∷ 69 ∷ 87 ∷ 69 ∷ 82 ∷ []

-- "CANDIDATE"
abbrev pub candidate_text : Text
candidate_text = 67 ∷ 65 ∷ 78 ∷ 68 ∷ 73 ∷ 68 ∷ 65 ∷ 84 ∷ 69 ∷ []

-- "initial"
abbrev pub initial_text : Text
initial_text = 105 ∷ 110 ∷ 105 ∷ 116 ∷ 105 ∷ 97 ∷ 108 ∷ []

-- "topic"
abbrev pub topic_text : Text
topic_text = 116 ∷ 111 ∷ 112 ∷ 105 ∷ 99 ∷ []

-- "followup"
abbrev pub followup_text : Text
followup_text = 102 ∷ 111 ∷ 108 ∷ 108 ∷ 111 ∷ 119 ∷ 117 ∷ 112 ∷ []

-- "final"
abbrev pub final_text : Text
final_text = 102 ∷ 105 ∷ 110 ∷ 97 ∷ 108 ∷ []

-- "closing"
abbrev pub closing_text : Text
closing_text = 99 ∷ 108 ∷ 111 ∷ 115 ∷ 105 ∷ 110 ∷ 103 ∷ []

-- "DEEPEN"
abbrev pub deepen_text : Text
deepen_text = 68 ∷ 69 ∷ 69 ∷ 80 ∷ 69 ∷ 78 ∷ []

-- "CONCRETE"
abbrev pub concrete_text : Text
concrete_text = 67 ∷ 79 ∷ 78 ∷ 67 ∷ 82 ∷ 69 ∷ 84 ∷ 69 ∷ []

-- "VERIFY"
abbrev pub verify_text : Text
verify_text = 86 ∷ 69 ∷ 82 ∷ 73 ∷ 70 ∷ 89 ∷ []

-- "BOUNDARY"
abbrev pub boundary_text : Text
boundary_text = 66 ∷ 79 ∷ 85 ∷ 78 ∷ 68 ∷ 65 ∷ 82 ∷ 89 ∷ []

-- "CONSISTENCY"
abbrev pub consistency_text : Text
consistency_text = 67 ∷ 79 ∷ 78 ∷ 83 ∷ 73 ∷ 83 ∷ 84 ∷ 69 ∷ 78 ∷ 67 ∷ 89 ∷ []

-- The dictionary; `none` for a key that it lacks.
pub record UtteranceDict : Type 0 where
  pub question_number : Option ℕ
  pub parent_question_number : Option ℕ
  pub speaker : Option Text
  pub question_type : Option Text
  pub follow_up_type : Option Text
  pub reason : Option Text
  pub ref_question_number : Option ℕ
  pub content : Option Text
  pub spoken_at : Option Text

pub data JsonError : Type 0 where
  spoken_at_missing spoken_at_malformed speaker_missing unknown_value : JsonError
  refused : ValueError → JsonError

-- `str(speaker)` and the like
abbrev pub speaker_text : Speaker → Text
speaker_text interviewer = interviewer_text
speaker_text candidate = candidate_text

abbrev pub question_type_text : QuestionType → Text
question_type_text initial = initial_text
question_type_text topic = topic_text
question_type_text QuestionType.follow_up = followup_text
question_type_text final = final_text
question_type_text closing = closing_text

abbrev pub follow_up_type_text : FollowUpType → Text
follow_up_type_text deepen = deepen_text
follow_up_type_text concrete = concrete_text
follow_up_type_text verify = verify_text
follow_up_type_text boundary = boundary_text
follow_up_type_text consistency = consistency_text

-- `Speaker(text)` and the like
abbrev pub read_speaker : Option Text → Outcome JsonError Speaker
read_speaker none = err speaker_missing
read_speaker (some t) =
    if text_eq t interviewer_text
    then ok interviewer
    else if text_eq t candidate_text
    then ok candidate
    else err unknown_value

abbrev pub read_question_type : Text → Outcome JsonError (Option QuestionType)
read_question_type t =
    if text_eq t initial_text
    then ok (some initial)
    else if text_eq t topic_text
    then ok (some topic)
    else if text_eq t followup_text
    then ok (some QuestionType.follow_up)
    else if text_eq t final_text
    then ok (some final)
    else if text_eq t closing_text
    then ok (some closing)
    else err unknown_value

abbrev pub read_follow_up_type : Text → Outcome JsonError (Option FollowUpType)
read_follow_up_type t =
    if text_eq t deepen_text
    then ok (some deepen)
    else if text_eq t concrete_text
    then ok (some concrete)
    else if text_eq t verify_text
    then ok (some verify)
    else if text_eq t boundary_text
    then ok (some boundary)
    else if text_eq t consistency_text
    then ok (some consistency)
    else err unknown_value

-- `Enumeration(text) if text else None`
abbrev pub if_given :
    {A : Type 0}
    → (Text → Outcome JsonError (Option A))
    → Option Text
    → Outcome JsonError (Option A)
if_given read none = ok none
if_given read (some []) = ok none
if_given read (some (c ∷ t)) = read (c ∷ t)

-- `text.replace("Z", "+00:00")`
abbrev pub replace_z : Text → Text
replace_z [] = []
replace_z (c ∷ t) = let rest = replace_z t in if c == 90 then utc_suffix ++ rest else c ∷ rest

abbrev pub is_prefix : Text → Text → Bool
is_prefix [] t = true
is_prefix (c ∷ p) [] = false
is_prefix (c ∷ p) (d ∷ t) = c == d && is_prefix p t

-- `text.replace("+00:00", "Z")`; the number counts what is left of an occurrence.
abbrev pub replace_utc : ℕ → Text → Text
replace_utc n [] = []
replace_utc zero (c ∷ t) =
    let skipped = replace_utc 5 t in
    let rest = replace_utc 0 t in if is_prefix utc_suffix (c ∷ t) then 90 ∷ skipped else c ∷ rest
replace_utc (suc n) (c ∷ t) = replace_utc n t

abbrev pub read_spoken_at : (Text → Option Datetime) → Option Text → Outcome JsonError Datetime
read_spoken_at fromisoformat none = err spoken_at_missing
read_spoken_at fromisoformat (some raw) = elim (fromisoformat (replace_z raw)) [
  | none ↦ err spoken_at_malformed
  | some d ↦ ok d
]

-- `data.get("content", "")`
abbrev pub or_empty : Option Text → Text
or_empty none = []
or_empty (some t) = t

abbrev pub constructed : Outcome ValueError Utterance → Outcome JsonError Utterance
constructed (ok u) = ok u
constructed (err e) = err (refused e)

unfoldable pub from_json_dict :
    (Text → Option Datetime) → UtteranceDict → Outcome JsonError Utterance
from_json_dict fromisoformat item = do
  spoken_at ← read_spoken_at fromisoformat item.spoken_at
  speaker ← read_speaker item.speaker
  question_type ← if_given read_question_type item.question_type
  follow_up_type ← if_given read_follow_up_type item.follow_up_type
  constructed (
      post_init (record {
        question_number = item.question_number;
        parent_question_number = item.parent_question_number;
        speaker = speaker;
        content = or_empty item.content;
        spoken_at = spoken_at;
        question_type = question_type;
        follow_up_type = follow_up_type;
        reason = item.reason;
        ref_question_number = item.ref_question_number;
      }))

abbrev pub text_of : {A : Type 0} → (A → Text) → Option A → Option Text
text_of f none = none
text_of f (some a) = some (f a)

unfoldable pub to_json_dict : (Datetime → Text) → Utterance → UtteranceDict
to_json_dict isoformat u = record {
  question_number = u.question_number;
  parent_question_number = u.parent_question_number;
  speaker = some (speaker_text u.speaker);
  question_type = text_of question_type_text u.question_type;
  follow_up_type = text_of follow_up_type_text u.follow_up_type;
  reason = u.reason;
  ref_question_number = u.ref_question_number;
  content = some u.content;
  spoken_at = some (replace_utc 0 (isoformat u.spoken_at));
}

-- The utterances that can be read, and how many items cannot.
abbrev pub kept_item : Outcome JsonError Utterance → List Utterance × ℕ → List Utterance × ℕ
kept_item (ok u) (us, dropped) = (u ∷ us, dropped)
kept_item (err e) (us, dropped) = (us, suc dropped)

abbrev pub readable : (Text → Option Datetime) → List UtteranceDict → List Utterance × ℕ
readable fromisoformat [] = ([], 0)
readable fromisoformat (d ∷ ds) =
    kept_item (from_json_dict fromisoformat d) (readable fromisoformat ds)

-- `max((u.question_number ... if ... is not None), default=0)`
abbrev pub highest : List Utterance → ℕ
highest [] = 0
highest (u ∷ us) = elim u.question_number [ none ↦ highest us | some n ↦ max n (highest us) ]

unfoldable pub rebuild_conversation_log :
    (Text → Option Datetime) → List UtteranceDict → ConversationLog × ℕ
rebuild_conversation_log fromisoformat items =
    let (us, dropped) = readable fromisoformat items in
    (record { utterances = us; number_floor = highest us }, dropped)
