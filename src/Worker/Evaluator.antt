-- ===== src/Worker/Evaluator.antt =====
-- worker/src/report/evaluator.py: topics, the checks of the model's answer and the evaluators. The
-- prompts are not modelled; a call of the model is an argument.
pub mod Checked
pub mod Topics
use kkori_ai.Prelude.{
  ℕ, zero, suc, Bool, true, false, ◌&&◌, Option, none, some, List, [], ◌∷◌, ◌++◌, Text, ◌==◌, leb,
  length, is_empty, any, select, find, map, if◌then◌else◌, Outcome, ok, err, ◌>>=◌,
}
use kkori_ai.Worker.Report.{ImprovementTask, Failure, value_error, other}
use kkori_ai.Worker.Vocabulary.{contains, text_weakness_tags}
use kkori_ai.Worker.Group.{sort_by, grouped}
use kkori_ai.Worker.Transcript.{QuestionAnswer}

abbrev pub max_tags_per_answer : ℕ
max_tags_per_answer = 3

abbrev pub max_tasks_per_answer : ℕ
max_tasks_per_answer = 2

abbrev pub max_task_title_len : ℕ
max_task_title_len = 50

pub record AnswerEvaluation : Type 0 where
  pub question_number : ℕ
  pub logic_score : ℕ
  pub specificity_score : ℕ
  pub technical_accuracy_score : ℕ
  pub feedback : Text
  pub weakness_tags : List Text
  pub improvement_tasks : List ImprovementTask

pub record EvaluatedAnswer : Type 0 where
  pub qa : QuestionAnswer
  pub evaluation : AnswerEvaluation

unfoldable pub group_topics : List QuestionAnswer → List (List QuestionAnswer)
group_topics pairs =
    map (λ (p : ℕ × List QuestionAnswer). p.1)
      (sort_by (λ p q. leb p.0 q.0)
        (grouped (λ (qa : QuestionAnswer). qa.parent_question_number) pairs))

-- The protocol. The number is the number of the call, since a model may answer differently each time.
pub record Evaluator : Type 0 where
  pub evaluate_topic : ℕ → List QuestionAnswer → Outcome Failure (List AnswerEvaluation)
  pub summarize : ℕ → List EvaluatedAnswer → Outcome Failure Text

-- `items[:n]`
abbrev pub take_items {ℓ} : {A : Type ℓ} → ℕ → List A → List A
take_items zero xs = []
take_items (suc n) [] = []
take_items (suc n) (x ∷ xs) = x ∷ take_items n xs

abbrev pub known_tags : AnswerEvaluation → List Text
known_tags e = take_items max_tags_per_answer (select (contains text_weakness_tags) e.weakness_tags)

abbrev pub short_title : ImprovementTask → Bool
short_title t = leb (length t.title) max_task_title_len

unfoldable pub sanitize_evaluation : AnswerEvaluation → AnswerEvaluation
sanitize_evaluation e =
    let tags = known_tags e in
    let tasks = if is_empty tags then [] else e.improvement_tasks in
    record e {
      weakness_tags = tags;
      improvement_tasks = take_items max_tasks_per_answer (select short_title tasks);
    }

-- `received == sent`
abbrev pub numbers_eq : List ℕ → List ℕ → Bool
numbers_eq [] [] = true
numbers_eq (x ∷ xs) (y ∷ ys) = x == y && numbers_eq xs ys
numbers_eq _ _ = false

unfoldable pub validated_topic_result :
    List AnswerEvaluation → List QuestionAnswer → Outcome Failure (List AnswerEvaluation)
validated_topic_result evaluations topic =
    if numbers_eq (map (λ (e : AnswerEvaluation). e.question_number) evaluations)
      (map (λ (qa : QuestionAnswer). qa.question_number) topic)
    then ok (map sanitize_evaluation evaluations)
    else err value_error

-- `FakeEvaluator`
pub record FakeEvaluator : Type 0 where
  pub results : List (ℕ × AnswerEvaluation)
  pub default : AnswerEvaluation
  pub summary : Text
  pub fail_on : List ℕ

-- `self._results.get(number, self._default)`
abbrev pub result_for : List (ℕ × AnswerEvaluation) → AnswerEvaluation → ℕ → AnswerEvaluation
result_for [] default n = default
result_for ((k, e) ∷ rest) default n =
    let found = result_for rest default n in if k == n then e else found

-- "RuntimeError"
abbrev pub runtime_error : Text
runtime_error = 82 ∷ 117 ∷ 110 ∷ 116 ∷ 105 ∷ 109 ∷ 101 ∷ 69 ∷ 114 ∷ 114 ∷ 111 ∷ 114 ∷ []

unfoldable pub fake_evaluate_topic :
    FakeEvaluator → List QuestionAnswer → Outcome Failure (List AnswerEvaluation)
fake_evaluate_topic self topic =
    if any (λ (qa : QuestionAnswer). any (λ n. n == qa.question_number) self.fail_on) topic
    then err (other runtime_error)
    else ok (
        map
          (λ (qa : QuestionAnswer).
            record (result_for self.results self.default qa.question_number) {
              question_number = qa.question_number;
            })
          topic)

-- What a call of the model gave: whether it was cut at its limit, and for each of its blocks the
-- input of the tool as `model_validate` took it, or `none` for another block.
pub record Message (A : Type 0) : Type 0 where
  pub max_tokens : Bool
  pub content : List (Option (Outcome Failure A))

-- `for block in message.content: if block.type == "tool_use": return ...`
abbrev pub first_tool_use : {A : Type 0} → List (Option (Outcome Failure A)) → Outcome Failure A
first_tool_use [] = err value_error
first_tool_use (none ∷ rest) = first_tool_use rest
first_tool_use (some input ∷ rest) = input

abbrev pub tool_input : {A : Type 0} → Message A → Outcome Failure A
tool_input message = if message.max_tokens then err value_error else first_tool_use message.content

-- `BedrockEvaluator.evaluate_topic` from the model's message on
unfoldable pub bedrock_evaluate_topic :
    Outcome Failure (Message (List AnswerEvaluation))
    → List QuestionAnswer
    → Outcome Failure (List AnswerEvaluation)
bedrock_evaluate_topic reply topic = do
  message ← reply
  raw ← tool_input message
  validated_topic_result raw topic

-- `BedrockEvaluator.summarize` from the model's message on
unfoldable pub bedrock_summarize : Outcome Failure (Message Text) → Outcome Failure Text
bedrock_summarize reply = do message ← reply; tool_input message

-- `BedrockEvaluator` on the replies of the model
abbrev pub bedrock_evaluator :
    (ℕ → List QuestionAnswer → Outcome Failure (Message (List AnswerEvaluation)))
    → (ℕ → List EvaluatedAnswer → Outcome Failure (Message Text))
    → Evaluator
bedrock_evaluator evaluate summary = record {
  evaluate_topic = λ call topic. bedrock_evaluate_topic (evaluate call topic) topic;
  summarize = λ call answers. bedrock_summarize (summary call answers);
}

-- `FakeEvaluator` as an evaluator
abbrev pub fake_evaluator : FakeEvaluator → Evaluator
fake_evaluator self = record {
  evaluate_topic = λ call topic. fake_evaluate_topic self topic;
  summarize = λ call answers. ok self.summary;
}
