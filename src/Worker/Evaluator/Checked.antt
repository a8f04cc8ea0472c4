-- ===== src/Worker/Evaluator/Checked.antt =====
-- What passes the checks of the model's answer.
use kkori_ai.Prelude.{
  ℕ, zero, suc, ◌≤◌, ◌≡◌, ◌≢◌, refl, ◌↔◌, Bool, true, false, List, [], ◌∷◌, Text, length, is_empty,
  select, map, All, All-map, arith, if◌then◌else◌, ok, err, ap, subst, ◌∙◌,
}
use kkori_ai.Worker.Report.{ImprovementTask, value_error}
use kkori_ai.Worker.Vocabulary.{contains, text_weakness_tags}
use kkori_ai.Worker.Transcript.{QuestionAnswer}
use kkori_ai.Worker.Evaluator.{
  AnswerEvaluation, take_items, known_tags, short_title, sanitize_evaluation, numbers_eq,
  validated_topic_result,
}

module _ {ℓ} {A : Type ℓ} where
  pub length-take_items : (n : ℕ) (xs : List A) → length (take_items n xs) ≤ n
  length-take_items zero xs = ground arith
  length-take_items (suc n) [] = ground arith
  length-take_items (suc n) (x ∷ xs) = ground (arith, length-take_items n xs)

  pub All-take_items {κ} :
      (P : A → Type κ) (n : ℕ) (xs : List A) → All P xs → All P (take_items n xs)
  All-take_items P zero xs h = tt
  All-take_items P (suc n) [] h = tt
  All-take_items P (suc n) (x ∷ xs) h = (h.0, All-take_items P n xs h.1)

  pub select-All : (p : A → Bool) (xs : List A) → All (λ x. p x ≡ true) (select p xs)
  select-All p [] = tt
  select-All p (x ∷ xs) = ground (arith, select-All p xs)

-- At most three tags, all from the vocabulary; at most two tasks, with short titles; no task
-- without a tag.
pub record IsClean (e : AnswerEvaluation) : Type 0 where
  pub few_tags : length e.weakness_tags ≤ 3
  pub tags_known : All (λ t. contains text_weakness_tags t ≡ true) e.weakness_tags
  pub few_tasks : length e.improvement_tasks ≤ 2
  pub titles_short : All (λ (t : ImprovementTask). length t.title ≤ 50) e.improvement_tasks
  pub no_tasks : e.weakness_tags ≡ [] → e.improvement_tasks ≡ []

no_tasks_kept :
    (tags : List Text) (tasks : List ImprovementTask)
    → tags ≡ []
    → take_items 2 (select short_title (if is_empty tags then [] else tasks)) ≡ []
no_tasks_kept [] tasks h = refl
no_tasks_kept (t ∷ ts) tasks h = absurd (ground arith)

titles_kept :
    (tasks : List ImprovementTask)
    → All (λ (t : ImprovementTask). length t.title ≤ 50) (take_items 2 (select short_title tasks))
titles_kept tasks = All-take_items _ 2 _ (
    All-map (λ t. short_title t ≡ true) _ (λ t h. ground arith) (select short_title tasks)
      (select-All short_title tasks))

pub sanitize_evaluation-IsClean : (e : AnswerEvaluation) → IsClean (sanitize_evaluation e)
unfolding sanitize_evaluation
sanitize_evaluation-IsClean e = record {
  few_tags = length-take_items 3 _;
  tags_known = All-take_items _ 3 _ (select-All (contains text_weakness_tags) e.weakness_tags);
  few_tasks = length-take_items 2 _;
  titles_short = titles_kept (if is_empty (known_tags e) then [] else e.improvement_tasks);
  no_tasks = no_tasks_kept (known_tags e) e.improvement_tasks;
}

pub numbers_eq_iff : (xs ys : List ℕ) → (numbers_eq xs ys ≡ true) ↔ (xs ≡ ys)
numbers_eq_iff [] [] = ground arith
numbers_eq_iff [] (y ∷ ys) = ground arith
numbers_eq_iff (x ∷ xs) [] = ground arith
numbers_eq_iff (x ∷ xs) (y ∷ ys) = ground (arith, numbers_eq_iff xs ys)

abbrev pub evaluation_numbers : List AnswerEvaluation → List ℕ
evaluation_numbers es = map (λ (e : AnswerEvaluation). e.question_number) es

abbrev pub topic_numbers : List QuestionAnswer → List ℕ
topic_numbers qs = map (λ (qa : QuestionAnswer). qa.question_number) qs

sanitize-numbers :
    (es : List AnswerEvaluation)
    → evaluation_numbers (map sanitize_evaluation es) ≡ evaluation_numbers es
unfolding sanitize_evaluation
sanitize-numbers [] = refl
sanitize-numbers (e ∷ es) = ap (λ ns. e.question_number ∷ ns) (sanitize-numbers es)

sanitize-All : (es : List AnswerEvaluation) → All IsClean (map sanitize_evaluation es)
sanitize-All [] = tt
sanitize-All (e ∷ es) = (sanitize_evaluation-IsClean e, sanitize-All es)

checked :
    (b : Bool) (evaluations : List AnswerEvaluation) (topic : List QuestionAnswer)
    (out : List AnswerEvaluation)
    → (b ≡ true → evaluation_numbers evaluations ≡ topic_numbers topic)
    → (if b then ok (map sanitize_evaluation evaluations) else err value_error) ≡ ok out
    → (evaluation_numbers out ≡ topic_numbers topic) × All IsClean out
checked false evaluations topic out n e = absurd (ground arith)
checked true evaluations topic out n e =
    let same : map sanitize_evaluation evaluations ≡ out = ground arith in
    subst (λ es. (evaluation_numbers es ≡ topic_numbers topic) × All IsClean es) same
      (sanitize-numbers evaluations ∙ n refl, sanitize-All evaluations)

-- If the check of a topic's evaluations succeeds, they have the numbers of the topic's questions in
-- the same order, and each is clean: at most three tags, all from the vocabulary, at most two
-- tasks, with titles of at most 50 characters, and no task without a tag.
pub validated_topic_result-IsClean :
    (evaluations : List AnswerEvaluation) (topic : List QuestionAnswer)
    (out : List AnswerEvaluation)
    → validated_topic_result evaluations topic ≡ ok out
    → (evaluation_numbers out ≡ topic_numbers topic) × All IsClean out
unfolding validated_topic_result
validated_topic_result-IsClean evaluations topic out e =
    checked _ evaluations topic out
      (numbers_eq_iff (evaluation_numbers evaluations) (topic_numbers topic)).0 e

fails_by :
    (b : Bool) (P : Type 0) (es : List AnswerEvaluation)
    → ((b ≡ true) ↔ P)
    → ((if b then ok es else err value_error) ≡ err value_error) ↔ ¬ P
fails_by true P es h = ground arith
fails_by false P es h = ground arith

-- The check of a topic's evaluations fails exactly when the list of their numbers, in order, is
-- not that of the topic's questions.
pub validated_topic_result-err :
    (evaluations : List AnswerEvaluation) (topic : List QuestionAnswer)
    → (validated_topic_result evaluations topic ≡ err value_error)
      ↔ (evaluation_numbers evaluations ≢ topic_numbers topic)
unfolding validated_topic_result
validated_topic_result-err evaluations topic =
    fails_by _ _ (map sanitize_evaluation evaluations)
      (numbers_eq_iff (evaluation_numbers evaluations) (topic_numbers topic))
