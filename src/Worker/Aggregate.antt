-- ===== src/Worker/Aggregate.antt =====
-- worker/src/report/pipeline.py: the scores of a session, its most frequent tags, and the records
-- that are stored. The mean is exact where the source divides floating-point numbers.
pub mod Bounds
use kkori_ai.Prelude.{
  ℕ, suc, ◌+◌, Bool, ◌&&◌, ◌||◌, List, [], ◌∷◌, ◌++◌, Text, ltb, leb, ◌==◌, length, text_eq, map,
  if◌then◌else◌, Outcome, ok, err, ◌>>=◌,
}
use kkori_ai.Worker.Report.{SessionScores, FeedbackRecord, WeaknessTagCount, Failure, zero_division}
use kkori_ai.Worker.Repository.{round_div}
use kkori_ai.Worker.Vocabulary.{text_weakness_tags}
use kkori_ai.Worker.Group.{sort_by}
use kkori_ai.Worker.Evaluator.{AnswerEvaluation, EvaluatedAnswer, take_items}

abbrev pub sum : List ℕ → ℕ
sum [] = 0
sum (n ∷ ns) = n + sum ns

-- Without values the division raises.
unfoldable pub round_mean : List ℕ → Outcome Failure ℕ
round_mean [] = err zero_division
round_mean (v ∷ vs) = ok (round_div (sum (v ∷ vs)) (length (v ∷ vs)))

unfoldable pub aggregate_scores : List EvaluatedAnswer → Outcome Failure SessionScores
aggregate_scores evaluated = do
  logic ← round_mean (map (λ (a : EvaluatedAnswer). a.evaluation.logic_score) evaluated)
  specificity ← round_mean (map (λ (a : EvaluatedAnswer). a.evaluation.specificity_score) evaluated)
  accuracy ←
      round_mean (map (λ (a : EvaluatedAnswer). a.evaluation.technical_accuracy_score) evaluated)
  ok (record {
    logic_score = logic;
    specificity_score = specificity;
    technical_accuracy_score = accuracy;
  })

-- `Counter` of tags, in the order in which they came first
abbrev pub count_tag : Text → List WeaknessTagCount → List WeaknessTagCount
count_tag tag [] = record { tag = tag; count = 1 } ∷ []
count_tag tag (c ∷ rest) =
    let more = count_tag tag rest in
    if text_eq tag c.tag then record c { count = suc c.count } ∷ rest else c ∷ more

abbrev pub count_tags : List Text → List WeaknessTagCount → List WeaknessTagCount
count_tags [] counts = counts
count_tags (tag ∷ tags) counts = count_tags tags (count_tag tag counts)

abbrev pub all_tags : List EvaluatedAnswer → List Text
all_tags [] = []
all_tags (a ∷ rest) = a.evaluation.weakness_tags ++ all_tags rest

-- The position of a tag in a vocabulary, or the length of the vocabulary.
abbrev pub order_in : List Text → Text → ℕ
order_in [] tag = 0
order_in (t ∷ ts) tag = let rest = order_in ts tag in if text_eq t tag then 0 else suc rest

-- `(-count, order)` of the one is not above that of the other
abbrev pub ranks_before : WeaknessTagCount → WeaknessTagCount → Bool
ranks_before a b =
    ltb b.count a.count
    || (a.count == b.count
        && leb (order_in text_weakness_tags a.tag) (order_in text_weakness_tags b.tag))

unfoldable pub aggregate_tag_summary : List EvaluatedAnswer → List WeaknessTagCount
aggregate_tag_summary evaluated =
    take_items 3 (sort_by ranks_before (count_tags (all_tags evaluated) []))

unfoldable pub to_feedback : EvaluatedAnswer → FeedbackRecord
to_feedback answer = record {
  question_number = answer.evaluation.question_number;
  logic_score = answer.evaluation.logic_score;
  specificity_score = answer.evaluation.specificity_score;
  technical_accuracy_score = answer.evaluation.technical_accuracy_score;
  feedback = answer.evaluation.feedback;
  weakness_tags = answer.evaluation.weakness_tags;
  improvement_tasks = answer.evaluation.improvement_tasks;
}
