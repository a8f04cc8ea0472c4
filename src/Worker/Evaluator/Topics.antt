-- ===== src/Worker/Evaluator/Topics.antt =====
-- The topics of an interview.
use kkori_ai.Prelude.{ℕ, ◌≡◌, refl, List, map}
use kkori_ai.Worker.Group.{sort_by, grouped}
use kkori_ai.Worker.Group.Partition.{IsPartition, by_key, grouped-IsPartition}
use kkori_ai.Worker.Transcript.{QuestionAnswer}
use kkori_ai.Worker.Evaluator.{group_topics}

abbrev pub parent : QuestionAnswer → ℕ
parent qa = qa.parent_question_number

-- The topics are the groups of a partition of the pairs by their parents: the parents ascend, each
-- is the parent of a pair, each parent of a pair is there, and the topic of a parent is all pairs
-- with this parent in their order.
pub group_topics-IsPartition :
    (pairs : List QuestionAnswer)
    → (groups : List (ℕ × List QuestionAnswer)) × (group_topics pairs
        ≡ map (λ (p : ℕ × List QuestionAnswer). p.1) groups)
      × IsPartition parent pairs groups
unfolding group_topics
group_topics-IsPartition pairs =
    (sort_by by_key (grouped parent pairs), refl, grouped-IsPartition parent pairs)
