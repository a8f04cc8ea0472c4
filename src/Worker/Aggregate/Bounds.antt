-- ===== src/Worker/Aggregate/Bounds.antt =====
-- The rounded means of the scores.
use native.Mathlib.Nat.{div-lt_iff_lt-mul, div-mul-le_self, lt-div-mul-add}
use kkori_ai.Prelude.{
  ℕ, suc, ◌+◌, ◌*◌, ◌/◌, ◌≤◌, ◌<◌, ◌≡◌, refl, List, [], ◌∷◌, length, map, All, arith, ok, subst,
}
use kkori_ai.Worker.Report.{SessionScores}
use kkori_ai.Worker.Repository.{round_div}
use kkori_ai.Worker.Evaluator.{EvaluatedAnswer}
use kkori_ai.Worker.Aggregate.{sum, round_mean, aggregate_scores}

sum_le : (b : ℕ) (vs : List ℕ) → All (λ v. v ≤ b) vs → sum vs ≤ b * length vs
sum_le b [] h = ground arith
sum_le b (v ∷ vs) h = ground (arith, sum_le b vs h.1)

less_suc : (m b : ℕ) → m < suc b → m ≤ b
less_suc m b h = omega arith

round_div_le : (a b n : ℕ) → a ≤ b * suc n → round_div a (suc n) ≤ b
round_div_le a b n h =
    let below : 2 * a + suc n < suc b * (2 * suc n) = omega arith in
    let less : (2 * a + suc n) / (2 * suc n) < suc b = (div-lt_iff_lt-mul (omega arith)).1 below in
    less_suc (round_div a (suc n)) b less

-- The mean of at least one value is rounded to the nearest number, a half up: twice the mean lies
-- from 2m - 1 up to, and not with, 2m + 1.
pub round_mean-nearest :
    (v : ℕ) (vs : List ℕ)
    → (m : ℕ) × (round_mean (v ∷ vs) ≡ ok m)
      × (m * (2 * length (v ∷ vs)) ≤ 2 * sum (v ∷ vs) + length (v ∷ vs))
      × (2 * sum (v ∷ vs) + length (v ∷ vs) < m * (2 * length (v ∷ vs)) + 2 * length (v ∷ vs))
unfolding round_mean
round_mean-nearest v vs = (
  round_div (sum (v ∷ vs)) (length (v ∷ vs)),
  refl,
  div-mul-le_self _ _,
  lt-div-mul-add (omega arith),
)

pub round_mean_le :
    (b : ℕ) (vs : List ℕ) (m : ℕ) → round_mean vs ≡ ok m → All (λ v. v ≤ b) vs → m ≤ b
unfolding round_mean
round_mean_le b [] m e h = absurd (ground arith)
round_mean_le b (v ∷ vs) m e h =
    let same : round_div (sum (v ∷ vs)) (length (v ∷ vs)) ≡ m = ground arith in
    subst (λ x. x ≤ b) same (round_div_le (sum (v ∷ vs)) b (length vs) (sum_le b (v ∷ vs) h))

-- All three scores of an evaluation are at most a bound.
pub record IsBounded (b : ℕ) (a : EvaluatedAnswer) : Type 0 where
  pub logic_le : a.evaluation.logic_score ≤ b
  pub specificity_le : a.evaluation.specificity_score ≤ b
  pub accuracy_le : a.evaluation.technical_accuracy_score ≤ b

abbrev pub values : (EvaluatedAnswer → ℕ) → List EvaluatedAnswer → List ℕ
values axis answers = map axis answers

values_le :
    (b : ℕ) (axis : EvaluatedAnswer → ℕ)
    → ((a : EvaluatedAnswer) → IsBounded b a → axis a ≤ b)
    → (answers : List EvaluatedAnswer) → All (IsBounded b) answers
    → All (λ v. v ≤ b) (values axis answers)
values_le b axis f [] h = tt
values_le b axis f (a ∷ answers) h = (f a h.0, values_le b axis f answers h.1)

-- At least one answer gives scores, and if no score of an answer exceeds a bound no score of the
-- session does.
pub aggregate_scores-bounded :
    (b : ℕ) (a : EvaluatedAnswer) (rest : List EvaluatedAnswer)
    → All (IsBounded b) (a ∷ rest)
    → (s : SessionScores) × (aggregate_scores (a ∷ rest) ≡ ok s)
      × (s.logic_score ≤ b)
      × (s.specificity_score ≤ b)
      × (s.technical_accuracy_score ≤ b)
unfolding aggregate_scores round_mean
aggregate_scores-bounded b a rest h = (
  _,
  refl,
  round_mean_le b (values (λ x. x.evaluation.logic_score) (a ∷ rest)) _ refl
      (values_le b (λ x. x.evaluation.logic_score) (λ x k. k.logic_le) (a ∷ rest) h),
  round_mean_le b (values (λ x. x.evaluation.specificity_score) (a ∷ rest)) _ refl
      (values_le b (λ x. x.evaluation.specificity_score) (λ x k. k.specificity_le) (a ∷ rest) h),
  round_mean_le b (values (λ x. x.evaluation.technical_accuracy_score) (a ∷ rest)) _ refl (
      values_le b (λ x. x.evaluation.technical_accuracy_score) (λ x k. k.accuracy_le) (a ∷ rest) h),
)
