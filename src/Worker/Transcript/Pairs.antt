-- ===== src/Worker/Transcript/Pairs.antt =====
-- The pairs of questions and answers of a transcript.
use kkori_ai.Prelude.{
  ℕ, ◌<◌, ◌≡◌, refl, sym, ◌∙◌, ap, subst, List, [], ◌∷◌, ◌==◌, Text, any, All, map, arith, Outcome,
  ok, err, ◌>>=◌,
}
use kkori_ai.Worker.Report.{Failure}
use kkori_ai.Worker.Group.{traverse, sort_by, grouped}
use kkori_ai.Worker.Group.Partition.{Ascending, has_key, IsPartition, by_key, grouped-IsPartition}
use kkori_ai.Worker.Transcript.{
  Utterance, QuestionAnswer, by_time, pair_of, pair_for, group_utterances,
}

-- Each number is below all later ones.
pub Increasing : List ℕ → Type 0
Increasing [] = Unit
Increasing (n ∷ ns) = All (λ m. n < m) ns × Increasing ns

abbrev pub numbers : List QuestionAnswer → List ℕ
numbers pairs = map (λ (qa : QuestionAnswer). qa.question_number) pairs

abbrev pub keys : {A : Type 0} → List (ℕ × List A) → List ℕ
keys {A = A} d = map (λ (p : ℕ × List A). p.0) d

module _ {A : Type 0} where
  All-keys :
      (n : ℕ) (d : List (ℕ × List A))
      → All (λ (q : ℕ × List A). n < q.0) d
      → All (λ m. n < m) (keys d)
  All-keys n [] h = tt
  All-keys n (p ∷ d) h = (h.0, All-keys n d h.1)

  keys-Increasing : (d : List (ℕ × List A)) → Ascending d → Increasing (keys d)
  unfolding Ascending Increasing
  keys-Increasing [] h = tt
  keys-Increasing (p ∷ d) h = (All-keys p.0 d h.0, keys-Increasing d h.1)

  keys-any : (k : ℕ) (d : List (ℕ × List A)) → any (λ n. n == k) (keys d) ≡ has_key k d
  keys-any k [] = refl
  keys-any k (p ∷ d) = ground (arith, keys-any k d)

numbers-any :
    (k : ℕ) (pairs : List QuestionAnswer)
    → any (λ n. n == k) (numbers pairs)
      ≡ any (λ (qa : QuestionAnswer). qa.question_number == k) pairs
numbers-any k [] = refl
numbers-any k (p ∷ ps) = ground (arith, numbers-any k ps)

pair_of-number :
    (n : ℕ) (o : Outcome Failure (List Utterance)) (qa : QuestionAnswer)
    → (o >>= pair_of n) ≡ ok qa
    → qa.question_number ≡ n
pair_of-number n (err e) qa h = absurd (ground arith)
pair_of-number n (ok []) qa h = absurd (ground arith)
pair_of-number n (ok (u ∷ us)) qa h = ground arith

traverse-numbers :
    (f : ℕ × List Utterance → Outcome Failure QuestionAnswer)
    → ((p : ℕ × List Utterance) (qa : QuestionAnswer) → f p ≡ ok qa → qa.question_number ≡ p.0)
    → (d : List (ℕ × List Utterance)) (pairs : List QuestionAnswer) → traverse f d ≡ ok pairs
    → numbers pairs ≡ keys d
traverse-numbers f named [] pairs h = ground arith
traverse-numbers f named (p ∷ d) pairs h =
    both (f p) (traverse f d) (named p) (traverse-numbers f named d) h
  where
    both :
        (o : Outcome Failure QuestionAnswer) (r : Outcome Failure (List QuestionAnswer))
        → ((qa : QuestionAnswer) → o ≡ ok qa → qa.question_number ≡ p.0)
        → ((ps : List QuestionAnswer) → r ≡ ok ps → numbers ps ≡ keys d)
        → (o >>= λ b. r >>= λ bs. ok (b ∷ bs)) ≡ ok pairs
        → numbers pairs ≡ keys (p ∷ d)
    both (err e) r n m e' = absurd (ground arith)
    both (ok qa) (err e) n m e' = absurd (ground arith)
    both (ok qa) (ok ps) n m e' =
        let same : qa ∷ ps ≡ pairs = ground arith in
        subst (λ q. numbers q ≡ keys (p ∷ d)) same (ground (arith, n qa refl, m ps refl))

-- If the pairs of a transcript can be made, their numbers increase strictly, and a number has a
-- pair exactly if some utterance has the number.
pub group_utterances-pairs :
    (moment : Text → Outcome Failure ℕ) (utterances : List Utterance) (pairs : List QuestionAnswer)
    → group_utterances moment utterances ≡ ok pairs
    → Increasing (numbers pairs)
      × ((k : ℕ)
          → any (λ (qa : QuestionAnswer). qa.question_number == k) pairs
            ≡ any (λ (u : Utterance). u.question_number == k) utterances)
unfolding group_utterances
group_utterances-pairs moment utterances pairs h = (
  subst Increasing (sym same) (keys-Increasing groups part.ascending),
  λ k.
      sym (numbers-any k pairs)
      ∙ ap (λ ns. any (λ n. n == k) ns) same
      ∙ keys-any k groups
      ∙ part.same_keys k,
)
  where
    groups : List (ℕ × List Utterance)
    groups = sort_by by_key (grouped (λ (u : Utterance). u.question_number) utterances)

    part : IsPartition (λ (u : Utterance). u.question_number) utterances groups
    part = grouped-IsPartition (λ (u : Utterance). u.question_number) utterances

    same : numbers pairs ≡ keys groups
    same =
        traverse-numbers (pair_for moment)
          (λ p qa e. pair_of-number p.0 (by_time moment p.1) qa (unfold pair_for in e)) groups pairs
          h
