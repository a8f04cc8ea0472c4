-- ===== src/Interview/Log/Numbering.antt =====
-- Question numbers: consecutive, and never used twice, whatever is appended.
use kkori_ai.Prelude.{
  ℕ, zero, suc, ◌+◌, ◌≡◌, refl, ◌∙◌, sym, true, false, some, List, [], ◌∷◌, ◌++◌, select,
  append_assoc, append-nil, map, if◌then◌else◌, arith,
}
use kkori_ai.Interview.Utterance.{Utterance, QuestionType}
use kkori_ai.Interview.Log.{
  ConversationLog, is_question, number_of, last_question_number, push, question, closing_utterance,
  answer_to,
}
use kkori_ai.Interview.Log.Append.{
  Append, asked, closed, answered, Grows, here, more, Asked, append_question-Asked,
  append_closing-ok, append_answer-ok, last_question-push,
}

-- The numbers of the questions, in the order of the log.
abbrev pub question_numbers : List Utterance → List ℕ
question_numbers us = map (λ u. number_of (some u)) (select is_question us)

-- m + 1, ..., m + k
abbrev pub count_up : ℕ → ℕ → List ℕ
count_up m zero = []
count_up m (suc k) = (m + 1) ∷ count_up (m + 1) k

count_up-snoc : (m k : ℕ) → count_up m (suc k) ≡ count_up m k ++ (m + k + 1) ∷ []
count_up-snoc m zero = ground arith
count_up-snoc m (suc k) = ground (arith, count_up-snoc (m + 1) k)

numbers-push :
    (us : List Utterance) (u : Utterance)
    → question_numbers (us ++ u ∷ [])
      ≡ question_numbers us ++ (if is_question u then number_of (some u) ∷ [] else [])
numbers-push [] u = ground arith
numbers-push (x ∷ us) u = ground (arith, numbers-push us u)

-- How one append moves the numbers: a question takes the next one, nothing else takes any.
data Move (log : ConversationLog) (after : ConversationLog) : Type 0 where
  took :
      question_numbers after.utterances
        ≡ question_numbers log.utterances ++ (last_question_number log + 1) ∷ []
      → last_question_number after ≡ last_question_number log + 1
      → Move log after
  kept :
      question_numbers after.utterances ≡ question_numbers log.utterances
      → last_question_number after ≡ last_question_number log
      → Move log after

module _ (log : ConversationLog) where
  question-Move :
      (after : ConversationLog) (n p : ℕ) (t : QuestionType) (q : Utterance)
      → is_question q ≡ true
      → number_of (some q) ≡ n
      → Asked log after n p t q
      → Move log after
  unfolding last_question_number
  question-Move after n p t q iq en a =
      took (ground (arith, numbers-push log.utterances q, a.pushed, a.number))
        (ground (arith, last_question-push log q, a.pushed, a.number))

  other-Move :
      (after : ConversationLog) (u : Utterance)
      → is_question u ≡ false
      → after ≡ push log u
      → Move log after
  unfolding last_question_number
  other-Move after u iq e =
      kept
        (ground
          (arith, numbers-push log.utterances u, append-nil (question_numbers log.utterances)))
        (ground (arith, last_question-push log u))

  Append-Move : (after : ConversationLog) → Append log after → Move log after
  Append-Move after (asked n p t c at f r ref u h) =
      question-Move after n p t (question n p t c at f r ref) refl refl
        (append_question-Asked log after n p t c at f r ref u h)
  Append-Move after (closed c at r u h) =
      other-Move after (closing_utterance c at r) refl (append_closing-ok log after c at r u h).1
  Append-Move after (answered c at u h) =
      let (q, found, value, pushed) = append_answer-ok log after c at u h in
      other-Move after (answer_to q c at) refl pushed

abbrev NumberedFrom : ConversationLog → ConversationLog → ℕ → Type 0
NumberedFrom start log k =
    (question_numbers log.utterances
      ≡ question_numbers start.utterances ++ count_up (last_question_number start) k)
    × (last_question_number log ≡ last_question_number start + k)

step-NumberedFrom :
    (start log after : ConversationLog) (k : ℕ)
    → NumberedFrom start log k
    → Move log after
    → (j : ℕ) × NumberedFrom start after j
step-NumberedFrom start log after k h (kept e l) = (k, (e ∙ h.0, l ∙ h.1))
step-NumberedFrom start log after k h (took e l) = (
  suc k,
  (
    rw (e, h.0, h.1, count_up-snoc)
        (append_assoc (question_numbers start.utterances) (count_up (last_question_number start) k)
          _),
    omega arith,
  ),
)

-- The questions that a log grows by have the numbers that follow its last one, with no gap and
-- no repetition, and the last number moves on by their count. The log that it grows from may hold
-- anything and have any floor, as a restored one does.
pub Grows-numbers :
    (start : ConversationLog) {log : ConversationLog}
    → Grows start log
    → (k : ℕ) × (question_numbers log.utterances
        ≡ question_numbers start.utterances ++ count_up (last_question_number start) k)
      × (last_question_number log ≡ last_question_number start + k)
Grows-numbers start here = (0, sym (append-nil _), omega arith)
Grows-numbers start (more {log = l} {after = a} g s) =
    let (k, e, f) = Grows-numbers start g in
    let (j, r) = step-NumberedFrom start l a k (e, f) (Append-Move l a s) in (j, r.0, r.1)
