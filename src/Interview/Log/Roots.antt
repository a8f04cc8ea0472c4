-- ===== src/Interview/Log/Roots.antt =====
-- The roots of the branches: where a follow-up can attach.
use kkori_ai.Prelude.{
  ℕ, ◌≤◌, ◌<◌, ◌≡◌, refl, sym, subst, Bool, true, false, not, Option, none, some, List, [], ◌∷◌,
  Text, ok, find, arith, All, All-append, All-map, inl, inr, Bool-cases, Option-cases,
}
use kkori_ai.Interview.Utterance.{
  Utterance, QuestionType, Datetime, post_init, is_final, is_follow_up, is_root_type,
}
use kkori_ai.Interview.Log.{
  ConversationLog, empty, is_question, last_question, number_of, last_question_number, current_root,
  push, question, closing_utterance, answer_to, question_for, is_question_numbered, is_root,
  has_valid_current_root, root_at,
}
use kkori_ai.Interview.Log.Append.{
  Append, asked, closed, answered, Grows, here, more, Asked, append_question-Asked,
  append_closing-ok, append_answer-ok, last_question-push, question_for-push_known,
  question_for-push_new,
}

-- `self._last_question().question_type is QuestionType.FINAL`
abbrev pub ends_final : Option Utterance → Bool
ends_final none = false
ends_final (some q) = is_final q.question_type

-- A follow-up's parent is a root question of the log.
abbrev pub IsRooted : ConversationLog → Utterance → Type 0
IsRooted log u =
    is_follow_up u.question_type ≡ true
    → (p : ℕ) × (u.parent_question_number ≡ some p) × (is_root (question_for log p) ≡ true)

-- A number that the log has not reached.
abbrev pub IsBounded : ConversationLog → Type 0
IsBounded log = All (λ u. number_of (some u) ≤ last_question_number log) log.utterances

-- What holds of a log that has grown from the empty one.
pub record IsCoherent (log : ConversationLog) : Type 0 where
  pub bounded : IsBounded log
  pub current : has_valid_current_root log ≡ not (ends_final (last_question log))
  pub rooted : All (IsRooted log) log.utterances

question_for_above :
    (n : ℕ) (us : List Utterance)
    → All (λ u. number_of (some u) < n) us
    → find (is_question_numbered n) us ≡ none
question_for_above n [] h = refl
question_for_above n (u ∷ us) h = ground (arith, question_for_above n us h.1)

-- the next number is fresh
pub question_for-fresh :
    (log : ConversationLog) (n : ℕ)
    → IsBounded log
    → last_question_number log < n
    → question_for log n ≡ none
unfolding question_for
question_for-fresh log n h l = question_for_above n log.utterances (
    All-map (λ u. number_of (some u) ≤ last_question_number log) (λ u. number_of (some u) < n)
      (λ u e. omega arith) log.utterances h)

module _ (log : ConversationLog) (u : Utterance) where
  IsBounded-push :
      IsBounded log
      → last_question_number log ≤ last_question_number (push log u)
      → number_of (some u) ≤ last_question_number (push log u)
      → IsBounded (push log u)
  IsBounded-push h l e =
      All-append (λ w. number_of (some w) ≤ last_question_number (push log u)) log.utterances
        (u ∷ [])
        (All-map (λ w. number_of (some w) ≤ last_question_number log)
          (λ w. number_of (some w) ≤ last_question_number (push log u)) (λ w k. omega arith)
          log.utterances h)
        (e, tt)

  is_root-push :
      (p : ℕ) → is_root (question_for log p) ≡ true → is_root (question_for (push log u) p) ≡ true
  is_root-push p h = elim (Option-cases (question_for log p)) [
    | inl e ↦ absurd (ground arith)
    | inr (q, e) ↦ ground (arith, question_for-push_known log u p q e)
  ]

  IsRooted-push :
      IsRooted (push log u) u
      → All (IsRooted log) log.utterances
      → All (IsRooted (push log u)) (push log u).utterances
  IsRooted-push new h =
      All-append (IsRooted (push log u)) log.utterances (u ∷ [])
        (All-map (IsRooted log) (IsRooted (push log u))
          (λ w r f. let (p, e, k) = r f in (p, e, is_root-push p k)) log.utterances h)
        (new, tt)

  question_for-push_other :
      (p : ℕ) → is_question u ≡ false → question_for (push log u) p ≡ question_for log p
  question_for-push_other p h = elim (Option-cases (question_for log p)) [
    | inl e ↦ rw e (ground (arith, question_for-push_new log u p e))
    | inr (q, e) ↦ rw e (question_for-push_known log u p q e)
  ]

  pub last_question-push_other :
      is_question u ≡ false → last_question (push log u) ≡ last_question log
  last_question-push_other h = rw (last_question-push log u, h)

  pub current_root-push_other : is_question u ≡ false → current_root (push log u) ≡ current_root log
  unfolding current_root
  current_root-push_other h = rw (last_question-push_other h)

  pub last_question_number-push_other :
      is_question u ≡ false → last_question_number (push log u) ≡ last_question_number log
  unfolding last_question_number
  last_question_number-push_other h = rw (last_question-push_other h)

  -- what is no question leaves the judgement of the current root alone
  pub has_valid-push_other :
      is_question u ≡ false → has_valid_current_root (push log u) ≡ has_valid_current_root log
  unfolding has_valid_current_root
  has_valid-push_other h = rw (current_root-push_other h) (go (current_root log))
    where
      go : (r : Option ℕ) → root_at (push log u) r ≡ root_at log r
      go none = refl
      go (some p) = rw (question_for-push_other p h)

  other-IsCoherent :
      is_question u ≡ false
      → is_follow_up u.question_type ≡ false
      → number_of (some u) ≤ last_question_number log
      → IsCoherent log
      → IsCoherent (push log u)
  other-IsCoherent h f l c = record {
    bounded =
        IsBounded-push c.bounded (omega (arith, last_question_number-push_other h))
          (omega (arith, last_question_number-push_other h));
    current = rw (has_valid-push_other h, last_question-push_other h) c.current;
    rooted = IsRooted-push (λ e. absurd (ground arith)) c.rooted;
  }

pub has_valid-at :
    (log : ConversationLog) (p : ℕ)
    → current_root log ≡ some p
    → has_valid_current_root log ≡ is_root (question_for log p)
unfolding has_valid_current_root
has_valid-at log p h = rw h

-- the types of the questions that stand for themselves
check_self :
    (q : Utterance) (n p : ℕ) (t : QuestionType)
    → post_init q ≡ ok q
    → q.question_number ≡ some n
    → q.parent_question_number ≡ some p
    → q.question_type ≡ some t
    → is_follow_up (some t) ≡ false
    → (p ≡ n) × (is_root_type (some t) ≡ not (is_final (some t)))
unfolding post_init
check_self q n p t h a b c d = ground arith

module _ (log : ConversationLog) (q : Utterance) (n p : ℕ) (t : QuestionType)
    (iq : is_question q ≡ true) (en : q.question_number ≡ some n)
    (ep : q.parent_question_number ≡ some p) (et : q.question_type ≡ some t)
    (a : Asked log (push log q) n p t q) (c : IsCoherent log) where
  last_question-asked : last_question (push log q) ≡ some q
  last_question-asked = rw (last_question-push log q, iq)

  number-asked : last_question_number (push log q) ≡ n
  unfolding last_question_number
  number-asked = ground (arith, last_question-asked, a.number)

  root-asked : is_root (question_for (push log q) p) ≡ not (is_final (some t))
  root-asked = elim (Bool-cases (is_follow_up (some t))) [
    | inl f ↦ rw (is_root-push log q p (a.parent f).0) (ground arith)
    | inr f ↦
        let (same, root) = check_self q n p t a.valid en ep et f in
        let fresh : question_for log n ≡ none =
          question_for-fresh log n c.bounded (omega (arith, a.number)) in
        let found : question_for (push log q) n ≡ some q =
          ground (arith, question_for-push_new log q n fresh) in
        rw (same, found) (ground arith)
  ]

  current-asked : current_root (push log q) ≡ some p
  unfolding current_root
  current-asked = rw last_question-asked ep

  question-IsCoherent : IsCoherent (push log q)
  question-IsCoherent = record {
    bounded =
        IsBounded-push log q c.bounded (omega (arith, number-asked, a.number))
          (ground (arith, number-asked));
    current =
        rw (has_valid-at (push log q) p current-asked, root-asked, last_question-asked)
          (ground arith);
    rooted = IsRooted-push log q (λ e. (p, ep, rw root-asked (ground arith))) c.rooted;
  }

answer-bounded :
    (log : ConversationLog) (q : Utterance) (content : Text) (at : Datetime)
    → last_question log ≡ some q
    → number_of (some (answer_to q content at)) ≤ last_question_number log
unfolding last_question_number
answer-bounded log q content at h = ground arith

pub Append-IsCoherent :
    (log after : ConversationLog) → Append log after → IsCoherent log → IsCoherent after
Append-IsCoherent log after (asked n p t x d f r ref u h) c =
    let q = question n p t x d f r ref in
    let a = append_question-Asked log after n p t x d f r ref u h in
    subst (λ l. IsCoherent l) (sym a.pushed)
      (question-IsCoherent log q n p t refl refl refl refl
        (record { pushed = refl; number = a.number; valid = a.valid; parent = a.parent }) c)
Append-IsCoherent log after (closed x d r u h) c =
    let u' = closing_utterance x d r in
    subst (λ l. IsCoherent l) (sym (append_closing-ok log after x d r u h).1)
      (other-IsCoherent log u' refl refl (omega arith) c)
Append-IsCoherent log after (answered x d u h) c =
    let (q, found, value, pushed) = append_answer-ok log after x d u h in
    subst (λ l. IsCoherent l) (sym pushed)
      (other-IsCoherent log (answer_to q x d) refl refl (answer-bounded log q x d found) c)

empty-IsCoherent : IsCoherent empty
unfolding has_valid_current_root current_root last_question last_question_number
empty-IsCoherent = record { bounded = tt; current = refl; rooted = tt }

-- In a log that has grown from the empty one, every number is at most that of the last question,
-- every follow-up has a parent that is an initial or topic question of the log, and the current
-- root is judged invalid exactly when the last question is the final one.
pub Grows-IsCoherent : {log : ConversationLog} → Grows empty log → IsCoherent log
Grows-IsCoherent here = empty-IsCoherent
Grows-IsCoherent (more {log = l} {after = a} g s) = Append-IsCoherent l a s (Grows-IsCoherent g)
