-- ===== src/Interview/TurnPipeline/Sound/Tasks.antt =====
-- Judgements on the tasks of the pipeline, and how they move with the list of tasks.
use kkori_ai.Prelude.{
  ℕ, ◌+◌, ◌≡◌, refl, ap, ◌∙◌, Bool, true, false, none, some, List, [], ◌∷◌, ◌++◌, all, any, select,
  ◌≤◌, is_empty, not, ◌&&◌, ◌||◌, ◌==◌, ltb, if◌then◌else◌, arith,
}
use kkori_ai.Interview.Utterance.{QuestionType, is_follow_up}
use kkori_ai.Interview.Log.Succeeds.{is_askable}
use kkori_ai.Interview.Orchestrator.{Decision}
use kkori_ai.Interview.Orchestrator.Contract.{is_follow_up_action}
use kkori_ai.Interview.TurnPipeline.{
  marking, closing, farewell, Speech, asking, last_asking, Task, starting, deciding, generating,
  waiting, saying, cleaning,
}
use kkori_ai.Interview.TurnPipeline.Steps.{seq_of, live, opens, opened, is_initial_task}
use kkori_ai.Interview.TurnPipeline.Turns.{is_awaited, is_saying}

abbrev pub is_valid_speech : Speech → Bool
is_valid_speech (asking n text t f r ref) = not (is_empty text) && is_askable t f r ref
is_valid_speech (last_asking n text r) = not (is_empty text)
is_valid_speech (farewell c text) = not (is_empty text)
is_valid_speech _ = true

-- a decision with the metadata of its action
abbrev pub is_valid_decision : Decision → Bool
is_valid_decision d =
    if is_follow_up_action d.action
    then is_askable QuestionType.follow_up d.follow_up_type d.reason d.ref_question_number
    else true

abbrev pub is_valid : Task → Bool
is_valid (generating n d) = is_valid_decision d
is_valid (waiting sp) = is_valid_speech sp
is_valid (saying sp second) = is_valid_speech sp
is_valid _ = true

abbrev pub speech_needs_root : Speech → Bool
speech_needs_root (asking n text t f r ref) = is_follow_up (some t)
speech_needs_root _ = false

abbrev pub needs_root : Task → Bool
needs_root (deciding n w) = true
needs_root (generating n d) = is_follow_up_action d.action
needs_root (waiting sp) = speech_needs_root sp
needs_root (saying sp second) = speech_needs_root sp
needs_root _ = false

-- not of a later turn than `n`, and where it is of turn `n`, with the root that it needs
abbrev pub is_fit : ℕ → Bool → Task → Bool
is_fit n attachable t = elim (seq_of t) [
  | none ↦ true
  | some m ↦ ltb m n || (m == n && (not (needs_root t) || attachable))
]

-- how many tasks hold the speech lock
abbrev pub holders : List Task → ℕ
holders [] = 0
holders (saying sp second ∷ ts) = 1 + holders ts
holders (t ∷ ts) = holders ts

abbrev pub holds : Task → ℕ
holds (saying sp second) = 1
holds _ = 0

pub holders-cons : (t : Task) (ts : List Task) → holders (t ∷ ts) ≡ holds t + holders ts
holders-cons (saying sp second) ts = omega arith
holders-cons _ ts = omega arith

either_order : (a b c : Bool) → (a || (b || c)) ≡ (b || (a || c))
either_order true true c = refl
either_order true false c = refl
either_order false b c = refl

module _ (t : Task) where
  pub holders-middle : (xs ys : List Task) → holders (xs ++ t ∷ ys) ≡ holders (t ∷ xs ++ ys)
  holders-middle [] ys = refl
  holders-middle (x ∷ xs) ys = omega (
    arith,
    holders-cons x (xs ++ t ∷ ys),
    holders-cons t (x ∷ xs ++ ys),
    holders-cons x (xs ++ ys),
    holders-cons t (xs ++ ys),
    holders-middle xs ys,
  )

  pub live-middle : (n : ℕ) (xs ys : List Task) → live n (xs ++ t ∷ ys) ≡ live n (t ∷ xs ++ ys)
  live-middle n [] ys = refl
  live-middle n (x ∷ xs) ys = omega (arith, live-middle n xs ys)

  pub opened-middle :
      (n : ℕ) (xs ys : List Task) → opened n (xs ++ t ∷ ys) ≡ opened n (t ∷ xs ++ ys)
  opened-middle n [] ys = refl
  opened-middle n (x ∷ xs) ys =
      ap (λ b. opens n x || b) (opened-middle n xs ys)
      ∙ either_order (opens n x) (opens n t) (opened n (xs ++ ys))

  pub all-middle :
      (p : Task → Bool) (xs ys : List Task) → all p (xs ++ t ∷ ys) ≡ all p (t ∷ xs ++ ys)
  all-middle p [] ys = refl
  all-middle p (x ∷ xs) ys = ground (arith, all-middle p xs ys)

-- a new turn makes every task one of an earlier turn
pub fit_bump :
    (n : ℕ) (a b : Bool) (ts : List Task)
    → all (is_fit n a) ts ≡ true
    → (all (is_fit (n + 1) b) ts ≡ true) × (live (n + 1) ts ≡ 0) × (opened (n + 1) ts ≡ false)
fit_bump n a b [] h = (refl, refl, refl)
fit_bump n a b (t ∷ ts) h = ground (arith, fit_bump n a b ts)

-- the initial question needs no root
initial-needs_root : (t : Task) → is_initial_task t ≡ true → needs_root t ≡ false
initial-needs_root (waiting (asking n text QuestionType.initial f r ref)) h = refl
initial-needs_root (saying (asking n text QuestionType.initial f r ref) second) h = refl
initial-needs_root t h = ground arith

-- tasks of earlier turns, and those that speak the initial question, do not care for the log
pub fit_old :
    (n : ℕ) (a b : Bool) (ts : List Task)
    → all (is_fit n a) ts ≡ true
    → live n ts ≡ 0
    → all (is_fit n b) ts ≡ true
fit_old n a b [] h l = refl
fit_old n a b (t ∷ ts) h l = ground (arith, fit_old n a b ts, initial-needs_root t)

-- the tasks that stay when the pipeline is closed
pub all-select : (p q : Task → Bool) (ts : List Task) → all p ts ≡ true → all p (select q ts) ≡ true
all-select p q [] h = refl
all-select p q (t ∷ ts) h = ground (arith, all-select p q ts)

abbrev pub is_farewell : Speech → Bool
is_farewell (farewell c text) = true
is_farewell _ = false

-- 1 for a task of the closing that has yet to call the cleanup
abbrev pub closer : Task → ℕ
closer closing = 1
closer (marking c) = 1
closer (waiting sp) = if is_farewell sp then 1 else 0
closer (saying sp second) = if is_farewell sp then 1 else 0
closer _ = 0

abbrev pub closers : List Task → ℕ
closers [] = 0
closers (t ∷ ts) = closer t + closers ts

pub closers-middle :
    (t : Task) (xs ys : List Task) → closers (xs ++ t ∷ ys) ≡ closers (t ∷ xs ++ ys)
closers-middle t [] ys = refl
closers-middle t (x ∷ xs) ys = omega (arith, closers-middle t xs ys)

-- of no turn that is counted, and no closer
pub turn-closer : (t : Task) (n : ℕ) → seq_of t ≡ some n → closer t ≡ 0
turn-closer t n e = ground arith

-- the lock is held as long as a task speaks
pub holders-select : (q : Task → Bool) (ts : List Task) → holders (select q ts) ≤ holders ts
holders-select q [] = omega arith
holders-select q (t ∷ ts) = by_test (q t) (holders-select q ts)
  where
    by_test :
        (b : Bool)
        → holders (select q ts) ≤ holders ts
        → holders (if b then t ∷ select q ts else select q ts) ≤ holders (t ∷ ts)
    by_test true h = omega (arith, holders-cons t (select q ts), holders-cons t ts)
    by_test false h = omega (arith, holders-cons t ts)

pub holders-saying :
    (ts : List Task) → holders ts ≤ 1 → holders ts ≡ (if any is_saying ts then 1 else 0)
holders-saying [] h = refl
holders-saying (saying sp second ∷ ts) h = omega arith
holders-saying (starting n ∷ ts) h = holders-saying ts h
holders-saying (deciding n w ∷ ts) h = holders-saying ts h
holders-saying (generating n d ∷ ts) h = holders-saying ts h
holders-saying (waiting sp ∷ ts) h = holders-saying ts h
holders-saying (closing ∷ ts) h = holders-saying ts h
holders-saying (marking c ∷ ts) h = holders-saying ts h
holders-saying (cleaning c ∷ ts) h = holders-saying ts h

-- no task of the closing stays
pub closers-select : (ts : List Task) → closers (select is_awaited ts) ≡ 0
closers-select [] = refl
closers-select (t ∷ ts) = ground (arith, awaited-closer t, closers-select ts)
  where
    awaited-closer : (t : Task) → is_awaited t ≡ true → closer t ≡ 0
    awaited-closer (waiting (farewell c text)) h = absurd (ground arith)
    awaited-closer (saying (farewell c text) second) h = absurd (ground arith)
    awaited-closer t h = ground arith
