-- ===== src/Worker/Generation/Answered.antt =====
-- Calls of the model that succeed within the allowed attempts, and what they do to the report.
use kkori_ai.Prelude.{
  ℕ, zero, suc, ◌<◌, ◌≡◌, refl, sym, ap, subst, true, Option, List, [], ◌∷◌, ◌++◌, All, arith,
  Outcome, ok, err,
}
use kkori_ai.Worker.Report.{Report, Db, Job, Failure}
use kkori_ai.Worker.Repository.{increment_job_retry, has_id, job_row, execute}
use kkori_ai.Worker.Repository.Steps.Found.{IsAt, set-IsAt}
use kkori_ai.Worker.Transcript.{QuestionAnswer}
use kkori_ai.Worker.Evaluator.{AnswerEvaluation, EvaluatedAnswer}
use kkori_ai.Worker.Retry.{with_retry}
use kkori_ai.Worker.Retry.Attempts.{counted, is_err, with_retry-counted}
use kkori_ai.Worker.Generation.{Environment, zip_answers, extend, topic_evaluated, evaluate_all}

-- The report of the session, whatever its job.
abbrev pub IsAtButJob : ℕ → Report → Db → Type 0
IsAtButJob session r db = (j : Option Job) × IsAt session (record r { job = j }) db

pub job_row-IsAt :
    (session : ℕ) (r : Report) (set : Job → Job) (db : Db)
    → IsAtButJob session r db
    → IsAtButJob session r (execute (has_id r.id) (job_row set) db).1
job_row-IsAt session r set db (j, at) =
    (_, set-IsAt session (record r { job = j }) (job_row set) (λ x. refl) (λ x. refl) db at)

counted-IsAt :
    (n session : ℕ) (r : Report) (db : Db)
    → IsAtButJob session r db
    → IsAtButJob session r (counted n r.id db)
counted-IsAt zero session r db at = at
counted-IsAt (suc n) session r db at =
    counted-IsAt n session r (increment_job_retry r.id db)
      (unfold increment_job_retry in job_row-IsAt session r _ db at)

-- One of the allowed attempts gives the value, and all attempts before it fail.
pub record IsAnswered {A : Type 0} (max : ℕ) (thunk : ℕ → Outcome Failure A) (a : A) : Type 0 where
  pub failures : ℕ
  pub allowed : failures < max
  pub earlier : (j : ℕ) → j < failures → is_err (thunk j) ≡ true
  pub answer : thunk failures ≡ ok a

pub with_retry-IsAt :
    {A : Type 0} (session max : ℕ) (r : Report) (thunk : ℕ → Outcome Failure A) (a : A) (db : Db)
    → IsAnswered max thunk a
    → IsAtButJob session r db
    → ((with_retry max r.id thunk db).0 ≡ ok a)
      × IsAtButJob session r (with_retry max r.id thunk db).1
with_retry-IsAt session max r thunk a db h at =
    let done : with_retry max r.id thunk db ≡ (ok a, counted h.failures r.id db) =
      with_retry-counted max h.failures r.id thunk db a h.allowed h.earlier h.answer in
    (
      ap (λ x. x.0) done,
      subst (λ x. IsAtButJob session r x.1) (sym done) (counted-IsAt h.failures session r db at),
    )

-- All answers with what the model says of their topics.
abbrev pub answers_of :
    (List QuestionAnswer → List AnswerEvaluation)
    → List (List QuestionAnswer)
    → List EvaluatedAnswer
answers_of says [] = []
answers_of says (t ∷ ts) = zip_answers t (says t) ++ answers_of says ts

topic_evaluated-ok :
    (topic : List QuestionAnswer) (later : Db → Outcome Failure (List EvaluatedAnswer) × Db)
    (x : Outcome Failure (List AnswerEvaluation) × Db) (results : List AnswerEvaluation)
    → x.0 ≡ ok results
    → topic_evaluated topic later x ≡ extend (zip_answers topic results) (later x.1)
topic_evaluated-ok topic later (ok es, db) results h =
    let same : es ≡ results = ground arith in ap (λ z. extend (zip_answers topic z) (later db)) same
topic_evaluated-ok topic later (err e, db) results h = absurd (ground arith)

extend-ok :
    (answers more : List EvaluatedAnswer) (session : ℕ) (r : Report)
    (x : Outcome Failure (List EvaluatedAnswer) × Db)
    → (x.0 ≡ ok more) × IsAtButJob session r x.1
    → ((extend answers x).0 ≡ ok (answers ++ more)) × IsAtButJob session r (extend answers x).1
extend-ok answers more session r (ok as', db) h =
    let same : as' ≡ more = ground arith in (ap (λ z. ok (answers ++ z)) same, h.1)
extend-ok answers more session r (err e, db) h = absurd (ground arith)

pub evaluate_all-IsAt :
    (env : Environment) (session : ℕ) (r : Report)
    (says : List QuestionAnswer → List AnswerEvaluation) (topics : List (List QuestionAnswer))
    (db : Db)
    → All
        (λ t.
          IsAnswered env.settings.retry_max_attempts
            (λ n. env.evaluator.evaluate_topic n t)
            (says t))
        topics
    → IsAtButJob session r db
    → ((evaluate_all env r.id topics db).0 ≡ ok (answers_of says topics))
      × IsAtButJob session r (evaluate_all env r.id topics db).1
unfolding evaluate_all
evaluate_all-IsAt env session r says [] db h at = (refl, at)
evaluate_all-IsAt env session r says (t ∷ ts) db h at =
    let first =
      with_retry-IsAt session env.settings.retry_max_attempts r
        (λ n. env.evaluator.evaluate_topic n t) (says t) db h.0 at in
    subst (λ x. (x.0 ≡ ok (answers_of says (t ∷ ts))) × IsAtButJob session r x.1)
      (sym (topic_evaluated-ok t (λ d. evaluate_all env r.id ts d) _ (says t) first.0))
      (extend-ok (zip_answers t (says t)) (answers_of says ts) session r _
        (evaluate_all-IsAt env session r says ts _ h.1 first.1))
