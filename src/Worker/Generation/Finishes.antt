-- ===== src/Worker/Generation/Finishes.antt =====
-- The evaluation of a report in progress, from the first topic to the completion.
use kkori_ai.Prelude.{
  ℕ, ◌≡◌, refl, sym, ◌∙◌, ap, subst, Bool, true, false, Option, none, some, select, ◌++◌, List, [],
  ◌∷◌, is_some, All, map, Text, arith, if◌then◌else◌, Outcome, ok, err, ◌>>=◌,
}
use kkori_ai.Worker.Report.{
  Report, Db, Job, SessionScores, FeedbackRecord, WeaknessTagCount, Failure, processing, completed,
}
use kkori_ai.Worker.Repository.{
  reset_job_retry, save_text_results, has_id, text_row, complete_row, can_complete, execute,
  is_voice,
}
use kkori_ai.Worker.Repository.Steps.Found.{IsAt, set-IsAt}
use kkori_ai.Worker.Transcript.{QuestionAnswer}
use kkori_ai.Worker.Evaluator.{AnswerEvaluation, EvaluatedAnswer, group_topics}
use kkori_ai.Worker.Aggregate.{aggregate_scores, aggregate_tag_summary, to_feedback}
use kkori_ai.Worker.Retry.{with_retry}
use kkori_ai.Worker.Generation.{
  World, Environment, Event, Result, confirm, evaluate_all, committed, commit, summarized,
  evaluated, evaluate_report,
}
use kkori_ai.Worker.Generation.Outcomes.{
  Ends, event, event_if, confirm-Ends, mean, complete_row-completed,
}
use kkori_ai.Worker.Vocabulary.{contains, voice_weakness_tags}
use kkori_ai.Worker.Generation.Answered.{
  IsAtButJob, job_row-IsAt, IsAnswered, with_retry-IsAt, answers_of, evaluate_all-IsAt,
}

evaluated-ok :
    (env : Environment) (rid user : ℕ) (w : World) (x : Outcome Failure (List EvaluatedAnswer) × Db)
    (answers : List EvaluatedAnswer)
    → x.0 ≡ ok answers
    → evaluated env rid user w x
      ≡ summarized env rid user answers w (
          with_retry env.settings.retry_max_attempts rid
            (λ attempt. env.evaluator.summarize attempt answers)
            x.1)
evaluated-ok env rid user w (ok found, db) answers h =
    let same : found ≡ answers = ground arith in
    ap
      (λ z. summarized env rid user z w (
        with_retry env.settings.retry_max_attempts rid
          (λ attempt. env.evaluator.summarize attempt z) db))
      same
evaluated-ok env rid user w (err e, db) answers h = absurd (ground arith)

summarized-ok :
    (env : Environment) (rid user : ℕ) (answers : List EvaluatedAnswer) (w : World)
    (x : Outcome Failure Text × Db) (summary : Text)
    → x.0 ≡ ok summary
    → summarized env rid user answers w x
      ≡ commit env rid user answers summary (record w { db = x.1 })
summarized-ok env rid user answers w (ok found, db) summary h =
    let same : found ≡ summary = ground arith in
    ap (λ z. commit env rid user answers z (record w { db = db })) same
summarized-ok env rid user answers w (err e, db) summary h = absurd (ground arith)

-- The record of an answer.
abbrev pub feedback_of : EvaluatedAnswer → FeedbackRecord
feedback_of a = record {
  question_number = a.evaluation.question_number;
  logic_score = a.evaluation.logic_score;
  specificity_score = a.evaluation.specificity_score;
  technical_accuracy_score = a.evaluation.technical_accuracy_score;
  feedback = a.evaluation.feedback;
  weakness_tags = a.evaluation.weakness_tags;
  improvement_tasks = a.evaluation.improvement_tasks;
}

-- The tags of the voice that a report has already.
abbrev pub voice_tags : Option (List WeaknessTagCount) → List WeaknessTagCount
voice_tags none = []
voice_tags (some tags) = select (λ t. contains voice_weakness_tags t.tag) tags

-- The row that a successful evaluation leaves.
abbrev pub finished : Environment → SessionScores → List EvaluatedAnswer → Text → Report → Report
finished env scores answers summary r = record r {
  status = completed;
  overall_score = some (mean scores r.delivery_score);
  completed_at = some env.completed_at;
  scores = some scores;
  feedbacks = map feedback_of answers;
  summary = some summary;
  weakness_tag_summary = some (aggregate_tag_summary answers ++ voice_tags r.weakness_tag_summary);
  text_analyzed_at = some env.saved_at;
}

abbrev done_row : Environment → SessionScores → List EvaluatedAnswer → Text → Report → Report
done_row env scores answers summary r = complete_row env.completed_at (
    text_row scores (map to_feedback answers) summary (aggregate_tag_summary answers) env.saved_at
      r)

voice_tags_lem :
    (tags : Option (List WeaknessTagCount))
    → select is_voice (elim tags [ none ↦ [] | some t ↦ t ]) ≡ voice_tags tags
voice_tags_lem none = refl
voice_tags_lem (some tags) = refl

done_row-finished :
    (env : Environment) (scores : SessionScores) (answers : List EvaluatedAnswer) (summary : Text)
    (r : Report)
    → done_row env scores answers summary r ≡ finished env scores answers summary r
unfolding to_feedback
done_row-finished env scores answers summary r =
    complete_row-completed env.completed_at (
      text_row scores (map to_feedback answers) summary (aggregate_tag_summary answers) env.saved_at
        r)
    ∙ ap
        (λ v. record (finished env scores answers summary r) {
          weakness_tag_summary = some (aggregate_tag_summary answers ++ v);
        })
        (voice_tags_lem r.weakness_tag_summary)

-- The analysis of the audio is there, or it is not waited for.
abbrev pub audio_ready : Environment → Report → Bool
audio_ready env r =
    if env.settings.audio_analysis_enabled then is_some r.audio_analyzed_at else true

can_be_completed :
    (audio : Bool) (r : Report)
    → r.status ≡ processing
    → is_some r.scores ≡ true
    → is_some r.text_analyzed_at ≡ true
    → (if audio then is_some r.audio_analyzed_at else true) ≡ true
    → can_complete audio r.id r ≡ true
can_be_completed audio r s p t a = ground arith

commit-Ends_done :
    (env : Environment) (session : ℕ) (a : EvaluatedAnswer) (rest : List EvaluatedAnswer)
    (summary : Text) (scores : SessionScores) (w : World) (r : Report)
    → aggregate_scores (a ∷ rest) ≡ ok scores
    → r.status ≡ processing
    → audio_ready env r ≡ true
    → IsAt session r w.db
    → ((commit env r.id r.user_id (a ∷ rest) summary w).0 ≡ ok tt)
      × Ends session
          (done_row env scores (a ∷ rest) summary r)
          (event r completed none ∷ [])
          w
          (commit env r.id r.user_id (a ∷ rest) summary w).1
unfolding commit save_text_results
commit-Ends_done env session a rest summary scores w r scored status ready at =
    subst
      (λ (o : Outcome Failure SessionScores).
        ((committed env r.id r.user_id w (o >>= saving)).0 ≡ ok tt)
        × Ends session (done_row env scores (a ∷ rest) summary r) (event r completed none ∷ []) w
            (committed env r.id r.user_id w (o >>= saving)).1)
      (sym scored) (refl, ended)
  where
    row : Report
    row =
        text_row scores (map to_feedback (a ∷ rest)) summary (aggregate_tag_summary (a ∷ rest))
          env.saved_at r

    stored : World
    stored = record w {
      db =
          (execute (has_id r.id)
            (text_row scores (map to_feedback (a ∷ rest)) summary (aggregate_tag_summary (a ∷ rest))
              env.saved_at)
            w.db).1;
    }

    both :
        Ends session
          (complete_row env.completed_at row)
          (event row completed none ∷ [])
          stored
          (confirm env row.id row.user_id stored)
    both =
        subst
          (λ c.
            Ends session (if c then complete_row env.completed_at row else row)
              (event_if c (event row completed none)) stored
              (confirm env row.id row.user_id stored))
          (can_be_completed env.settings.audio_analysis_enabled row status refl refl ready)
          (confirm-Ends env session stored row
            (set-IsAt session r _ (λ x. refl) (λ x. refl) w.db at))

    ended :
        Ends session
          (done_row env scores (a ∷ rest) summary r)
          (event r completed none ∷ [])
          w
          (confirm env r.id r.user_id stored)
    ended = record { at = both.at; published = both.published }

    saving : SessionScores → Outcome Failure Db
    saving s =
        save_text_results r.id s (map to_feedback (a ∷ rest)) summary
          (aggregate_tag_summary (a ∷ rest)) env.saved_at w.db

commit-Ends :
    (env : Environment) (session : ℕ) (a : EvaluatedAnswer) (rest : List EvaluatedAnswer)
    (summary : Text) (scores : SessionScores) (w : World) (r : Report)
    → aggregate_scores (a ∷ rest) ≡ ok scores
    → r.status ≡ processing
    → audio_ready env r ≡ true
    → IsAt session r w.db
    → ((commit env r.id r.user_id (a ∷ rest) summary w).0 ≡ ok tt)
      × Ends session
          (finished env scores (a ∷ rest) summary r)
          (event r completed none ∷ [])
          w
          (commit env r.id r.user_id (a ∷ rest) summary w).1
commit-Ends env session a rest summary scores w r scored status ready at =
    subst
      (λ x.
        ((commit env r.id r.user_id (a ∷ rest) summary w).0 ≡ ok tt)
        × Ends session x (event r completed none ∷ []) w
            (commit env r.id r.user_id (a ∷ rest) summary w).1)
      (done_row-finished env scores (a ∷ rest) summary r)
      (commit-Ends_done env session a rest summary scores w r scored status ready at)

started-IsAt :
    (b : Bool) (session : ℕ) (r : Report) (db : Db)
    → IsAt session r db
    → IsAtButJob session r (if b then db else reset_job_retry r.id db)
unfolding reset_job_retry
started-IsAt true session r db at = (r.job, at)
started-IsAt false session r db at = job_row-IsAt session r _ db (r.job, at)

-- What the model says of each topic and of the whole, within the allowed attempts, and that the
-- answers make scores.
pub record IsEvaluated (env : Environment) (pairs : List QuestionAnswer)
    (says : List QuestionAnswer → List AnswerEvaluation) (a : EvaluatedAnswer)
    (rest : List EvaluatedAnswer) (summary : Text) (scores : SessionScores) : Type 0 where
  pub topics_answered :
      All
        (λ t.
          IsAnswered env.settings.retry_max_attempts
            (λ n. env.evaluator.evaluate_topic n t)
            (says t))
        (group_topics pairs)
  pub answers_same : answers_of says (group_topics pairs) ≡ a ∷ rest
  pub summary_answered :
      IsAnswered env.settings.retry_max_attempts (λ n. env.evaluator.summarize n (a ∷ rest)) summary
  pub scores_same : aggregate_scores (a ∷ rest) ≡ ok scores

-- The result with its report, whatever the job.
abbrev pub Finishes : ℕ → (Option Job → Report) → List Event → World → Result → Type 0
Finishes session row events w x =
    (x.0 ≡ ok tt) × ((j : Option Job) × Ends session (row j) events w x.1)

pub evaluate_report-Finishes :
    (env : Environment) (b : Bool) (session : ℕ) (pairs : List QuestionAnswer)
    (says : List QuestionAnswer → List AnswerEvaluation) (a : EvaluatedAnswer)
    (rest : List EvaluatedAnswer) (summary : Text) (scores : SessionScores) (w : World) (r : Report)
    → IsEvaluated env pairs says a rest summary scores
    → r.status ≡ processing
    → audio_ready env r ≡ true
    → IsAt session r w.db
    → Finishes session
        (λ j. finished env scores (a ∷ rest) summary (record r { job = j }))
        (event r completed none ∷ [])
        w
        (evaluate_report env b r.id r.user_id pairs w)
unfolding evaluate_report
evaluate_report-Finishes env b session pairs says a rest summary scores w r h status ready at =
    subst
      (Finishes session (λ j. finished env scores (a ∷ rest) summary (record r { job = j }))
        (event r completed none ∷ []) w)
      (sym (
        evaluated-ok env r.id r.user_id w _ (a ∷ rest) (answers.0 ∙ ap ok h.answers_same)
        ∙ summarized-ok env r.id r.user_id (a ∷ rest) w _ summary summed.0))
      (ended.0, (summed.1.0, record { at = ended.1.at; published = ended.1.published }))
  where
    begun : Db
    begun = if b then w.db else reset_job_retry r.id w.db

    answers :
        ((evaluate_all env r.id (group_topics pairs) begun).0
          ≡ ok (answers_of says (group_topics pairs)))
        × IsAtButJob session r (evaluate_all env r.id (group_topics pairs) begun).1
    answers =
        evaluate_all-IsAt env session r says (group_topics pairs) begun h.topics_answered
          (started-IsAt b session r w.db at)

    after : Db
    after = (evaluate_all env r.id (group_topics pairs) begun).1

    summed :
        ((with_retry env.settings.retry_max_attempts r.id
            (λ n. env.evaluator.summarize n (a ∷ rest))
            after).0
          ≡ ok summary)
        × IsAtButJob session r
            (with_retry env.settings.retry_max_attempts r.id
              (λ n. env.evaluator.summarize n (a ∷ rest))
              after).1
    summed =
        with_retry-IsAt session env.settings.retry_max_attempts r
          (λ n. env.evaluator.summarize n (a ∷ rest)) summary after h.summary_answered answers.1

    stored : World
    stored = record w {
      db =
          (with_retry env.settings.retry_max_attempts r.id
            (λ n. env.evaluator.summarize n (a ∷ rest)) after).1;
    }

    ended :
        ((commit env r.id r.user_id (a ∷ rest) summary stored).0 ≡ ok tt)
        × Ends session
            (finished env scores (a ∷ rest) summary (record r { job = summed.1.0 }))
            (event r completed none ∷ [])
            stored
            (commit env r.id r.user_id (a ∷ rest) summary stored).1
    ended =
        commit-Ends env session a rest summary scores stored (record r { job = summed.1.0 })
          h.scores_same status ready summed.1.1
