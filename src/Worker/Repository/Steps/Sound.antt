-- ===== src/Worker/Repository/Steps/Sound.antt =====
-- What every row satisfies after any sequence of statements.
use kkori_ai.Prelude.{true, false, ◌≡◌, List, arith, is_some, is_empty, All}
use kkori_ai.Worker.Report.{Report, Db, completed, failed}
use kkori_ai.Worker.Repository.Steps.{Steps, start, then_step, empty_db}
use kkori_ai.Worker.Repository.Steps.Rows.{
  Touch, entered, failed_by, completed_by, text_saved, audio_saved, overdue_completed, job_set,
  Rows, done, added, kept, touched, Step-Rows,
}

-- The report has its job; it has scores and feedback once the text was analysed; a delivery score
-- only once the audio was; it is completed only with an analysed text and an overall score, and
-- failed only with a reason.
pub record IsSound (r : Report) : Type 0 where
  pub has_job : is_some r.job ≡ true
  pub has_scores : is_some r.text_analyzed_at ≡ true → is_some r.scores ≡ true
  pub has_feedback : is_some r.text_analyzed_at ≡ true → is_empty r.feedbacks ≡ false
  pub delivery_measured : is_some r.delivery_score ≡ true → is_some r.audio_analyzed_at ≡ true
  pub completed_analysed : r.status ≡ completed → is_some r.text_analyzed_at ≡ true
  pub completed_scored : r.status ≡ completed → is_some r.overall_score ≡ true
  pub failed_explained : r.status ≡ failed → is_some r.failed_reason ≡ true

Touch-IsSound : (r s : Report) → Touch r s → IsSound r → IsSound s
Touch-IsSound r _ (entered rid _ e) h = ground arith
Touch-IsSound r _ (failed_by rid reason _ e) h = ground arith
Touch-IsSound r _ (completed_by audio rid now _ e) h = ground arith
Touch-IsSound r _ (text_saved scores f fs summary tags now _) h = ground arith
Touch-IsSound r _ (audio_saved rid delivery tags now _ e) h = ground arith
Touch-IsSound r _ (overdue_completed grace now _ e) h = ground arith
Touch-IsSound r _ (job_set set _) h = ground arith

pub Rows-IsSound : (rs ss : List Report) → Rows rs ss → All IsSound rs → All IsSound ss
Rows-IsSound _ _ done h = h
Rows-IsSound _ _ (added rid session user resume name) h = ground arith
Rows-IsSound _ _ (kept r rs ss k) h = (h.0, Rows-IsSound rs ss k h.1)
Rows-IsSound _ _ (touched r s rs ss t k) h = (Touch-IsSound r s t h.0, Rows-IsSound rs ss k h.1)

-- After any sequence of statements from the empty tables every report is sound.
pub Steps-IsSound : (db : Db) → Steps empty_db db → All IsSound db.reports
Steps-IsSound db (start _) = tt
Steps-IsSound c (then_step _ b _ k s) =
    Rows-IsSound b.reports c.reports (Step-Rows b c s) (Steps-IsSound b k)
