-- ===== src/Worker/Repository/Steps.antt =====
-- Any sequence of statements on the reports, in any order and by any number of workers, each with
-- any arguments that a handler can give it.
pub mod Rows
pub mod Sound
pub mod Kept
pub mod Unique
pub mod Found
use kkori_ai.Prelude.{ℕ, Bool, ◌≡◌, Option, List, [], Text, Outcome, ok}
use kkori_ai.Worker.Report.{
  Db, pending, processing, Reason, SessionScores, FeedbackRecord, WeaknessTagCount, Failure,
}
use kkori_ai.Worker.Repository.{
  create_report_with_job, try_transition, mark_failed, try_complete, save_text_results,
  save_audio_result, complete_overdue_audio, increment_job_retry, reset_job_retry, record_job_error,
}

pub data Step : Db → Db → Type 0 where
  create :
      (session user resume : ℕ) (file_name : Text) (db : Db)
      → Step db (create_report_with_job session user resume file_name db).1
  enter : (rid : ℕ) (db : Db) → Step db (try_transition rid pending processing db).1
  fail : (rid : ℕ) (reason : Reason) (db : Db) → Step db (mark_failed rid reason db).1
  complete :
      (require_audio : Bool) (now rid : ℕ) (db : Db)
      → Step db (try_complete require_audio now rid db).1
  save_text :
      (rid : ℕ) (scores : SessionScores) (feedbacks : List FeedbackRecord) (summary : Text)
      (tags : List WeaknessTagCount) (now : ℕ) (db after : Db)
      → save_text_results rid scores feedbacks summary tags now db ≡ ok after
      → Step db after
  save_audio :
      (rid : ℕ) (delivery_score : Option ℕ) (tags : List WeaknessTagCount) (now : ℕ) (db : Db)
      → Step db (save_audio_result rid delivery_score tags now db).1
  complete_overdue : (grace now : ℕ) (db : Db) → Step db (complete_overdue_audio grace now db).1
  count_retry : (rid : ℕ) (db : Db) → Step db (increment_job_retry rid db)
  reset_retry : (rid : ℕ) (db : Db) → Step db (reset_job_retry rid db)
  record_error : (rid : ℕ) (summary : Text) (db : Db) → Step db (record_job_error rid summary db)

pub data Steps : Db → Db → Type 0 where
  start : (db : Db) → Steps db db
  then_step : (a b c : Db) → Steps a b → Step b c → Steps a c

abbrev pub empty_db : Db
empty_db = record { next_id = 1; reports = [] }

pub one_step : (a b : Db) → Step a b → Steps a b
one_step a b s = then_step a a b (start a) s

pub Steps_trans : (a b c : Db) → Steps a b → Steps b c → Steps a c
Steps_trans a b _ h (start _) = h
Steps_trans a b c h (then_step _ d _ k s) = then_step a d c (Steps_trans a b d h k) s
