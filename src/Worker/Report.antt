-- ===== src/Worker/Report.antt =====
-- worker/src/report/repository.py and contract/report.py: the rows of a report. The rows of
-- report_scores, report_feedbacks and report_generation_jobs that belong to a report are kept with
-- it. The columns created_at, updated_at and requested_at, which the worker writes and never
-- reads, are left out.
use kkori_ai.Prelude.{ℕ, Bool, true, false, Option, List, Text}

pub data ReportStatus : Type 0 where
  pending : ReportStatus
  processing : ReportStatus
  completed : ReportStatus
  failed : ReportStatus

-- `status = 'PENDING'` and the like
abbrev pub status_eq : ReportStatus → ReportStatus → Bool
status_eq pending pending = true
status_eq processing processing = true
status_eq completed completed = true
status_eq failed failed = true
status_eq _ _ = false

-- `status in _TERMINAL`
abbrev pub is_terminal : ReportStatus → Bool
is_terminal completed = true
is_terminal failed = true
is_terminal _ = false

pub record WeaknessTagCount : Type 0 where
  pub tag : Text
  pub count : ℕ

pub record ImprovementTask : Type 0 where
  pub title : Text
  pub description : Text

pub record SessionScores : Type 0 where
  pub logic_score : ℕ
  pub specificity_score : ℕ
  pub technical_accuracy_score : ℕ

-- `resume_context` is always NULL
pub record FeedbackRecord : Type 0 where
  pub question_number : ℕ
  pub logic_score : ℕ
  pub specificity_score : ℕ
  pub technical_accuracy_score : ℕ
  pub feedback : Text
  pub weakness_tags : List Text
  pub improvement_tasks : List ImprovementTask

-- The reason of a failure, as the values that its text shows.
pub record Reason : Type 0 where
  pub delivery_count : ℕ
  pub last_error : Option Text

pub record Job : Type 0 where
  pub retry_count : ℕ
  pub error_message : Option Text

pub record Report : Type 0 where
  pub id : ℕ
  pub user_id : ℕ
  pub session_id : ℕ
  pub resume_id : ℕ
  pub resume_file_name : Text
  pub status : ReportStatus
  pub overall_score : Option ℕ
  pub delivery_score : Option ℕ
  pub summary : Option Text
  pub weakness_tag_summary : Option (List WeaknessTagCount)
  pub text_analyzed_at : Option ℕ
  pub audio_analyzed_at : Option ℕ
  pub completed_at : Option ℕ
  pub failed_reason : Option Reason
  pub scores : Option SessionScores
  pub feedbacks : List FeedbackRecord
  pub job : Option Job

pub record Db : Type 0 where
  pub next_id : ℕ
  pub reports : List Report

-- The exceptions of the handlers.
pub data Failure : Type 0 where
  value_error : Failure
  zero_division : Failure
  index_error : Failure
  assertion_error : Failure
  report_not_ready : Failure
  -- any other exception, by the name of its type
  other : Text → Failure
