-- ===== src/Worker/Generation.antt =====
-- worker/src/report/pipeline.py: process_generation_request. A run without an exception ends in
-- `ok`, and the message is acknowledged. No other handler changes the report during a run; what
-- holds in any order of the statements stands in Repository/Steps.
pub mod Reach
pub mod Outcomes
pub mod Answered
pub mod Finishes
pub mod Completes
use kkori_ai.Prelude.{
  ℕ, Bool, true, false, Option, none, some, List, [], ◌∷◌, ◌++◌, Text, leb, is_some, is_empty, map,
  if◌then◌else◌, Outcome, ok, err, ◌>>=◌,
}
use kkori_ai.Worker.Report.{
  ReportStatus, pending, processing, completed, failed, is_terminal, Report, Db, Reason, Failure,
}
use kkori_ai.Worker.Repository.{
  get_report_by_session, create_report_with_job, try_transition, mark_failed, try_complete,
  save_text_results, get_job_error, reset_job_retry,
}
use kkori_ai.Worker.Transcript.{
  RawUtterance, Utterance, QuestionAnswer, load_transcript, group_utterances,
}
use kkori_ai.Worker.Evaluator.{AnswerEvaluation, EvaluatedAnswer, Evaluator, group_topics}
use kkori_ai.Worker.Retry.{with_retry}
use kkori_ai.Worker.Aggregate.{aggregate_scores, aggregate_tag_summary, to_feedback}

pub record Settings : Type 0 where
  pub audio_analysis_enabled : Bool
  pub delivery_count_threshold : ℕ
  pub retry_max_attempts : ℕ

-- The row that load_snapshot_source reads.
pub record SnapshotSource : Type 0 where
  pub user_id : ℕ
  pub resume_id : ℕ
  pub original_file_name : Text

-- `message` is the delivery count that a message of failure shows; all others are empty.
pub record Event : Type 0 where
  pub report_id : ℕ
  pub user_id : ℕ
  pub status : ReportStatus
  pub message : Option ℕ

pub record World : Type 0 where
  pub db : Db
  pub published : List Event

-- What a handler reads and never changes: the tables of the interview by session, the readings of
-- the clock, and what it calls.
pub record Environment : Type 0 where
  pub settings : Settings
  pub evaluator : Evaluator
  pub moment : Text → Outcome Failure ℕ
  pub transcript : ℕ → Option (List RawUtterance)
  pub snapshot_source : ℕ → Option SnapshotSource
  pub saved_at : ℕ
  pub completed_at : ℕ

abbrev pub Result : Type 0
Result = Outcome Failure Unit × World

abbrev pub publish : ℕ → ℕ → ReportStatus → Option ℕ → World → World
publish rid user status message w = record w {
  published =
      w.published
      ++ record { report_id = rid; user_id = user; status = status; message = message } ∷ [];
}

-- The event of a transition, if it took place, after the statement.
abbrev pub publish_if : ℕ → ℕ → ReportStatus → Option ℕ → World → Bool × Db → World
publish_if rid user status message w (true, db) =
    publish rid user status message (record w { db = db })
publish_if rid user status message w (false, db) = record w { db = db }

-- `try_complete`, and the event if it succeeded
unfoldable pub confirm : Environment → ℕ → ℕ → World → World
confirm env rid user w =
    publish_if rid user completed none w
      (try_complete env.settings.audio_analysis_enabled env.completed_at rid w.db)

-- `last` if it is neither None nor empty
abbrev pub truthy : Option Text → Option Text
truthy none = none
truthy (some t) = if is_empty t then none else some t

unfoldable pub give_up : Option Report → ℕ → World → World
give_up none delivery_count w = w
give_up (some report) delivery_count w =
    publish_if report.id report.user_id failed (some delivery_count) w (
      mark_failed report.id
        (record {
          delivery_count = delivery_count;
          last_error = truthy (get_job_error report.id w.db);
        })
        w.db)

-- `EvaluatedAnswer(qa=qa, evaluation=e) for qa, e in zip(topic, results)`
abbrev pub zip_answers : List QuestionAnswer → List AnswerEvaluation → List EvaluatedAnswer
zip_answers (q ∷ qs) (e ∷ es) = record { qa = q; evaluation = e } ∷ zip_answers qs es
zip_answers _ _ = []

-- In front of the answers of the later topics.
abbrev pub extend :
    List EvaluatedAnswer
    → Outcome Failure (List EvaluatedAnswer) × Db
    → Outcome Failure (List EvaluatedAnswer) × Db
extend answers (ok more, db) = (ok (answers ++ more), db)
extend answers (err e, db) = (err e, db)

-- After a topic: its outcome, and the later topics.
abbrev pub topic_evaluated :
    List QuestionAnswer
    → (Db → Outcome Failure (List EvaluatedAnswer) × Db)
    → Outcome Failure (List AnswerEvaluation) × Db
    → Outcome Failure (List EvaluatedAnswer) × Db
topic_evaluated topic later (err e, db) = (err e, db)
topic_evaluated topic later (ok results, db) = extend (zip_answers topic results) (later db)

unfoldable pub evaluate_all :
    Environment → ℕ → List (List QuestionAnswer) → Db → Outcome Failure (List EvaluatedAnswer) × Db
evaluate_all env rid [] db = (ok [], db)
evaluate_all env rid (topic ∷ topics) db =
    topic_evaluated topic (λ counted. evaluate_all env rid topics counted)
      (with_retry env.settings.retry_max_attempts rid
        (λ attempt. env.evaluator.evaluate_topic attempt topic) db)

-- The transaction: what it saved is kept only if it did not raise.
abbrev pub committed : Environment → ℕ → ℕ → World → Outcome Failure Db → Result
committed env rid user w (err e) = (err e, w)
committed env rid user w (ok db) = (ok tt, confirm env rid user (record w { db = db }))

unfoldable pub commit : Environment → ℕ → ℕ → List EvaluatedAnswer → Text → World → Result
commit env rid user answers summary w = committed env rid user w (do
  scores ← aggregate_scores answers
  save_text_results rid scores (map to_feedback answers) summary (aggregate_tag_summary answers)
      env.saved_at w.db)

abbrev pub summarized :
    Environment → ℕ → ℕ → List EvaluatedAnswer → World → Outcome Failure Text × Db → Result
summarized env rid user answers w (err e, db) = (err e, record w { db = db })
summarized env rid user answers w (ok summary, db) =
    commit env rid user answers summary (record w { db = db })

abbrev pub evaluated :
    Environment → ℕ → ℕ → World → Outcome Failure (List EvaluatedAnswer) × Db → Result
evaluated env rid user w (err e, db) = (err e, record w { db = db })
evaluated env rid user w (ok answers, db) = summarized env rid user answers w (
    with_retry env.settings.retry_max_attempts rid
      (λ attempt. env.evaluator.summarize attempt answers) db)

unfoldable pub evaluate_report : Environment → Bool → ℕ → ℕ → List QuestionAnswer → World → Result
evaluate_report env is_reclaimed rid user pairs w =
    let started = if is_reclaimed then w.db else reset_job_retry rid w.db in
    evaluated env rid user w (evaluate_all env rid (group_topics pairs) started)

abbrev pub entered : Environment → Bool → ℕ → ℕ → List QuestionAnswer → World → Bool × Db → Result
entered env is_reclaimed rid user pairs w (false, db) = (ok tt, record w { db = db })
entered env is_reclaimed rid user pairs w (true, db) =
    evaluate_report env is_reclaimed rid user pairs
      (publish rid user processing none (record w { db = db }))

unfoldable pub enter_processing :
    Environment → Bool → ReportStatus → ℕ → ℕ → List QuestionAnswer → World → Result
enter_processing env is_reclaimed pending rid user pairs w =
    entered env is_reclaimed rid user pairs w (try_transition rid pending processing w.db)
enter_processing env is_reclaimed _ rid user pairs w =
    if is_reclaimed then evaluate_report env is_reclaimed rid user pairs w else (ok tt, w)

abbrev pub created : Environment → Bool → ℕ → List QuestionAnswer → World → Option ℕ × Db → Result
created env is_reclaimed user pairs w (none, db) = (ok tt, record w { db = db })
created env is_reclaimed user pairs w (some rid, db) =
    enter_processing env is_reclaimed pending rid user pairs (record w { db = db })

abbrev pub sourced :
    Environment → Bool → ℕ → List QuestionAnswer → World → Option SnapshotSource → Result
sourced env is_reclaimed session pairs w none = (ok tt, w)
sourced env is_reclaimed session pairs w (some source) =
    created env is_reclaimed source.user_id pairs w (
      create_report_with_job session source.user_id source.resume_id source.original_file_name w.db)

unfoldable pub secure_row :
    Environment → Bool → ℕ → Option Report → List QuestionAnswer → World → Result
secure_row env is_reclaimed session (some report) pairs w =
    enter_processing env is_reclaimed report.status report.id report.user_id pairs w
secure_row env is_reclaimed session none pairs w =
    sourced env is_reclaimed session pairs w (env.snapshot_source session)

abbrev pub grouped_pairs :
    Environment → Bool → ℕ → Option Report → World → Outcome Failure (List QuestionAnswer) → Result
grouped_pairs env is_reclaimed session report w (err e) = (err e, w)
grouped_pairs env is_reclaimed session report w (ok []) = (ok tt, w)
grouped_pairs env is_reclaimed session report w (ok (p ∷ ps)) =
    secure_row env is_reclaimed session report (p ∷ ps) w

abbrev pub loaded :
    Environment
    → Bool
    → ℕ
    → Option Report
    → World
    → Outcome Failure (Option (List Utterance))
    → Result
loaded env is_reclaimed session report w (err e) = (err e, w)
loaded env is_reclaimed session report w (ok none) = (ok tt, w)
loaded env is_reclaimed session report w (ok (some utterances)) =
    grouped_pairs env is_reclaimed session report w (group_utterances env.moment utterances)

-- From the rule of giving up on.
unfoldable pub generate : Environment → ℕ → Bool → ℕ → Option Report → World → Result
generate env delivery_count is_reclaimed session report w =
    if leb env.settings.delivery_count_threshold delivery_count
    then (ok tt, give_up report delivery_count w)
    else loaded env is_reclaimed session report w (load_transcript (env.transcript session))

abbrev pub judged : Environment → ℕ → Bool → ℕ → World → Option Report → Result
judged env delivery_count is_reclaimed session w none =
    generate env delivery_count is_reclaimed session none w
judged env delivery_count is_reclaimed session w (some report) =
    if is_terminal report.status
    then (ok tt, w)
    else if is_some report.text_analyzed_at
    then (ok tt, confirm env report.id report.user_id w)
    else generate env delivery_count is_reclaimed session (some report) w

unfoldable pub process_generation_request : Environment → ℕ → ℕ → Bool → World → Result
process_generation_request env session delivery_count is_reclaimed w =
    judged env delivery_count is_reclaimed session w (get_report_by_session session w.db)
