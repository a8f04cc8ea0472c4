-- ===== src/Worker/Generation/Reach.antt =====
-- Every run of a request for generation is a sequence of the repository's statements.
use kkori_ai.Prelude.{
  ℕ, Bool, true, false, Option, none, some, List, [], ◌∷◌, ◌≡◌, refl, Text, Outcome, ok, err, leb,
  map, is_some, if◌then◌else◌, ◌>>=◌, arith,
}
use kkori_ai.Worker.Report.{
  ReportStatus, pending, processing, completed, failed, is_terminal, Report, Db, Failure,
  SessionScores,
}
use kkori_ai.Worker.Repository.{get_report_by_session, save_text_results, reset_job_retry}
use kkori_ai.Worker.Repository.Steps.{
  Steps, start, create, enter, fail, complete, save_text, reset_retry, one_step, Steps_trans,
}
use kkori_ai.Worker.Retry.Reach.{with_retry-Steps}
use kkori_ai.Worker.Transcript.{Utterance, QuestionAnswer, load_transcript, group_utterances}
use kkori_ai.Worker.Evaluator.{AnswerEvaluation, EvaluatedAnswer, group_topics}
use kkori_ai.Worker.Aggregate.{aggregate_scores, aggregate_tag_summary, to_feedback}
use kkori_ai.Worker.Generation.{
  World, Environment, Result, SnapshotSource, publish, publish_if, confirm, give_up, evaluate_all,
  extend, zip_answers, topic_evaluated, committed, commit, summarized, evaluated, evaluate_report,
  entered, enter_processing, created, sourced, secure_row, grouped_pairs, loaded, generate, judged,
  process_generation_request,
}

-- The reports after a handler are reached by statements from those before it.
abbrev pub Reaches : World → World → Type 0
Reaches v w = Steps v.db w.db

pub if-Reaches :
    (w : World) (b : Bool) (x y : Result)
    → Reaches w x.1
    → Reaches w y.1
    → Reaches w (if b then x else y).1
if-Reaches w true x y h k = h
if-Reaches w false x y h k = k

publish_if-Reaches :
    (rid user : ℕ) (status : ReportStatus) (message : Option ℕ) (w : World) (r : Bool × Db)
    → Steps w.db r.1
    → Reaches w (publish_if rid user status message w r)
publish_if-Reaches rid user status message w (true, db) h = h
publish_if-Reaches rid user status message w (false, db) h = h

pub confirm-Reaches :
    (env : Environment) (rid user : ℕ) (w : World) → Reaches w (confirm env rid user w)
unfolding confirm
confirm-Reaches env rid user w =
    publish_if-Reaches rid user completed none w _ (one_step w.db _ (complete _ _ rid w.db))

give_up-Reaches : (report : Option Report) (n : ℕ) (w : World) → Reaches w (give_up report n w)
unfolding give_up
give_up-Reaches none n w = start w.db
give_up-Reaches (some r) n w =
    publish_if-Reaches r.id r.user_id failed (some n) w _ (one_step w.db _ (fail r.id _ w.db))

extend-Steps :
    (answers : List EvaluatedAnswer) (db : Db) (r : Outcome Failure (List EvaluatedAnswer) × Db)
    → Steps db r.1
    → Steps db (extend answers r).1
extend-Steps answers db (ok more, d) h = h
extend-Steps answers db (err e, d) h = h

topic_evaluated-Steps :
    (topic : List QuestionAnswer) (later : Db → Outcome Failure (List EvaluatedAnswer) × Db)
    (db : Db) (r : Outcome Failure (List AnswerEvaluation) × Db)
    → Steps db r.1
    → ((d : Db) → Steps d (later d).1)
    → Steps db (topic_evaluated topic later r).1
topic_evaluated-Steps topic later db (err e, d) h k = h
topic_evaluated-Steps topic later db (ok results, d) h k =
    extend-Steps (zip_answers topic results) db (later d) (Steps_trans db d _ h (k d))

evaluate_all-Steps :
    (env : Environment) (rid : ℕ) (topics : List (List QuestionAnswer)) (db : Db)
    → Steps db (evaluate_all env rid topics db).1
unfolding evaluate_all
evaluate_all-Steps env rid [] db = start db
evaluate_all-Steps env rid (topic ∷ topics) db =
    topic_evaluated-Steps topic (λ d. evaluate_all env rid topics d) db _
      (with_retry-Steps env.settings.retry_max_attempts rid
        (λ attempt. env.evaluator.evaluate_topic attempt topic) db)
      (λ d. evaluate_all-Steps env rid topics d)

committed-Reaches :
    (env : Environment) (rid user : ℕ) (w : World) (r : Outcome Failure Db)
    → ((db : Db) → r ≡ ok db → Steps w.db db)
    → Reaches w (committed env rid user w r).1
committed-Reaches env rid user w (err e) h = start w.db
committed-Reaches env rid user w (ok db) h =
    Steps_trans w.db db _ (h db refl) (confirm-Reaches env rid user (record w { db = db }))

commit-Reaches :
    (env : Environment) (rid user : ℕ) (answers : List EvaluatedAnswer) (summary : Text) (w : World)
    → Reaches w (commit env rid user answers summary w).1
unfolding commit
commit-Reaches env rid user answers summary w =
    committed-Reaches env rid user w _ (λ db e. with_scores (aggregate_scores answers) db e)
  where
    with_scores :
        (s : Outcome Failure SessionScores) (db : Db)
        → (s >>= λ scores.
            save_text_results rid scores
              (map to_feedback answers)
              summary
              (aggregate_tag_summary answers)
              env.saved_at
              w.db)
          ≡ ok db
        → Steps w.db db
    with_scores (err f) db e = absurd (ground arith)
    with_scores (ok scores) db e =
        one_step w.db db (save_text rid scores _ summary _ env.saved_at w.db db e)

summarized-Reaches :
    (env : Environment) (rid user : ℕ) (answers : List EvaluatedAnswer) (w : World)
    (r : Outcome Failure Text × Db)
    → Steps w.db r.1
    → Reaches w (summarized env rid user answers w r).1
summarized-Reaches env rid user answers w (err e, db) h = h
summarized-Reaches env rid user answers w (ok summary, db) h =
    Steps_trans w.db db _ h (commit-Reaches env rid user answers summary (record w { db = db }))

evaluated-Reaches :
    (env : Environment) (rid user : ℕ) (w : World) (r : Outcome Failure (List EvaluatedAnswer) × Db)
    → Steps w.db r.1
    → Reaches w (evaluated env rid user w r).1
evaluated-Reaches env rid user w (err e, db) h = h
evaluated-Reaches env rid user w (ok answers, db) h = summarized-Reaches env rid user answers w _ (
    Steps_trans w.db db _ h (
      with_retry-Steps env.settings.retry_max_attempts rid
        (λ attempt. env.evaluator.summarize attempt answers) db))

started-Steps : (b : Bool) (rid : ℕ) (db : Db) → Steps db (if b then db else reset_job_retry rid db)
started-Steps true rid db = start db
started-Steps false rid db = one_step db _ (reset_retry rid db)

evaluate_report-Reaches :
    (env : Environment) (b : Bool) (rid user : ℕ) (pairs : List QuestionAnswer) (w : World)
    → Reaches w (evaluate_report env b rid user pairs w).1
unfolding evaluate_report
evaluate_report-Reaches env b rid user pairs w = evaluated-Reaches env rid user w _ (
    Steps_trans w.db _ _ (started-Steps b rid w.db) (
      evaluate_all-Steps env rid (group_topics pairs)
        (if b then w.db else reset_job_retry rid w.db)))

entered-Reaches :
    (env : Environment) (b : Bool) (rid user : ℕ) (pairs : List QuestionAnswer) (w : World)
    (r : Bool × Db)
    → Steps w.db r.1
    → Reaches w (entered env b rid user pairs w r).1
entered-Reaches env b rid user pairs w (false, db) h = h
entered-Reaches env b rid user pairs w (true, db) h = Steps_trans w.db db _ h (
    evaluate_report-Reaches env b rid user pairs
      (publish rid user processing none (record w { db = db })))

resumed-Reaches :
    (env : Environment) (b : Bool) (rid user : ℕ) (pairs : List QuestionAnswer) (w : World)
    → Reaches w (if b then evaluate_report env b rid user pairs w else (ok tt, w)).1
resumed-Reaches env b rid user pairs w =
    if-Reaches w b (evaluate_report env b rid user pairs w) (ok tt, w)
      (evaluate_report-Reaches env b rid user pairs w) (start w.db)

enter_processing-Reaches :
    (env : Environment) (b : Bool) (status : ReportStatus) (rid user : ℕ)
    (pairs : List QuestionAnswer) (w : World)
    → Reaches w (enter_processing env b status rid user pairs w).1
unfolding enter_processing
enter_processing-Reaches env b pending rid user pairs w =
    entered-Reaches env b rid user pairs w _ (one_step w.db _ (enter rid w.db))
enter_processing-Reaches env b processing rid user pairs w = resumed-Reaches env b rid user pairs w
enter_processing-Reaches env b completed rid user pairs w = resumed-Reaches env b rid user pairs w
enter_processing-Reaches env b failed rid user pairs w = resumed-Reaches env b rid user pairs w

created-Reaches :
    (env : Environment) (b : Bool) (user : ℕ) (pairs : List QuestionAnswer) (w : World)
    (r : Option ℕ × Db)
    → Steps w.db r.1
    → Reaches w (created env b user pairs w r).1
created-Reaches env b user pairs w (none, db) h = h
created-Reaches env b user pairs w (some rid, db) h =
    Steps_trans w.db db _ h
      (enter_processing-Reaches env b pending rid user pairs (record w { db = db }))

secure_row-Reaches :
    (env : Environment) (b : Bool) (session : ℕ) (report : Option Report)
    (pairs : List QuestionAnswer) (w : World)
    → Reaches w (secure_row env b session report pairs w).1
unfolding secure_row
secure_row-Reaches env b session (some r) pairs w =
    enter_processing-Reaches env b r.status r.id r.user_id pairs w
secure_row-Reaches env b session none pairs w = from_source (env.snapshot_source session)
  where
    from_source :
        (source : Option SnapshotSource) → Reaches w (sourced env b session pairs w source).1
    from_source none = start w.db
    from_source (some s) =
        created-Reaches env b s.user_id pairs w _
          (one_step w.db _ (create session s.user_id s.resume_id s.original_file_name w.db))

grouped_pairs-Reaches :
    (env : Environment) (b : Bool) (session : ℕ) (report : Option Report) (w : World)
    (r : Outcome Failure (List QuestionAnswer))
    → Reaches w (grouped_pairs env b session report w r).1
grouped_pairs-Reaches env b session report w (err e) = start w.db
grouped_pairs-Reaches env b session report w (ok []) = start w.db
grouped_pairs-Reaches env b session report w (ok (p ∷ ps)) =
    secure_row-Reaches env b session report (p ∷ ps) w

loaded-Reaches :
    (env : Environment) (b : Bool) (session : ℕ) (report : Option Report) (w : World)
    (r : Outcome Failure (Option (List Utterance)))
    → Reaches w (loaded env b session report w r).1
loaded-Reaches env b session report w (err e) = start w.db
loaded-Reaches env b session report w (ok none) = start w.db
loaded-Reaches env b session report w (ok (some us)) =
    grouped_pairs-Reaches env b session report w (group_utterances env.moment us)

generate-Reaches :
    (env : Environment) (n : ℕ) (b : Bool) (session : ℕ) (report : Option Report) (w : World)
    → Reaches w (generate env n b session report w).1
unfolding generate
generate-Reaches env n b session report w =
    if-Reaches w (leb env.settings.delivery_count_threshold n) (ok tt, give_up report n w)
      (loaded env b session report w (load_transcript (env.transcript session)))
      (give_up-Reaches report n w)
      (loaded-Reaches env b session report w (load_transcript (env.transcript session)))

judged-Reaches :
    (env : Environment) (n : ℕ) (b : Bool) (session : ℕ) (w : World) (report : Option Report)
    → Reaches w (judged env n b session w report).1
judged-Reaches env n b session w none = generate-Reaches env n b session none w
judged-Reaches env n b session w (some r) =
    if-Reaches w (is_terminal r.status) (ok tt, w) _ (start w.db)
      (if-Reaches w (is_some r.text_analyzed_at) (ok tt, confirm env r.id r.user_id w)
        (generate env n b session (some r) w) (confirm-Reaches env r.id r.user_id w)
        (generate-Reaches env n b session (some r) w))

-- Whatever the request, the tables, the evaluator and the delivery, a run takes the reports from
-- where they were to where they are by a sequence of the repository's statements.
pub process_generation_request-Reaches :
    (env : Environment) (session n : ℕ) (b : Bool) (w : World)
    → Steps w.db (process_generation_request env session n b w).1.db
unfolding process_generation_request
process_generation_request-Reaches env session n b w =
    judged-Reaches env n b session w (get_report_by_session session w.db)
