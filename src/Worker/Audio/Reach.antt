-- ===== src/Worker/Audio/Reach.antt =====
-- Every run of a request for audio analysis is a sequence of the repository's statements.
use kkori_ai.Prelude.{
  ℕ, Bool, true, false, Option, none, some, List, Text, Outcome, ok, err, leb, is_some, is_empty,
}
use kkori_ai.Worker.Report.{is_terminal, Report, Db, Failure, report_not_ready}
use kkori_ai.Worker.Repository.{get_report_by_session}
use kkori_ai.Worker.Repository.Steps.{Steps, start, save_audio, one_step, Steps_trans}
use kkori_ai.Worker.Retry.Reach.{with_retry-Steps}
use kkori_ai.Worker.Transcript.{Utterance, load_transcript}
use kkori_ai.Worker.Generation.{World, confirm}
use kkori_ai.Worker.Generation.Reach.{Reaches, if-Reaches, confirm-Reaches}
use kkori_ai.Worker.Audio.{
  AudioEnvironment, AudioRequest, DeliveryResult, candidate_text, saved, analyzed, downloaded,
  measure, loaded, analyze_request, judged, process_audio_request,
}

saved-Reaches :
    (env : AudioEnvironment) (report : Report) (w : World) (r : Bool × Db)
    → Steps w.db r.1
    → Reaches w (saved env report w r)
saved-Reaches env report w (false, db) h = h
saved-Reaches env report w (true, db) h =
    Steps_trans w.db db _ h
      (confirm-Reaches env.base report.id report.user_id (record w { db = db }))

analyzed-Reaches :
    (env : AudioEnvironment) (report : Report) (w : World) (r : Outcome Failure DeliveryResult)
    → Reaches w (analyzed env report w r).1
analyzed-Reaches env report w (err e) = start w.db
analyzed-Reaches env report w (ok result) =
    saved-Reaches env report w _
      (one_step w.db _ (save_audio report.id result.score result.tags env.base.saved_at w.db))

downloaded-Reaches :
    (env : AudioEnvironment) (report : Report) (text : Text) (w : World)
    (r : Outcome Failure Text × Db)
    → Steps w.db r.1
    → Reaches w (downloaded env report text w r).1
downloaded-Reaches env report text w (err e, db) h = h
downloaded-Reaches env report text w (ok recording, db) h =
    Steps_trans w.db db _ h
      (analyzed-Reaches env report (record w { db = db }) (env.analyze recording text))

measure-Reaches :
    (env : AudioEnvironment) (request : AudioRequest) (report : Option Report) (text : Text)
    (w : World)
    → Reaches w (measure env request report text w).1
unfolding measure
measure-Reaches env request none text w =
    if-Reaches w (is_empty text) (ok tt, w) (err report_not_ready, w) (start w.db) (start w.db)
measure-Reaches env request (some report) text w = downloaded-Reaches env report text w _ (
    with_retry-Steps env.base.settings.retry_max_attempts report.id
      (λ attempt. env.download attempt request.bucket request.object_key) w.db)

loaded-Reaches :
    (env : AudioEnvironment) (request : AudioRequest) (report : Option Report) (w : World)
    (r : Outcome Failure (Option (List Utterance)))
    → Reaches w (loaded env request report w r).1
loaded-Reaches env request report w (err e) = start w.db
loaded-Reaches env request report w (ok us) =
    measure-Reaches env request report (candidate_text us) w

analyze_request-Reaches :
    (env : AudioEnvironment) (n : ℕ) (request : AudioRequest) (report : Option Report) (w : World)
    → Reaches w (analyze_request env n request report w).1
unfolding analyze_request
analyze_request-Reaches env n request report w =
    if-Reaches w (leb env.base.settings.delivery_count_threshold n) (ok tt, w)
      (loaded env request report w (load_transcript (env.base.transcript request.session_id)))
      (start w.db)
      (loaded-Reaches env request report w
        (load_transcript (env.base.transcript request.session_id)))

judged-Reaches :
    (env : AudioEnvironment) (n : ℕ) (request : AudioRequest) (w : World) (report : Option Report)
    → Reaches w (judged env n request w report).1
judged-Reaches env n request w none = analyze_request-Reaches env n request none w
judged-Reaches env n request w (some r) =
    if-Reaches w (is_terminal r.status) (ok tt, w) _ (start w.db)
      (if-Reaches w (is_some r.audio_analyzed_at) (ok tt, confirm env.base r.id r.user_id w)
        (analyze_request env n request (some r) w) (confirm-Reaches env.base r.id r.user_id w)
        (analyze_request-Reaches env n request (some r) w))

-- Whatever the request, the recording and the delivery, a run takes the reports from where they
-- were to where they are by a sequence of the repository's statements.
pub process_audio_request-Reaches :
    (env : AudioEnvironment) (n : ℕ) (request : AudioRequest) (w : World)
    → Steps w.db (process_audio_request env n request w).1.db
unfolding process_audio_request
process_audio_request-Reaches env n request w =
    judged-Reaches env n request w (get_report_by_session request.session_id w.db)
