-- ===== src/Worker/Audio.antt =====
-- worker/src/report/audio_pipeline.py: process_audio_request. The download and the analysis of the
-- recording (audio.py) are arguments.
pub mod Reach
pub mod Saves
use kkori_ai.Prelude.{
  ℕ, Bool, true, false, Option, none, some, List, [], Text, leb, is_some, is_empty, select, map,
  if◌then◌else◌, Outcome, ok, err,
}
use kkori_ai.Worker.Report.{
  completed, is_terminal, Report, Db, WeaknessTagCount, Failure, report_not_ready,
}
use kkori_ai.Worker.Repository.{get_report_by_session, save_audio_result, try_complete}
use kkori_ai.Worker.Transcript.{Utterance, is_user, join, load_transcript}
use kkori_ai.Worker.Retry.{with_retry}
use kkori_ai.Worker.Generation.{Settings, World, Environment, Result, publish_if, confirm}

pub record DeliveryResult : Type 0 where
  pub score : Option ℕ
  pub tags : List WeaknessTagCount

pub record AudioRequest : Type 0 where
  pub session_id : ℕ
  pub bucket : Text
  pub object_key : Text

-- `download` is `download_object` at each attempt; `analyze` gets the recording and what the
-- candidate said.
pub record AudioEnvironment : Type 0 where
  pub base : Environment
  pub download : ℕ → Text → Text → Outcome Failure Text
  pub analyze : Text → Text → Outcome Failure DeliveryResult

-- `" ".join(u.content for u in (utterances or []) if u.speaker is Speaker.USER)`
abbrev pub candidate_text : Option (List Utterance) → Text
candidate_text none = []
candidate_text (some utterances) =
    join (map (λ (u : Utterance). u.content) (select is_user utterances))

-- The transaction: the completion is tried only if the result was saved.
abbrev pub saved : AudioEnvironment → Report → World → Bool × Db → World
saved env report w (false, db) = record w { db = db }
saved env report w (true, db) = confirm env.base report.id report.user_id (record w { db = db })

abbrev pub analyzed : AudioEnvironment → Report → World → Outcome Failure DeliveryResult → Result
analyzed env report w (err e) = (err e, w)
analyzed env report w (ok result) = (
  ok tt,
  saved env report w (save_audio_result report.id result.score result.tags env.base.saved_at w.db),
)

abbrev pub downloaded :
    AudioEnvironment → Report → Text → World → Outcome Failure Text × Db → Result
downloaded env report text w (err e, db) = (err e, record w { db = db })
downloaded env report text w (ok recording, db) =
    analyzed env report (record w { db = db }) (env.analyze recording text)

unfoldable pub measure : AudioEnvironment → AudioRequest → Option Report → Text → World → Result
measure env request none text w = if is_empty text then (ok tt, w) else (err report_not_ready, w)
measure env request (some report) text w = downloaded env report text w (
    with_retry env.base.settings.retry_max_attempts report.id
      (λ attempt. env.download attempt request.bucket request.object_key) w.db)

abbrev pub loaded :
    AudioEnvironment
    → AudioRequest
    → Option Report
    → World
    → Outcome Failure (Option (List Utterance))
    → Result
loaded env request report w (err e) = (err e, w)
loaded env request report w (ok utterances) =
    measure env request report (candidate_text utterances) w

-- From the rule of giving up on: the report is left to the grace period.
unfoldable pub analyze_request :
    AudioEnvironment → ℕ → AudioRequest → Option Report → World → Result
analyze_request env delivery_count request report w =
    if leb env.base.settings.delivery_count_threshold delivery_count
    then (ok tt, w)
    else loaded env request report w (load_transcript (env.base.transcript request.session_id))

abbrev pub judged : AudioEnvironment → ℕ → AudioRequest → World → Option Report → Result
judged env delivery_count request w none = analyze_request env delivery_count request none w
judged env delivery_count request w (some report) =
    if is_terminal report.status
    then (ok tt, w)
    else if is_some report.audio_analyzed_at
    then (ok tt, confirm env.base report.id report.user_id w)
    else analyze_request env delivery_count request (some report) w

unfoldable pub process_audio_request : AudioEnvironment → ℕ → AudioRequest → World → Result
process_audio_request env delivery_count request w =
    judged env delivery_count request w (get_report_by_session request.session_id w.db)
