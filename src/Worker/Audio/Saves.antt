-- ===== src/Worker/Audio/Saves.antt =====
-- A request whose recording can be had and analysed.
use kkori_ai.Prelude.{
  ℕ, ◌≡◌, refl, sym, ◌∙◌, ap, subst, Bool, true, false, Option, none, some, List, [], ◌++◌, Text,
  leb, is_some, select, not, ◌&&◌, arith, if◌then◌else◌, Outcome, ok, err,
}
use kkori_ai.Worker.Report.{Report, Db, Job, WeaknessTagCount, Failure, completed, is_terminal}
use kkori_ai.Worker.Vocabulary.{contains, voice_weakness_tags}
use kkori_ai.Worker.Repository.{
  get_report_by_session, save_audio_result, is_open, audio_row, execute, can_complete, complete_row,
  is_voice,
}
use kkori_ai.Worker.Repository.Steps.Found.{IsAt, execute-IsAt}
use kkori_ai.Worker.Transcript.{Utterance, load_transcript}
use kkori_ai.Worker.Retry.{with_retry}
use kkori_ai.Worker.Generation.{World, Result, confirm}
use kkori_ai.Worker.Generation.Outcomes.{
  if_false, IsUnfinished, is_terminal-IsUnfinished, Ends, event, event_if, confirm-Ends,
  is_processing, completed_at, complete_row-completed,
}
use kkori_ai.Worker.Generation.Answered.{IsAnswered, with_retry-IsAt}
use kkori_ai.Worker.Audio.{
  AudioEnvironment, AudioRequest, DeliveryResult, candidate_text, saved, analyzed, downloaded,
  measure, loaded, analyze_request, judged, process_audio_request,
}

-- The tags that are not of the voice.
abbrev pub text_tags : Option (List WeaknessTagCount) → List WeaknessTagCount
text_tags none = []
text_tags (some tags) = select (λ t. not (contains voice_weakness_tags t.tag)) tags

-- The report with the result of the analysis.
abbrev pub measured : AudioEnvironment → DeliveryResult → Report → Report
measured env result r = record r {
  delivery_score = result.score;
  audio_analyzed_at = some env.base.saved_at;
  weakness_tag_summary = some (text_tags r.weakness_tag_summary ++ result.tags);
}

-- Nothing else is waited for: the report is processing, with its scores and an analysed text.
abbrev pub is_text_done : Report → Bool
is_text_done r = is_processing r.status && is_some r.scores && is_some r.text_analyzed_at

text_tags_lem :
    (tags : Option (List WeaknessTagCount))
    → select (λ t. not (is_voice t)) (elim tags [ none ↦ [] | some ts ↦ ts ]) ≡ text_tags tags
text_tags_lem none = refl
text_tags_lem (some tags) = refl

downloaded-ok :
    (env : AudioEnvironment) (r : Report) (text : Text) (w : World) (x : Outcome Failure Text × Db)
    (recording : Text) (result : DeliveryResult)
    → x.0 ≡ ok recording
    → env.analyze recording text ≡ ok result
    → downloaded env r text w x ≡ (
      ok tt,
      saved env r
          (record w { db = x.1 })
          (save_audio_result r.id result.score result.tags env.base.saved_at x.1),
    )
downloaded-ok env r text w (ok found, db) recording result h k =
    let same : found ≡ recording = ground arith in
    ap (λ z. analyzed env r (record w { db = db }) (env.analyze z text)) same
    ∙ ap (analyzed env r (record w { db = db })) k
downloaded-ok env r text w (err e, db) recording result h k = absurd (ground arith)

saved-ok :
    (env : AudioEnvironment) (r : Report) (w : World) (x : Bool × Db)
    → x.0 ≡ true
    → saved env r w x ≡ confirm env.base r.id r.user_id (record w { db = x.1 })
saved-ok env r w (true, db) h = refl
saved-ok env r w (false, db) h = absurd (ground arith)

-- The statement on an open report, and the completion after it.
saved-Ends :
    (env : AudioEnvironment) (session : ℕ) (result : DeliveryResult) (r : Report) (w : World)
    → IsUnfinished r
    → IsAt session r w.db
    → Ends session
        (if is_text_done r
          then completed_at env.base.completed_at (measured env result r)
          else measured env result r)
        (event_if (is_text_done r) (event r completed none))
        w
        (saved env r w (save_audio_result r.id result.score result.tags env.base.saved_at w.db))
unfolding save_audio_result
saved-Ends env session result r w h at =
    subst
      (λ x.
        Ends session (if is_text_done r then completed_at env.base.completed_at x else x)
          (event_if (is_text_done r) (event r completed none)) w
          (saved env r w (save_audio_result r.id result.score result.tags env.base.saved_at w.db)))
      row_measured (record { at = ended.at; published = ended.published })
  where
    row : Report
    row = audio_row result.score result.tags env.base.saved_at r

    row_measured : row ≡ measured env result r
    row_measured =
        ap
          (λ tags. record (measured env result r) {
            weakness_tag_summary = some (tags ++ result.tags);
          })
          (text_tags_lem r.weakness_tag_summary)

    opened : is_open r.id r ≡ true
    opened = ground (arith, is_terminal-IsUnfinished r h)

    done : Bool × Db
    done = execute (is_open r.id) (audio_row result.score result.tags env.base.saved_at) w.db

    stepped : (done.0 ≡ is_open r.id r) × IsAt session (if is_open r.id r then row else r) done.1
    stepped =
        execute-IsAt session r (is_open r.id) (audio_row result.score result.tags env.base.saved_at)
          (λ x p. ground arith) (λ x. refl) (λ x. refl) w.db at

    due : can_complete env.base.settings.audio_analysis_enabled row.id row ≡ is_text_done r
    due = ground arith

    ended :
        Ends session
          (if is_text_done r then completed_at env.base.completed_at row else row)
          (event_if (is_text_done r) (event r completed none))
          (record w { db = done.1 })
          (saved env r w done)
    ended =
        subst
          (λ v.
            Ends session (if is_text_done r then completed_at env.base.completed_at row else row)
              (event_if (is_text_done r) (event r completed none)) (record w { db = done.1 }) v)
          (sym (saved-ok env r w done (stepped.0 ∙ opened)))
          (subst
            (λ x.
              Ends session (if is_text_done r then x else row)
                (event_if (is_text_done r) (event r completed none)) (record w { db = done.1 })
                (confirm env.base r.id r.user_id (record w { db = done.1 })))
            (complete_row-completed env.base.completed_at row)
            (subst
              (λ c.
                Ends session (if c then complete_row env.base.completed_at row else row)
                  (event_if c (event r completed none)) (record w { db = done.1 })
                  (confirm env.base r.id r.user_id (record w { db = done.1 })))
              due
              (confirm-Ends env.base session (record w { db = done.1 }) row
                (subst (λ c. IsAt session (if c then row else r) done.1) opened stepped.1))))

measured_run :
    (env : AudioEnvironment) (n : ℕ) (request : AudioRequest) (w : World) (r : Report)
    (utterances : Option (List Utterance))
    → get_report_by_session request.session_id w.db ≡ some r
    → IsUnfinished r
    → is_some r.audio_analyzed_at ≡ false
    → leb env.base.settings.delivery_count_threshold n ≡ false
    → load_transcript (env.base.transcript request.session_id) ≡ ok utterances
    → process_audio_request env n request w
      ≡ downloaded env r (candidate_text utterances) w (
          with_retry env.base.settings.retry_max_attempts r.id
            (λ attempt. env.download attempt request.bucket request.object_key)
            w.db)
unfolding process_audio_request analyze_request measure
measured_run env n request w r utterances found open_status fresh few loads =
    ap (judged env n request w) found
    ∙ if_false (is_terminal r.status) (ok tt, w) _ (is_terminal-IsUnfinished r open_status)
    ∙ if_false (is_some r.audio_analyzed_at) (ok tt, confirm env.base r.id r.user_id w) _ fresh
    ∙ if_false (leb env.base.settings.delivery_count_threshold n) (ok tt, w) _ few
    ∙ ap (loaded env request (some r) w) loads

-- A request, below the limit, for a report that is pending or processing and whose audio is not
-- analysed, with a transcript that loads, a download that succeeds within the allowed attempts and
-- an analysis that succeeds, is acknowledged; the report has the delivery score, the time and the
-- tags of the voice in place of earlier ones. If it is processing, with scores and an analysed text,
-- it is also completed, with the mean of its axes, and the completion is published once; otherwise
-- nothing is published. But for its job the report is otherwise as it was.
pub process_audio_request-saves :
    (env : AudioEnvironment) (n : ℕ) (request : AudioRequest) (w : World) (r : Report)
    (utterances : Option (List Utterance)) (recording : Text) (result : DeliveryResult)
    → IsAt request.session_id r w.db
    → IsUnfinished r
    → r.audio_analyzed_at ≡ none
    → leb env.base.settings.delivery_count_threshold n ≡ false
    → load_transcript (env.base.transcript request.session_id) ≡ ok utterances
    → IsAnswered env.base.settings.retry_max_attempts
        (λ attempt. env.download attempt request.bucket request.object_key)
        recording
    → env.analyze recording (candidate_text utterances) ≡ ok result
    → ((process_audio_request env n request w).0 ≡ ok tt)
      × (j : Option Job) × Ends request.session_id
          (if is_text_done r
            then completed_at env.base.completed_at (measured env result (record r { job = j }))
            else measured env result (record r { job = j }))
          (event_if (is_text_done r) (event r completed none))
          w
          (process_audio_request env n request w).1
process_audio_request-saves env n request w r utterances recording result at open_status fresh few
      loads answered analysed =
    let tried =
      with_retry-IsAt request.session_id env.base.settings.retry_max_attempts r
        (λ attempt. env.download attempt request.bucket request.object_key) recording w.db answered
        (r.job, at) in
    let x : Outcome Failure Text × Db =
      with_retry env.base.settings.retry_max_attempts r.id
        (λ attempt. env.download attempt request.bucket request.object_key) w.db in
    let ended =
      saved-Ends env request.session_id result (record r { job = tried.1.0 })
        (record w { db = x.1 }) open_status tried.1.1 in
    subst
      (λ (y : Result).
        (y.0 ≡ ok tt)
        × (j : Option Job) × Ends request.session_id
            (if is_text_done r
              then completed_at env.base.completed_at (measured env result (record r { job = j }))
              else measured env result (record r { job = j }))
            (event_if (is_text_done r) (event r completed none)) w y.1)
      (sym (
        measured_run env n request w r utterances at.found open_status (ap is_some fresh) few loads
        ∙ downloaded-ok env r (candidate_text utterances) w x recording result tried.0 analysed))
      (refl, tried.1.0, record { at = ended.at; published = ended.published })
