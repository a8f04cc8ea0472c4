-- ===== src/Worker/Generation/Completes.antt =====
-- A request whose calls of the model succeed within the allowed attempts completes its report.
use kkori_ai.Prelude.{
  ℕ, ◌≡◌, refl, sym, ◌∙◌, ap, subst, Bool, true, false, Option, none, some, List, [], ◌∷◌,
  append_assoc, leb, is_some, Text, arith, if◌then◌else◌, ok,
}
use kkori_ai.Worker.Report.{
  Report, Db, Job, SessionScores, pending, processing, completed, is_terminal,
}
use kkori_ai.Worker.Repository.{
  get_report_by_session, create_report_with_job, try_transition, has_status, set_status, execute,
}
use kkori_ai.Worker.Repository.Steps.Unique.{IsUnique}
use kkori_ai.Worker.Repository.Steps.Found.{IsAt, execute-IsAt, created-IsAt}
use kkori_ai.Worker.Transcript.{Utterance, QuestionAnswer, load_transcript, group_utterances}
use kkori_ai.Worker.Evaluator.{AnswerEvaluation, EvaluatedAnswer}
use kkori_ai.Worker.Generation.{
  World, Environment, Event, SnapshotSource, publish, give_up, evaluate_report, entered,
  enter_processing, created, sourced, secure_row, grouped_pairs, loaded, generate, judged,
  process_generation_request,
}
use kkori_ai.Worker.Generation.Outcomes.{if_false, event, unfinished}
use kkori_ai.Worker.Generation.Finishes.{
  finished, audio_ready, IsEvaluated, Finishes, evaluate_report-Finishes,
}

-- The material of a request: the transcript gives these pairs.
pub record IsMaterial (env : Environment) (session : ℕ) (q : QuestionAnswer)
    (qs : List QuestionAnswer) : Type 0 where
  pub utterances : List Utterance
  pub transcript_loads : load_transcript (env.transcript session) ≡ ok (some utterances)
  pub pairs_grouped : group_utterances env.moment utterances ≡ ok (q ∷ qs)

generate-row :
    (env : Environment) (session n : ℕ) (b : Bool) (q : QuestionAnswer) (qs : List QuestionAnswer)
    (report : Option Report) (w : World)
    → leb env.settings.delivery_count_threshold n ≡ false
    → IsMaterial env session q qs
    → generate env n b session report w ≡ secure_row env b session report (q ∷ qs) w
unfolding generate
generate-row env session n b q qs report w few m =
    if_false (leb env.settings.delivery_count_threshold n) (ok tt, give_up report n w)
      (loaded env b session report w (load_transcript (env.transcript session))) few
    ∙ ap (loaded env b session report w) m.transcript_loads
    ∙ ap (grouped_pairs env b session report w) m.pairs_grouped

-- A redelivered request, below the limit, for a report in progress without an analysed text, whose
-- calls of the model succeed within the allowed attempts, is acknowledged; the report is completed with
-- these scores, feedback, summary and tags, and the completion is published once, as the only event.
-- The analysis of the audio must be there if it is waited for.
pub process_generation_request-resumes :
    (env : Environment) (session n : ℕ) (q : QuestionAnswer) (qs : List QuestionAnswer)
    (says : List QuestionAnswer → List AnswerEvaluation) (a : EvaluatedAnswer)
    (rest : List EvaluatedAnswer) (summary : Text) (scores : SessionScores) (w : World) (r : Report)
    → leb env.settings.delivery_count_threshold n ≡ false
    → IsMaterial env session q qs
    → IsEvaluated env (q ∷ qs) says a rest summary scores
    → r.status ≡ processing
    → is_some r.text_analyzed_at ≡ false
    → audio_ready env r ≡ true
    → IsAt session r w.db
    → Finishes session
        (λ j. finished env scores (a ∷ rest) summary (record r { job = j }))
        (event r completed none ∷ [])
        w
        (process_generation_request env session n true w)
unfolding secure_row enter_processing
process_generation_request-resumes env session n q qs says a rest summary scores w r few m h status
      fresh ready at =
    subst
      (Finishes session (λ j. finished env scores (a ∷ rest) summary (record r { job = j }))
        (event r completed none ∷ []) w)
      (sym (
        unfinished env session n true w r at.found (ap is_terminal status) fresh
        ∙ generate-row env session n true q qs (some r) w few m
        ∙ ap (λ s. enter_processing env true s r.id r.user_id (q ∷ qs) w) status))
      (evaluate_report-Finishes env true session (q ∷ qs) says a rest summary scores w r h status
        ready at)

try_transition-IsAt :
    (session : ℕ) (r : Report) (db : Db)
    → r.status ≡ pending
    → IsAt session r db
    → ((try_transition r.id pending processing db).0 ≡ true)
      × IsAt session
          (record r { status = processing })
          (try_transition r.id pending processing db).1
unfolding try_transition
try_transition-IsAt session r db status at =
    subst
      (λ c.
        ((execute (has_status r.id pending) (set_status processing) db).0 ≡ c)
        × IsAt session (if c then set_status processing r else r)
            (execute (has_status r.id pending) (set_status processing) db).1)
      (is_pending r status)
      (execute-IsAt session r (has_status r.id pending) (set_status processing)
        (λ x p. ground arith) (λ x. refl) (λ x. refl) db at)
  where
    is_pending : (x : Report) → x.status ≡ pending → has_status x.id pending x ≡ true
    is_pending x e = ground arith

created-ok :
    (env : Environment) (b : Bool) (user : ℕ) (pairs : List QuestionAnswer) (w : World)
    (x : Option ℕ × Db) (rid : ℕ)
    → x.0 ≡ some rid
    → created env b user pairs w x
      ≡ enter_processing env b pending rid user pairs (record w { db = x.1 })
created-ok env b user pairs w (some k, db) rid h =
    let same : k ≡ rid = ground arith in
    ap (λ z. enter_processing env b pending z user pairs (record w { db = db })) same
created-ok env b user pairs w (none, db) rid h = absurd (ground arith)

entered-ok :
    (env : Environment) (b : Bool) (rid user : ℕ) (pairs : List QuestionAnswer) (w : World)
    (x : Bool × Db)
    → x.0 ≡ true
    → entered env b rid user pairs w x
      ≡ evaluate_report env b rid user pairs
          (publish rid user processing none (record w { db = x.1 }))
entered-ok env b rid user pairs w (true, db) h = refl
entered-ok env b rid user pairs w (false, db) h = absurd (ground arith)

pending_run :
    (env : Environment) (b : Bool) (rid user : ℕ) (pairs : List QuestionAnswer) (w : World)
    → (try_transition rid pending processing w.db).0 ≡ true
    → enter_processing env b pending rid user pairs w
      ≡ evaluate_report env b rid user pairs (
          publish rid user processing none
            (record w { db = (try_transition rid pending processing w.db).1 }))
unfolding enter_processing
pending_run env b rid user pairs w h = entered-ok env b rid user pairs w _ h

absent_run :
    (env : Environment) (session n : ℕ) (b : Bool) (w : World)
    → get_report_by_session session w.db ≡ none
    → process_generation_request env session n b w ≡ generate env n b session none w
unfolding process_generation_request
absent_run env session n b w h = ap (judged env n b session w) h

sourced_row :
    (env : Environment) (session : ℕ) (b : Bool) (source : SnapshotSource)
    (pairs : List QuestionAnswer) (w : World)
    → env.snapshot_source session ≡ some source
    → secure_row env b session none pairs w
      ≡ created env b source.user_id pairs w (
          create_report_with_job session source.user_id source.resume_id source.original_file_name
            w.db)
unfolding secure_row
sourced_row env session b source pairs w h = ap (sourced env b session pairs w) h

not_awaited :
    (env : Environment)
    → env.settings.audio_analysis_enabled ≡ false
    → (if env.settings.audio_analysis_enabled then false else true) ≡ true
not_awaited env h = ground arith

-- The report that a session gets.
abbrev pub row_for : ℕ → SnapshotSource → World → Report
row_for session source w = record {
  id = w.db.next_id;
  user_id = source.user_id;
  session_id = session;
  resume_id = source.resume_id;
  resume_file_name = source.original_file_name;
  status = pending;
  overall_score = none;
  delivery_score = none;
  summary = none;
  weakness_tag_summary = none;
  text_analyzed_at = none;
  audio_analyzed_at = none;
  completed_at = none;
  failed_reason = none;
  scores = none;
  feedbacks = [];
  job = some (record { retry_count = 0; error_message = none });
}

-- A first request for a session without a report, below the limit, whose calls of the model succeed
-- within the allowed attempts, with no audio to wait for, is acknowledged; the session has a
-- completed report with these scores, feedback, summary and tags, and exactly its start and its
-- completion are published.
pub process_generation_request-completes :
    (env : Environment) (session n : ℕ) (b : Bool) (q : QuestionAnswer) (qs : List QuestionAnswer)
    (source : SnapshotSource) (says : List QuestionAnswer → List AnswerEvaluation)
    (a : EvaluatedAnswer) (rest : List EvaluatedAnswer) (summary : Text) (scores : SessionScores)
    (w : World)
    → leb env.settings.delivery_count_threshold n ≡ false
    → IsMaterial env session q qs
    → env.snapshot_source session ≡ some source
    → IsEvaluated env (q ∷ qs) says a rest summary scores
    → env.settings.audio_analysis_enabled ≡ false
    → IsUnique w.db
    → get_report_by_session session w.db ≡ none
    → Finishes session
        (λ j.
          finished env scores
            (a ∷ rest)
            summary
            (record (row_for session source w) { status = processing; job = j }))
        (event (row_for session source w) processing none
          ∷ event (row_for session source w) completed none
          ∷ [])
        w
        (process_generation_request env session n b w)
process_generation_request-completes env session n b q qs source says a rest summary scores w few m
      snap h no_audio unique absent =
    subst (Finishes session row (begun ∷ event made completed none ∷ []) w) (sym path) (
      done.0,
      (
        done.1.0,
        record {
          at = done.1.1.at;
          published = done.1.1.published ∙ append_assoc w.published (begun ∷ []) _;
        },
      ),
    )
  where
    made : Report
    made = row_for session source w

    row : Option Job → Report
    row j = finished env scores (a ∷ rest) summary (record made { status = processing; job = j })

    begun : Event
    begun = event made processing none

    inserted_row : Option ℕ × Db
    inserted_row =
        create_report_with_job session source.user_id source.resume_id source.original_file_name
          w.db

    made_at : (inserted_row.0 ≡ some made.id) × IsAt session made inserted_row.1
    made_at =
        created-IsAt session source.user_id source.resume_id source.original_file_name w.db unique
          absent

    entry : Bool × Db
    entry = try_transition made.id pending processing inserted_row.1

    entry_at : (entry.0 ≡ true) × IsAt session (record made { status = processing }) entry.1
    entry_at = try_transition-IsAt session made inserted_row.1 refl made_at.1

    v : World
    v = publish made.id made.user_id processing none (record w { db = entry.1 })

    path :
        process_generation_request env session n b w
        ≡ evaluate_report env b made.id made.user_id (q ∷ qs) v
    path =
        absent_run env session n b w absent
        ∙ generate-row env session n b q qs none w few m
        ∙ sourced_row env session b source (q ∷ qs) w snap
        ∙ created-ok env b source.user_id (q ∷ qs) w inserted_row made.id made_at.0
        ∙ pending_run env b made.id made.user_id (q ∷ qs) (record w { db = inserted_row.1 })
            entry_at.0

    done :
        Finishes session row
          (event made completed none ∷ [])
          v
          (evaluate_report env b made.id made.user_id (q ∷ qs) v)
    done =
        evaluate_report-Finishes env b session (q ∷ qs) says a rest summary scores v
          (record made { status = processing }) h refl (not_awaited env no_audio) entry_at.1
