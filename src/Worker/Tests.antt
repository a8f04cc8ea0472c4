-- ===== src/Worker/Tests.antt =====
-- Small runs of the worker's model and its theorems at concrete inputs.
use kkori_ai.Prelude.{
  ℕ, zero, suc, ◌==◌, ◌<◌, ◌≤◌, ◌≡◌, ◌↔◌, refl, inl, inr, true, false, Option, none, some, List, [],
  ◌∷◌, Text, All, any, map, arith, Outcome, ok, err,
}
use kkori_ai.Worker.Report.{
  Report, Job, pending, processing, completed, failed, SessionScores, Failure, value_error,
}
use kkori_ai.Worker.Repository.{
  new_report, get_report_by_session, create_report_with_job, try_transition, mark_failed,
  save_text_results, try_complete, reset_job_retry,
}
use kkori_ai.Worker.Repository.Steps.{Steps, then_step, create, enter, fail, one_step, empty_db}
use kkori_ai.Worker.Repository.Steps.Sound.{IsSound, Steps-IsSound}
use kkori_ai.Worker.Repository.Steps.Kept.{Advances, Steps-Advances}
use kkori_ai.Worker.Repository.Steps.Unique.{IsUnique, Distinct}
use kkori_ai.Worker.Repository.Steps.Found.{IsAt}
use kkori_ai.Worker.Transcript.{
  RawUtterance, Utterance, QuestionAnswer, interviewer, user, main, interviewer_text,
  candidate_text, load_transcript, normalize_utterance, model_validate, group_utterances, pair_for,
}
use kkori_ai.Worker.Transcript.Pairs.{Increasing, numbers, group_utterances-pairs}
use kkori_ai.Worker.Group.{grouped}
use kkori_ai.Worker.Evaluator.{
  AnswerEvaluation, EvaluatedAnswer, FakeEvaluator, fake_evaluator, fake_evaluate_topic,
  group_topics, sanitize_evaluation, validated_topic_result,
}
use kkori_ai.Worker.Evaluator.Checked.{
  IsClean, evaluation_numbers, topic_numbers, validated_topic_result-IsClean,
}
use kkori_ai.Worker.Aggregate.{aggregate_scores, round_mean, to_feedback, aggregate_tag_summary}
use kkori_ai.Worker.Aggregate.Bounds.{aggregate_scores-bounded}
use kkori_ai.Worker.Retry.{with_retry, retry_from, type_name}
use kkori_ai.Worker.Retry.Attempts.{is_err}
use kkori_ai.Worker.Retry.Counts.{
  with_job, more_failures, failed_with, with_retry-ok, with_retry-err,
}
use kkori_ai.Worker.Generation.{
  World, Environment, SnapshotSource, generate, secure_row, enter_processing, evaluate_report,
  evaluate_all, commit, confirm, process_generation_request,
}
use kkori_ai.Worker.Generation.Outcomes.{
  Ends, event, given_up, completed_at, process_generation_request-gives_up,
  process_generation_request-confirms,
}
use kkori_ai.Worker.Generation.Finishes.{finished, IsEvaluated, Finishes}
use kkori_ai.Worker.Generation.Completes.{
  IsMaterial, row_for, process_generation_request-resumes, process_generation_request-completes,
}
use kkori_ai.Worker.Audio.{AudioEnvironment, AudioRequest, DeliveryResult, process_audio_request}
use kkori_ai.Worker.Audio.Saves.{measured, process_audio_request-saves}
use kkori_ai.Worker.Entry.Overdue.{without_audio, complete_overdue_once-completes}
use kkori_ai.Worker.Entry.{
  complete_overdue_once, Stream, ack, handle_entry, handle_generation_entry, handle_audio_entry,
}
use kkori_ai.Worker.Entry.Acks.{IsRaised, handle_entry-acks, finished-idle}

-- the text "Hi"
abbrev hi : Text
hi = 72 ∷ 105 ∷ []

-- A transcript of one question and its answer.
abbrev asked_raw : RawUtterance
asked_raw = record {
  question_number = some 1;
  parent_question_number = some 1;
  speaker = some interviewer_text;
  question_type = none;
  content = some hi;
  spoken_at = some hi;
}

abbrev answered_raw : RawUtterance
answered_raw = record asked_raw { speaker = some candidate_text }

abbrev asked : Utterance
asked = record {
  question_number = 1;
  parent_question_number = 1;
  speaker = interviewer;
  question_type = main;
  content = hi;
  spoken_at = hi;
}

abbrev answered : Utterance
answered = record asked { speaker = user }

abbrev pair : QuestionAnswer
pair = record {
  question_number = 1;
  parent_question_number = 1;
  question_type = main;
  question = hi;
  answer = hi;
}

abbrev evaluation : AnswerEvaluation
evaluation = record {
  question_number = 1;
  logic_score = 80;
  specificity_score = 70;
  technical_accuracy_score = 61;
  feedback = hi;
  weakness_tags = [];
  improvement_tasks = [];
}

abbrev fake : FakeEvaluator
fake = record { results = []; default = evaluation; summary = hi; fail_on = [] }

abbrev source : SnapshotSource
source = record { user_id = 5; resume_id = 6; original_file_name = hi }

abbrev at_once : Text → Outcome Failure ℕ
at_once t = ok 0

abbrev env : Environment
env = record {
  settings = record {
    audio_analysis_enabled = false;
    delivery_count_threshold = 3;
    retry_max_attempts = 2;
  };
  evaluator = fake_evaluator fake;
  moment = at_once;
  transcript = λ session. some (asked_raw ∷ answered_raw ∷ []);
  snapshot_source = λ session. some source;
  saved_at = 100;
  completed_at = 101;
}

abbrev empty_world : World
empty_world = record { db = empty_db; published = [] }

abbrev scores : SessionScores
scores = record { logic_score = 80; specificity_score = 70; technical_accuracy_score = 61 }

abbrev answer : EvaluatedAnswer
answer = record { qa = pair; evaluation = evaluation }

abbrev says : List QuestionAnswer → List AnswerEvaluation
says topic =
    map (λ (qa : QuestionAnswer). record evaluation { question_number = qa.question_number }) topic

-- A report in progress, and one whose text is analysed.
abbrev row : Report
row = record (new_report 1 7 5 6 hi) { status = processing }

abbrev analysed_row : Report
analysed_row = record row { scores = some scores; text_analyzed_at = some 90 }

abbrev one_report : Report → World
one_report r = record { db = record { next_id = 2; reports = r ∷ [] }; published = [] }

runs :
    map
      (λ (r : Report). r.overall_score)
      (process_generation_request env 7 1 false empty_world).1.db.reports
    ≡ some 70 ∷ []
unfolding process_generation_request get_report_by_session generate load_transcript model_validate
    normalize_utterance group_utterances grouped pair_for secure_row create_report_with_job
    enter_processing try_transition evaluate_report evaluate_all group_topics with_retry retry_from
    fake_evaluate_topic commit aggregate_scores round_mean to_feedback aggregate_tag_summary
    save_text_results confirm try_complete reset_job_retry
runs = refl

material : IsMaterial env 7 pair []
unfolding load_transcript model_validate normalize_utterance group_utterances grouped pair_for
material = record {
  utterances = asked ∷ answered ∷ [];
  transcript_loads = refl;
  pairs_grouped = refl;
}

pair-IsEvaluated : IsEvaluated env (pair ∷ []) says answer [] hi scores
unfolding group_topics grouped fake_evaluate_topic aggregate_scores round_mean
pair-IsEvaluated = record {
  topics_answered = (
    record {
      failures = 0;
      allowed = omega arith;
      earlier = λ j h. absurd (omega arith);
      answer = refl;
    },
    tt,
  );
  answers_same = refl;
  summary_answered = record {
    failures = 0;
    allowed = omega arith;
    earlier = λ j h. absurd (omega arith);
    answer = refl;
  };
  scores_same = refl;
}

empty_IsUnique : IsUnique empty_db
unfolding Distinct
empty_IsUnique = record { ids_below = tt; distinct_ids = tt; distinct_sessions = tt }

row-IsAt : IsAt 7 row (one_report row).db
unfolding Distinct get_report_by_session
row-IsAt = record {
  unique = record {
    ids_below = (omega arith, tt);
    distinct_ids = (tt, tt);
    distinct_sessions = (tt, tt);
  };
  found = refl;
}

analysed_row-IsAt : IsAt 7 analysed_row (one_report analysed_row).db
unfolding Distinct get_report_by_session
analysed_row-IsAt = record {
  unique = record {
    ids_below = (omega arith, tt);
    distinct_ids = (tt, tt);
    distinct_sessions = (tt, tt);
  };
  found = refl;
}

none_found : get_report_by_session 7 empty_db ≡ none
unfolding get_report_by_session
none_found = refl

process_generation_request-completes_example :
    Finishes 7
      (λ j.
        finished env scores
          (answer ∷ [])
          hi
          (record (row_for 7 source empty_world) { status = processing; job = j }))
      (event (row_for 7 source empty_world) processing none
        ∷ event (row_for 7 source empty_world) completed none
        ∷ [])
      empty_world
      (process_generation_request env 7 1 false empty_world)
process_generation_request-completes_example =
    process_generation_request-completes env 7 1 false pair [] source says answer [] hi scores
      empty_world refl material refl pair-IsEvaluated refl empty_IsUnique none_found

process_generation_request-resumes_example :
    Finishes 7
      (λ j. finished env scores (answer ∷ []) hi (record row { job = j }))
      (event row completed none ∷ [])
      (one_report row)
      (process_generation_request env 7 2 true (one_report row))
process_generation_request-resumes_example =
    process_generation_request-resumes env 7 2 pair [] says answer [] hi scores (one_report row) row
      refl material pair-IsEvaluated refl refl refl row-IsAt

process_generation_request-gives_up_example :
    ((process_generation_request env 7 3 true (one_report row)).0 ≡ ok tt)
    × Ends 7
        (given_up 3 row)
        (event row failed (some 3) ∷ [])
        (one_report row)
        (process_generation_request env 7 3 true (one_report row)).1
process_generation_request-gives_up_example =
    process_generation_request-gives_up env 7 3 true (one_report row) row row-IsAt (inr refl) refl
      (omega arith)

process_generation_request-confirms_example :
    ((process_generation_request env 7 9 true (one_report analysed_row)).0 ≡ ok tt)
    × Ends 7
        (completed_at env.completed_at analysed_row)
        (event analysed_row completed none ∷ [])
        (one_report analysed_row)
        (process_generation_request env 7 9 true (one_report analysed_row)).1
process_generation_request-confirms_example =
    process_generation_request-confirms env 7 9 true (one_report analysed_row) analysed_row
      analysed_row-IsAt (inr refl) refl

-- A report that is created, begun and failed.
failing :
    Steps empty_db
      (mark_failed 1
        (record { delivery_count = 3; last_error = none })
        (try_transition 1 pending processing (create_report_with_job 7 5 6 hi empty_db).1).1).1
failing =
    then_step empty_db
      (try_transition 1 pending processing (create_report_with_job 7 5 6 hi empty_db).1).1 _
      (then_step empty_db (create_report_with_job 7 5 6 hi empty_db).1 _
        (one_step empty_db _ (create 7 5 6 hi empty_db)) (enter 1 _))
      (fail 1 _ _)

Steps-IsSound_example :
    All IsSound
      (mark_failed 1
        (record { delivery_count = 3; last_error = none })
        (try_transition 1 pending processing
          (create_report_with_job 7 5 6 hi empty_db).1).1).1.reports
Steps-IsSound_example = Steps-IsSound _ failing

Steps-Advances_example :
    (s : Report) × (get_report_by_session 7
        (mark_failed 1 (record { delivery_count = 3; last_error = none }) (one_report row).db).1
      ≡ some s)
    × Advances row s
Steps-Advances_example =
    Steps-Advances (one_report row).db _
      (one_step (one_report row).db _ (fail 1 (record { delivery_count = 3; last_error = none }) _))
      7 row row-IsAt.found

abbrev failing_once : ℕ → Outcome Failure ℕ
failing_once zero = err value_error
failing_once (suc n) = ok 4

with_retry-ok_example :
    with_retry 3 1 failing_once (one_report row).db
    ≡ (ok 4, with_job 1 (more_failures 1) (one_report row).db)
with_retry-ok_example =
    with_retry-ok 3 1 1 failing_once (one_report row).db 4 (omega arith) (λ j h. failed_first j h)
      refl
  where
    failed_first : (j : ℕ) → j < 1 → is_err (failing_once j) ≡ true
    failed_first zero h = refl
    failed_first (suc j) h = absurd (omega arith)

with_retry-err_example :
    with_retry {A = ℕ} 2 1 (λ n. err value_error) (one_report row).db
    ≡ (err value_error, with_job 1 (failed_with 2 (type_name value_error)) (one_report row).db)
with_retry-err_example =
    with_retry-err {A = ℕ} 1 1 (λ n. err value_error) (one_report row).db value_error (λ j h. refl)
      refl

validated_topic_result-IsClean_example :
    (evaluation_numbers (sanitize_evaluation evaluation ∷ []) ≡ topic_numbers (pair ∷ []))
    × All IsClean (sanitize_evaluation evaluation ∷ [])
unfolding validated_topic_result
validated_topic_result-IsClean_example =
    validated_topic_result-IsClean (evaluation ∷ []) (pair ∷ [])
      (sanitize_evaluation evaluation ∷ []) refl

pairs_once : group_utterances at_once (asked ∷ answered ∷ []) ≡ ok (pair ∷ [])
unfolding group_utterances grouped pair_for
pairs_once = refl

group_utterances-pairs_example :
    Increasing (numbers (pair ∷ []))
    × ((k : ℕ)
        → any (λ (qa : QuestionAnswer). qa.question_number == k) (pair ∷ [])
          ≡ any (λ (u : Utterance). u.question_number == k) (asked ∷ answered ∷ []))
group_utterances-pairs_example =
    group_utterances-pairs at_once (asked ∷ answered ∷ []) (pair ∷ []) pairs_once

aggregate_scores-bounded_example :
    (s : SessionScores) × (aggregate_scores (answer ∷ []) ≡ ok s)
    × (s.logic_score ≤ 100)
    × (s.specificity_score ≤ 100)
    × (s.technical_accuracy_score ≤ 100)
aggregate_scores-bounded_example =
    aggregate_scores-bounded 100 answer [] (
      record { logic_le = omega arith; specificity_le = omega arith; accuracy_le = omega arith },
      tt,
    )

abbrev delivery : DeliveryResult
delivery = record { score = some 50; tags = [] }

abbrev audio_env : AudioEnvironment
audio_env = record {
  base = env;
  download = λ n bucket key. ok hi;
  analyze = λ recording text. ok delivery;
}

abbrev audio_request : AudioRequest
audio_request = record { session_id = 7; bucket = hi; object_key = hi }

abbrev stream_with : Report → Stream
stream_with r = record { acked = []; world = one_report r }

abbrev done_row : Report
done_row = record row { status = completed }

done_found : get_report_by_session 7 (stream_with done_row).world.db ≡ some done_row
unfolding get_report_by_session
done_found = refl

finished-idle_example :
    (handle_generation_entry env (λ (n : ℕ). ok n) hi 7 4 (stream_with done_row)
      ≡ ack hi (stream_with done_row))
    × (handle_audio_entry audio_env (λ (n : ℕ). ok audio_request) hi 7 4 (stream_with done_row)
        ≡ ack hi (stream_with done_row))
finished-idle_example =
    finished-idle audio_env hi 7 4 7 audio_request (λ n. ok n) (λ n. ok audio_request)
      (stream_with done_row) done_row done_found (inl refl) refl refl refl

handle_entry-acks_example :
    ((handle_entry hi 7
        (λ (n : ℕ). ok n)
        (λ (n : ℕ) w. (err value_error, w))
        (stream_with row)).acked
      ≡ (stream_with row).acked)
    ↔ IsRaised 7 (λ (n : ℕ). ok n) (λ (n : ℕ) w. (err value_error, w)) (stream_with row).world
handle_entry-acks_example =
    handle_entry-acks hi 7 (λ (n : ℕ). ok n) (λ (n : ℕ) w. (err value_error, w)) (stream_with row)

audio_loads : load_transcript (env.transcript 7) ≡ ok (some (asked ∷ answered ∷ []))
unfolding load_transcript model_validate normalize_utterance
audio_loads = refl

process_audio_request-saves_example :
    ((process_audio_request audio_env 1 audio_request (one_report analysed_row)).0 ≡ ok tt)
    × (j : Option Job) × Ends 7
        (completed_at env.completed_at
          (measured audio_env delivery (record analysed_row { job = j })))
        (event analysed_row completed none ∷ [])
        (one_report analysed_row)
        (process_audio_request audio_env 1 audio_request (one_report analysed_row)).1
process_audio_request-saves_example =
    process_audio_request-saves audio_env 1 audio_request (one_report analysed_row) analysed_row
      (some (asked ∷ answered ∷ [])) hi delivery analysed_row-IsAt (inr refl) refl refl audio_loads
      (record {
        failures = 0;
        allowed = omega arith;
        earlier = λ j h. absurd (omega arith);
        answer = refl;
      })
      refl

complete_overdue_once-completes_example :
    ((complete_overdue_once 10 200 (one_report analysed_row)).1.db.reports
      ≡ without_audio 200 analysed_row ∷ [])
    × ((complete_overdue_once 10 200 (one_report analysed_row)).1.published
        ≡ event analysed_row completed none ∷ [])
    × ((complete_overdue_once 10 200 (one_report analysed_row)).0 ≡ 1)
complete_overdue_once-completes_example =
    complete_overdue_once-completes 10 200 (one_report analysed_row)
