-- ===== src/Worker/Repository.antt =====
-- worker/src/report/repository.py: the statements on the rows of a report. A statement is atomic,
-- and the connection does not fail.
pub mod Rows
pub mod Steps
use kkori_ai.Prelude.{
  ℕ, zero, suc, ◌+◌, ◌*◌, ◌/◌, Bool, true, false, not, ◌&&◌, Option, none, some, List, [], ◌∷◌,
  ◌++◌, Text, ltb, ◌==◌, is_some, is_empty, any, select, find, if◌then◌else◌, Outcome, ok, err,
}
use kkori_ai.Worker.Vocabulary.{contains, voice_weakness_tags}
use kkori_ai.Worker.Report.{
  ReportStatus, pending, processing, completed, failed, status_eq, is_terminal, WeaknessTagCount,
  SessionScores, FeedbackRecord, Reason, Job, Report, Db, Failure, value_error,
}

-- `UPDATE ... SET ... WHERE ...`: the rows after it, and how many it changed.
abbrev pub update : (Report → Bool) → (Report → Report) → List Report → List Report
update p set [] = []
update p set (r ∷ rs) = (if p r then set r else r) ∷ update p set rs

abbrev pub rowcount : (Report → Bool) → List Report → ℕ
rowcount p [] = 0
rowcount p (r ∷ rs) = let n = rowcount p rs in if p r then suc n else n

-- `cur.rowcount == 1`, and the database after the statement
abbrev pub execute : (Report → Bool) → (Report → Report) → Db → Bool × Db
execute p set db = (rowcount p db.reports == 1, record db { reports = update p set db.reports })

unfoldable pub get_report_by_session : ℕ → Db → Option Report
get_report_by_session session db = find (λ r. r.session_id == session) db.reports

abbrev pub get_report : ℕ → Db → Option Report
get_report rid db = find (λ r. r.id == rid) db.reports

abbrev pub new_report : ℕ → ℕ → ℕ → ℕ → Text → Report
new_report rid session user resume file_name = record {
  id = rid;
  user_id = user;
  session_id = session;
  resume_id = resume;
  resume_file_name = file_name;
  status = pending;
  overall_score = none;
  delivery_score = none;
  summary = none;
  weakness_tag_summary = none;
  text_analyzed_at = none;
  audio_analyzed_at = none;
  completed_at = none;
  failed_reason = none;
  scores = none;
  feedbacks = [];
  job = some (record { retry_count = 0; error_message = none });
}

-- The constraint on the sessions and the sequence of the ids are the database's (the tables as in
-- worker/tests/conftest.py): where the session has a report the insertion fails as a whole, which the
-- code turns into `None`. The number that the sequence gave is used up in any case.
abbrev pub inserted : Bool → ℕ → ℕ → ℕ → Text → Db → Option ℕ × Db
inserted true session user resume file_name db = (none, record db { next_id = suc db.next_id })
inserted false session user resume file_name db = (
  some db.next_id,
  record {
    next_id = suc db.next_id;
    reports = db.reports ++ new_report db.next_id session user resume file_name ∷ [];
  },
)

unfoldable pub create_report_with_job : ℕ → ℕ → ℕ → Text → Db → Option ℕ × Db
create_report_with_job session user resume file_name db =
    inserted (any (λ r. r.session_id == session) db.reports) session user resume file_name db

abbrev pub has_id : ℕ → Report → Bool
has_id rid r = r.id == rid

abbrev pub has_status : ℕ → ReportStatus → Report → Bool
has_status rid from_status r = r.id == rid && status_eq r.status from_status

abbrev pub set_status : ReportStatus → Report → Report
set_status to_status r = record r { status = to_status }

unfoldable pub try_transition : ℕ → ReportStatus → ReportStatus → Db → Bool × Db
try_transition rid from_status to_status db =
    execute (has_status rid from_status) (set_status to_status) db

-- `WHERE id = ... AND status NOT IN ('FAILED', 'COMPLETED')`
abbrev pub is_open : ℕ → Report → Bool
is_open rid r = r.id == rid && not (is_terminal r.status)

abbrev pub failed_row : Reason → Report → Report
failed_row reason r = record r { status = failed; failed_reason = some reason }

unfoldable pub mark_failed : ℕ → Reason → Db → Bool × Db
mark_failed rid reason db = execute (is_open rid) (failed_row reason) db

-- `round(a::numeric / n)` of a number that is not negative: a half goes up
abbrev pub round_div : ℕ → ℕ → ℕ
round_div a n = (2 * a + n) / (2 * n)

-- The mean of the axes that were measured: three, or four with the delivery.
abbrev pub overall : SessionScores → Option ℕ → ℕ
overall s none = round_div (s.logic_score + s.specificity_score + s.technical_accuracy_score + 0) 3
overall s (some d) =
    round_div (s.logic_score + s.specificity_score + s.technical_accuracy_score + d) 4

abbrev pub overall_of : Option SessionScores → Option ℕ → Option ℕ
overall_of none delivery = none
overall_of (some s) delivery = some (overall s delivery)

abbrev pub complete_row : ℕ → Report → Report
complete_row now r = record r {
  status = completed;
  overall_score = overall_of r.scores r.delivery_score;
  completed_at = some now;
}

-- The join with report_scores leaves out a report without scores.
abbrev pub can_complete : Bool → ℕ → Report → Bool
can_complete require_audio rid r =
    r.id == rid
    && is_some r.scores
    && status_eq r.status processing
    && is_some r.text_analyzed_at
    && (if require_audio then is_some r.audio_analyzed_at else true)

unfoldable pub try_complete : Bool → ℕ → ℕ → Db → Bool × Db
try_complete require_audio now rid db =
    execute (can_complete require_audio rid) (complete_row now) db

-- `_lock_tag_summary`
abbrev pub tag_summary_of : Report → List WeaknessTagCount
tag_summary_of r = elim r.weakness_tag_summary [ none ↦ [] | some tags ↦ tags ]

abbrev pub is_voice : WeaknessTagCount → Bool
is_voice t = contains voice_weakness_tags t.tag

abbrev pub text_row :
    SessionScores → List FeedbackRecord → Text → List WeaknessTagCount → ℕ → Report → Report
text_row scores feedbacks summary tags now r = record r {
  scores = some scores;
  feedbacks = feedbacks;
  summary = some summary;
  weakness_tag_summary = some (tags ++ select is_voice (tag_summary_of r));
  text_analyzed_at = some now;
}

unfoldable pub save_text_results :
    ℕ
    → SessionScores
    → List FeedbackRecord
    → Text
    → List WeaknessTagCount
    → ℕ
    → Db
    → Outcome Failure Db
save_text_results rid scores feedbacks summary tags now db =
    if is_empty feedbacks
    then err value_error
    else ok (execute (has_id rid) (text_row scores feedbacks summary tags now) db).1

abbrev pub audio_row : Option ℕ → List WeaknessTagCount → ℕ → Report → Report
audio_row delivery_score voice_tags now r = record r {
  delivery_score = delivery_score;
  audio_analyzed_at = some now;
  weakness_tag_summary = some (select (λ t. not (is_voice t)) (tag_summary_of r) ++ voice_tags);
}

unfoldable pub save_audio_result : ℕ → Option ℕ → List WeaknessTagCount → ℕ → Db → Bool × Db
save_audio_result rid delivery_score voice_tags now db =
    execute (is_open rid) (audio_row delivery_score voice_tags now) db

-- `now - grace_seconds` is the deadline: `t + grace < now`.
abbrev pub is_overdue : ℕ → ℕ → Report → Bool
is_overdue grace now r =
    is_some r.scores
    && status_eq r.status processing
    && is_some r.text_analyzed_at
    && not (is_some r.audio_analyzed_at)
    && (elim r.text_analyzed_at [ none ↦ false | some t ↦ ltb (t + grace) now ])

abbrev pub complete_without_audio : ℕ → Report → Report
complete_without_audio now r = record r {
  status = completed;
  overall_score = overall_of r.scores none;
  completed_at = some now;
}

-- The reports that it completed, as `RETURNING r.id, r.user_id` gives them, and the database.
unfoldable pub complete_overdue_audio : ℕ → ℕ → Db → List Report × Db
complete_overdue_audio grace now db = (
  select (is_overdue grace now) db.reports,
  (execute (is_overdue grace now) (complete_without_audio now) db).1,
)

-- An update of the job of a report.
abbrev pub set_job : (Job → Job) → Option Job → Option Job
set_job set none = none
set_job set (some j) = some (set j)

abbrev pub job_row : (Job → Job) → Report → Report
job_row set r = record r { job = set_job set r.job }

abbrev pub on_job : ℕ → (Job → Job) → Db → Db
on_job rid set db = (execute (has_id rid) (job_row set) db).1

unfoldable pub increment_job_retry : ℕ → Db → Db
increment_job_retry rid db = on_job rid (λ j. record j { retry_count = j.retry_count + 1 }) db

unfoldable pub reset_job_retry : ℕ → Db → Db
reset_job_retry rid db = on_job rid (λ j. record j { retry_count = 0 }) db

unfoldable pub get_job_error : ℕ → Db → Option Text
get_job_error rid db = elim (get_report rid db) [
  | none ↦ none
  | some r ↦ elim r.job [ none ↦ none | some j ↦ j.error_message ]
]

-- `summary[:500]`
abbrev pub take : ℕ → Text → Text
take zero t = []
take (suc n) [] = []
take (suc n) (c ∷ t) = c ∷ take n t

unfoldable pub record_job_error : ℕ → Text → Db → Db
record_job_error rid summary db =
    on_job rid (λ j. record j { error_message = some (take 500 summary) }) db
