-- ===== src/Worker/Repository/Steps/Rows.antt =====
-- What one statement does to the rows: it touches some of them, or adds one.
use kkori_ai.Prelude.{
  ℕ, Option, Text, Bool, true, false, ◌≡◌, refl, List, [], ◌∷◌, ◌++◌, any, arith, if◌then◌else◌,
  ◌==◌, subst,
}
use kkori_ai.Worker.Report.{
  Report, Db, Job, Reason, SessionScores, FeedbackRecord, WeaknessTagCount, pending, processing,
}
use kkori_ai.Worker.Repository.{
  create_report_with_job, try_transition, mark_failed, try_complete, save_text_results,
  save_audio_result, complete_overdue_audio, increment_job_retry, reset_job_retry, record_job_error,
  new_report, inserted, execute, update, has_id, has_status, set_status, is_open, failed_row,
  can_complete, complete_row, text_row, audio_row, is_overdue, complete_without_audio, job_row,
}
use kkori_ai.Worker.Repository.Steps.{
  Step, create, enter, fail, complete, save_text, save_audio, complete_overdue, count_retry,
  reset_retry, record_error,
}

pub data Touch : Report → Report → Type 0 where
  entered :
      (rid : ℕ) (r : Report) → has_status rid pending r ≡ true → Touch r (set_status processing r)
  failed_by :
      (rid : ℕ) (reason : Reason) (r : Report)
      → is_open rid r ≡ true
      → Touch r (failed_row reason r)
  completed_by :
      (audio : Bool) (rid now : ℕ) (r : Report)
      → can_complete audio rid r ≡ true
      → Touch r (complete_row now r)
  text_saved :
      (scores : SessionScores) (f : FeedbackRecord) (fs : List FeedbackRecord) (summary : Text)
      (tags : List WeaknessTagCount) (now : ℕ) (r : Report)
      → Touch r (text_row scores (f ∷ fs) summary tags now r)
  audio_saved :
      (rid : ℕ) (delivery : Option ℕ) (tags : List WeaknessTagCount) (now : ℕ) (r : Report)
      → is_open rid r ≡ true
      → Touch r (audio_row delivery tags now r)
  overdue_completed :
      (grace now : ℕ) (r : Report)
      → is_overdue grace now r ≡ true
      → Touch r (complete_without_audio now r)
  job_set : (set : Job → Job) (r : Report) → Touch r (job_row set r)

pub data Rows : List Report → List Report → Type 0 where
  done : Rows [] []
  added :
      (rid session user resume : ℕ) (file_name : Text)
      → Rows [] (new_report rid session user resume file_name ∷ [])
  kept : (r : Report) (rs ss : List Report) → Rows rs ss → Rows (r ∷ rs) (r ∷ ss)
  touched : (r s : Report) (rs ss : List Report) → Touch r s → Rows rs ss → Rows (r ∷ rs) (s ∷ ss)

pub Rows-refl : (rs : List Report) → Rows rs rs
Rows-refl [] = done
Rows-refl (r ∷ rs) = kept r rs rs (Rows-refl rs)

append-Rows :
    (rs : List Report) (rid session user resume : ℕ) (name : Text)
    → Rows rs (rs ++ new_report rid session user resume name ∷ [])
append-Rows [] rid session user resume name = added rid session user resume name
append-Rows (r ∷ rs) rid session user resume name =
    kept r rs _ (append-Rows rs rid session user resume name)

module _ (p : Report → Bool) (set : Report → Report)
    (touch : (r : Report) → p r ≡ true → Touch r (set r)) where
  touch_if :
      (b : Bool) (r : Report) (rs ss : List Report)
      → (b ≡ true → Touch r (set r))
      → Rows rs ss
      → Rows (r ∷ rs) ((if b then set r else r) ∷ ss)
  touch_if true r rs ss t h = touched r (set r) rs ss (t refl) h
  touch_if false r rs ss t h = kept r rs ss h

  update-Rows : (rs : List Report) → Rows rs (update p set rs)
  update-Rows [] = done
  update-Rows (r ∷ rs) = touch_if (p r) r rs (update p set rs) (touch r) (update-Rows rs)

create-Rows :
    (taken : Bool) (a : Db) (session user resume : ℕ) (name : Text)
    → Rows a.reports (inserted taken session user resume name a).1.reports
create-Rows true a session user resume name = Rows-refl a.reports
create-Rows false a session user resume name =
    append-Rows a.reports a.next_id session user resume name

pub Step-Rows : (a b : Db) → Step a b → Rows a.reports b.reports
unfolding try_transition mark_failed try_complete save_text_results save_audio_result
    complete_overdue_audio increment_job_retry reset_job_retry record_job_error
    create_report_with_job
Step-Rows a _ (create session user resume name _) =
    create-Rows (any (λ r. r.session_id == session) a.reports) a session user resume name
Step-Rows a _ (enter rid _) =
    update-Rows (has_status rid pending) (set_status processing) (λ r p. entered rid r p) a.reports
Step-Rows a _ (fail rid reason _) =
    update-Rows (is_open rid) (failed_row reason) (λ r p. failed_by rid reason r p) a.reports
Step-Rows a _ (complete audio now rid _) =
    update-Rows (can_complete audio rid) (complete_row now) (λ r p. completed_by audio rid now r p)
      a.reports
Step-Rows a b (save_text rid scores [] summary tags now _ _ e) = absurd (ground arith)
Step-Rows a b (save_text rid scores (f ∷ fs) summary tags now _ _ e) =
    let saved : (execute (has_id rid) (text_row scores (f ∷ fs) summary tags now) a).1 ≡ b =
      ground arith in
    subst (λ d. Rows a.reports d.reports) saved
      (update-Rows (has_id rid) (text_row scores (f ∷ fs) summary tags now)
        (λ r p. text_saved scores f fs summary tags now r) a.reports)
Step-Rows a _ (save_audio rid delivery tags now _) =
    update-Rows (is_open rid) (audio_row delivery tags now)
      (λ r p. audio_saved rid delivery tags now r p) a.reports
Step-Rows a _ (complete_overdue grace now _) =
    update-Rows (is_overdue grace now) (complete_without_audio now)
      (λ r p. overdue_completed grace now r p) a.reports
Step-Rows a _ (count_retry rid _) =
    update-Rows (has_id rid) (job_row _) (λ r p. job_set _ r) a.reports
Step-Rows a _ (reset_retry rid _) =
    update-Rows (has_id rid) (job_row _) (λ r p. job_set _ r) a.reports
Step-Rows a _ (record_error rid summary _) =
    update-Rows (has_id rid) (job_row _) (λ r p. job_set _ r) a.reports
