-- ===== src/Worker/Retry/Counts.antt =====
-- How a retried call ends, with the job that it leaves.
use kkori_ai.Prelude.{
  ℕ, zero, suc, ◌+◌, ◌≤◌, ◌<◌, ◌≡◌, refl, sym, ap, ◌∙◌, true, Option, none, some, List, [], ◌∷◌,
  Text, map, ◌==◌, if◌then◌else◌, arith, Outcome, ok, err,
}
use kkori_ai.Worker.Report.{Db, Failure, Report, Job}
use kkori_ai.Worker.Repository.{
  take, update, has_id, job_row, set_job, increment_job_retry, record_job_error,
}
use kkori_ai.Worker.Retry.{with_retry, type_name}
use kkori_ai.Worker.Retry.Attempts.{counted, is_err, with_retry-counted, with_retry-recorded}

-- The tables with the job of one report changed, and nothing else.
abbrev pub change_job : (Job → Job) → Option Job → Option Job
change_job f none = none
change_job f (some j) = some (f j)

abbrev pub change_row : ℕ → (Job → Job) → Report → Report
change_row rid f r = if r.id == rid then record r { job = change_job f r.job } else r

abbrev pub with_job : ℕ → (Job → Job) → Db → Db
with_job rid f db = record db { reports = map (change_row rid f) db.reports }

-- `n` more failures, and the name of the last one.
abbrev pub more_failures : ℕ → Job → Job
more_failures n j = record j { retry_count = j.retry_count + n }

abbrev pub failed_with : ℕ → Text → Job → Job
failed_with n name j = record {
  retry_count = j.retry_count + n;
  error_message = some (take 500 name);
}

change_job-after :
    (f g h : Job → Job) (j : Option Job)
    → ((x : Job) → f (g x) ≡ h x)
    → change_job f (set_job g j) ≡ change_job h j
change_job-after f g h none e = refl
change_job-after f g h (some j) e = ap some (e j)

change_job-then :
    (g f h : Job → Job) (j : Option Job)
    → ((x : Job) → g (f x) ≡ h x)
    → set_job g (change_job f j) ≡ change_job h j
change_job-then g f h none e = refl
change_job-then g f h (some j) e = ap some (e j)

row_after :
    (rid : ℕ) (f g h : Job → Job) (r : Report)
    → ((x : Job) → f (g x) ≡ h x)
    → change_row rid f (if r.id == rid then job_row g r else r) ≡ change_row rid h r
row_after rid f g h r e = ground (arith, change_job-after f g h r.job e)

rows_after :
    (rid : ℕ) (f g h : Job → Job) (rs : List Report)
    → ((x : Job) → f (g x) ≡ h x)
    → map (change_row rid f) (update (has_id rid) (job_row g) rs) ≡ map (change_row rid h) rs
rows_after rid f g h [] e = refl
rows_after rid f g h (r ∷ rs) e =
    ap (λ x. x ∷ map (change_row rid f) (update (has_id rid) (job_row g) rs))
      (row_after rid f g h r e)
    ∙ ap (λ xs. change_row rid h r ∷ xs) (rows_after rid f g h rs e)

same_job : (f : Job → Job) (j : Option Job) → ((x : Job) → f x ≡ x) → change_job f j ≡ j
same_job f none e = refl
same_job f (some j) e = ap some (e j)

same_row : (rid : ℕ) (f : Job → Job) (r : Report) → ((x : Job) → f x ≡ x) → change_row rid f r ≡ r
same_row rid f r e = ground (arith, same_job f r.job e)

same_rows :
    (rid : ℕ) (f : Job → Job) (rs : List Report)
    → ((x : Job) → f x ≡ x)
    → map (change_row rid f) rs ≡ rs
same_rows rid f [] e = refl
same_rows rid f (r ∷ rs) e =
    ap (λ x. x ∷ map (change_row rid f) rs) (same_row rid f r e)
    ∙ ap (λ xs. r ∷ xs) (same_rows rid f rs e)

counted-more : (n rid : ℕ) (db : Db) → counted n rid db ≡ with_job rid (more_failures n) db
counted-more zero rid db =
    ap (λ rs. record db { reports = rs })
      (sym (same_rows rid (more_failures 0) db.reports (λ j. ground arith)))
counted-more (suc n) rid db =
    counted-more n rid (increment_job_retry rid db)
    ∙ (unfold increment_job_retry in
        ap (λ rs. record db { reports = rs })
          (rows_after rid (more_failures n) (more_failures 1) (more_failures (suc n)) db.reports
            (λ j. ground arith)))

recorded_row :
    (rid : ℕ) (g f h : Job → Job) (r : Report)
    → ((x : Job) → g (f x) ≡ h x)
    → (if has_id rid (change_row rid f r)
        then job_row g (change_row rid f r)
        else change_row rid f r)
      ≡ change_row rid h r
recorded_row rid g f h r e = ground (arith, change_job-then g f h r.job e)

recorded_rows :
    (rid : ℕ) (g f h : Job → Job) (rs : List Report)
    → ((x : Job) → g (f x) ≡ h x)
    → update (has_id rid) (job_row g) (map (change_row rid f) rs) ≡ map (change_row rid h) rs
recorded_rows rid g f h [] e = refl
recorded_rows rid g f h (r ∷ rs) e =
    ap (λ x. x ∷ update (has_id rid) (job_row g) (map (change_row rid f) rs))
      (recorded_row rid g f h r e)
    ∙ ap (λ xs. change_row rid h r ∷ xs) (recorded_rows rid g f h rs e)

recorded_lem :
    (n rid : ℕ) (name : Text) (db : Db)
    → record_job_error rid name (with_job rid (more_failures n) db)
      ≡ with_job rid (failed_with n name) db
unfolding record_job_error
recorded_lem n rid name db =
    ap (λ rs. record db { reports = rs })
      (recorded_rows rid (λ j. record j { error_message = some (take 500 name) }) (more_failures n)
        (failed_with n name) db.reports (λ j. refl))

module _ {A : Type 0} where
  -- The first attempt that succeeds gives the result, if it is one of the allowed attempts; the
  -- retry count of the report's job has gone up by the failures before it, and nothing else changed.
  pub with_retry-ok :
      (max gap rid : ℕ) (thunk : ℕ → Outcome Failure A) (db : Db) (a : A)
      → gap < max
      → ((j : ℕ) → j < gap → is_err (thunk j) ≡ true)
      → thunk gap ≡ ok a
      → with_retry max rid thunk db ≡ (ok a, with_job rid (more_failures gap) db)
  with_retry-ok max gap rid thunk db a l h k =
      with_retry-counted max gap rid thunk db a l h k
      ∙ ap (λ d. (ok a, d)) (counted-more gap rid db)

  -- If each of the allowed attempts fails, and at least one is allowed, the call fails with the
  -- failure of the last one; the retry count of the report's job has gone up by their number, its
  -- error message is that failure's name, up to 500 characters, and nothing else changed.
  pub with_retry-err :
      (max rid : ℕ) (thunk : ℕ → Outcome Failure A) (db : Db) (e : Failure)
      → ((j : ℕ) → j ≤ max → is_err (thunk j) ≡ true)
      → thunk max ≡ err e
      → with_retry (suc max) rid thunk db
        ≡ (err e, with_job rid (failed_with (suc max) (type_name e)) db)
  with_retry-err max rid thunk db e h k =
      with_retry-recorded max rid thunk db e h k
      ∙ ap (λ d. (err e, record_job_error rid (type_name e) d)) (counted-more (suc max) rid db)
      ∙ ap (λ d. (err e, d)) (recorded_lem (suc max) rid (type_name e) db)
