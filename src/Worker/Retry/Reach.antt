-- ===== src/Worker/Retry/Reach.antt =====
-- The statements of a retried call.
use kkori_ai.Prelude.{ℕ, zero, suc, ◌+◌, Bool, true, false, leb, Outcome, ok, err}
use kkori_ai.Worker.Report.{Db, Failure}
use kkori_ai.Worker.Repository.{increment_job_retry}
use kkori_ai.Worker.Repository.Steps.{
  Steps, start, then_step, count_retry, record_error, one_step, Steps_trans,
}
use kkori_ai.Worker.Retry.{retry_from, with_retry, type_name, attempted}

module _ {A : Type 0} where
  attempted-Steps :
      (o : Outcome Failure A) (last : Bool) (rid : ℕ) (db : Db)
      (later : Db → Outcome Failure A × Db)
      → ((d : Db) → Steps d (later d).1)
      → Steps db (attempted o last rid db later).1
  attempted-Steps (ok a) last rid db later h = start db
  attempted-Steps (err e) true rid db later h =
      then_step db (increment_job_retry rid db) _ (one_step db _ (count_retry rid db))
        (record_error rid (type_name e) _)
  attempted-Steps (err e) false rid db later h =
      Steps_trans db (increment_job_retry rid db) _ (one_step db _ (count_retry rid db))
        (h (increment_job_retry rid db))

  retry_from-Steps :
      (left attempt max rid : ℕ) (thunk : ℕ → Outcome Failure A) (db : Db)
      → Steps db (retry_from left attempt max rid thunk db).1
  unfolding retry_from
  retry_from-Steps zero attempt max rid thunk db = start db
  retry_from-Steps (suc left) attempt max rid thunk db =
      attempted-Steps (thunk attempt) (leb max (attempt + 1)) rid db _
        (λ d. retry_from-Steps left (attempt + 1) max rid thunk d)

  pub with_retry-Steps :
      (max rid : ℕ) (thunk : ℕ → Outcome Failure A) (db : Db)
      → Steps db (with_retry max rid thunk db).1
  unfolding with_retry
  with_retry-Steps max rid thunk db = retry_from-Steps max 0 max rid thunk db
