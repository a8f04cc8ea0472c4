-- ===== src/Worker/Retry.antt =====
-- worker/src/report/pipeline.py: with_retry. The waits between the attempts are not modelled.
pub mod Reach
pub mod Attempts
pub mod Counts
use kkori_ai.Prelude.{
  ℕ, zero, suc, ◌+◌, Bool, true, false, List, [], ◌∷◌, Text, leb, Outcome, ok, err,
}
use kkori_ai.Worker.Report.{
  Db, Failure, value_error, zero_division, index_error, assertion_error, report_not_ready, other,
}
use kkori_ai.Worker.Repository.{increment_job_retry, record_job_error}

-- `type(e).__name__`
abbrev pub type_name : Failure → Text
type_name value_error = 86 ∷ 97 ∷ 108 ∷ 117 ∷ 101 ∷ 69 ∷ 114 ∷ 114 ∷ 111 ∷ 114 ∷ []
type_name zero_division =
    90 ∷ 101 ∷ 114 ∷ 111 ∷ 68 ∷ 105 ∷ 118 ∷ 105 ∷ 115 ∷ 105 ∷ 111 ∷ 110 ∷ 69 ∷ 114 ∷ 114 ∷ 111 ∷ 114
    ∷ []
type_name index_error = 73 ∷ 110 ∷ 100 ∷ 101 ∷ 120 ∷ 69 ∷ 114 ∷ 114 ∷ 111 ∷ 114 ∷ []
type_name assertion_error =
    65 ∷ 115 ∷ 115 ∷ 101 ∷ 114 ∷ 116 ∷ 105 ∷ 111 ∷ 110 ∷ 69 ∷ 114 ∷ 114 ∷ 111 ∷ 114 ∷ []
type_name report_not_ready =
    82 ∷ 101 ∷ 112 ∷ 111 ∷ 114 ∷ 116 ∷ 78 ∷ 111 ∷ 116 ∷ 82 ∷ 101 ∷ 97 ∷ 100 ∷ 121 ∷ []
type_name (other name) = name

-- After an attempt: its outcome, whether it was the last one, and the later rounds.
abbrev pub attempted :
    {A : Type 0}
    → Outcome Failure A
    → Bool
    → ℕ
    → Db
    → (Db → Outcome Failure A × Db)
    → Outcome Failure A × Db
attempted (ok a) last rid db later = (ok a, db)
attempted (err e) true rid db later =
    (err e, record_job_error rid (type_name e) (increment_job_retry rid db))
attempted (err e) false rid db later = later (increment_job_retry rid db)

-- The rounds that are left of `range(max_attempts)`, with the attempt that comes next. A thunk may
-- answer differently at each attempt.
unfoldable pub retry_from :
    {A : Type 0} (left attempt max_attempts rid : ℕ)
    → (ℕ → Outcome Failure A)
    → Db
    → Outcome Failure A × Db
retry_from zero attempt max_attempts rid thunk db = (err assertion_error, db)
retry_from (suc left) attempt max_attempts rid thunk db =
    attempted (thunk attempt) (leb max_attempts (attempt + 1)) rid db
      (λ counted. retry_from left (attempt + 1) max_attempts rid thunk counted)

unfoldable pub with_retry :
    {A : Type 0} (max_attempts rid : ℕ) → (ℕ → Outcome Failure A) → Db → Outcome Failure A × Db
with_retry max_attempts rid thunk db = retry_from max_attempts 0 max_attempts rid thunk db
