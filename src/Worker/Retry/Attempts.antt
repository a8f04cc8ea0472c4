-- ===== src/Worker/Retry/Attempts.antt =====
-- How a retried call ends, with the database that its failures leave.
use kkori_ai.Prelude.{
  ℕ, zero, suc, ◌+◌, ◌≤◌, ◌<◌, ◌≡◌, refl, subst, ap, ◌∙◌, Bool, true, false, leb, arith, Outcome,
  ok, err,
}
use kkori_ai.Worker.Report.{Db, Failure}
use kkori_ai.Worker.Repository.{increment_job_retry, record_job_error}
use kkori_ai.Worker.Retry.{retry_from, with_retry, type_name, attempted}

-- The count of the job after `n` failures.
abbrev pub counted : ℕ → ℕ → Db → Db
counted zero rid db = db
counted (suc n) rid db = counted n rid (increment_job_retry rid db)

abbrev pub is_err : {A : Type 0} → Outcome Failure A → Bool
is_err (ok a) = false
is_err (err e) = true

module _ {A : Type 0} where
  -- A failed attempt that is not the last one.
  attempted-later :
      (o : Outcome Failure A) (last : Bool) (rid : ℕ) (db : Db)
      (later : Db → Outcome Failure A × Db)
      → is_err o ≡ true
      → last ≡ false
      → attempted o last rid db later ≡ later (increment_job_retry rid db)
  attempted-later (ok a) last rid db later h k = absurd (ground arith)
  attempted-later (err e) true rid db later h k = absurd (ground arith)
  attempted-later (err e) false rid db later h k = refl

  attempted-ok :
      (o : Outcome Failure A) (last : Bool) (rid : ℕ) (db : Db)
      (later : Db → Outcome Failure A × Db) (a : A)
      → o ≡ ok a
      → attempted o last rid db later ≡ (ok a, db)
  attempted-ok (ok b) last rid db later a h = ground arith
  attempted-ok (err e) last rid db later a h = absurd (ground arith)

  attempted-last :
      (o : Outcome Failure A) (last : Bool) (rid : ℕ) (db : Db)
      (later : Db → Outcome Failure A × Db) (e : Failure)
      → o ≡ err e
      → last ≡ true
      → attempted o last rid db later
        ≡ (err e, record_job_error rid (type_name e) (increment_job_retry rid db))
  attempted-last (ok a) last rid db later e h k = absurd (ground arith)
  attempted-last (err f) true rid db later e h k =
      let same : f ≡ e = ground arith in
      ap (λ x. (err x, record_job_error rid (type_name x) (increment_job_retry rid db))) same
  attempted-last (err f) false rid db later e h k = absurd (ground arith)

  retry_from-ok :
      (left gap attempt max rid : ℕ) (thunk : ℕ → Outcome Failure A) (db : Db) (a : A)
      → attempt + left ≡ max
      → gap < left
      → ((j : ℕ) → attempt ≤ j → j < attempt + gap → is_err (thunk j) ≡ true)
      → thunk (attempt + gap) ≡ ok a
      → retry_from left attempt max rid thunk db ≡ (ok a, counted gap rid db)
  unfolding retry_from
  retry_from-ok zero gap attempt max rid thunk db a m l h k = absurd (omega arith)
  retry_from-ok (suc left) zero attempt max rid thunk db a m l h k =
      attempted-ok (thunk attempt) (leb max (attempt + 1)) rid db _ a
        (subst (λ n. thunk n ≡ ok a) (omega arith) k)
  retry_from-ok (suc left) (suc gap) attempt max rid thunk db a m l h k =
      attempted-later (thunk attempt) (leb max (attempt + 1)) rid db _
        (h attempt (omega arith) (omega arith)) (ground arith)
      ∙ retry_from-ok left gap (attempt + 1) max rid thunk (increment_job_retry rid db) a
          (omega arith) (omega arith) (λ j p q. h j (omega arith) (omega arith))
          (subst (λ n. thunk n ≡ ok a) (omega arith) k)

  pub with_retry-counted :
      (max gap rid : ℕ) (thunk : ℕ → Outcome Failure A) (db : Db) (a : A)
      → gap < max
      → ((j : ℕ) → j < gap → is_err (thunk j) ≡ true)
      → thunk gap ≡ ok a
      → with_retry max rid thunk db ≡ (ok a, counted gap rid db)
  unfolding with_retry
  with_retry-counted max gap rid thunk db a l h k =
      retry_from-ok max gap 0 max rid thunk db a (omega arith) l (λ j p q. h j (omega arith))
        (subst (λ n. thunk n ≡ ok a) (omega arith) k)

  retry_from-err :
      (left attempt max rid : ℕ) (thunk : ℕ → Outcome Failure A) (db : Db) (e : Failure)
      → attempt + suc left ≡ max
      → ((j : ℕ) → attempt ≤ j → j < max → is_err (thunk j) ≡ true)
      → thunk (attempt + left) ≡ err e
      → retry_from (suc left) attempt max rid thunk db
        ≡ (err e, record_job_error rid (type_name e) (counted (suc left) rid db))
  unfolding retry_from
  retry_from-err zero attempt max rid thunk db e m h k =
      attempted-last (thunk attempt) (leb max (attempt + 1)) rid db _ e
        (subst (λ n. thunk n ≡ err e) (omega arith) k) (ground arith)
  retry_from-err (suc left) attempt max rid thunk db e m h k =
      attempted-later (thunk attempt) (leb max (attempt + 1)) rid db _
        (h attempt (omega arith) (omega arith)) (ground arith)
      ∙ retry_from-err left (attempt + 1) max rid thunk (increment_job_retry rid db) e (omega arith)
          (λ j p q. h j (omega arith) q) (subst (λ n. thunk n ≡ err e) (omega arith) k)

  pub with_retry-recorded :
      (max rid : ℕ) (thunk : ℕ → Outcome Failure A) (db : Db) (e : Failure)
      → ((j : ℕ) → j ≤ max → is_err (thunk j) ≡ true)
      → thunk max ≡ err e
      → with_retry (suc max) rid thunk db
        ≡ (err e, record_job_error rid (type_name e) (counted (suc max) rid db))
  unfolding with_retry
  with_retry-recorded max rid thunk db e h k =
      retry_from-err max 0 (suc max) rid thunk db e (omega arith) (λ j p q. h j (omega arith))
        (subst (λ n. thunk n ≡ err e) (omega arith) k)
