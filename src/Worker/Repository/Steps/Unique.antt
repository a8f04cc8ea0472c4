-- ===== src/Worker/Repository/Steps/Unique.antt =====
-- One report for a session, and one row for an id.
use kkori_ai.Prelude.{
  ℕ, Text, Bool, true, false, ◌≡◌, refl, List, [], ◌∷◌, ◌++◌, any, arith, All, All-append, ◌==◌,
  map, map-append, suc, ◌<◌, subst, sym,
}
use kkori_ai.Worker.Report.{Report, Db, pending, processing}
use kkori_ai.Worker.Repository.{
  create_report_with_job, try_transition, mark_failed, try_complete, save_text_results,
  save_audio_result, complete_overdue_audio, increment_job_retry, reset_job_retry, record_job_error,
  new_report, inserted, execute, update, has_id, has_status, set_status, is_open, failed_row,
  can_complete, complete_row, text_row, audio_row, is_overdue, complete_without_audio, job_row,
}
use kkori_ai.Worker.Repository.Steps.{
  Step, create, enter, fail, complete, save_text, save_audio, complete_overdue, count_retry,
  reset_retry, record_error, Steps, start, then_step, empty_db,
}

unfoldable pub Distinct : List ℕ → Type 0
Distinct [] = Unit
Distinct (x ∷ xs) = All (λ y. (x == y) ≡ false) xs × Distinct xs

abbrev pub ids : List Report → List ℕ
ids rs = map (λ (r : Report). r.id) rs

abbrev pub sessions : List Report → List ℕ
sessions rs = map (λ (r : Report). r.session_id) rs

-- No two reports have one session or one id, and the ids are below the next one.
pub record IsUnique (db : Db) : Type 0 where
  pub ids_below : All (λ n. n < db.next_id) (ids db.reports)
  pub distinct_ids : Distinct (ids db.reports)
  pub distinct_sessions : Distinct (sessions db.reports)

append-Distinct :
    (xs : List ℕ) (y : ℕ) → Distinct xs → All (λ x. (x == y) ≡ false) xs → Distinct (xs ++ y ∷ [])
unfolding Distinct
append-Distinct [] y h k = (tt, tt)
append-Distinct (x ∷ xs) y h k =
    (All-append _ xs (y ∷ []) h.0 (k.0, tt), append-Distinct xs y h.1 k.1)

below-distinct : (n : ℕ) (xs : List ℕ) → All (λ x. x < n) xs → All (λ x. (x == n) ≡ false) xs
below-distinct n [] h = tt
below-distinct n (x ∷ xs) h = ground (arith, below-distinct n xs h.1)

below_next : (n : ℕ) (xs : List ℕ) → All (λ x. x < n) xs → All (λ x. x < suc n) xs
below_next n [] h = tt
below_next n (x ∷ xs) h = ground (arith, below_next n xs h.1)

not_taken :
    (session : ℕ) (rs : List Report)
    → any (λ r. r.session_id == session) rs ≡ false
    → All (λ x. (x == session) ≡ false) (sessions rs)
not_taken session [] h = tt
not_taken session (r ∷ rs) h = ground (arith, not_taken session rs)

update-keys :
    (key : Report → ℕ) (p : Report → Bool) (set : Report → Report)
    → ((r : Report) → key (set r) ≡ key r)
    → (rs : List Report) → map key (update p set rs) ≡ map key rs
update-keys key p set same [] = refl
update-keys key p set same (r ∷ rs) = ground (arith, same r, update-keys key p set same rs)

-- A statement that leaves ids and sessions alone.
pub execute-IsUnique :
    (p : Report → Bool) (set : Report → Report)
    → ((r : Report) → (set r).id ≡ r.id)
    → ((r : Report) → (set r).session_id ≡ r.session_id)
    → (a : Db) → IsUnique a
    → IsUnique (execute p set a).1
execute-IsUnique p set same_id same_session a h = record {
  ids_below =
      subst (All (λ n. n < a.next_id)) (sym (update-keys _ p set same_id a.reports)) h.ids_below;
  distinct_ids = subst Distinct (sym (update-keys _ p set same_id a.reports)) h.distinct_ids;
  distinct_sessions =
      subst Distinct (sym (update-keys _ p set same_session a.reports)) h.distinct_sessions;
}

pub inserted-IsUnique :
    (taken : Bool) (a : Db) (session user resume : ℕ) (name : Text)
    → any (λ r. r.session_id == session) a.reports ≡ taken
    → IsUnique a
    → IsUnique (inserted taken session user resume name a).1
inserted-IsUnique true a session user resume name e h = record {
  ids_below = below_next a.next_id (ids a.reports) h.ids_below;
  distinct_ids = h.distinct_ids;
  distinct_sessions = h.distinct_sessions;
}
inserted-IsUnique false a session user resume name e h = record {
  ids_below = subst (All (λ n. n < suc a.next_id)) (sym (map-append _ a.reports (new ∷ []))) (
      All-append _ (ids a.reports) (a.next_id ∷ [])
        (below_next a.next_id (ids a.reports) h.ids_below) (omega arith, tt));
  distinct_ids = subst Distinct (sym (map-append _ a.reports (new ∷ []))) (
      append-Distinct (ids a.reports) a.next_id h.distinct_ids
        (below-distinct a.next_id (ids a.reports) h.ids_below));
  distinct_sessions = subst Distinct (sym (map-append _ a.reports (new ∷ []))) (
      append-Distinct (sessions a.reports) session h.distinct_sessions
        (not_taken session a.reports e));
}
  where
    new : Report
    new = new_report a.next_id session user resume name

pub Step-IsUnique : (a b : Db) → Step a b → IsUnique a → IsUnique b
unfolding try_transition mark_failed try_complete save_text_results save_audio_result
    complete_overdue_audio increment_job_retry reset_job_retry record_job_error
    create_report_with_job
Step-IsUnique a _ (create session user resume name _) h =
    inserted-IsUnique (any (λ r. r.session_id == session) a.reports) a session user resume name refl
      h
Step-IsUnique a _ (enter rid _) h =
    execute-IsUnique (has_status rid pending) (set_status processing) (λ r. refl) (λ r. refl) a h
Step-IsUnique a _ (fail rid reason _) h =
    execute-IsUnique (is_open rid) (failed_row reason) (λ r. refl) (λ r. refl) a h
Step-IsUnique a _ (complete audio now rid _) h =
    execute-IsUnique (can_complete audio rid) (complete_row now) (λ r. refl) (λ r. refl) a h
Step-IsUnique a b (save_text rid scores [] summary tags now _ _ e) h = absurd (ground arith)
Step-IsUnique a b (save_text rid scores (f ∷ fs) summary tags now _ _ e) h =
    let saved : (execute (has_id rid) (text_row scores (f ∷ fs) summary tags now) a).1 ≡ b =
      ground arith in
    subst IsUnique saved (
      execute-IsUnique (has_id rid) (text_row scores (f ∷ fs) summary tags now) (λ r. refl)
        (λ r. refl) a h)
Step-IsUnique a _ (save_audio rid delivery tags now _) h =
    execute-IsUnique (is_open rid) (audio_row delivery tags now) (λ r. refl) (λ r. refl) a h
Step-IsUnique a _ (complete_overdue grace now _) h =
    execute-IsUnique (is_overdue grace now) (complete_without_audio now) (λ r. refl) (λ r. refl) a h
Step-IsUnique a _ (count_retry rid _) h =
    execute-IsUnique (has_id rid) (job_row _) (λ r. refl) (λ r. refl) a h
Step-IsUnique a _ (reset_retry rid _) h =
    execute-IsUnique (has_id rid) (job_row _) (λ r. refl) (λ r. refl) a h
Step-IsUnique a _ (record_error rid summary _) h =
    execute-IsUnique (has_id rid) (job_row _) (λ r. refl) (λ r. refl) a h

-- After any sequence of statements from the empty tables no two reports have the same session, no
-- two have the same id, and every id is below the next one.
pub Steps-IsUnique : (db : Db) → Steps empty_db db → IsUnique db
unfolding Distinct
Steps-IsUnique db (start _) = record { ids_below = tt; distinct_ids = tt; distinct_sessions = tt }
Steps-IsUnique c (then_step _ b _ k s) = Step-IsUnique b c s (Steps-IsUnique b k)
