-- ===== src/Worker/Generation/Outcomes.antt =====
-- What a request does to a report that is there: given up, or only to be confirmed.
use kkori_ai.Prelude.{
  ℕ, ◌≡◌, refl, sym, ◌∙◌, ap, subst, Bool, true, false, Option, none, some, List, [], ◌∷◌, ◌++◌,
  leb, is_some, append-nil, arith, if◌then◌else◌, ok, is_empty, Text, ◌⊎◌, inl, inr, not, ◌&&◌,
  ◌||◌, ◌≤◌, ◌+◌, ◌*◌, ◌/◌,
}
use kkori_ai.Worker.Report.{
  Report, Db, ReportStatus, Reason, Job, SessionScores, pending, processing, completed, failed,
  is_terminal,
}
use kkori_ai.Worker.Repository.{
  get_report_by_session, get_job_error, mark_failed, try_complete, is_open, failed_row,
  can_complete, complete_row, execute, has_id, overall_of,
}
use kkori_ai.Worker.Repository.Rows.{set_row}
use kkori_ai.Worker.Repository.Steps.Found.{IsAt, execute-IsAt, by_id}
use kkori_ai.Worker.Generation.{
  World, Environment, Event, Result, publish_if, confirm, give_up, truthy, generate, judged,
  process_generation_request,
}

pub if_true {ℓ} : {A : Type ℓ} (b : Bool) (x y : A) → b ≡ true → (if b then x else y) ≡ x
if_true true x y h = refl
if_true false x y h = absurd (ground arith)

pub if_false {ℓ} : {A : Type ℓ} (b : Bool) (x y : A) → b ≡ false → (if b then x else y) ≡ y
if_false true x y h = absurd (ground arith)
if_false false x y h = refl

-- A report in progress, and one that is completed or has failed.
abbrev pub IsUnfinished : Report → Type 0
IsUnfinished r = (r.status ≡ pending) ⊎ (r.status ≡ processing)

abbrev pub IsFinished : Report → Type 0
IsFinished r = (r.status ≡ completed) ⊎ (r.status ≡ failed)

pub is_terminal-IsUnfinished : (r : Report) → IsUnfinished r → is_terminal r.status ≡ false
is_terminal-IsUnfinished r (inl e) = ap is_terminal e
is_terminal-IsUnfinished r (inr e) = ap is_terminal e

pub is_terminal-IsFinished : (r : Report) → IsFinished r → is_terminal r.status ≡ true
is_terminal-IsFinished r (inl e) = ap is_terminal e
is_terminal-IsFinished r (inr e) = ap is_terminal e

-- The session has the report, and these events were published since.
pub record Ends (session : ℕ) (r : Report) (events : List Event) (w v : World) : Type 0 where
  pub at : IsAt session r v.db
  pub published : v.published ≡ w.published ++ events

abbrev pub event : Report → ReportStatus → Option ℕ → Event
event r status message = record {
  report_id = r.id;
  user_id = r.user_id;
  status = status;
  message = message;
}

abbrev pub event_if : Bool → Event → List Event
event_if true e = e ∷ []
event_if false e = []

publish_if-Ends_by :
    (session : ℕ) (r s : Report) (status : ReportStatus) (message : Option ℕ) (w : World)
    (x : Bool × Db) (b : Bool)
    → x.0 ≡ b
    → IsAt session s x.1
    → Ends session s
        (event_if b (event r status message))
        w
        (publish_if r.id r.user_id status message w x)
publish_if-Ends_by session r s status message w (true, db) true e h = record {
  at = h;
  published = refl;
}
publish_if-Ends_by session r s status message w (false, db) false e h = record {
  at = h;
  published = sym (append-nil w.published);
}
publish_if-Ends_by session r s status message w (true, db) false e h = absurd (ground arith)
publish_if-Ends_by session r s status message w (false, db) true e h = absurd (ground arith)

-- An event that depends on a statement on the report of a session.
pub publish_if-Ends :
    (session : ℕ) (r : Report) (p : Report → Bool) (set : Report → Report)
    → ((x : Report) → p x ≡ true → has_id r.id x ≡ true)
    → ((x : Report) → (set x).id ≡ x.id)
    → ((x : Report) → (set x).session_id ≡ x.session_id)
    → (status : ReportStatus) (message : Option ℕ) (w : World) → IsAt session r w.db
    → Ends session
        (set_row p set r)
        (event_if (p r) (event r status message))
        w
        (publish_if r.id r.user_id status message w (execute p set w.db))
publish_if-Ends session r p set only same_id same_session status message w at =
    let done = execute-IsAt session r p set only same_id same_session w.db at in
    publish_if-Ends_by session r (set_row p set r) status message w (execute p set w.db) (p r)
      done.0 done.1

-- The run of a report that is found, not finished and without an analysed text.
pub unfinished :
    (env : Environment) (session n : ℕ) (b : Bool) (w : World) (r : Report)
    → get_report_by_session session w.db ≡ some r
    → is_terminal r.status ≡ false
    → is_some r.text_analyzed_at ≡ false
    → process_generation_request env session n b w ≡ generate env n b session (some r) w
unfolding process_generation_request
unfinished env session n b w r found open_status fresh =
    ap (judged env n b session w) found
    ∙ if_false (is_terminal r.status) (ok tt, w) _ open_status
    ∙ if_false (is_some r.text_analyzed_at) (ok tt, confirm env r.id r.user_id w) _ fresh

-- The last error of a report's job, if it is there and not empty.
abbrev pub last_error_of : Option Job → Option Text
last_error_of none = none
last_error_of (some j) = elim j.error_message [
  | none ↦ none
  | some t ↦ if is_empty t then none else some t
]

-- A report that was given up.
abbrev pub given_up : ℕ → Report → Report
given_up n r = record r {
  status = failed;
  failed_reason = some (record { delivery_count = n; last_error = last_error_of r.job });
}

job_error-at :
    (session : ℕ) (r : Report) (db : Db)
    → IsAt session r db
    → truthy (get_job_error r.id db) ≡ last_error_of r.job
unfolding get_job_error get_report_by_session
job_error-at session r db at =
    ap
      (λ o.
        truthy
          (elim o [ none ↦ none | some x ↦ elim x.job [ none ↦ none | some j ↦ j.error_message ] ]))
      (by_id session db.reports r at.unique.distinct_ids at.found)
    ∙ by_job r.job
  where
    by_job :
        (j : Option Job)
        → truthy (elim j [ none ↦ none | some x ↦ x.error_message ]) ≡ last_error_of j
    by_job none = refl
    by_job (some j) = ground arith

abbrev reason_of : ℕ → Report → Db → Reason
reason_of n r db = record { delivery_count = n; last_error = truthy (get_job_error r.id db) }

give_up-Ends :
    (session n : ℕ) (w : World) (r : Report)
    → IsAt session r w.db
    → IsUnfinished r
    → Ends session (given_up n r) (event r failed (some n) ∷ []) w (give_up (some r) n w)
unfolding give_up mark_failed
give_up-Ends session n w r at open_status =
    subst
      (λ e.
        Ends session
          (record r {
            status = failed;
            failed_reason = some (record { delivery_count = n; last_error = e });
          })
          (event r failed (some n) ∷ []) w (give_up (some r) n w))
      (job_error-at session r w.db at)
      (subst
        (λ c.
          Ends session
            (if c
              then record r { status = failed; failed_reason = some (reason_of n r w.db) }
              else r)
            (event_if c (event r failed (some n))) w (give_up (some r) n w))
        (is_it r (is_terminal-IsUnfinished r open_status))
        (publish_if-Ends session r (is_open r.id) (failed_row (reason_of n r w.db))
          (λ x p. ground arith) (λ x. refl) (λ x. refl) failed (some n) w at))
  where
    is_it : (x : Report) → is_terminal x.status ≡ false → is_open x.id x ≡ true
    is_it x h = ground arith

-- A request that came as often as the limit allows, for a report that is pending or processing and
-- has no analysed text, is acknowledged; the report has failed, with the count and the last error
-- of its job as the reason, is otherwise as it was, and this is published once, as the only event.
pub process_generation_request-gives_up :
    (env : Environment) (session n : ℕ) (b : Bool) (w : World) (r : Report)
    → IsAt session r w.db
    → IsUnfinished r
    → r.text_analyzed_at ≡ none
    → env.settings.delivery_count_threshold ≤ n
    → ((process_generation_request env session n b w).0 ≡ ok tt)
      × Ends session
          (given_up n r)
          (event r failed (some n) ∷ [])
          w
          (process_generation_request env session n b w).1
process_generation_request-gives_up env session n b w r at open_status fresh many =
    subst
      (λ (x : Result).
        (x.0 ≡ ok tt) × Ends session (given_up n r) (event r failed (some n) ∷ []) w x.1)
      (sym (
        unfinished env session n b w r at.found (is_terminal-IsUnfinished r open_status)
          (ap is_some fresh)
        ∙ given))
      (refl, give_up-Ends session n w r at open_status)
  where
    given : generate env n b session (some r) w ≡ (ok tt, give_up (some r) n w)
    given =
        unfold generate in
        if_true (leb env.settings.delivery_count_threshold n) (ok tt, give_up (some r) n w) _
          (ground arith)

-- The report if it can be completed, and as it is otherwise.
abbrev pub confirmed : Environment → Report → Report
confirmed env r =
    set_row (can_complete env.settings.audio_analysis_enabled r.id) (complete_row env.completed_at)
      r

pub confirm-Ends :
    (env : Environment) (session : ℕ) (w : World) (r : Report)
    → IsAt session r w.db
    → Ends session
        (confirmed env r)
        (event_if
          (can_complete env.settings.audio_analysis_enabled r.id r)
          (event r completed none))
        w
        (confirm env r.id r.user_id w)
unfolding confirm try_complete
confirm-Ends env session w r at =
    publish_if-Ends session r (can_complete env.settings.audio_analysis_enabled r.id)
      (complete_row env.completed_at) (λ x p. ground arith) (λ x. refl) (λ x. refl) completed none w
      at

abbrev pub is_processing : ReportStatus → Bool
is_processing processing = true
is_processing _ = false

-- A report with an analysed text can be completed: it is processing, has scores, and the analysis
-- of the audio is there or not waited for.
abbrev pub is_due : Environment → Report → Bool
is_due env r =
    is_processing r.status
    && is_some r.scores
    && (is_some r.audio_analyzed_at || not env.settings.audio_analysis_enabled)

-- The mean of three axes, or of four with the delivery, to the nearest whole number.
abbrev pub mean : SessionScores → Option ℕ → ℕ
mean s none = (2 * (s.logic_score + s.specificity_score + s.technical_accuracy_score + 0) + 3) / 6
mean s (some d) =
    (2 * (s.logic_score + s.specificity_score + s.technical_accuracy_score + d) + 4) / 8

abbrev pub completed_at : ℕ → Report → Report
completed_at now r = record r {
  status = completed;
  overall_score = elim r.scores [ none ↦ none | some s ↦ some (mean s r.delivery_score) ];
  completed_at = some now;
}

pub overall-mean :
    (scores : Option SessionScores) (d : Option ℕ)
    → overall_of scores d ≡ elim scores [ none ↦ none | some s ↦ some (mean s d) ]
overall-mean none d = refl
overall-mean (some s) none = refl
overall-mean (some s) (some d) = refl

pub complete_row-completed : (now : ℕ) (r : Report) → complete_row now r ≡ completed_at now r
complete_row-completed now r =
    ap (λ o. record r { status = completed; overall_score = o; completed_at = some now })
      (overall-mean r.scores r.delivery_score)

can_complete-due :
    (env : Environment) (r : Report)
    → is_some r.text_analyzed_at ≡ true
    → can_complete env.settings.audio_analysis_enabled r.id r ≡ is_due env r
can_complete-due env r h = ground arith

-- A request for a report that is pending or processing and whose text is analysed, delivered however
-- often, is acknowledged and never fails the report. If the report is processing, has scores, and
-- the analysis of the audio is there or not waited for, it is completed with the mean of its scores,
-- and the completion is published once, as the only event; otherwise nothing changes.
pub process_generation_request-confirms :
    (env : Environment) (session n : ℕ) (b : Bool) (w : World) (r : Report)
    → IsAt session r w.db
    → IsUnfinished r
    → is_some r.text_analyzed_at ≡ true
    → ((process_generation_request env session n b w).0 ≡ ok tt)
      × Ends session
          (if is_due env r then completed_at env.completed_at r else r)
          (event_if (is_due env r) (event r completed none))
          w
          (process_generation_request env session n b w).1
process_generation_request-confirms env session n b w r at open_status analysed =
    subst
      (λ (x : Result).
        (x.0 ≡ ok tt)
        × Ends session (if is_due env r then completed_at env.completed_at r else r)
            (event_if (is_due env r) (event r completed none)) w x.1)
      (sym only_confirmed) (refl, ends)
  where
    only_confirmed :
        process_generation_request env session n b w ≡ (ok tt, confirm env r.id r.user_id w)
    only_confirmed =
        unfold process_generation_request in
        (ap (judged env n b session w) at.found
          ∙ if_false (is_terminal r.status) (ok tt, w) _ (is_terminal-IsUnfinished r open_status)
          ∙ if_true (is_some r.text_analyzed_at) (ok tt, confirm env r.id r.user_id w) _ analysed)

    ends :
        Ends session
          (if is_due env r then completed_at env.completed_at r else r)
          (event_if (is_due env r) (event r completed none))
          w
          (confirm env r.id r.user_id w)
    ends =
        subst
          (λ x.
            Ends session (if is_due env r then x else r)
              (event_if (is_due env r) (event r completed none)) w (confirm env r.id r.user_id w))
          (complete_row-completed env.completed_at r)
          (subst
            (λ c.
              Ends session (if c then complete_row env.completed_at r else r)
                (event_if c (event r completed none)) w (confirm env r.id r.user_id w))
            (can_complete-due env r analysed) (confirm-Ends env session w r at))
