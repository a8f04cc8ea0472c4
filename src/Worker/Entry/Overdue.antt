-- ===== src/Worker/Entry/Overdue.antt =====
-- A round of the grace period.
use kkori_ai.Prelude.{
  ℕ, ◌+◌, ◌≡◌, refl, sym, ap, ◌∙◌, Bool, false, none, some, List, [], ◌∷◌, ◌++◌, map, select,
  length, ltb, is_some, not, ◌&&◌, append-nil, append_assoc, arith, if◌then◌else◌,
}
use kkori_ai.Worker.Report.{Report, completed}
use kkori_ai.Worker.Repository.{update, is_overdue, complete_without_audio, complete_overdue_audio}
use kkori_ai.Worker.Generation.{World}
use kkori_ai.Worker.Generation.Outcomes.{event, is_processing, mean, overall-mean}
use kkori_ai.Worker.Entry.{publish_completed, complete_overdue_once}

-- The report is processing, has scores and no analysed audio, and its text was analysed longer ago
-- than the grace period.
abbrev pub is_late : ℕ → ℕ → Report → Bool
is_late grace now r =
    is_processing r.status
    && is_some r.scores
    && not (is_some r.audio_analyzed_at)
    && (elim r.text_analyzed_at [ none ↦ false | some t ↦ ltb (t + grace) now ])

-- A report completed with the mean of the axes of the text.
abbrev pub without_audio : ℕ → Report → Report
without_audio now r = record r {
  status = completed;
  overall_score = elim r.scores [ none ↦ none | some s ↦ some (mean s none) ];
  completed_at = some now;
}

overdue-late : (grace now : ℕ) (r : Report) → is_overdue grace now r ≡ is_late grace now r
overdue-late grace now r = ground arith

without_audio_lem : (now : ℕ) (r : Report) → complete_without_audio now r ≡ without_audio now r
without_audio_lem now r =
    ap (λ o. record r { status = completed; overall_score = o; completed_at = some now })
      (overall-mean r.scores none)

rows_late :
    (grace now : ℕ) (rs : List Report)
    → update (is_overdue grace now) (complete_without_audio now) rs
      ≡ map (λ r. if is_late grace now r then without_audio now r else r) rs
rows_late grace now [] = refl
rows_late grace now (r ∷ rs) =
    rw (overdue-late grace now r, without_audio_lem now r, rows_late grace now rs) refl

select_late :
    (grace now : ℕ) (rs : List Report)
    → select (is_overdue grace now) rs ≡ select (is_late grace now) rs
select_late grace now [] = refl
select_late grace now (r ∷ rs) = rw (overdue-late grace now r, select_late grace now rs) refl

published_all :
    (rs : List Report) (w : World)
    → (publish_completed rs w).published ≡ w.published ++ map (λ r. event r completed none) rs
published_all [] w = sym (append-nil w.published)
published_all (r ∷ rs) w =
    published_all rs _
    ∙ append_assoc w.published (event r completed none ∷ []) (map (λ r. event r completed none) rs)

published_db : (rs : List Report) (w : World) → (publish_completed rs w).db ≡ w.db
published_db [] w = refl
published_db (r ∷ rs) w = published_db rs _

-- A round of the grace period completes exactly the reports that are processing, have scores and no
-- analysed audio, and whose text was analysed longer ago than the period, with the mean of the three
-- axes of the text; it leaves the others alone, returns the number of those completed, and publishes
-- a completion for each of them and nothing else.
pub complete_overdue_once-completes :
    (grace now : ℕ) (w : World)
    → ((complete_overdue_once grace now w).1.db.reports
        ≡ map (λ r. if is_late grace now r then without_audio now r else r) w.db.reports)
      × ((complete_overdue_once grace now w).1.published
          ≡ w.published
            ++ map (λ r. event r completed none) (select (is_late grace now) w.db.reports))
      × ((complete_overdue_once grace now w).0 ≡ length (select (is_late grace now) w.db.reports))
unfolding complete_overdue_once complete_overdue_audio
complete_overdue_once-completes grace now w = (
  ap (λ d. d.reports) (published_db (select (is_overdue grace now) w.db.reports) _)
      ∙ rows_late grace now w.db.reports,
  published_all (select (is_overdue grace now) w.db.reports) _
      ∙ ap (λ rs. w.published ++ map (λ r. event r completed none) rs)
          (select_late grace now w.db.reports),
  ap length (select_late grace now w.db.reports),
)
