-- ===== src/Worker/Repository/Steps/Kept.antt =====
-- What is never changed again: a report is found again, its status never goes back, and once it is
-- completed or failed the status, the overall score and what was measured of the audio stay.
use kkori_ai.Prelude.{
  ℕ, Bool, true, ◌≡◌, List, arith, Bool-cases, inl, inr, some, find, ◌==◌, ◌≤◌, subst,
}
use kkori_ai.Worker.Report.{
  Report, Db, ReportStatus, pending, processing, completed, failed, is_terminal,
}
use kkori_ai.Worker.Repository.{get_report_by_session}
use kkori_ai.Worker.Repository.Steps.{Steps, start, then_step}
use kkori_ai.Worker.Repository.Steps.Rows.{
  Touch, entered, failed_by, completed_by, text_saved, audio_saved, overdue_completed, job_set,
  Rows, done, added, kept, touched, Step-Rows,
}

abbrev pub rank : ReportStatus → ℕ
rank pending = 0
rank processing = 1
rank completed = 2
rank failed = 2

pub record Advances (r s : Report) : Type 0 where
  pub same_id : s.id ≡ r.id
  pub same_user : s.user_id ≡ r.user_id
  pub same_session : s.session_id ≡ r.session_id
  pub not_back : rank r.status ≤ rank s.status
  pub same_status : is_terminal r.status ≡ true → s.status ≡ r.status
  pub same_overall : is_terminal r.status ≡ true → s.overall_score ≡ r.overall_score
  pub same_delivery : is_terminal r.status ≡ true → s.delivery_score ≡ r.delivery_score
  pub same_audio : is_terminal r.status ≡ true → s.audio_analyzed_at ≡ r.audio_analyzed_at
  pub same_reason : is_terminal r.status ≡ true → s.failed_reason ≡ r.failed_reason

pub Advances-refl : (r : Report) → Advances r r
Advances-refl r = ground arith

pub Advances-trans : (r s t : Report) → Advances r s → Advances s t → Advances r t
Advances-trans r s t h k = ground arith

Touch-Advances : (r s : Report) → Touch r s → Advances r s
Touch-Advances r _ (entered rid _ e) = ground arith
Touch-Advances r _ (failed_by rid reason _ e) = ground arith
Touch-Advances r _ (completed_by audio rid now _ e) = ground arith
Touch-Advances r _ (text_saved scores f fs summary tags now _) = ground arith
Touch-Advances r _ (audio_saved rid delivery tags now _ e) = ground arith
Touch-Advances r _ (overdue_completed grace now _ e) = ground arith
Touch-Advances r _ (job_set set _) = ground arith

-- `get_report_by_session` on the rows
abbrev pub by_session : ℕ → Report → Bool
by_session session r = r.session_id == session

Rows-found :
    (rs ss : List Report)
    → Rows rs ss
    → (session : ℕ) (r : Report) → find (by_session session) rs ≡ some r
    → (s : Report) × (find (by_session session) ss ≡ some s) × Advances r s
Rows-found _ _ done session r e = absurd (ground arith)
Rows-found _ _ (added rid n user resume name) session r e = absurd (ground arith)
Rows-found _ _ (kept x rs ss k) session r e = elim (Bool-cases (by_session session x)) [
  | inl y ↦ (r, ground arith, Advances-refl r)
  | inr n ↦ let ih = Rows-found rs ss k session r (ground arith) in (ih.0, ground arith, ih.2)
]
Rows-found _ _ (touched x z rs ss t k) session r e = elim (Bool-cases (by_session session x)) [
  | inl y ↦
      let it : x ≡ r = ground arith in
      (z, ground (arith, Touch-Advances x z t), subst (λ w. Advances w z) it (Touch-Advances x z t))
  | inr n ↦
      let ih = Rows-found rs ss k session r (ground arith) in
      (ih.0, ground (arith, Touch-Advances x z t), ih.2)
]

-- Whatever statements are made after it, a report that a session has is found again under the
-- session, with its id and user; its status does not go back; and once it is completed or failed
-- its status, its overall score, its delivery score, the time of its audio analysis and the
-- reason of its failure stay.
pub Steps-Advances :
    (a b : Db)
    → Steps a b
    → (session : ℕ) (r : Report) → get_report_by_session session a ≡ some r
    → (s : Report) × (get_report_by_session session b ≡ some s) × Advances r s
unfolding get_report_by_session
Steps-Advances a _ (start _) session r e = (r, e, Advances-refl r)
Steps-Advances a c (then_step _ b _ k t) session r e =
    let (s, found, h) = Steps-Advances a b k session r e in
    let (u, again, g) = Rows-found b.reports c.reports (Step-Rows b c t) session s found in
    (u, again, Advances-trans r s u h g)
