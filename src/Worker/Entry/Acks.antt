-- ===== src/Worker/Entry/Acks.antt =====
-- Which messages stay unacknowledged.
use kkori_ai.Prelude.{
  ℕ, suc, ◌≡◌, ◌≢◌, refl, sym, ◌∙◌, ap, subst, ◌↔◌, Bool, true, some, List, ◌∷◌, Text, length, ltb,
  arith, Outcome, ok, err,
}
use kkori_ai.Worker.Report.{Failure, Report, is_terminal}
use kkori_ai.Worker.Repository.{get_report_by_session}
use kkori_ai.Worker.Generation.{World, Result, Environment, judged, process_generation_request}
use kkori_ai.Worker.Generation.Outcomes.{if_true, IsFinished, is_terminal-IsFinished}
use kkori_ai.Worker.Audio
use kkori_ai.Worker.Audio.{AudioEnvironment, AudioRequest, process_audio_request}
use kkori_ai.Worker.Entry.{
  Stream, ack, ran, decoded, handle_entry, handle_generation_entry, handle_audio_entry,
}

longer : (id : Text) (ids : List Text) → (id ∷ ids) ≢ ids
longer id ids e = shorter (length ids) (ap length e)
  where
    shorter : (n : ℕ) → suc n ≢ n
    shorter n h = absurd (omega arith)

-- The handler raises on what the message decodes to.
pub record IsRaised {F R : Type 0} (fields : F) (decode : F → Outcome Failure R)
    (run : R → World → Result) (w : World) : Type 0 where
  pub request : R
  pub failure : Failure
  pub decodes : decode fields ≡ ok request
  pub raises : (run request w).0 ≡ err failure

module _ {F R : Type 0} (id : Text) (fields : F) (decode : F → Outcome Failure R)
    (run : R → World → Result) (s : Stream) where
  ran-kept :
      (request : R) (x : Result)
      → decode fields ≡ ok request
      → (run request s.world) ≡ x
      → (ran id s x).acked ≡ s.acked
      → IsRaised fields decode run s.world
  ran-kept request (ok u, w) d e h = absurd (longer id s.acked h)
  ran-kept request (err f, w) d e h = record {
    request = request;
    failure = f;
    decodes = d;
    raises = ap (λ x. x.0) e;
  }

  decoded-kept :
      (o : Outcome Failure R)
      → decode fields ≡ o
      → (decoded id run s o).acked ≡ s.acked
      → IsRaised fields decode run s.world
  decoded-kept (err f) d h = absurd (longer id s.acked h)
  decoded-kept (ok request) d h = ran-kept request (run request s.world) d refl h

  raised-kept : (x : Result) (f : Failure) → x.0 ≡ err f → (ran id s x).acked ≡ s.acked
  raised-kept (ok u, w) f h = absurd (ground arith)
  raised-kept (err g, w) f h = refl

  -- A message stays unacknowledged exactly if it decodes and its handler raises; one that does not
  -- decode is acknowledged.
  pub handle_entry-acks :
      ((handle_entry id fields decode run s).acked ≡ s.acked) ↔ IsRaised fields decode run s.world
  unfolding handle_entry
  handle_entry-acks = (decoded-kept (decode fields) refl, λ r. kept r)
    where
      kept : IsRaised fields decode run s.world → (decoded id run s (decode fields)).acked ≡ s.acked
      kept r =
          subst (λ o. (decoded id run s o).acked ≡ s.acked) (sym r.decodes)
            (raised-kept (run r.request s.world) r.failure r.raises)

generation_idle :
    (env : Environment) (session n : ℕ) (b : Bool) (w : World) (r : Report)
    → get_report_by_session session w.db ≡ some r
    → is_terminal r.status ≡ true
    → process_generation_request env session n b w ≡ (ok tt, w)
unfolding process_generation_request
generation_idle env session n b w r found done =
    ap (judged env n b session w) found ∙ if_true (is_terminal r.status) (ok tt, w) _ done

audio_idle :
    (env : AudioEnvironment) (n : ℕ) (request : AudioRequest) (w : World) (r : Report)
    → get_report_by_session request.session_id w.db ≡ some r
    → is_terminal r.status ≡ true
    → process_audio_request env n request w ≡ (ok tt, w)
unfolding process_audio_request
audio_idle env n request w r found done =
    ap (Audio.judged env n request w) found ∙ if_true (is_terminal r.status) (ok tt, w) _ done

-- A request of either kind for a session whose report is completed or has failed is acknowledged
-- and changes nothing else, whatever the delivery.
pub finished-idle :
    {F : Type 0} (env : AudioEnvironment) (id : Text) (fields : F) (n session : ℕ)
    (request : AudioRequest) (decode : F → Outcome Failure ℕ)
    (decode_audio : F → Outcome Failure AudioRequest) (s : Stream) (r : Report)
    → get_report_by_session session s.world.db ≡ some r
    → IsFinished r
    → decode fields ≡ ok session
    → decode_audio fields ≡ ok request
    → request.session_id ≡ session
    → (handle_generation_entry env.base decode id fields n s ≡ ack id s)
      × (handle_audio_entry env decode_audio id fields n s ≡ ack id s)
unfolding handle_entry handle_generation_entry handle_audio_entry
finished-idle env id fields n session request decode decode_audio s r found done d da same = (
  ap (decoded id (λ x w. process_generation_request env.base x n (ltb 1 n) w) s) d
      ∙ ap (ran id s) (
          generation_idle env.base session n (ltb 1 n) s.world r found
            (is_terminal-IsFinished r done)),
  ap (decoded id (λ x w. process_audio_request env n x w) s) da
      ∙ ap (ran id s) (
          audio_idle env n request s.world r
            (subst (λ x. get_report_by_session x s.world.db ≡ some r) (sym same) found)
            (is_terminal-IsFinished r done)),
)
