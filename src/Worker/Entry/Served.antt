-- ===== src/Worker/Entry/Served.antt =====
-- Any sequence of messages and rounds of the grace period, as the two subscribers and the periodic
-- task serve them one after the other.
use kkori_ai.Prelude.{ℕ, ◌≡◌, refl, sym, subst, List, [], ◌∷◌, Text, ltb, Outcome, ok, err}
use kkori_ai.Worker.Report.{Report, Failure}
use kkori_ai.Worker.Repository.{complete_overdue_audio}
use kkori_ai.Worker.Repository.Steps.{Steps, start, complete_overdue, one_step, Steps_trans}
use kkori_ai.Worker.Generation.{World, Result, Environment, process_generation_request}
use kkori_ai.Worker.Generation.Reach.{process_generation_request-Reaches}
use kkori_ai.Worker.Audio.{AudioEnvironment, AudioRequest, process_audio_request}
use kkori_ai.Worker.Audio.Reach.{process_audio_request-Reaches}
use kkori_ai.Worker.Entry.{
  Stream, ran, decoded, handle_entry, handle_generation_entry, handle_audio_entry,
  publish_completed, complete_overdue_once,
}

-- The fields of a message.
abbrev pub Fields : Type 0
Fields = List (Text × Text)

pub data Served : Stream → Stream → Type 0 where
  idle : (s : Stream) → Served s s
  generation :
      (env : Environment) (decode : Fields → Outcome Failure ℕ) (id : Text) (fields : Fields)
      (delivery_count : ℕ) (a b : Stream)
      → Served a b
      → Served a (handle_generation_entry env decode id fields delivery_count b)
  audio :
      (env : AudioEnvironment) (decode : Fields → Outcome Failure AudioRequest) (id : Text)
      (fields : Fields) (delivery_count : ℕ) (a b : Stream)
      → Served a b
      → Served a (handle_audio_entry env decode id fields delivery_count b)
  grace_round :
      (grace now : ℕ) (a b : Stream)
      → Served a b
      → Served a (record b { world = (complete_overdue_once grace now b.world).1 })

ran-Steps :
    (id : Text) (s : Stream) (x : Result)
    → Steps s.world.db x.1.db
    → Steps s.world.db (ran id s x).world.db
ran-Steps id s (ok u, w) h = h
ran-Steps id s (err e, w) h = h

decoded-Steps :
    {R : Type 0} (id : Text) (run : R → World → Result) (s : Stream) (o : Outcome Failure R)
    → ((request : R) → Steps s.world.db (run request s.world).1.db)
    → Steps s.world.db (decoded id run s o).world.db
decoded-Steps id run s (err e) h = start s.world.db
decoded-Steps id run s (ok request) h = ran-Steps id s (run request s.world) (h request)

publish_completed-db : (rs : List Report) (w : World) → (publish_completed rs w).db ≡ w.db
publish_completed-db [] w = refl
publish_completed-db (r ∷ rs) w = publish_completed-db rs _

-- Whatever messages and rounds are served, with whatever environments and deliveries, the reports
-- change by a sequence of the repository's statements.
pub Served-Steps : (a b : Stream) → Served a b → Steps a.world.db b.world.db
unfolding handle_entry handle_generation_entry handle_audio_entry complete_overdue_once
Served-Steps a _ (idle _) = start a.world.db
Served-Steps a _ (generation env decode id fields n _ b h) =
    Steps_trans a.world.db b.world.db _ (Served-Steps a b h) (
      decoded-Steps id (λ session w. process_generation_request env session n (ltb 1 n) w) b
        (decode fields)
        (λ session. process_generation_request-Reaches env session n (ltb 1 n) b.world))
Served-Steps a _ (audio env decode id fields n _ b h) =
    Steps_trans a.world.db b.world.db _ (Served-Steps a b h) (
      decoded-Steps id (λ request w. process_audio_request env n request w) b (decode fields)
        (λ request. process_audio_request-Reaches env n request b.world))
Served-Steps a _ (grace_round grace now _ b h) =
    Steps_trans a.world.db b.world.db _ (Served-Steps a b h) (
      subst (Steps b.world.db)
        (sym (publish_completed-db (complete_overdue_audio grace now b.world.db).0 _))
        (one_step b.world.db _ (complete_overdue grace now b.world.db)))
