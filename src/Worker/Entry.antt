-- ===== src/Worker/Entry.antt =====
-- worker/src/report/main.py and messaging/claim.py: one message of a stream, and one round of the
-- grace period. The decoding of the fields is an argument.
pub mod Served
pub mod Overdue
pub mod Acks
use kkori_ai.Prelude.{
  ℕ, suc, ◌+◌, Bool, true, false, ◌&&◌, ◌||◌, Option, none, some, List, [], ◌∷◌, Text, ltb, leb,
  ◌==◌, length, if◌then◌else◌, Outcome, ok, err, ◌>>=◌,
}
use kkori_ai.Worker.Report.{completed, Report, Db, Failure, value_error}
use kkori_ai.Worker.Repository.{complete_overdue_audio}
use kkori_ai.Worker.Generation.{World, Environment, Result, publish, process_generation_request}
use kkori_ai.Worker.Audio.{AudioEnvironment, AudioRequest, process_audio_request}

-- `msg.raw_message` of the subscriber; `delivery_counts` are the deliveries before this one.
pub record RawMessage (F : Type 0) : Type 0 where
  pub message_id : Text
  pub fields : F
  pub earlier_deliveries : ℕ

-- The message's id, its fields, and which delivery this is.
abbrev pub entry_of : {F : Type 0} → RawMessage F → Text × F × ℕ
entry_of msg = (msg.message_id, msg.fields, msg.earlier_deliveries + 1)

-- The two first parts of a version; unpacking fewer raises. A part is given as `int` reads it.
unfoldable pub supports_claim : List (Outcome Failure ℕ) → Outcome Failure Bool
supports_claim (major ∷ minor ∷ rest) = do a ← major; b ← minor; ok (ltb 8 a || (a == 8 && leb 4 b))
supports_claim _ = err value_error

-- The acknowledged ids are those that `xack` was called with.
pub record Stream : Type 0 where
  pub acked : List Text
  pub world : World

abbrev pub ack : Text → Stream → Stream
ack id s = record s { acked = id ∷ s.acked }

abbrev pub ran : Text → Stream → Result → Stream
ran id s (ok _, w) = ack id (record s { world = w })
ran id s (err e, w) = record s { world = w }

abbrev pub decoded :
    {R : Type 0} → Text → (R → World → Result) → Stream → Outcome Failure R → Stream
decoded id run s (err e) = ack id s
decoded id run s (ok request) = ran id s (run request s.world)

unfoldable pub handle_entry :
    {F R : Type 0} → Text → F → (F → Outcome Failure R) → (R → World → Result) → Stream → Stream
handle_entry id fields decode run s = decoded id run s (decode fields)

-- A request for generation is decoded to its session.
unfoldable pub handle_generation_entry :
    {F : Type 0} → Environment → (F → Outcome Failure ℕ) → Text → F → ℕ → Stream → Stream
handle_generation_entry env decode id fields delivery_count s =
    handle_entry id fields decode
      (λ session w. process_generation_request env session delivery_count (ltb 1 delivery_count) w)
      s

unfoldable pub handle_audio_entry :
    {F : Type 0}
    → AudioEnvironment
    → (F → Outcome Failure AudioRequest)
    → Text
    → F
    → ℕ
    → Stream
    → Stream
handle_audio_entry env decode id fields delivery_count s =
    handle_entry id fields decode (λ request w. process_audio_request env delivery_count request w)
      s

abbrev pub publish_completed : List Report → World → World
publish_completed [] w = w
publish_completed (r ∷ rs) w = publish_completed rs (publish r.id r.user_id completed none w)

-- `complete_overdue_once`, with how many reports it completed
unfoldable pub complete_overdue_once : ℕ → ℕ → World → ℕ × World
complete_overdue_once grace now w =
    let (rows, db) = complete_overdue_audio grace now w.db in
    (length rows, publish_completed rows (record w { db = db }))
