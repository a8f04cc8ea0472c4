-- ===== src/Interview/TurnPipeline/Sound/Speaking.antt =====
-- The invariant through the end of a speech: what the task that waits in `say_fn` does next.
use kkori_ai.Prelude.{
  ℕ, ◌+◌, ◌≡◌, refl, subst, Bool, true, false, Option, none, some, is_some, is_empty, List, [], ◌∷◌,
  last, arith, Bool-cases, inl, inr,
}
use kkori_ai.Interview.Utterance.{Utterance, Datetime, is_utc}
use kkori_ai.Interview.Log.{ConversationLog, is_question}
use kkori_ai.Interview.Log.Succeeds.{is_attachable}
use kkori_ai.Interview.EndState.{EndCause}
use kkori_ai.Interview.TurnPipeline.{
  TurnPipeline, Speech, asking, last_asking, notice, respeaking, farewell, starting, waiting,
  saying, spawn, SpeechResult, stamp, release, Shutdown, is_stale, is_over,
}
use kkori_ai.Interview.TurnPipeline.Turns.{after_say, retry, say_ended, anchor, shut_down}
use kkori_ai.Interview.TurnPipeline.Steps.{live, speech_seq}
use kkori_ai.Interview.TurnPipeline.Sound.{IsSound}
use kkori_ai.Interview.TurnPipeline.Sound.Tasks.{fit_bump}
use kkori_ai.Interview.TurnPipeline.Sound.Pieces.{move, relog, acquire-IsSound, release-IsSound}
use kkori_ai.Interview.TurnPipeline.Sound.Committing.{
  commit_asked-IsSound, begin_closing-IsSound, finish_closing-IsSound, commit_final-IsSound,
  commit_farewell-IsSound, spawn-IsSound,
}

stamp-is_utc :
    (r : SpeechResult) (now : Datetime)
    → is_utc now ≡ true
    → elim r.started_at [ none ↦ true | some t ↦ is_utc t ] ≡ true
    → is_utc (stamp r now) ≡ true
stamp-is_utc r now a b = ground arith

last_said : (us : List Utterance) → is_some (last us) ≡ true → is_empty us ≡ false
last_said [] h = absurd (ground arith)
last_said (u ∷ us) h = refl

-- a new turn: the counter goes up and its run is spawned
pub next_turn-IsSound :
    {base : ConversationLog} (s : TurnPipeline)
    → is_empty s.log.utterances ≡ false
    → IsSound base s
    → IsSound base (spawn (record s { turn_seq = s.turn_seq + 1 }) (starting (s.turn_seq + 1)))
next_turn-IsSound s said h =
    let (f, old, shut) =
      fit_bump s.turn_seq (is_attachable s.log) (is_attachable s.log) s.tasks h.fit in
    record {
      valid = h.valid;
      fit = ground (arith, f);
      single = ground (arith, old, shut);
      lock = h.lock;
      log = h.log;
      clean = h.clean;
      mirror = h.mirror;
      grown = h.grown;
      once = omega (arith, h.once);
    }

pub bump-IsSound :
    {base : ConversationLog} (s : TurnPipeline)
    → IsSound base s
    → IsSound base (record s { turn_seq = s.turn_seq + 1 })
bump-IsSound s h =
    let (f, old, shut) =
      fit_bump s.turn_seq (is_attachable s.log) (is_attachable s.log) s.tasks h.fit in
    record {
      valid = h.valid;
      fit = f;
      single = ground (arith, old);
      lock = h.lock;
      log = h.log;
      clean = h.clean;
      mirror = h.mirror;
      grown = h.grown;
      once = omega (arith, h.once);
    }

module _ {base : ConversationLog} (s : TurnPipeline) where
  -- the speaker's demands, read off the invariant
  alone :
      (sp : Speech) (second : Bool) (seq : ℕ)
      → speech_seq sp ≡ some seq
      → IsSound base (spawn s (saying sp second))
      → seq ≡ s.turn_seq
      → live s.turn_seq s.tasks ≡ 0
  alone sp second seq e h same = ground (arith, h.single)

  retry-IsSound :
      (stale : Bool) (sp : Speech)
      → IsSound base (spawn s (saying sp false))
      → IsSound base (retry s stale sp)
  unfolding retry
  retry-IsSound true sp h = release-IsSound s sp false h
  retry-IsSound false sp h =
      move s (saying sp false) (saying sp true) (ground (arith, h.valid)) (ground (arith, h.fit))
        (λ e. e) (λ e. e) refl (omega arith) h

  pub shut_down-IsSound : (r : Shutdown) → IsSound base s → IsSound base (shut_down s r)
  shut_down-IsSound r h =
      relog s (shut_down s r) refl refl refl refl (inl refl) (λ e. e) h.log h.mirror h.grown h.once
        h

  anchor-IsSound :
      (u : Option Utterance)
      → (is_some u ≡ true → is_empty s.log.utterances ≡ false)
      → IsSound base s
      → IsSound base (anchor s u)
  unfolding anchor
  anchor-IsSound none said h = h
  anchor-IsSound (some u) said h = elim (Bool-cases (is_question u)) [
    | inl q ↦ rw q (
        acquire-IsSound s (respeaking u.content) (
          spawn-IsSound s (waiting (respeaking u.content)) refl refl refl (omega (arith, h.once))
            h))
    | inr q ↦ rw q (next_turn-IsSound s (said refl) h)
  ]

module _ {base : ConversationLog} (s : TurnPipeline) where
  say_ended-IsSound :
      (sp : Speech) (o second : Bool) (a b c : TurnPipeline)
      → (IsSound base (release s) → IsSound base a)
      → (second ≡ false → IsSound base (spawn s (saying sp second)) → IsSound base b)
      → (IsSound base (release s) → IsSound base c)
      → IsSound base (spawn s (saying sp second))
      → IsSound base (say_ended o second a b c)
  unfolding say_ended
  say_ended-IsSound sp true second a b c f g k h = f (release-IsSound s sp second h)
  say_ended-IsSound sp false false a b c f g k h = g refl h
  say_ended-IsSound sp false true a b c f g k h = k (release-IsSound s sp true h)

  pub after_say-IsSound :
      (sp : Speech) (second : Bool) (r : SpeechResult) (present : Bool) (now : Datetime)
      → is_utc now ≡ true
      → elim r.started_at [ none ↦ true | some t ↦ is_utc t ] ≡ true
      → IsSound base (spawn s (saying sp second))
      → IsSound base (after_say s sp second r present now)
  unfolding after_say
  after_say-IsSound (asking seq text t f reason ref) second r present now a b h =
      let sp = asking seq text t f reason ref in
      say_ended-IsSound sp r.ok second _ _ _
        (commit_asked-IsSound (release s) seq text t f reason ref present (stamp r now)
          (ground (arith, h.valid)) (ground (arith, h.valid)) (stamp-is_utc r now a b)
          (alone s sp second seq refl h) (λ e k. ground (arith, h.fit)))
        (λ e k.
          retry-IsSound s (is_stale s seq) sp
            (subst (λ x. IsSound base (spawn s (saying sp x))) e k))
        (shut_down-IsSound (release s) Shutdown.tts_playout_failure) h
  after_say-IsSound (last_asking seq text reason) second r present now a b h =
      let sp = last_asking seq text reason in
      say_ended-IsSound sp r.ok second _ _ _
        (commit_final-IsSound (release s) seq text reason present (stamp r now)
          (ground (arith, h.valid)) (stamp-is_utc r now a b) (alone s sp second seq refl h))
        (λ e k.
          retry-IsSound s (is_stale s seq) sp
            (subst (λ x. IsSound base (spawn s (saying sp x))) e k))
        (begin_closing-IsSound (release s) EndCause.final_question none) h
  after_say-IsSound (notice text) second r present now a b h =
      anchor-IsSound (release s) (last s.log.utterances) (last_said s.log.utterances)
        (release-IsSound s (notice text) second h)
  after_say-IsSound (respeaking text) second r present now a b h =
      say_ended-IsSound (respeaking text) r.ok second _ _ _ (λ k. k)
        (λ e k.
          retry-IsSound s (is_over s) (respeaking text)
            (subst (λ x. IsSound base (spawn s (saying (respeaking text) x))) e k))
        (shut_down-IsSound (release s) Shutdown.tts_playout_failure) h
  after_say-IsSound (farewell cause text) second r present now a b h =
      say_ended-IsSound (farewell cause text) r.ok second _ _ _
        (commit_farewell-IsSound (release s) cause text s.closing_reason (stamp r now)
          (ground (arith, h.valid)) (stamp-is_utc r now a b) h.once)
        (λ e k.
          move s (saying (farewell cause text) second) (saying (farewell cause text) true)
            (ground (arith, h.valid)) refl (λ e. e) (λ e. e) refl (omega arith) k)
        (finish_closing-IsSound (release s) cause h.once) h
