-- ===== src/Interview/EndSignal/Delivery.antt =====
-- Which packets end the interview, and the delivery of the end to the pipeline.
use kkori_ai.Prelude.{
  ◌≡◌, ◌↔◌, refl, ap, Bool, true, false, Option, none, some, List, [], ◌∷◌, Text, text_eq_refl,
  text_eq→eq, ◌&&◌, ◌||◌, leb, arith, any,
}
use kkori_ai.Interview.EndSignal.{
  Packet, has_topic, is_end_signal, EndSignalReceiver, receiver, on_data, bind,
}

-- `has_topic` is a comparison with an optional text
has_topic→eq : (o : Option Text) (t : Text) → has_topic o t ≡ true → o ≡ some t
has_topic→eq none t h = absurd (ground arith)
has_topic→eq (some s) t h = ap (λ x. some x) (text_eq→eq s t h)

module _ (session_of : Text → Option Text) where
  -- A packet is an end signal exactly if it has no participant, the expected topic, and a payload
  -- that names this session.
  pub is_end_signal_iff :
      (packet : Packet) (topic session : Text)
      → (is_end_signal session_of packet topic session ≡ true) ↔ (
          (packet.participant ≡ none)
          × (packet.topic ≡ some topic)
          × (session_of packet.payload ≡ some session))
  unfolding is_end_signal
  is_end_signal_iff packet topic session = (
    λ h. (
      ground arith,
      has_topic→eq packet.topic topic (ground arith),
      has_topic→eq (session_of packet.payload) session (ground arith),
    ),
    λ h. ground (arith, text_eq_refl topic, text_eq_refl session),
  )

  pub data Event : Type 0 where
    received : Packet → Event
    bound : Event

  unfoldable pub handle : EndSignalReceiver → Event → EndSignalReceiver
  handle r (received p) = on_data session_of r p
  handle r bound = bind r

  unfoldable pub run : EndSignalReceiver → List Event → EndSignalReceiver
  run r [] = r
  run r (e ∷ es) = run (handle r e) es

  abbrev pub is_signal : Text → Text → Event → Bool
  is_signal topic session (received p) = is_end_signal session_of p topic session
  is_signal topic session bound = false

  abbrev pub is_bound : Event → Bool
  is_bound (received p) = false
  is_bound bound = true

  run-fields :
      (r : EndSignalReceiver) (es : List Event)
      → (leb 1 r.delivered ≡ (r.requested && r.bound))
      → (leb 1 (run r es).delivered ≡ (
          (r.requested || any (is_signal r.expected_topic r.session_id) es)
          && (r.bound || any is_bound es)))
  unfolding run handle on_data bind
  run-fields r [] h = ground arith
  run-fields r (received p ∷ es) h = ground (arith, run-fields (on_data session_of r p) es)
  run-fields r (bound ∷ es) h = ground (arith, run-fields (bind r) es)

  -- In whatever order packets arrive and the pipeline is bound, the end is delivered exactly if
  -- a packet was an end signal and the pipeline has been bound: a signal that comes first waits.
  pub run-delivers :
      (topic session : Text) (es : List Event)
      → leb 1 (run (receiver topic session) es).delivered
        ≡ (any (is_signal topic session) es && any is_bound es)
  run-delivers topic session es = run-fields (receiver topic session) es refl
