-- ===== src/Interview/EndSignal.antt =====
-- agent/src/interview/end_signal.py: who may end the interview, and a signal that comes before
-- the pipeline is there. `json.loads` of the payload and `str` of its `sessionId` are the
-- parameter `session_of`, which is `none` where either of them raises.
pub mod Delivery
use kkori_ai.Prelude.{
  ℕ, ◌+◌, Bool, true, false, Option, none, some, Text, text_eq, is_some, not, ◌&&◌, if◌then◌else◌,
}

pub record Packet : Type 0 where
  -- the participant's identity; a packet of the server API has none
  pub participant : Option Text
  pub topic : Option Text
  pub payload : Text

-- `topic == expected_topic`
abbrev pub has_topic : Option Text → Text → Bool
has_topic none expected = false
has_topic (some t) expected = text_eq t expected

unfoldable pub is_end_signal : (Text → Option Text) → Packet → Text → Text → Bool
is_end_signal session_of packet expected_topic session_id =
    if is_some packet.participant
    then false
    else if not (has_topic packet.topic expected_topic)
    then false
    else elim (session_of packet.payload) [ none ↦ false | some id ↦ text_eq id session_id ]

-- `EndSignalReceiver`; `on_end` is kept as whether it is bound, and `delivered` counts its calls
pub record EndSignalReceiver : Type 0 where
  pub expected_topic : Text
  pub session_id : Text
  pub requested : Bool
  pub bound : Bool
  pub delivered : ℕ

abbrev pub receiver : Text → Text → EndSignalReceiver
receiver topic session = record {
  expected_topic = topic;
  session_id = session;
  requested = false;
  bound = false;
  delivered = 0;
}

unfoldable pub on_data : (Text → Option Text) → EndSignalReceiver → Packet → EndSignalReceiver
on_data session_of r packet =
    if not (is_end_signal session_of packet r.expected_topic r.session_id)
    then r
    else record r { requested = true; delivered = if r.bound then r.delivered + 1 else r.delivered }

unfoldable pub bind : EndSignalReceiver → EndSignalReceiver
bind r = record r { bound = true; delivered = if r.requested then r.delivered + 1 else r.delivered }
