-- ===== src/Interview/Restore/Plan.antt =====
-- agent/src/interview/restore.py: RestorePlan, build_restore_plan; session_store.py: RestoreState
-- and how read_restore_state makes it. What Redis holds is the argument, as are json.loads with the
-- test for a dict, datetime.fromisoformat and the conversion to UTC.
use kkori_ai.Prelude.{
  ℕ, suc, ◌+◌, Bool, true, false, Option, none, some, List, [], ◌∷◌, Text, not, ◌&&◌, ◌||◌,
  if◌then◌else◌, Outcome, ok, err, is_some, is_empty,
}
use kkori_ai.Prelude.Int.{ℤ, pos, ◌-ℤ◌}
use kkori_ai.Interview.Utterance.{Utterance, Datetime}
use kkori_ai.Interview.Log.{ConversationLog, has_valid_current_root}
use kkori_ai.Interview.EndState.{EndCause}
use kkori_ai.Interview.Json.{UtteranceDict, replace_z, or_empty, rebuild_conversation_log}
use kkori_ai.Interview.Restore.{ResumeMode, derive_mode}

pub record RestoreState : Type 0 where
  pub terminated : Bool
  pub started_at : Option Datetime
  pub started_at_malformed : Bool
  pub candidate_identity : Option Text
  pub reconnect_deadline : Option Datetime
  pub utterances : List UtteranceDict
  pub dropped : ℕ

pub record RestorePlan : Type 0 where
  pub log : ConversationLog
  pub dropped : ℕ
  pub elapsed_seconds : ℤ
  pub started_at_approximated : Bool
  pub candidate_identity : Option Text
  pub reconnect_deadline : Option Datetime
  pub mode : ResumeMode
  pub closing_cause : Option EndCause
  pub orphan_branch : Bool

-- The answers of Redis to the three commands of one transaction.
pub record Snapshot : Type 0 where
  pub terminated : Bool
  pub started_at : Option Text
  pub candidate_identity : Option Text
  pub reconnect_deadline : Option Text
  pub raw_items : List Text

abbrev pub restorable : RestoreState → Bool
restorable s = is_some s.started_at || s.started_at_malformed || not (is_empty s.utterances)

-- `bool(raw)`
abbrev pub is_given : Option Text → Bool
is_given raw = not (is_empty (or_empty raw))

abbrev pub in_utc : (Datetime → Datetime) → Option Datetime → Option Datetime
in_utc utc_of none = none
in_utc utc_of (some moment) = if is_some moment.utcoffset then some (utc_of moment) else none

abbrev pub parse_iso :
    (Text → Option Datetime) → (Datetime → Datetime) → Option Text → Option Datetime
parse_iso fromisoformat utc_of raw =
    if is_given raw then in_utc utc_of (fromisoformat (replace_z (or_empty raw))) else none

abbrev pub loaded : (Text → Option UtteranceDict) → List Text → List UtteranceDict × ℕ
loaded loads [] = ([], 0)
loaded loads (raw ∷ raws) =
    let (items, dropped) = loaded loads raws in
    elim (loads raw) [ none ↦ (items, suc dropped) | some d ↦ (d ∷ items, dropped) ]

-- `RestoreState()`, with the defaults of its fields
abbrev pub no_state : RestoreState
no_state = record {
  terminated = false;
  started_at = none;
  started_at_malformed = false;
  candidate_identity = none;
  reconnect_deadline = none;
  utterances = [];
  dropped = 0;
}

module _ (loads : Text → Option UtteranceDict) (fromisoformat : Text → Option Datetime)
    (utc_of : Datetime → Datetime) where
  abbrev pub restore_state : Snapshot → RestoreState
  restore_state s =
      let started = parse_iso fromisoformat utc_of s.started_at in
      let (items, dropped) = loaded loads s.raw_items in
      record {
        terminated = s.terminated;
        started_at = started;
        started_at_malformed = is_given s.started_at && not (is_some started);
        candidate_identity = if is_given s.candidate_identity then s.candidate_identity else none;
        reconnect_deadline = parse_iso fromisoformat utc_of s.reconnect_deadline;
        utterances = items;
        dropped = dropped;
      }

  -- no snapshot: the query failed
  unfoldable pub read_restore_state : Option Snapshot → RestoreState
  read_restore_state none = no_state
  read_restore_state (some s) = restore_state s

-- Python refuses the difference of a naive and an aware moment.
pub data TypeError : Type 0 where
  naive_and_aware : TypeError

-- `now - started_at`
abbrev pub minus : Datetime → Datetime → Outcome TypeError ℤ
minus a b = elim a.utcoffset [
  | none ↦ elim b.utcoffset [ none ↦ ok (pos a.wall -ℤ pos b.wall) | some z ↦ err naive_and_aware ]
  | some y ↦ elim b.utcoffset [
    | none ↦ err naive_and_aware
    | some z ↦ ok (pos a.wall -ℤ y -ℤ (pos b.wall -ℤ z))
  ]
]

-- The start, and if it is the moment of the first utterance.
abbrev pub start_of : Option Datetime → List Utterance → Option (Datetime × Bool)
start_of (some t) us = some (t, false)
start_of none [] = none
start_of none (u ∷ us) = some (u.spoken_at, true)

abbrev pub planned :
    RestoreState
    → ConversationLog
    → ℕ
    → Bool
    → Outcome TypeError ℤ
    → Outcome TypeError (Option RestorePlan)
planned state log dropped approximated (err e) = err e
planned state log dropped approximated (ok elapsed) = ok (
    some (record {
      log = log;
      dropped = dropped;
      elapsed_seconds = elapsed;
      started_at_approximated = approximated;
      candidate_identity = state.candidate_identity;
      reconnect_deadline = state.reconnect_deadline;
      mode = (derive_mode log).0;
      closing_cause = (derive_mode log).1;
      orphan_branch = not (has_valid_current_root log);
    }))

abbrev pub planned_since :
    RestoreState
    → Datetime
    → ConversationLog
    → ℕ
    → Option (Datetime × Bool)
    → Outcome TypeError (Option RestorePlan)
planned_since state now log dropped none = ok none
planned_since state now log dropped (some (start, approximated)) =
    planned state log dropped approximated (minus now start)

abbrev pub plan_from :
    RestoreState → Datetime → ConversationLog × ℕ → Outcome TypeError (Option RestorePlan)
plan_from state now (log, schema_dropped) =
    planned_since state now log (state.dropped + schema_dropped)
      (start_of state.started_at log.utterances)

unfoldable pub build_restore_plan :
    (Text → Option Datetime) → RestoreState → Datetime → Outcome TypeError (Option RestorePlan)
build_restore_plan fromisoformat state now =
    plan_from state now (rebuild_conversation_log fromisoformat state.utterances)
