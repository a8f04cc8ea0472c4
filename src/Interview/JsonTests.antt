-- ===== src/Interview/JsonTests.antt =====
-- The JSON form of an utterance and a restored interview at concrete inputs.
use kkori_ai.Prelude.{
  true, false, not, ◌||◌, is_some, is_empty, ◌≡◌, refl, none, some, [], ◌∷◌, ◌++◌, Option, Text,
  map, ok, if◌then◌else◌,
}
use kkori_ai.Interview.Utterance.{interviewer, initial, Datetime, Utterance, post_init}
use kkori_ai.Interview.Json.{
  UtteranceDict, readable, utc_suffix, to_json_dict, from_json_dict, highest,
  rebuild_conversation_log,
}
use kkori_ai.Interview.Json.RoundTrip.{IsWritten, rebuild_conversation_log-to_json_dict}
use kkori_ai.Interview.Restore.Plan.{
  Snapshot, parse_iso, loaded, read_restore_state, build_restore_plan,
}
use kkori_ai.Interview.Restore.Planned.{plans, build_restore_plan-plans}
use kkori_ai.Interview.Tests.{hi, noon}

abbrev first : Utterance
first = record {
  question_number = some 1;
  parent_question_number = some 1;
  speaker = interviewer;
  content = hi;
  spoken_at = noon;
  question_type = some initial;
  follow_up_type = none;
  reason = none;
  ref_question_number = none;
}

abbrev write : Datetime → Text
write d = hi ++ utc_suffix

abbrev read : Text → Option Datetime
read t = some noon

first-accepted : post_init first ≡ ok first
unfolding post_init
first-accepted = refl

noon-IsWritten : IsWritten write read noon
noon-IsWritten = record {
  body = hi;
  written = refl;
  no_plus = (refl, (refl, tt));
  no_z = (refl, (refl, tt));
  again = refl;
}

rebuild_conversation_log-to_json_dict_example :
    rebuild_conversation_log read (map (to_json_dict write) (first ∷ []))
    ≡ (record { utterances = first ∷ []; number_floor = highest (first ∷ []) }, 0)
rebuild_conversation_log-to_json_dict_example =
    rebuild_conversation_log-to_json_dict write read (first ∷ [])
      (record { valid = first-accepted; whole = noon-IsWritten }, tt)

-- a copy of two items, of which the first is no JSON, without a start
abbrev copy : Snapshot
copy = record {
  terminated = false;
  started_at = none;
  candidate_identity = some hi;
  reconnect_deadline = none;
  raw_items = [] ∷ hi ∷ [];
}

abbrev load : Text → Option UtteranceDict
load t = if is_empty t then none else some (to_json_dict write first)

copy-planned :
    plans (build_restore_plan read (read_restore_state load read (λ d. noon) (some copy)) noon)
    ≡ some true
unfolding build_restore_plan read_restore_state rebuild_conversation_log from_json_dict to_json_dict
    post_init
copy-planned = refl

build_restore_plan-plans_example :
    plans (build_restore_plan read (read_restore_state load read (λ d. noon) (some copy)) noon)
    ≡ some (
        is_some (parse_iso read (λ d. noon) none)
        || not (is_empty (readable read (loaded load ([] ∷ hi ∷ [])).0).0))
build_restore_plan-plans_example =
    build_restore_plan-plans load read (λ d. noon) (λ d. refl) copy noon refl
