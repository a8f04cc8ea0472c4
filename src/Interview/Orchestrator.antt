-- ===== src/Interview/Orchestrator.antt =====
-- agent/src/interview/orchestrator.py: the decision about the next action. The call of the model
-- is the argument `answer`: the arguments of its tool call, or `none` where the call raises. That
-- the JSON has the fields of the schema is part of the call; which actions a schema allows is not.
pub mod Contract
use kkori_ai.Prelude.{
  ℕ, Bool, true, false, Option, none, some, Text, strip, is_empty, is_some, is_number, not, ◌&&◌,
  if◌then◌else◌,
}
use kkori_ai.Interview.Utterance.{Action, FollowUpType, Utterance, is_consistency}
use kkori_ai.Interview.Log.{ConversationLog, question_for, current_root, parent_of}

pub data DecisionSource : Type 0 where
  orchestrator forced fallback : DecisionSource

pub record Decision : Type 0 where
  pub action : Action
  pub source : DecisionSource
  pub follow_up_type : Option FollowUpType
  pub reason : Option Text
  pub ref_question_number : Option ℕ

abbrev plain : Action → DecisionSource → Option Text → Decision
plain a s r = record {
  action = a;
  source = s;
  follow_up_type = none;
  reason = r;
  ref_question_number = none;
}

unfoldable pub forced_next_topic : Decision
forced_next_topic = plain Action.next_topic DecisionSource.forced none

unfoldable pub fallback_next_topic : Decision
fallback_next_topic = plain Action.next_topic DecisionSource.fallback none

unfoldable pub forced_final_question : Decision
forced_final_question = plain Action.final_question DecisionSource.forced none

unfoldable pub fallback_final_question : Decision
fallback_final_question = plain Action.final_question DecisionSource.fallback none

-- `OrchestratorDecision` and `WrapUpOrchestratorDecision` have these fields
pub record OrchestratorAnswer : Type 0 where
  pub reason : Text
  pub action : Action
  pub follow_up_type : Option FollowUpType
  pub ref_question_number : Option ℕ

-- the `Literal` of `action` in the schema of either phase
unfoldable pub schema_allows : Bool → Action → Bool
schema_allows wrap_up Action.follow_up = true
schema_allows wrap_up Action.next_topic = not wrap_up
schema_allows wrap_up Action.final_question = wrap_up
schema_allows wrap_up Action.end = wrap_up

-- `a != b` of optional numbers
abbrev pub differs : Option ℕ → Option ℕ → Bool
differs none none = false
differs none (some n) = true
differs (some m) none = true
differs (some m) (some n) = not (is_number (some m) n)

unfoldable pub is_valid_ref : ConversationLog → Option ℕ → Bool
unfolding question_for current_root
is_valid_ref log none = false
is_valid_ref log (some ref) = elim (question_for log ref) [
  | none ↦ false
  | some q ↦ differs q.parent_question_number (current_root log)
]

-- lines 194-214: a follow-up, whose reference is dropped unless it is a valid CONSISTENCY
follow_up_decision : ConversationLog → Text → FollowUpType → Option ℕ → Decision
unfolding is_valid_ref
follow_up_decision log reason t ref =
    let kept : Decision = record {
      action = Action.follow_up;
      source = DecisionSource.orchestrator;
      follow_up_type = some t;
      reason = some reason;
      ref_question_number = ref;
    } in
    if is_consistency (some t) && not (is_valid_ref log ref)
    then record kept { follow_up_type = some FollowUpType.deepen; ref_question_number = none }
    else if not (is_consistency (some t))
    then record kept { ref_question_number = none }
    else kept

fallback_for : Bool → Decision
unfolding fallback_final_question fallback_next_topic
fallback_for wrap_up = if wrap_up then fallback_final_question else fallback_next_topic

-- lines 167-214, on an answer that has passed its schema
decide_answer : Bool → ConversationLog → OrchestratorAnswer → Action → Decision
unfolding follow_up_decision fallback_for strip
decide_answer wrap_up log answer Action.follow_up =
    if is_empty (strip answer.reason) then fallback_for wrap_up else elim answer.follow_up_type [
      | none ↦ fallback_for wrap_up
      | some t ↦ follow_up_decision log (strip answer.reason) t answer.ref_question_number
    ]
decide_answer wrap_up log answer action =
    if is_empty (strip answer.reason)
    then fallback_for wrap_up
    else plain action DecisionSource.orchestrator (some (strip answer.reason))

-- `wrap_up` is `wrap_up_remaining_minutes is not None`
unfoldable pub decide : Bool → Option OrchestratorAnswer → ConversationLog → Decision
unfolding decide_answer schema_allows
decide wrap_up none log = fallback_for wrap_up
decide wrap_up (some answer) log =
    if not (schema_allows wrap_up answer.action)
    then fallback_for wrap_up
    else decide_answer wrap_up log answer answer.action
