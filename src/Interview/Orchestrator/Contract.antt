-- ===== src/Interview/Orchestrator/Contract.antt =====
-- The contract of a decision.
use kkori_ai.Prelude.{
  ℕ, ◌≡◌, Bool, true, false, Option, none, some, Text, strip, is_empty, is_some, arith, Bool-cases,
  inl, inr, ◌≢◌, refl, sym, ap, ◌∙◌, Option-cases,
}
use kkori_ai.Interview.Utterance.{Action, FollowUpType, Utterance, is_consistency}
use kkori_ai.Interview.Log.{ConversationLog, question_for, current_root}
use kkori_ai.Interview.Orchestrator.{
  DecisionSource, Decision, OrchestratorAnswer, schema_allows, is_valid_ref, decide, decide_answer,
  follow_up_decision, fallback_for, differs,
}

abbrev pub is_follow_up_action : Action → Bool
is_follow_up_action Action.follow_up = true
is_follow_up_action _ = false

abbrev pub from_orchestrator : DecisionSource → Bool
from_orchestrator DecisionSource.orchestrator = true
from_orchestrator _ = false

-- The decision as the code checks it.
record IsChecked (wrap_up : Bool) (log : ConversationLog) (d : Decision) : Type 0 where
  allowed : schema_allows wrap_up d.action ≡ true
  typed : is_some d.follow_up_type ≡ is_follow_up_action d.action
  referred : is_some d.ref_question_number ≡ is_consistency d.follow_up_type
  known : is_consistency d.follow_up_type ≡ true → is_valid_ref log d.ref_question_number ≡ true
  reasoned : is_some d.reason ≡ from_orchestrator d.source

fallback_for-IsChecked : (w : Bool) (log : ConversationLog) → IsChecked w log (fallback_for w)
unfolding fallback_for schema_allows
fallback_for-IsChecked true log = ground arith
fallback_for-IsChecked false log = ground arith

follow_up-IsChecked :
    (w : Bool) (log : ConversationLog) (reason : Text) (t : FollowUpType) (ref : Option ℕ)
    → IsChecked w log (follow_up_decision log reason t ref)
unfolding follow_up_decision schema_allows
follow_up-IsChecked true log reason t ref = ground arith
follow_up-IsChecked false log reason t ref = ground arith

answer-IsChecked :
    (w : Bool) (log : ConversationLog) (answer : OrchestratorAnswer) (a : Action)
    → schema_allows w a ≡ true
    → IsChecked w log (decide_answer w log answer a)
unfolding decide_answer schema_allows
answer-IsChecked w log answer Action.follow_up h =
    elim (Bool-cases (is_empty (strip answer.reason))) [
      | inl e ↦ rw e (fallback_for-IsChecked w log)
      | inr e ↦ rw e (go answer.follow_up_type)
    ]
  where
    go :
        (t : Option FollowUpType)
        → IsChecked w log (elim t [
          | none ↦ fallback_for w
          | some t ↦ follow_up_decision log (strip answer.reason) t answer.ref_question_number
        ])
    go none = fallback_for-IsChecked w log
    go (some t) = follow_up-IsChecked w log (strip answer.reason) t answer.ref_question_number
answer-IsChecked w log answer _ h = elim (Bool-cases (is_empty (strip answer.reason))) [
  | inl e ↦ rw e (fallback_for-IsChecked w log)
  | inr e ↦ rw e (ground arith)
]

decide-IsChecked :
    (wrap_up : Bool) (answer : Option OrchestratorAnswer) (log : ConversationLog)
    → IsChecked wrap_up log (decide wrap_up answer log)
unfolding decide
decide-IsChecked wrap_up none log = fallback_for-IsChecked wrap_up log
decide-IsChecked wrap_up (some answer) log =
    elim (Bool-cases (schema_allows wrap_up answer.action)) [
      | inl e ↦ rw e (answer-IsChecked wrap_up log answer answer.action e)
      | inr e ↦ rw e (fallback_for-IsChecked wrap_up log)
    ]

-- A new topic is for the main part; the final question and the end are for the wrap-up.
abbrev pub IsAllowed : Bool → Action → Type 0
IsAllowed wrap_up Action.follow_up = Unit
IsAllowed wrap_up Action.next_topic = wrap_up ≡ false
IsAllowed wrap_up Action.final_question = wrap_up ≡ true
IsAllowed wrap_up Action.end = wrap_up ≡ true

-- A number whose question is in the log and has another parent than the current root.
pub record IsElsewhere (log : ConversationLog) (ref : Option ℕ) : Type 0 where
  pub number : ℕ
  pub asked : Utterance
  pub numbered : ref ≡ some number
  pub found : question_for log number ≡ some asked
  pub elsewhere : asked.parent_question_number ≢ current_root log

-- What the pipeline relies on.
pub record IsDecision (wrap_up : Bool) (log : ConversationLog) (d : Decision) : Type 0 where
  -- the action is one of the phase's
  pub allowed : IsAllowed wrap_up d.action
  -- a type exactly for a follow-up
  pub typed : is_some d.follow_up_type ≡ is_follow_up_action d.action
  -- a reference exactly for CONSISTENCY, and then to a question of another branch
  pub referred : is_some d.ref_question_number ≡ is_consistency d.follow_up_type
  pub known : is_consistency d.follow_up_type ≡ true → IsElsewhere log d.ref_question_number
  -- a reason exactly if the orchestrator decided
  pub reasoned : is_some d.reason ≡ from_orchestrator d.source

schema_allows-IsAllowed :
    (wrap_up : Bool) (a : Action) → schema_allows wrap_up a ≡ true → IsAllowed wrap_up a
unfolding schema_allows
schema_allows-IsAllowed wrap_up Action.follow_up h = tt
schema_allows-IsAllowed wrap_up Action.next_topic h = ground arith
schema_allows-IsAllowed wrap_up Action.final_question h = h
schema_allows-IsAllowed wrap_up Action.end h = h

differs_self : (o : Option ℕ) → differs o o ≡ false
differs_self none = refl
differs_self (some n) = ground arith

is_valid_ref-IsElsewhere :
    (log : ConversationLog) (ref : Option ℕ) → is_valid_ref log ref ≡ true → IsElsewhere log ref
unfolding is_valid_ref
is_valid_ref-IsElsewhere log none h = absurd (ground arith)
is_valid_ref-IsElsewhere log (some n) h = elim (Option-cases (question_for log n)) [
  | inl e ↦ absurd (clash (sym (ap (λ o. valid o) e) ∙ h))
  | inr (q, e) ↦ record {
    number = n;
    asked = q;
    numbered = refl;
    found = e;
    elsewhere = λ same. clash (
        sym (differs_self (current_root log))
        ∙ ap (λ p. differs p (current_root log)) (sym same)
        ∙ sym (ap (λ o. valid o) e)
        ∙ h);
  }
]
  where
    valid : Option Utterance → Bool
    valid o = elim o [ none ↦ false | some q ↦ differs q.parent_question_number (current_root log) ]

    clash : false ≡ true → ⊥
    clash e = ground arith

-- Whatever the model answers, and if the call fails, the decision's action is a follow-up, a new
-- topic before the wrap-up, or a final question or an end in it; it has a type exactly for
-- FOLLOW_UP, a reference exactly for CONSISTENCY, which then is the number of a question of the log
-- that does not belong to the current root, and a reason exactly if the orchestrator made it.
pub decide-IsDecision :
    (wrap_up : Bool) (answer : Option OrchestratorAnswer) (log : ConversationLog)
    → IsDecision wrap_up log (decide wrap_up answer log)
decide-IsDecision wrap_up answer log =
    let h = decide-IsChecked wrap_up answer log in
    record {
      allowed = schema_allows-IsAllowed wrap_up (decide wrap_up answer log).action h.allowed;
      typed = h.typed;
      referred = h.referred;
      known = λ c.
          is_valid_ref-IsElsewhere log (decide wrap_up answer log).ref_question_number (h.known c);
      reasoned = h.reasoned;
    }
