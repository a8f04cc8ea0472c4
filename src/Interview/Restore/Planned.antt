-- ===== src/Interview/Restore/Planned.antt =====
-- When an interview can be restored, from what Redis holds.
use kkori_ai.Prelude.{
  ℕ, ◌≡◌, refl, Bool, true, false, Option, none, some, List, [], ◌∷◌, Text, not, ◌||◌, Outcome, ok,
  err, ◌>>=◌, is_some, is_empty, arith, All,
}
use kkori_ai.Interview.Utterance.{Utterance, Datetime, ValueError, is_utc, post_init}
use kkori_ai.Interview.Utterance.Form.{post_init-accepts_forms}
use kkori_ai.Interview.Log.{ConversationLog}
use kkori_ai.Interview.Json.{
  UtteranceDict, JsonError, replace_z, or_empty, kept_item, readable, constructed, read_spoken_at,
  read_speaker, read_question_type, read_follow_up_type, if_given, from_json_dict,
  rebuild_conversation_log,
}
use kkori_ai.Interview.Restore.Plan.{
  RestoreState, RestorePlan, Snapshot, TypeError, in_utc, parse_iso, loaded, read_restore_state,
  minus, start_of, planned, planned_since, build_restore_plan,
}

abbrev pub IsAware : Datetime → Type 0
IsAware d = is_some d.utcoffset ≡ true

utc-IsAware : (d : Datetime) → is_utc d ≡ true → IsAware d
utc-IsAware d h = ground arith

bind-result :
    {E A B : Type 0} (P : B → Type 0) (m : Outcome E A) (k : A → Outcome E B) (b : B)
    → ((a : A) → k a ≡ ok b → P b)
    → (m >>= k) ≡ ok b
    → P b
bind-result P (ok a) k b f h = f a h
bind-result P (err e) k b f h = absurd (ground arith)

constructed-result :
    (o : Outcome ValueError Utterance) (v : Utterance) → constructed o ≡ ok v → o ≡ ok v
constructed-result (ok u) v h = ground arith
constructed-result (err e) v h = absurd (ground arith)

constructed-IsAware : (u v : Utterance) → constructed (post_init u) ≡ ok v → IsAware v.spoken_at
constructed-IsAware u v h =
    let (same, full, utc, f) =
      (post_init-accepts_forms u v).0 (constructed-result (post_init u) v h) in
    rw same (utc-IsAware u.spoken_at utc)

read-IsAware :
    (fromisoformat : Text → Option Datetime) (item : UtteranceDict) (u : Utterance)
    → from_json_dict fromisoformat item ≡ ok u
    → IsAware u.spoken_at
unfolding from_json_dict
read-IsAware fromisoformat item u =
    let P : Utterance → Type 0 = λ v. IsAware v.spoken_at in
    bind-result P (read_spoken_at fromisoformat item.spoken_at) _ u λ at.
      bind-result P (read_speaker item.speaker) _ u λ s.
        bind-result P (if_given read_question_type item.question_type) _ u λ t.
          bind-result P (if_given read_follow_up_type item.follow_up_type) _ u
            λ f. constructed-IsAware _ u

abbrev AllAware : List Utterance → Type 0
AllAware us = All (λ u. IsAware u.spoken_at) us

kept_item-AllAware :
    (o : Outcome JsonError Utterance) (rest : List Utterance × ℕ)
    → ((u : Utterance) → o ≡ ok u → IsAware u.spoken_at)
    → AllAware rest.0
    → AllAware (kept_item o rest).0
kept_item-AllAware (ok u) rest h hs = (h u refl, hs)
kept_item-AllAware (err e) rest h hs = hs

readable-AllAware :
    (fromisoformat : Text → Option Datetime) (items : List UtteranceDict)
    → AllAware (readable fromisoformat items).0
readable-AllAware fromisoformat [] = tt
readable-AllAware fromisoformat (d ∷ ds) =
    kept_item-AllAware (from_json_dict fromisoformat d) (readable fromisoformat ds)
      (read-IsAware fromisoformat d) (readable-AllAware fromisoformat ds)

-- what is planned, if nothing is raised: whether there is a plan
abbrev pub plans : Outcome TypeError (Option RestorePlan) → Option Bool
plans (ok p) = some (is_some p)
plans (err e) = none

planned-plans :
    (state : RestoreState) (log : ConversationLog) (dropped : ℕ) (approximated : Bool)
    (now start : Datetime)
    → IsAware now
    → IsAware start
    → plans (planned state log dropped approximated (minus now start)) ≡ some true
planned-plans state log dropped approximated now start h k = ground arith

planned_since-plans :
    (state : RestoreState) (now : Datetime) (log : ConversationLog) (n : ℕ)
    (started : Option Datetime) (us : List Utterance)
    → IsAware now
    → AllAware us
    → ((t : Datetime) → started ≡ some t → IsAware t)
    → plans (planned_since state now log n (start_of started us))
      ≡ some (is_some started || not (is_empty us))
planned_since-plans state now log n (some t) us h hs k =
    planned-plans state log n false now t h (k t refl)
planned_since-plans state now log n none [] h hs k = refl
planned_since-plans state now log n none (u ∷ us) h hs k =
    planned-plans state log n true now u.spoken_at h hs.0

in_utc-IsAware :
    (utc_of : Datetime → Datetime) (moment : Option Datetime) (t : Datetime)
    → ((d : Datetime) → is_utc (utc_of d) ≡ true)
    → in_utc utc_of moment ≡ some t
    → IsAware t
in_utc-IsAware utc_of none t utc h = absurd (ground arith)
in_utc-IsAware utc_of (some d) t utc h = ground (arith, utc d, utc-IsAware (utc_of d))

parse_iso-IsAware :
    (fromisoformat : Text → Option Datetime) (utc_of : Datetime → Datetime) (raw : Option Text)
    (t : Datetime)
    → ((d : Datetime) → is_utc (utc_of d) ≡ true)
    → parse_iso fromisoformat utc_of raw ≡ some t
    → IsAware t
parse_iso-IsAware fromisoformat utc_of raw t utc h =
    ground (arith, in_utc-IsAware utc_of (fromisoformat (replace_z (or_empty raw))) t utc)

module _ (loads : Text → Option UtteranceDict) (fromisoformat : Text → Option Datetime)
    (utc_of : Datetime → Datetime) (utc : (d : Datetime) → is_utc (utc_of d) ≡ true) where
  -- With a moment `now` that knows its offset, and a conversion to UTC that gives moments in UTC, the
  -- restoration of a snapshot raises nothing; there is a plan exactly if the start can be read
  -- or some utterance of the copy can.
  pub build_restore_plan-plans :
      (s : Snapshot) (now : Datetime)
      → IsAware now
      → plans (
          build_restore_plan fromisoformat
            (read_restore_state loads fromisoformat utc_of (some s))
            now)
        ≡ some (
            is_some (parse_iso fromisoformat utc_of s.started_at)
            || not (is_empty (readable fromisoformat (loaded loads s.raw_items).0).0))
  unfolding build_restore_plan read_restore_state rebuild_conversation_log
  build_restore_plan-plans s now h =
      let items = (loaded loads s.raw_items).0 in
      planned_since-plans (read_restore_state loads fromisoformat utc_of (some s)) now _ _
        (parse_iso fromisoformat utc_of s.started_at) (readable fromisoformat items).0 h
        (readable-AllAware fromisoformat items)
        (λ t. parse_iso-IsAware fromisoformat utc_of s.started_at t utc)
