-- ===== src/Interview/Json/RoundTrip.antt =====
-- Reading what was written.
use kkori_ai.Prelude.{
  ℕ, ◌≡◌, refl, ap, ◌∙◌, false, Option, none, some, List, [], ◌∷◌, ◌++◌, Text, ◌==◌, All, map,
  arith, Outcome, ok, err, ◌>>=◌,
}
use kkori_ai.Interview.Utterance.{
  Speaker, interviewer, candidate, QuestionType, FollowUpType, deepen, concrete, verify, boundary,
  consistency, initial, topic, final, closing, Datetime, Utterance, post_init,
}
use kkori_ai.Interview.Json.{
  JsonError, utc_suffix, speaker_text, question_type_text, follow_up_type_text, read_speaker,
  read_question_type, read_follow_up_type, if_given, text_of, replace_z, replace_utc,
  read_spoken_at, constructed, from_json_dict, to_json_dict, kept_item, readable, highest,
  rebuild_conversation_log,
}

replace_utc-suffix :
    (body : Text)
    → All (λ c. (c == 43) ≡ false) body
    → replace_utc 0 (body ++ utc_suffix) ≡ body ++ 90 ∷ []
replace_utc-suffix [] h = refl
replace_utc-suffix (c ∷ body) h = ground (arith, replace_utc-suffix body h.1)

replace_z-suffix :
    (body : Text)
    → All (λ c. (c == 90) ≡ false) body
    → replace_z (body ++ 90 ∷ []) ≡ body ++ utc_suffix
replace_z-suffix [] h = refl
replace_z-suffix (c ∷ body) h = ground (arith, replace_z-suffix body h.1)

speaker-read : (s : Speaker) → read_speaker (some (speaker_text s)) ≡ ok s
speaker-read interviewer = refl
speaker-read candidate = refl

question_type-read :
    (t : Option QuestionType) → if_given read_question_type (text_of question_type_text t) ≡ ok t
question_type-read none = refl
question_type-read (some initial) = refl
question_type-read (some topic) = refl
question_type-read (some QuestionType.follow_up) = refl
question_type-read (some final) = refl
question_type-read (some closing) = refl

follow_up_type-read :
    (t : Option FollowUpType) → if_given read_follow_up_type (text_of follow_up_type_text t) ≡ ok t
follow_up_type-read none = refl
follow_up_type-read (some deepen) = refl
follow_up_type-read (some concrete) = refl
follow_up_type-read (some verify) = refl
follow_up_type-read (some boundary) = refl
follow_up_type-read (some consistency) = refl

-- A moment in UTC of a whole second, as datetime writes and reads it: what is written ends in
-- +00:00 and has neither a plus nor a Z before that, and reading gives the moment.
pub record IsWritten (isoformat : Datetime → Text) (fromisoformat : Text → Option Datetime)
    (d : Datetime) : Type 0 where
  pub body : Text
  pub written : isoformat d ≡ body ++ utc_suffix
  pub no_plus : All (λ c. (c == 43) ≡ false) body
  pub no_z : All (λ c. (c == 90) ≡ false) body
  pub again : fromisoformat (body ++ utc_suffix) ≡ some d

module _ (isoformat : Datetime → Text) (fromisoformat : Text → Option Datetime) where
  spoken_at-read :
      (d : Datetime)
      → IsWritten isoformat fromisoformat d
      → read_spoken_at fromisoformat (some (replace_utc 0 (isoformat d))) ≡ ok d
  spoken_at-read d h =
      ap (λ o. elim o [ none ↦ err JsonError.spoken_at_malformed | some x ↦ ok x ])
        (ap fromisoformat (
            ap (λ t. replace_z (replace_utc 0 t)) h.written
            ∙ ap replace_z (replace_utc-suffix h.body h.no_plus)
            ∙ replace_z-suffix h.body h.no_z)
          ∙ h.again)

  -- An utterance that the constructor accepts, spoken at a whole second in UTC, is read back from
  -- its JSON form as it was.
  pub from_json_dict-to_json_dict :
      (u : Utterance)
      → post_init u ≡ ok u
      → IsWritten isoformat fromisoformat u.spoken_at
      → from_json_dict fromisoformat (to_json_dict isoformat u) ≡ ok u
  unfolding from_json_dict to_json_dict
  from_json_dict-to_json_dict u valid h =
      ap (λ o. o >>= rest) (spoken_at-read u.spoken_at h)
      ∙ ap (λ o. o >>= λ s. typed s u.spoken_at) (speaker-read u.speaker)
      ∙ ap (λ o. o >>= λ t. followed t) (question_type-read u.question_type)
      ∙ ap (λ o. o >>= λ f. made f) (follow_up_type-read u.follow_up_type)
      ∙ ap constructed valid
    where
      made : Option FollowUpType → Outcome JsonError Utterance
      made f = constructed (post_init (record u { follow_up_type = f }))

      followed : Option QuestionType → Outcome JsonError Utterance
      followed t =
          if_given read_follow_up_type (text_of follow_up_type_text u.follow_up_type) >>= λ f.
          constructed (post_init (record u { follow_up_type = f; question_type = t }))

      typed : Speaker → Datetime → Outcome JsonError Utterance
      typed s d = if_given read_question_type (text_of question_type_text u.question_type) >>= λ t.
          if_given read_follow_up_type (text_of follow_up_type_text u.follow_up_type) >>= λ f.
          constructed (
            post_init
              (record u { follow_up_type = f; question_type = t; speaker = s; spoken_at = d }))

      rest : Datetime → Outcome JsonError Utterance
      rest d = read_speaker (some (speaker_text u.speaker)) >>= λ s. typed s d

  -- An utterance that can be written and read again.
  pub record IsStored (u : Utterance) : Type 0 where
    pub valid : post_init u ≡ ok u
    pub whole : IsWritten isoformat fromisoformat u.spoken_at

  readable-written :
      (us : List Utterance)
      → All IsStored us
      → readable fromisoformat (map (to_json_dict isoformat) us) ≡ (us, 0)
  readable-written [] h = refl
  readable-written (u ∷ us) h =
      ap (λ o. kept_item o (readable fromisoformat (map (to_json_dict isoformat) us)))
        (from_json_dict-to_json_dict u h.0.valid h.0.whole)
      ∙ ap (kept_item (ok u)) (readable-written us h.1)

  -- The log that is built again from the JSON forms of utterances that the constructor accepts,
  -- each spoken at a whole second in UTC, has all of them in their order, no item is dropped, and
  -- its floor is their highest number.
  pub rebuild_conversation_log-to_json_dict :
      (us : List Utterance)
      → All IsStored us
      → rebuild_conversation_log fromisoformat (map (to_json_dict isoformat) us)
        ≡ (record { utterances = us; number_floor = highest us }, 0)
  unfolding rebuild_conversation_log
  rebuild_conversation_log-to_json_dict us h =
      ap
        (λ (x : List Utterance × ℕ). (record { utterances = x.0; number_floor = highest x.0 }, x.1))
        (readable-written us h)
