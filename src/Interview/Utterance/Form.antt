-- ===== src/Interview/Utterance/Form.antt =====
-- What an utterance can be, as a data type in which nothing else can be written, against the
-- checks of `Utterance.__post_init__`.
use kkori_ai.Prelude.{
  ℕ, ◌≤◌, ◌<◌, ◌≡◌, ◌↔◌, sym, subst, true, false, Option, none, some, Text, ok, is_empty, arith,
}
use kkori_ai.Interview.Utterance.{
  Speaker, QuestionType, FollowUpType, Datetime, is_utc, Utterance, post_init,
}

-- The kinds of follow-up with what each refers to.
pub data Probe : Type 0 where
  deepen concrete verify boundary : Probe
  consistency : ℕ → Probe

pub data Form : Type 0 where
  initial : ℕ → Form
  topic final : ℕ → Option Text → Form
  follow_up : (number root : ℕ) → Probe → Option Text → Form
  closing : Option Text → Form
  answer : (number root : ℕ) → Form

abbrev pub probe_type : Probe → FollowUpType
probe_type Probe.deepen = FollowUpType.deepen
probe_type Probe.concrete = FollowUpType.concrete
probe_type Probe.verify = FollowUpType.verify
probe_type Probe.boundary = FollowUpType.boundary
probe_type (Probe.consistency r) = FollowUpType.consistency

abbrev pub probe_ref : Probe → Option ℕ
probe_ref (Probe.consistency r) = some r
probe_ref _ = none

-- Numbers start at 1, and a follow-up comes after its root.
abbrev pub Numbered : Form → Type 0
Numbered (Form.initial n) = 1 ≤ n
Numbered (Form.topic n r) = 1 ≤ n
Numbered (Form.final n r) = 1 ≤ n
Numbered (Form.follow_up n p f r) = p < n
Numbered (Form.closing r) = Unit
Numbered (Form.answer n p) = 1 ≤ n

module _ (content : Text) (at : Datetime) where
  abbrev question : ℕ → ℕ → QuestionType → Option FollowUpType → Option Text → Option ℕ → Utterance
  question n p t f r ref = record {
    question_number = some n;
    parent_question_number = some p;
    speaker = Speaker.interviewer;
    content = content;
    spoken_at = at;
    question_type = some t;
    follow_up_type = f;
    reason = r;
    ref_question_number = ref;
  }

  abbrev pub utterance_of : Form → Utterance
  utterance_of (Form.initial n) = question n n QuestionType.initial none none none
  utterance_of (Form.topic n r) = question n n QuestionType.topic none r none
  utterance_of (Form.final n r) = question n n QuestionType.final none r none
  utterance_of (Form.follow_up n p f r) =
      question n p QuestionType.follow_up (some (probe_type f)) r (probe_ref f)
  utterance_of (Form.closing r) = record (question 0 0 QuestionType.closing none r none) {
    question_number = none;
    parent_question_number = none;
  }
  utterance_of (Form.answer n p) = record {
    question_number = some n;
    parent_question_number = some p;
    speaker = Speaker.candidate;
    content = content;
    spoken_at = at;
    question_type = none;
    follow_up_type = none;
    reason = none;
    ref_question_number = none;
  }

  -- every form passes the checks
  accepted :
      (f : Form)
      → Numbered f
      → is_empty content ≡ false
      → is_utc at ≡ true
      → post_init (utterance_of f) ≡ ok (utterance_of f)
  unfolding post_init
  accepted (Form.initial n) h e z = ground arith
  accepted (Form.topic n r) h e z = ground arith
  accepted (Form.final n r) h e z = ground arith
  accepted (Form.follow_up n p f r) h e z = ground arith
  accepted (Form.closing r) h e z = ground arith
  accepted (Form.answer n p) h e z = ground arith

abbrev pub IsForm : Utterance → Type 0
IsForm u = (f : Form) × Numbered f × (u ≡ utterance_of u.content u.spoken_at f)

probe_of : Option FollowUpType → Option ℕ → Probe
probe_of (some FollowUpType.concrete) ref = Probe.concrete
probe_of (some FollowUpType.verify) ref = Probe.verify
probe_of (some FollowUpType.boundary) ref = Probe.boundary
probe_of (some FollowUpType.consistency) (some r) = Probe.consistency r
probe_of _ ref = Probe.deepen

form_at : ℕ → ℕ → Utterance → Option QuestionType → Form
form_at n p u none = Form.answer n p
form_at n p u (some QuestionType.initial) = Form.initial n
form_at n p u (some QuestionType.topic) = Form.topic n u.reason
form_at n p u (some QuestionType.final) = Form.final n u.reason
form_at n p u (some QuestionType.closing) = Form.closing u.reason
form_at n p u (some QuestionType.follow_up) =
    Form.follow_up n p (probe_of u.follow_up_type u.ref_question_number) u.reason

-- the form that an accepted utterance has
form : Utterance → Option ℕ → Option ℕ → Form
form u (some n) (some p) = form_at n p u u.question_type
form u _ _ = Form.closing u.reason

module _ (u v : Utterance) (h : post_init u ≡ ok v) where
  form-Numbered : Numbered (form u u.question_number u.parent_question_number)
  unfolding post_init form form_at probe_of
  form-Numbered = ground arith

  form_lem :
      u ≡ utterance_of u.content u.spoken_at (form u u.question_number u.parent_question_number)
  unfolding post_init form form_at probe_of
  form_lem = ground arith

  fields_lem : (v ≡ u) × (is_empty u.content ≡ false) × (is_utc u.spoken_at ≡ true)
  unfolding post_init
  fields_lem = ground arith

-- the checks pass an utterance exactly when it has a form
pass :
    (u v : Utterance)
    → (v ≡ u) × (is_empty u.content ≡ false) × (is_utc u.spoken_at ≡ true) × IsForm u
    → post_init u ≡ ok v
pass u v (same, full, utc, (f, numbered, e)) =
    rw same
      (subst (λ w. post_init w ≡ ok w) (sym e) (accepted u.content u.spoken_at f numbered full utc))

-- The constructor accepts an utterance exactly when it has content, is stamped in UTC and is one
-- of six forms: an initial, topic or final question that is its own parent, a follow-up of an
-- earlier number with a type, which refers to a question exactly if it is CONSISTENCY, an
-- unnumbered closing, or an answer without metadata. It then returns the utterance as it is.
pub post_init-accepts_forms :
    (u v : Utterance)
    → (post_init u ≡ ok v)
      ↔ ((v ≡ u) × (is_empty u.content ≡ false) × (is_utc u.spoken_at ≡ true) × IsForm u)
post_init-accepts_forms u v = (
  λ h.
      let (same, full, utc) = fields_lem u v h in
      (
        same,
        full,
        utc,
        (form u u.question_number u.parent_question_number, form-Numbered u v h, form_lem u v h),
      ),
  pass u v,
)
