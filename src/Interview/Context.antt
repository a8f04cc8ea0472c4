-- ===== src/Interview/Context.antt =====
-- agent/src/interview/context.py: the token estimate, the clipping of an utterance, and the role
-- messages. `int(cap * 1.5)` and `ceil(len / 1.5)` are written with whole numbers.
use kkori_ai.Prelude.{
  ℕ, zero, suc, ◌+◌, ◌-◌, ◌*◌, ◌/◌, ◌≤◌, ◌≡◌, List, [], ◌∷◌, ◌++◌, map, Text, length, length-append,
  leb, All, if◌then◌else◌, arith,
}
use kkori_ai.Interview.Utterance.{Utterance, is_interviewer}
use kkori_ai.Interview.Log.{ConversationLog, current_branch}

unfoldable pub estimate_tokens : Text → ℕ
estimate_tokens text = (2 * length text + 2) / 3

abbrev pub clip_marker : Text
clip_marker = 32 ∷ 8230 ∷ 40 ∷ 51473 ∷ 47029 ∷ 41 ∷ []

-- `text[:n]`
take : ℕ → Text → Text
take zero text = []
take (suc n) [] = []
take (suc n) (c ∷ cs) = c ∷ take n cs

unfoldable pub clip : Text → ℕ → Text
unfolding take
clip content cap_tokens =
    let max_chars = cap_tokens * 3 / 2 in
    if leb (length content) max_chars
    then content
    else if leb max_chars (length clip_marker)
    then take max_chars content
    else take (max_chars - length clip_marker) content ++ clip_marker

pub data Role : Type 0 where
  assistant user : Role

unfoldable pub role_message : ℕ → Utterance → Role × Text
role_message cap_tokens u =
    (if is_interviewer u.speaker then assistant else user, clip u.content cap_tokens)

unfoldable pub follow_up_messages : ConversationLog → ℕ → List (Role × Text)
follow_up_messages log cap_tokens = map (role_message cap_tokens) (current_branch log)

take-length : (n : ℕ) (text : Text) → length (take n text) ≤ n
unfolding take
take-length zero text = omega arith
take-length (suc n) [] = omega arith
take-length (suc n) (c ∷ cs) = omega (arith, take-length n cs)

-- An utterance is injected within its cap, by length and by the estimate, and unchanged if it fits.
pub clip-within :
    (content : Text) (cap_tokens : ℕ)
    → (length (clip content cap_tokens) ≤ cap_tokens * 3 / 2)
      × (estimate_tokens (clip content cap_tokens) ≤ cap_tokens)
      × (length content ≤ cap_tokens * 3 / 2 → clip content cap_tokens ≡ content)
clip-within content cap_tokens =
    (within, unfold estimate_tokens in omega (arith, within), λ fits. unfold clip in ground arith)
  where
    within : length (clip content cap_tokens) ≤ cap_tokens * 3 / 2
    within =
        let m = cap_tokens * 3 / 2 in
        unfold clip in
        ground (
          arith,
          take-length m content,
          take-length (m - 6) content,
          length-append (take (m - 6) content) clip_marker,
        )

map-All :
    {A B : Type 0} (P : B → Type 0) (f : A → B)
    → ((a : A) → P (f a))
    → (xs : List A) → All P (map f xs)
map-All P f h [] = tt
map-All P f h (x ∷ xs) = (h x, map-All P f h xs)

-- Every message of the current branch is within the cap by the estimate.
pub follow_up_messages-within :
    (log : ConversationLog) (cap_tokens : ℕ)
    → All (λ m. estimate_tokens m.1 ≤ cap_tokens) (follow_up_messages log cap_tokens)
unfolding follow_up_messages role_message
follow_up_messages-within log cap_tokens =
    map-All (λ m. estimate_tokens m.1 ≤ cap_tokens) (role_message cap_tokens)
      (λ u. (clip-within u.content cap_tokens).1) (current_branch log)
