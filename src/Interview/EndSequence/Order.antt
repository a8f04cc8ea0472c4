-- ===== src/Interview/EndSequence/Order.antt =====
-- Counting the calls of an end sequence.
use kkori_ai.Prelude.{
  ℕ, zero, suc, ◌+◌, ◌≡◌, refl, Bool, true, false, Option, none, some, List, [], ◌∷◌, ◌++◌, not,
  ◌&&◌, ◌||◌, if◌then◌else◌, arith, ap, ◌∙◌,
}
use kkori_ai.Interview.EndState.{EndCause}
use kkori_ai.Interview.EndSequence.{
  EndSequence, Answers, Trace, quiet, and_then, Call, guard, drain, flush, purge, publish,
  delete_room, backoff, shutdown, allowed, finalize_log, flush_log, purge_redis,
  publish_report_request, delete_from, delete_the_room, is_reconnect_timeout, store_and_publish,
  run,
}

abbrev pub is_flush : Call → Bool
is_flush flush = true
is_flush _ = false

abbrev pub is_purge : Call → Bool
is_purge purge = true
is_purge _ = false

abbrev pub is_publish : Call → Bool
is_publish publish = true
is_publish _ = false

abbrev pub is_delete_room : Call → Bool
is_delete_room delete_room = true
is_delete_room _ = false

abbrev pub is_shutdown : Call → Bool
is_shutdown (shutdown c) = true
is_shutdown _ = false

-- how many calls pass the test
abbrev pub count : (Call → Bool) → List Call → ℕ
count p [] = 0
count p (c ∷ cs) = let rest = count p cs in if p c then 1 + rest else rest

count-append : (p : Call → Bool) (xs ys : List Call) → count p (xs ++ ys) ≡ count p xs + count p ys
count-append p [] ys = omega arith
count-append p (x ∷ xs) ys = ground (arith, count-append p xs ys)

-- the answer of an optional guard, and of the flush
abbrev pub permits : EndSequence → Option Bool → Bool
permits e answer = not e.has_guard || elim answer [ none ↦ true | some b ↦ b ]

-- the transcript is stored: it is to be flushed, this job owns the session, and the flush succeeds
abbrev pub is_stored : EndSequence → Answers → Bool
is_stored e a =
    e.has_flush && permits e a.guard_of_flush && elim a.flushed [ none ↦ false | some b ↦ b ]

-- the attempts made from `attempt` on: up to the first that succeeds
abbrev pub attempts : (ℕ → Bool) → ℕ → ℕ → ℕ
attempts deleted attempt zero = 0
attempts deleted attempt (suc left) =
    let rest = attempts deleted (attempt + 1) left in if deleted attempt then 1 else 1 + rest

delete_from-attempts :
    (deleted : ℕ → Bool) (attempt left : ℕ)
    → count is_delete_room (delete_from deleted attempt left) ≡ attempts deleted attempt left
unfolding delete_from
delete_from-attempts deleted attempt zero = refl
delete_from-attempts deleted attempt (suc zero) = ground arith
delete_from-attempts deleted attempt (suc (suc left)) =
    ground (arith, delete_from-attempts deleted (attempt + 1) (suc left))

delete_from-only :
    (p : Call → Bool) (deleted : ℕ → Bool) (attempt left : ℕ)
    → p delete_room ≡ false
    → p backoff ≡ false
    → count p (delete_from deleted attempt left) ≡ 0
unfolding delete_from
delete_from-only p deleted attempt zero a b = refl
delete_from-only p deleted attempt (suc zero) a b = ground arith
delete_from-only p deleted attempt (suc (suc left)) a b =
    ground (arith, delete_from-only p deleted (attempt + 1) (suc left) a b)

module _ (e : EndSequence) (a : Answers) where
  pub delete_the_room-only :
      (p : Call → Bool)
      → p delete_room ≡ false
      → p backoff ≡ false
      → p guard ≡ false
      → count p (delete_the_room e a) ≡ 0
  unfolding delete_the_room allowed
  delete_the_room-only p x y z =
      ground (arith, delete_from-only p a.deleted 1 e.room_delete_attempts x y)

  pub delete_the_room-attempts : count is_delete_room (delete_the_room e a) ≡ (
      if e.has_delete_room && permits e a.guard_of_room
      then attempts a.deleted 1 e.room_delete_attempts
      else 0)
  unfolding delete_the_room allowed
  delete_the_room-attempts = ground (arith, delete_from-attempts a.deleted 1 e.room_delete_attempts)

  pub finalize_log-only : (p : Call → Bool) → p drain ≡ false → count p (finalize_log e a).calls ≡ 0
  unfolding finalize_log
  finalize_log-only p x = ground arith

  finalize_log-quiet : (finalize_log e a).raised ≡ false
  unfolding finalize_log
  finalize_log-quiet = ground arith

  store_and_publish-quiet : (c : EndCause) → (store_and_publish e a c).raised ≡ false
  unfolding store_and_publish flush_log purge_redis publish_report_request allowed
  store_and_publish-quiet c = ground arith

  -- nothing is skipped, and no exception leaves the sequence
  pub run-quiet :
      (c : EndCause)
      → run e a c
        ≡ quiet (
            (finalize_log e a).calls
            ++ ((store_and_publish e a c).calls ++ (delete_the_room e a ++ shutdown c ∷ [])))
  unfolding run
  run-quiet c =
      both (finalize_log e a) (store_and_publish e a c) _ finalize_log-quiet
        (store_and_publish-quiet c)
    where
      both :
          (t u : Trace) (cs : List Call)
          → t.raised ≡ false
          → u.raised ≡ false
          → and_then t (and_then u (quiet cs)) ≡ quiet (t.calls ++ (u.calls ++ cs))
      both t u cs x y = rw (x, y) refl

  pub count-run :
      (p : Call → Bool) (c : EndCause)
      → count p (run e a c).calls
        ≡ count p (finalize_log e a).calls
          + (count p (store_and_publish e a c).calls
              + (count p (delete_the_room e a) + count p (shutdown c ∷ [])))
  count-run p c =
      ap (λ t. count p t.calls) (run-quiet c)
      ∙ count-append p (finalize_log e a).calls _
      ∙ (omega (
        arith,
        count-append p (store_and_publish e a c).calls (delete_the_room e a ++ shutdown c ∷ []),
        count-append p (delete_the_room e a) (shutdown c ∷ []),
      ))

  pub count-store :
      (p : Call → Bool) (c : EndCause)
      → p guard ≡ false
      → count p (store_and_publish e a c).calls ≡ (
          if is_reconnect_timeout c
          then 0
          else (if e.has_flush && permits e a.guard_of_flush && p flush then 1 else 0)
            + (if is_stored e a
                then (if e.has_purge && permits e a.guard_of_purge && p purge then 1 else 0)
                  + (if e.has_publish && p publish then 1 else 0)
                else 0))
  unfolding store_and_publish flush_log purge_redis publish_report_request allowed
  count-store p c g = ground arith
