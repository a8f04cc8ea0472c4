-- ===== src/Interview/EndSequence/Promises.antt =====
-- The promises of agent/src/interview/end_sequence.py: the steps, their order and the exit.
use kkori_ai.Prelude.{
  ℕ, zero, suc, ◌+◌, ◌≤◌, ◌≡◌, refl, Bool, true, false, some, List, [], ◌∷◌, ◌++◌, not, ◌&&◌,
  if◌then◌else◌, last, last-append, append_assoc, arith, sym, ap, ◌∙◌,
}
use kkori_ai.Interview.EndState.{EndCause}
use kkori_ai.Interview.EndSequence.{
  EndSequence, Answers, Call, flush, purge, publish, shutdown, allowed, finalize_log, flush_log,
  purge_redis, publish_report_request, delete_the_room, is_reconnect_timeout, store_and_publish,
  run,
}
use kkori_ai.Interview.EndSequence.Order.{
  is_purge, is_publish, is_delete_room, is_shutdown, count, permits, is_stored, attempts,
  delete_the_room-only, delete_the_room-attempts, finalize_log-only, count-run, count-store,
  run-quiet,
}

attempts_bounded : (deleted : ℕ → Bool) (n left : ℕ) → attempts deleted n left ≤ left
attempts_bounded deleted n zero = omega arith
attempts_bounded deleted n (suc left) = ground (arith, attempts_bounded deleted (n + 1) left)

-- whether no copy is deleted and no report requested before a flush was made
abbrev pub flushes_first : List Call → Bool
flushes_first [] = true
flushes_first (flush ∷ cs) = true
flushes_first (purge ∷ cs) = false
flushes_first (publish ∷ cs) = false
flushes_first (c ∷ cs) = flushes_first cs

flushes_first-append :
    (xs ys : List Call)
    → flushes_first xs ≡ true
    → flushes_first ys ≡ true
    → flushes_first (xs ++ ys) ≡ true
flushes_first-append [] ys a b = b
flushes_first-append (c ∷ xs) ys a b = ground (arith, flushes_first-append xs ys)

-- a list without the two calls
flushes_first-harmless :
    (cs : List Call) → count is_purge cs ≡ 0 → count is_publish cs ≡ 0 → flushes_first cs ≡ true
flushes_first-harmless [] x y = refl
flushes_first-harmless (c ∷ cs) x y = ground (arith, flushes_first-harmless cs)

module _ (e : EndSequence) (a : Answers) (c : EndCause) where
  run-last :
      (run e a c).calls
      ≡ ((finalize_log e a).calls ++ ((store_and_publish e a c).calls ++ delete_the_room e a))
        ++ shutdown c ∷ []
  run-last =
      ap (λ t. t.calls) (run-quiet e a c)
      ∙ sym (
          append_assoc (finalize_log e a).calls
            ((store_and_publish e a c).calls ++ delete_the_room e a) (shutdown c ∷ [])
          ∙ ap (λ x. (finalize_log e a).calls ++ x)
              (append_assoc (store_and_publish e a c).calls (delete_the_room e a)
                (shutdown c ∷ [])))

  finalize_log-flushes_first : flushes_first (finalize_log e a).calls ≡ true
  unfolding finalize_log
  finalize_log-flushes_first = ground arith

  store_and_publish-flushes_first : flushes_first (store_and_publish e a c).calls ≡ true
  unfolding store_and_publish flush_log purge_redis publish_report_request allowed
  store_and_publish-flushes_first = ground arith

  -- Whatever call fails, runs out of time or is missing, no exception leaves the sequence, and the
  -- job is shut down exactly once, with the cause, and as its last call.
  pub run-shuts_down :
      ((run e a c).raised ≡ false)
      × (count is_shutdown (run e a c).calls ≡ 1)
      × (last (run e a c).calls ≡ some (shutdown c))
  run-shuts_down = (
    ap (λ t. t.raised) (run-quiet e a c),
    ground (
      arith,
      count-run e a is_shutdown c,
      finalize_log-only e a is_shutdown refl,
      count-store e a is_shutdown c refl,
      delete_the_room-only e a is_shutdown refl refl refl,
    ),
    ap last run-last
        ∙ last-append
            ((finalize_log e a).calls ++ ((store_and_publish e a c).calls ++ delete_the_room e a))
            (shutdown c),
  )

  -- The Redis copy is deleted exactly if the cause is no reconnect timeout, the transcript was
  -- stored, there is a copy to delete and the guard permits it; a report is requested exactly if
  -- the cause is no reconnect timeout, the transcript was stored and there is a queue. Neither
  -- happens twice.
  pub run-publishes :
      (count is_purge (run e a c).calls ≡ (
        if not (is_reconnect_timeout c)
          && is_stored e a
          && e.has_purge
          && permits e a.guard_of_purge
        then 1
        else 0))
      × (count is_publish (run e a c).calls
          ≡ (if not (is_reconnect_timeout c) && is_stored e a && e.has_publish then 1 else 0))
  run-publishes = (
    ground (
      arith,
      count-run e a is_purge c,
      finalize_log-only e a is_purge refl,
      count-store e a is_purge c refl,
      delete_the_room-only e a is_purge refl refl refl,
    ),
    ground (
      arith,
      count-run e a is_publish c,
      finalize_log-only e a is_publish refl,
      count-store e a is_publish c refl,
      delete_the_room-only e a is_publish refl refl refl,
    ),
  )

  -- The deletion of the room is tried until it succeeds and at most as often as configured, if
  -- there is a room and the guard permits it, and else never.
  pub run-deletes :
      (count is_delete_room (run e a c).calls ≡ (
        if e.has_delete_room && permits e a.guard_of_room
        then attempts a.deleted 1 e.room_delete_attempts
        else 0))
      × (count is_delete_room (run e a c).calls ≤ e.room_delete_attempts)
  run-deletes =
      let counted = count is_delete_room (run e a c).calls ≡ (
        if e.has_delete_room && permits e a.guard_of_room
        then attempts a.deleted 1 e.room_delete_attempts
        else 0) in
      let exactly : counted = ground (
        arith,
        count-run e a is_delete_room c,
        finalize_log-only e a is_delete_room refl,
        count-store e a is_delete_room c refl,
        delete_the_room-attempts e a,
      ) in
      (exactly, ground (arith, exactly, attempts_bounded a.deleted 1 e.room_delete_attempts))

  -- No copy is deleted and no report is requested before the flush.
  pub run-flushes_first : flushes_first (run e a c).calls ≡ true
  run-flushes_first =
      ap (λ t. flushes_first t.calls) (run-quiet e a c)
      ∙ flushes_first-append (finalize_log e a).calls _ finalize_log-flushes_first (
          flushes_first-append (store_and_publish e a c).calls _ store_and_publish-flushes_first (
            flushes_first-append (delete_the_room e a) _
              (flushes_first-harmless (delete_the_room e a)
                (delete_the_room-only e a is_purge refl refl refl)
                (delete_the_room-only e a is_publish refl refl refl))
              refl))
