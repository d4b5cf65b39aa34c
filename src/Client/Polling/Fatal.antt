-- ===== src/Client/Polling/Fatal.antt =====
-- The transport after an unrecoverable error.
use js_sdks.Common.{
  ℕ, ◌+◌, ◌≡◌, refl, sym, subst, Bool, true, false, not, Option, none, some, List, [], ◌∷◌, ◌++◌,
  ◌==◌, if_both, if_true, arith, suc,
}
use js_sdks.Client.Polling.{
  Response, set_of, no_news, status, not_allowed, failed, Output, requested, received,
  connection_error, Transport, is_status_fatal, put, end_current_connection, close,
  schedule_polling_interval, fetch_configs, fail, fetch_ended, schedule_after, connect,
  session_known, first_fetch_ended, fetch_for, tick, Step, connects, closes, ticks, knows_session,
  ends_first, ends_poll, step, run,
}

module _ {C S : Type 0} where
  -- The number of requests that were sent.
  unfoldable pub requests : List (Output C S) → ℕ
  requests [] = 0
  requests (requested context since ∷ outputs) = suc (requests outputs)
  requests (received set ∷ outputs) = requests outputs
  requests (connection_error ∷ outputs) = requests outputs

  requests-append : (xs ys : List (Output C S)) → requests (xs ++ ys) ≡ requests xs + requests ys
  unfolding requests
  requests-append [] ys = omega arith
  requests-append (requested context since ∷ xs) ys = omega (arith, requests-append xs ys)
  requests-append (received set ∷ xs) ys = requests-append xs ys
  requests-append (connection_error ∷ xs) ys = requests-append xs ys

  -- The transport has had its error, and has sent as many requests as that.
  abbrev pub IsStopped : ℕ → Transport C S → Type 0
  IsStopped n t = (t.fatal_error ≡ true) × (requests t.outputs ≡ n)

  put_error-IsStopped :
      (n : ℕ) (t : Transport C S) → IsStopped n t → IsStopped n (put connection_error t)
  unfolding requests
  put_error-IsStopped n t h =
      (h.0, omega (arith, h.1, requests-append t.outputs (connection_error ∷ [])))

  fail-IsStopped :
      (n : ℕ) (is_fatal : Bool) (t : Transport C S) → IsStopped n t → IsStopped n (fail is_fatal t)
  unfolding close end_current_connection
  fail-IsStopped n true t h =
      put_error-IsStopped n (close (record t { fatal_error = true })) (refl, h.1)
  fail-IsStopped n false t h = if_both (IsStopped n) t.fatal_error _ t (put_error-IsStopped n t h) h

  fetch_configs-IsStopped :
      (n : ℕ) (context : C) (t : Transport C S)
      → IsStopped n t
      → IsStopped n (fetch_configs context t)
  unfolding fetch_configs
  fetch_configs-IsStopped n context t h =
      subst (IsStopped n)
        (sym (if_true t.fatal_error t (put (requested context t.last_update) t) h.0)) h

  fetch_ended-IsStopped :
      (n : ℕ) (response : Response S) (t : Transport C S)
      → IsStopped n t
      → IsStopped n (fetch_ended response t)
  unfolding fetch_ended requests
  fetch_ended-IsStopped n (set_of set timestamp) t h =
      (h.0, omega (arith, h.1, requests-append t.outputs (received set ∷ [])))
  fetch_ended-IsStopped n no_news t h = h
  fetch_ended-IsStopped n (status code) t h = fail-IsStopped n (is_status_fatal code) t h
  fetch_ended-IsStopped n not_allowed t h = fail-IsStopped n true t h
  fetch_ended-IsStopped n failed t h = fail-IsStopped n false t h

  schedule_after-stopped :
      (context : C) (t : Transport C S) → t.fatal_error ≡ true → schedule_after context t ≡ t
  unfolding schedule_after
  schedule_after-stopped context t h =
      if_true t.fatal_error t (schedule_polling_interval context t) h

  fetch_for-IsStopped :
      (n : ℕ) (timer : Option C) (t : Transport C S)
      → IsStopped n t
      → IsStopped n (fetch_for timer t)
  fetch_for-IsStopped n none t h = h
  fetch_for-IsStopped n (some context) t h = fetch_configs-IsStopped n context t h

  step-IsStopped :
      (n : ℕ) (s : Step C S) (t : Transport C S) → IsStopped n t → IsStopped n (step s t)
  unfolding step connect close tick session_known first_fetch_ended end_current_connection
  step-IsStopped n connects t h = h
  step-IsStopped n closes t h = h
  step-IsStopped n ticks t h = fetch_for-IsStopped n t.timer t h
  step-IsStopped n (knows_session generation context) t h =
      if_both (IsStopped n) (not (generation == t.generation)) t _ h
        (fetch_configs-IsStopped n context t h)
  step-IsStopped n (ends_first context response) t h =
      let ended = fetch_ended-IsStopped n response t h in
      subst (IsStopped n) (sym (schedule_after-stopped context (fetch_ended response t) ended.0))
        ended
  step-IsStopped n (ends_poll response) t h = fetch_ended-IsStopped n response t h

  run-IsStopped :
      (n : ℕ) (steps : List (Step C S)) (t : Transport C S)
      → IsStopped n t
      → IsStopped n (run steps t)
  unfolding run
  run-IsStopped n [] t h = h
  run-IsStopped n (s ∷ steps) t h = run-IsStopped n steps (step s t) (step-IsStopped n s t h)

-- The answers that an unrecoverable error is: a status that is fatal, or a request not allowed.
abbrev pub is_fatal_response : {S : Type 0} → Response S → Bool
is_fatal_response (status code) = is_status_fatal code
is_fatal_response not_allowed = true
is_fatal_response response = false

module _ {C S : Type 0} where
  fatal-IsStopped :
      (response : Response S) (t : Transport C S)
      → is_fatal_response response ≡ true
      → IsStopped (requests t.outputs) (fetch_ended response t)
  unfolding fetch_ended requests close end_current_connection
  fatal-IsStopped (set_of set timestamp) t h = cc
  fatal-IsStopped no_news t h = cc
  fatal-IsStopped (status code) t h =
      subst (λ b. IsStopped (requests t.outputs) (fail b t)) (sym h)
        (refl, omega (arith, requests-append t.outputs (connection_error ∷ [])))
  fatal-IsStopped not_allowed t h =
      (refl, omega (arith, requests-append t.outputs (connection_error ∷ [])))
  fatal-IsStopped failed t h = cc

  -- After a request ends with a fatal status or is not allowed, no request is ever sent again, whatever
  -- steps follow: new connections, ticks of timers and requests that end later among them.
  pub requests_after_fatal :
      (response : Response S) (steps : List (Step C S)) (t : Transport C S)
      → is_fatal_response response ≡ true
      → requests (run steps (fetch_ended response t)).outputs ≡ requests t.outputs
  requests_after_fatal response steps t h =
      (run-IsStopped (requests t.outputs) steps (fetch_ended response t)
        (fatal-IsStopped response t h)).1
